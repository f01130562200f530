-- ===== src/Satman/Subkernel/Pass.antt =====
-- src/satman/src/subkernel.rs, pass_message_to_kernel: each value of a message goes where the kernel says.
use madmax_artiq_zynq.Base.{
  ℕ, zero, suc, Bool, true, false, Option, none, some, List, [], ◌++◌, ◌==◌, if◌then◌else◌,
}
use madmax_artiq_zynq.Outcome.{ok, err, panic}
use madmax_artiq_zynq.Io.Proto.{ByteOrder, Writer}
use madmax_artiq_zynq.Rpc.Recv.{Machine, io, out_of_fuel, recv_return}
use madmax_artiq_zynq.Satman.Sliceable.{Sliceable}
use madmax_artiq_zynq.Satman.Messages
use madmax_artiq_zynq.Satman.Subkernel.{
  Control, Exception, StackPointerBacktrace, Error, no_message, unexpected, subkernel_io_error,
  rpc_recv_request,
}
use madmax_artiq_zynq.Satman.Subkernel.State.{kernel_stop}
use madmax_artiq_zynq.Satman.Subkernel.Channel.{Slots, recv_w_timeout, alloc, send_reply}
use madmax_artiq_zynq.Satman.Subkernel.Step.{Parts, Step, ◌>>=◌, ◌>>◌, pure, raise, update}

abbrev pub set_control : Control → Parts → Parts
set_control control p = record p { manager = record p.manager { control = control } }

-- The receiver of a value before it starts.
abbrev pub starting : Control → (message : List ℕ) → Machine Slots
starting control message = record {
  reader = message;
  heap = record { control = control; exception = none; unexpected = false };
  stores = [];
}

module _ ⦃e : ByteOrder⦄
    (report : List (Option Exception) → List StackPointerBacktrace → List (ℕ × ℕ) → Writer)
    (polls : ℕ) where
  -- The place for the next value.
  unfoldable pub wait_slot : Step ℕ
  unfolding recv_w_timeout
  wait_slot p =
      let (received, control) = recv_w_timeout polls p.manager.control in
      elim received [
        | none ↦ raise no_message (set_control control p)
        | some message ↦ (elim message [
          | rpc_recv_request slot ↦ pure slot (set_control control p)
          | _ ↦ raise unexpected (set_control control p)
        ])
      ]

  -- After a value: the kernel may have raised an exception, or not have given a place.
  unfoldable pub checked :
      Option Sliceable → (unexpected : Bool) → List ℕ × List ℕ → Step (List ℕ × List ℕ)
  unfolding kernel_stop
  checked (some exception) failed rest = do
    update kernel_stop
    raise (Error.kernel_exception exception)
  checked none true rest = do update kernel_stop; raise unexpected
  checked none false rest = pure rest

  unfoldable pub after_value : (tags : List ℕ) → Machine Slots → Step (List ℕ × List ℕ)
  unfolding checked
  after_value tags m = do
    update (λ manager. record manager {
      control = m.heap.control;
      memory = m.stores ++ manager.memory;
    })
    checked m.heap.exception m.heap.unexpected (tags, m.reader)

  -- The tags and the bytes of the values that follow.
  unfoldable pub receive_value : (slot : ℕ) (tags message : List ℕ) → Step (List ℕ × List ℕ)
  unfolding recv_return alloc after_value
  receive_value slot tags message p =
      elim (recv_return (alloc report polls) tags slot (starting p.manager.control message)) [
        | ok (rest, m) ↦ after_value rest m p
        | err error ↦ (elim error [
          | io e m ↦ raise subkernel_io_error (record p {
            manager = record p.manager {
              control = m.heap.control;
              memory = m.stores ++ p.manager.memory;
            };
          })
          | out_of_fuel ↦ panic
        ])
        | panic ↦ panic
      ]

  -- So many values are left.
  unfoldable pub pass_values : (count : ℕ) (tags message : List ℕ) → Step (Unit {0})
  unfolding wait_slot receive_value
  pass_values zero tags message = pure tt
  pass_values (suc count) tags message = do
    slot ← wait_slot
    (rest, message') ← receive_value slot tags message
    update (λ m. record m { control = send_reply 0 m.control })
    pass_values count rest message'

  -- The count is a byte, and is decremented before it is tested.
  unfoldable pub pass_message_to_kernel : Messages.Message → (tags : List ℕ) → Step (Unit {0})
  unfolding pass_values
  pass_message_to_kernel message tags =
      pass_values (if message.count == 0 then 256 else message.count) tags message.content
