-- ===== src/Satman/Subkernel/Sound.antt =====
-- src/satman/src/subkernel.rs: every step of the manager keeps the session sound.
pub mod Waits
pub mod Turns
pub mod Calls
use madmax_artiq_zynq.Base.{
  ℕ, zero, suc, ◌+◌, ◌%◌, ◌^◌, ◌≡◌, refl, Bool, true, false, Option, none, some, List, [], ◌∷◌,
  ◌++◌, ◌==◌, ltb, if◌then◌else◌,
}
use madmax_artiq_zynq.Outcome.{Outcome, ok, err, panic, Ensures, Ensures-bind, Ensures-any}
use madmax_artiq_zynq.Outcome
use madmax_artiq_zynq.Io.Proto.{ByteOrder, Writer}
use madmax_artiq_zynq.Drtioaux.RoutingTable.{RoutingTable, Result}
use madmax_artiq_zynq.Rpc.Recv.{Machine, RecvError, io, out_of_fuel, recv_return}
use madmax_artiq_zynq.Satman.Sliceable.{Sliceable}
use madmax_artiq_zynq.Satman.Messages
use madmax_artiq_zynq.Satman.Subkernel.{
  Manager, Session, Control, Exception, StackPointerBacktrace, KernelState, Error, Message,
  rpc_recv_request, no_message, unexpected, subkernel_io_error,
}
use madmax_artiq_zynq.Satman.Subkernel.State.{set_state, send, kernel_stop}
use madmax_artiq_zynq.Satman.Subkernel.Channel.{Slots, recv_w_timeout, alloc, send_reply}
use madmax_artiq_zynq.Satman.Subkernel.Step.{
  Parts, Answer, answer, fail, Step, ◌>>=◌, ◌>>◌, pure, raise, update, ask, send_packet, try_recv,
}
use madmax_artiq_zynq.Satman.Subkernel.Pass.{
  set_control, wait_slot, checked, after_value, receive_value, starting, pass_values,
  pass_message_to_kernel,
}
use madmax_artiq_zynq.Satman.Subkernel.Keeps.{
  IsConsistent, IsSound, Keeps, EndsSound, Keeps-bind, Keeps-pure, Keeps-raise, Keeps-ask,
  Keeps-update, Keeps-try_recv, Keeps-outcome, Keeps-send_packet, Keeps-if,
}

-- A state that needs nothing is entered.
pub Keeps-enter :
    (state : KernelState)
    → ((external : Option (List ℕ)) → IsConsistent state external)
    → Keeps (update (set_state state))
Keeps-enter state always =
    Keeps-update (set_state state) λ m sound. always m.session.external_exception

pub Keeps-tell : (message : Message) → Keeps (update (send message))
Keeps-tell message = Keeps-update (send message) λ m sound. sound

pub Keeps-stop : Keeps (update kernel_stop)
unfolding kernel_stop
Keeps-stop = Keeps-update kernel_stop λ m sound. tt

module _ ⦃e : ByteOrder⦄
    (report : List (Option Exception) → List StackPointerBacktrace → List (ℕ × ℕ) → Writer)
    (polls : ℕ) where
  Keeps-wait_slot : Keeps (wait_slot report polls)
  unfolding Keeps wait_slot pure raise
  Keeps-wait_slot p sound = by_reply (recv_w_timeout polls p.manager.control)
    where
      by_message :
          (message : Message) (control : Control)
          → Ensures {E = ⊥} (EndsSound {A = ℕ}) (elim message [
            | rpc_recv_request slot ↦ pure slot (set_control control p)
            | _ ↦ raise unexpected (set_control control p)
          ])
      by_message (rpc_recv_request slot) control = sound
      by_message _ control = sound

      by_reply :
          (r : Option Message × Control)
          → Ensures {E = ⊥} (EndsSound {A = ℕ}) (elim r.0 [
            | none ↦ raise no_message (set_control r.1 p)
            | some message ↦ (elim message [
              | rpc_recv_request slot ↦ pure slot (set_control r.1 p)
              | _ ↦ raise unexpected (set_control r.1 p)
            ])
          ])
      by_reply (none, control) = sound
      by_reply (some message, control) = by_message message control

  Keeps-checked :
      (exception : Option Sliceable) (failed : Bool) (rest : List ℕ × List ℕ)
      → Keeps (checked report polls exception failed rest)
  unfolding checked
  Keeps-checked (some exception) failed rest =
      Keeps-bind _ _ Keeps-stop λ _. Keeps-raise _ (Error.kernel_exception exception)
  Keeps-checked none true rest = Keeps-bind _ _ Keeps-stop λ _. Keeps-raise _ unexpected
  Keeps-checked none false rest = Keeps-pure rest

  Keeps-after_value : (tags : List ℕ) (m : Machine Slots) → Keeps (after_value report polls tags m)
  unfolding after_value
  Keeps-after_value tags m =
      Keeps-bind _ _ (Keeps-update _ λ manager sound. sound)
        λ _. Keeps-checked m.heap.exception m.heap.unexpected (tags, m.reader)

  Keeps-receive_value :
      (slot : ℕ) (tags message : List ℕ) → Keeps (receive_value report polls slot tags message)
  unfolding Keeps receive_value raise
  Keeps-receive_value slot tags message p sound =
      by_result (recv_return (alloc report polls) tags slot (starting p.manager.control message))
    where
      by_result :
          (r : Outcome (RecvError Slots) (List ℕ × Machine Slots))
          → Ensures {E = ⊥} (EndsSound {A = List ℕ × List ℕ}) (elim r [
            | ok (rest, m) ↦ after_value report polls rest m p
            | err error ↦ (elim error [
              | io e m ↦ raise subkernel_io_error (record p {
                manager = record p.manager {
                  control = m.heap.control;
                  memory = m.stores ++ p.manager.memory;
                };
              })
              | out_of_fuel ↦ panic
            ])
            | panic ↦ panic
          ])
      by_result (ok (rest, m)) = Keeps-after_value rest m p sound
      by_result (err (io e m)) = sound
      by_result (err out_of_fuel) = tt
      by_result panic = tt

  Keeps-pass_values :
      (count : ℕ) (tags message : List ℕ) → Keeps (pass_values report polls count tags message)
  unfolding pass_values
  Keeps-pass_values zero tags message = Keeps-pure tt
  Keeps-pass_values (suc count) tags message = Keeps-bind _ _ Keeps-wait_slot λ slot.
      Keeps-bind _ _ (Keeps-receive_value slot tags message) λ (rest, message').
        Keeps-bind _ _ (Keeps-update _ λ m sound. sound) λ _. Keeps-pass_values count rest message'

  pub Keeps-pass_message :
      (message : Messages.Message) (tags : List ℕ)
      → Keeps (pass_message_to_kernel report polls message tags)
  unfolding pass_message_to_kernel
  Keeps-pass_message message tags = Keeps-pass_values _ tags message.content
