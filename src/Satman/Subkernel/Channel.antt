-- ===== src/Satman/Subkernel/Channel.antt =====
-- src/satman/src/subkernel.rs: recv_w_timeout, and the values of a message passed to the other core,
-- which gives a place for each. src/satman/src/rpc_async.rs receives a value as rpc.rs of ksupport does.
-- `polls` is how often the channel is tried until the timeout of 100 ms.
use madmax_artiq_zynq.Base.{
  ℕ, zero, suc, Bool, true, Option, none, some, List, [], ◌∷◌, ◌==◌, if◌then◌else◌,
}
use madmax_artiq_zynq.Outcome.{ok, err, panic, ◌>>=◌}
use madmax_artiq_zynq.Io.Proto.{Writer}
use madmax_artiq_zynq.Drtioaux.RoutingTable.{Result}
use madmax_artiq_zynq.Satman.Sliceable.{Sliceable}
use madmax_artiq_zynq.Satman.Sliceable
use madmax_artiq_zynq.Satman.Subkernel.{
  Exception, StackPointerBacktrace, Control, Message, kernel_exception, rpc_recv_request,
  rpc_recv_reply,
}

-- A turn of the executor: what has arrived since.
unfoldable pub next_turn : Control → Control
next_turn c = elim c.turns [ [] ↦ c | arrivals ∷ turns ↦ record c { rx = arrivals; turns = turns } ]

-- Nothing, if the time is out.
unfoldable pub recv_w_timeout : (polls : ℕ) → Control → Option Message × Control
unfolding next_turn
recv_w_timeout zero c = (none, c)
recv_w_timeout (suc polls) c =
    let later = recv_w_timeout polls (next_turn c) in
    elim c.rx [ message ∷ rx ↦ (some message, record c { rx = rx }) | [] ↦ later ]

-- The channel, and the two variables that the closure sets.
pub record Slots : Type 0 where
  pub control : Control
  pub exception : Option Sliceable
  pub unexpected : Bool

-- The bytes that a writer has handed on: a vector takes them all.
unfoldable pub written : Writer → Result (List ℕ)
written (ok bytes) = ok bytes
written (err e) = ok []
written panic = panic

abbrev pub send_reply : (size : ℕ) → Control → Control
send_reply size c = record c { tx = rpc_recv_reply size ∷ c.tx }

module _ (report : List (Option Exception) → List StackPointerBacktrace → List (ℕ × ℕ) → Writer)
    (polls : ℕ) where
  -- The place, and the variables, by what was received.
  unfoldable pub slot_of : Option Message → Slots → Result (ℕ × Slots)
  unfolding written
  slot_of none slots = ok (0, record slots { unexpected = true })
  slot_of (some (rpc_recv_request slot)) slots = ok (slot, slots)
  slot_of (some (kernel_exception exceptions stack_pointers backtrace)) slots = do
    raw ← written (report exceptions stack_pointers backtrace)
    ok (0, record slots { exception = some (Sliceable.new 0 raw) })
  slot_of (some _) slots = ok (0, record slots { unexpected = true })

  -- The closure that allocates.
  unfoldable pub alloc : Slots → (size : ℕ) → Result (ℕ × Slots)
  unfolding slot_of recv_w_timeout
  alloc slots size =
      if size == 0
      then ok (0, slots)
      else (let (received, control) = recv_w_timeout polls (send_reply size slots.control) in
          slot_of received (record slots { control = control }))
