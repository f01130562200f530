-- ===== src/Satman/Subkernel/Keeps.antt =====
-- src/satman/src/subkernel.rs: the states that a session can be in, and the steps that keep to them.
use madmax_artiq_zynq.Base.{ℕ, Bool, true, false, Option, none, some, List, [], ◌∷◌, if◌then◌else◌}
use madmax_artiq_zynq.Outcome.{Outcome, ok, err, panic, Ensures, Ensures-bind, Ensures-any}
use madmax_artiq_zynq.Outcome
use madmax_artiq_zynq.Drtioaux.Packet.{Packet}
use madmax_artiq_zynq.Drtioaux.RoutingTable.{RoutingTable, Result}
use madmax_artiq_zynq.Satman.Router.{route}
use madmax_artiq_zynq.Satman.Subkernel.{
  Manager, Session, KernelState, Error, no_message, Message, loaded, subkernel_retrieving_exception,
}
use madmax_artiq_zynq.Satman.Subkernel.Step.{
  Parts, Answer, answer, fail, Step, ◌>>=◌, go_on, pure, raise, update, ask, send_packet, try_recv,
}

-- A session is never in the state `loaded`; while an exception is retrieved, there is a place for it.
abbrev pub IsConsistent : KernelState → Option (List ℕ) → Type 0
IsConsistent loaded external = ⊥
IsConsistent (subkernel_retrieving_exception destination) none = ⊥
IsConsistent (subkernel_retrieving_exception destination) (some so_far) = Unit {0}
IsConsistent _ external = Unit {0}

abbrev pub IsSound : Session → Type 0
IsSound s = IsConsistent s.kernel_state s.external_exception

-- What a step ends with has a sound session.
abbrev pub EndsSound : {A : Type 0} → Answer A × Parts → Type 0
EndsSound (reply, p) = IsSound p.manager.session

-- Whatever the step ends with, the session is sound if it was.
unfoldable pub Keeps : {A : Type 0} → Step A → Type 0
Keeps {A} s = (p : Parts) → IsSound p.manager.session → Ensures (EndsSound {A = A}) (s p)

go_on-Keeps :
    {A B : Type 0} (k : A → Step B)
    → ((a : A) → Keeps (k a))
    → (r : Answer A × Parts) → EndsSound r
    → Ensures (EndsSound {A = B}) (go_on k r)
unfolding Keeps ◌>>=◌ pure raise update ask send_packet
go_on-Keeps k after (answer a, p) sound = after a p sound
go_on-Keeps k after (fail e, p) sound = sound

pub Keeps-bind :
    {A B : Type 0} (s : Step A) (k : A → Step B)
    → Keeps s
    → ((a : A) → Keeps (k a))
    → Keeps (s >>= k)
unfolding Keeps ◌>>=◌ pure raise update ask send_packet
Keeps-bind s k keeps after p sound =
    Ensures-bind EndsSound EndsSound (s p) (go_on k) (keeps p sound) (go_on-Keeps k after)

pub Keeps-pure : {A : Type 0} (a : A) → Keeps (pure a)
unfolding Keeps ◌>>=◌ pure raise update ask send_packet
Keeps-pure a p sound = sound

pub Keeps-raise : (A : Type 0) (e : Error) → Keeps (raise {A = A} e)
unfolding Keeps ◌>>=◌ pure raise update ask send_packet
Keeps-raise A e p sound = sound

pub Keeps-ask : {A : Type 0} (f : Manager → A) → Keeps (ask f)
unfolding Keeps ◌>>=◌ pure raise update ask send_packet
Keeps-ask f p sound = sound

pub Keeps-update :
    (f : Manager → Manager)
    → ((m : Manager) → IsSound m.session → IsSound (f m).session)
    → Keeps (update f)
unfolding Keeps ◌>>=◌ pure raise update ask send_packet
Keeps-update f keeps p sound = keeps p.manager sound

pub Keeps-try_recv : Keeps try_recv
unfolding Keeps try_recv ◌>>=◌ pure raise update ask send_packet
Keeps-try_recv p sound = by_rx p.manager.control.rx
  where
    by_rx :
        (rx : List Message)
        → Ensures {E = ⊥} (EndsSound {A = Message}) (elim rx [
          | [] ↦ ok (fail no_message, p)
          | message ∷ rx' ↦ ok (
            answer message,
            record p {
              manager = record p.manager { control = record p.manager.control { rx = rx' } };
            },
          )
        ])
    by_rx [] = sound
    by_rx (message ∷ rx') = sound

-- A step that changes the router or the DMA manager only.
pub Keeps-outcome :
    {A B : Type 0} (o : Parts → Result A) (k : A → Step B)
    → ((a : A) → Keeps (k a))
    → Keeps (λ p. Outcome.◌>>=◌ (o p) (λ a. k a p))
unfolding Keeps ◌>>=◌ pure raise update ask send_packet
Keeps-outcome o k keeps p sound =
    Ensures-bind (λ _. Unit {0}) EndsSound (o p) (λ a. k a p) (Ensures-any (o p))
      λ a _. keeps a p sound

pub Keeps-send_packet :
    (n : ℕ) (table : RoutingTable) (rank self_destination : ℕ) (packet : Packet)
    → Keeps (send_packet n table rank self_destination packet)
unfolding Keeps ◌>>=◌ pure raise update ask send_packet
Keeps-send_packet n table rank self_destination packet =
    Keeps-outcome (λ p. route n packet table rank self_destination p.router)
      (λ router p. ok (answer tt, record p { router = router })) λ router p sound. sound

pub Keeps-if :
    {A : Type 0} (c : Bool) (s t : Step A) → Keeps s → Keeps t → Keeps (if c then s else t)
Keeps-if true s t h k = h
Keeps-if false s t h k = k

pub Keeps-panic : (A : Type 0) → Keeps {A = A} (λ p. panic)
unfolding Keeps
Keeps-panic A p sound = tt
