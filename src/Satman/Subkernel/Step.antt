-- ===== src/Satman/Subkernel/Step.antt =====
-- src/satman/src/subkernel.rs: steps of the manager with the router and the DMA manager. An error is a
-- value: what was changed before it stays changed.
use madmax_artiq_zynq.Base.{ℕ, [], ◌∷◌}
use madmax_artiq_zynq.Outcome.{Outcome, ok, err, panic}
use madmax_artiq_zynq.Outcome
use madmax_artiq_zynq.Drtioaux.Packet.{Packet}
use madmax_artiq_zynq.Drtioaux.RoutingTable.{RoutingTable, Result}
use madmax_artiq_zynq.Satman.Router.{Router, route}
use madmax_artiq_zynq.Satman.Dma.Manager as DmaManager
use madmax_artiq_zynq.Satman.Subkernel.{Manager, Error, Message, no_message}

pub record Parts : Type 0 where
  pub manager : Manager
  pub router : Router
  pub dma : DmaManager.Manager

pub data Answer (A : Type 0) : Type 0 where
  answer : A → Answer A
  fail : Error → Answer A

abbrev pub Step : Type 0 → Type 0
Step A = Parts → Result (Answer A × Parts)

-- A step after an answer.
abbrev pub go_on : {A B : Type 0} → (A → Step B) → Answer A × Parts → Result (Answer B × Parts)
go_on k (answer a, p) = k a p
go_on k (fail e, p) = ok (fail e, p)

infixl 5 ◌>>=◌ ◌>>◌
unfoldable pub ◌>>=◌ : {A B : Type 0} → Step A → (A → Step B) → Step B
◌>>=◌ s k p = Outcome.◌>>=◌ (s p) (go_on k)

abbrev pub ◌>>◌ : {B : Type 0} → Step (Unit {0}) → Step B → Step B
s >> t = s >>= λ _. t

unfoldable pub pure : {A : Type 0} → A → Step A
pure a p = ok (answer a, p)

unfoldable pub raise : {A : Type 0} → Error → Step A
raise e p = ok (fail e, p)

unfoldable pub update : (Manager → Manager) → Step (Unit {0})
update f p = ok (answer tt, record p { manager = f p.manager })

-- Something of the manager.
unfoldable pub ask : {A : Type 0} → (Manager → A) → Step A
ask f p = ok (answer (f p.manager), p)

unfoldable pub send_packet :
    (n_repeaters : ℕ) → RoutingTable → (rank self_destination : ℕ) → Packet → Step (Unit {0})
send_packet n_repeaters table rank self_destination packet p =
    Outcome.◌>>=◌ (route n_repeaters packet table rank self_destination p.router)
      (λ router. ok (answer tt, record p { router = router }))

-- `control.rx.try_recv()?`
unfoldable pub try_recv : Step Message
try_recv p = elim p.manager.control.rx [
  | [] ↦ ok (fail no_message, p)
  | message ∷ rx ↦ ok (
    answer message,
    record p { manager = record p.manager { control = record p.manager.control { rx = rx } } },
  )
]
