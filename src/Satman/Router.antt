-- ===== src/Satman/Router.antt =====
-- src/satman/src/routing.rs, with the feature has_drtio_routing: the queues of packets to the uplink, to
-- the repeaters and to this satellite; and the decision of forward! in src/satman/src/drtiosat_aux.rs.
-- The number of repeaters is csr::DRTIOREP.len(), of the generated gateware description.
pub mod Routes
use madmax_artiq_zynq.Base.{
  ℕ, suc, ◌+◌, ◌-◌, Bool, not, ◌&&◌, Option, none, some, List, [], ◌∷◌, ◌++◌, ltb, ◌==◌,
  if◌then◌else◌,
}
use madmax_artiq_zynq.Outcome.{Outcome, ok, err, panic, ◌>>=◌}
use madmax_artiq_zynq.Drtioaux.Packet.{Packet}
use madmax_artiq_zynq.Drtioaux.Packet.Routable.{routable_destination}
use madmax_artiq_zynq.Drtioaux.RoutingTable.{RoutingTable, Result, hop}

pub record Router : Type 0 where
  pub upstream_queue : List Packet
  pub local_queue : List Packet
  pub downstream_queue : List (ℕ × Packet)

unfoldable pub new : Router
new = record { upstream_queue = []; local_queue = []; downstream_queue = [] }

unfoldable pub push_upstream : Packet → Router → Router
push_upstream packet r = record r { upstream_queue = r.upstream_queue ++ (packet ∷ []) }

unfoldable pub push_local : Packet → Router → Router
push_local packet r = record r { local_queue = r.local_queue ++ (packet ∷ []) }

unfoldable pub push_downstream : ℕ → Packet → Router → Router
push_downstream repno packet r = record r {
  downstream_queue = r.downstream_queue ++ ((repno, packet) ∷ []);
}

-- `pop_front` of a queue.
unfoldable pub get_upstream_packet : Router → Option Packet × Router
get_upstream_packet r = elim r.upstream_queue [
  | [] ↦ (none, r)
  | packet ∷ queue ↦ (some packet, record r { upstream_queue = queue })
]

unfoldable pub get_downstream_packet : Router → Option (ℕ × Packet) × Router
get_downstream_packet r = elim r.downstream_queue [
  | [] ↦ (none, r)
  | entry ∷ queue ↦ (some entry, record r { downstream_queue = queue })
]

unfoldable pub get_local_packet : Router → Option Packet × Router
get_local_packet r = elim r.local_queue [
  | [] ↦ (none, r)
  | packet ∷ queue ↦ (some packet, record r { local_queue = queue })
]

-- Where forward! sends a packet: it is processed here, or goes to a repeater, or is refused.
pub data Forward : Type 0 where
  process routing_error : Forward
  repeater : ℕ → Forward

module _ (n_repeaters : ℕ) where
  unfoldable pub decision : ℕ → Forward
  decision hop =
      if not (hop == 0)
      then (let repno = hop - 1 in if ltb repno n_repeaters then repeater repno else routing_error)
      else process

  unfoldable pub forward : RoutingTable → ℕ → ℕ → Result Forward
  unfolding decision
  forward table rank destination = do hop ← hop table destination rank; ok (decision hop)

  -- The queue of a packet for `destination`, whose hop is given.
  unfoldable pub place : Packet → ℕ → ℕ → ℕ → Router → Router
  place packet destination self_destination hop r =
      if destination == self_destination
      then push_local packet r
      else if ltb 0 hop && ltb hop n_repeaters
      then push_downstream (hop - 1) packet r
      else push_upstream packet r

  unfoldable pub route_to : Option ℕ → Packet → RoutingTable → ℕ → ℕ → Router → Result Router
  route_to none packet table rank self_destination r = ok r
  route_to (some destination) packet table rank self_destination r = do
    hop ← hop table destination rank
    ok (place packet destination self_destination hop r)

  -- An unroutable packet is only logged.
  unfoldable pub route : Packet → RoutingTable → ℕ → ℕ → Router → Result Router
  unfolding route_to
  route packet table rank self_destination r =
      route_to (routable_destination packet) packet table rank self_destination r

  -- The router after, and the packet that is sent over the uplink at once, if it is.
  unfoldable pub send : Packet → RoutingTable → ℕ → Router → Result (Router × Option Packet)
  send packet table rank r = elim (routable_destination packet) [
    | none ↦ ok (r, some packet)
    | some destination ↦ (do
      hop ← hop table destination rank
      ok (
          if destination == 0
          then (r, some packet)
          else if not (ltb 0 hop && ltb hop n_repeaters)
          then (push_upstream packet r, none)
          else (push_downstream (hop - 1) packet r, none)))
  ]
