-- ===== src/Satman/Router/Routes.antt =====
-- src/satman/src/routing.rs: where `route` puts a packet, against the decision of forward! in
-- src/satman/src/drtiosat_aux.rs.
use madmax_artiq_zynq.Base.{
  ℕ, sym, subst, Bool-cases, inl, inr, ◌-◌, ◌<◌, ◌≡◌, ◌≢◌, ◌⊎◌, refl, ◌&&◌, Option, none, some,
  List, [], ◌∷◌, ◌++◌, map, ltb, ◌==◌, append-nil, arith,
}
use madmax_artiq_zynq.Outcome.{ok, err, panic, ◌>>=◌}
use madmax_artiq_zynq.Drtioaux.Packet.{Packet}
use madmax_artiq_zynq.Drtioaux.Packet.Routable.{routable_destination}
use madmax_artiq_zynq.Drtioaux.RoutingTable.{RoutingTable, Result, hop}
use madmax_artiq_zynq.Satman.Router.{
  Router, process, routing_error, repeater, forward, place, route_to, route, push_upstream,
  push_local, push_downstream,
}

module _ (n_repeaters : ℕ) (table : RoutingTable) (rank self_destination : ℕ) (packet : Packet)
    (destination value : ℕ) (r : Router) (routable : routable_destination packet ≡ some destination)
    (lookup : hop table destination rank ≡ ok value) where
  -- A routable packet for another destination, whose hop does not name the last repeater: either forward!
  -- hands it to a repeater, and `route` queues it for that repeater, or forward! hands it to none, since it
  -- processes it or refuses it, and `route` queues it for the uplink.
  pub route-forward :
      destination ≢ self_destination
      → value ≢ n_repeaters
      → ((repno : ℕ) × (forward n_repeaters table rank destination ≡ ok (repeater repno))
          × (route n_repeaters packet table rank self_destination r
              ≡ ok (push_downstream repno packet r)))
        ⊎ (((forward n_repeaters table rank destination ≡ ok process)
              ⊎ (forward n_repeaters table rank destination ≡ ok routing_error))
            × (route n_repeaters packet table rank self_destination r
                ≡ ok (push_upstream packet r)))
  unfolding route forward place
  route-forward other not_last = elim (Bool-cases (value == 0)) [
    | inl here ↦ inr (inl (rw lookup (ground arith)), rw (routable, lookup) (ground arith))
    | inr away ↦ elim (Bool-cases (ltb value n_repeaters)) [
      | inl below ↦ inl (value - 1, rw lookup (ground arith), rw (routable, lookup) (ground arith))
      | inr above ↦ inr (inr (rw lookup (ground arith)), rw (routable, lookup) (ground arith))
    ]
  ]

  -- A routable packet for another destination whose hop names the last repeater is queued for the
  -- uplink, although forward! sends such a packet to that repeater.
  pub route-last :
      destination ≢ self_destination
      → value ≡ n_repeaters
      → 0 < n_repeaters
      → (forward n_repeaters table rank destination ≡ ok (repeater (n_repeaters - 1)))
        × (route n_repeaters packet table rank self_destination r ≡ ok (push_upstream packet r))
  unfolding route forward place
  route-last other last some_repeater =
      (rw lookup (ground arith), rw (routable, lookup) (ground arith))

-- What a router has gained: packets at the ends of its queues, all together these.
abbrev pub Gains : Router → Router → List Packet → Type 0
Gains r r' packets =
    (up : List Packet) × (local : List Packet) × (down : List (ℕ × Packet)) × (r'.upstream_queue
      ≡ r.upstream_queue ++ up)
    × (r'.local_queue ≡ r.local_queue ++ local)
    × (r'.downstream_queue ≡ r.downstream_queue ++ down)
    × (up ++ (local ++ map (λ entry. entry.1) down) ≡ packets)

place-Gains :
    (n_repeaters : ℕ) (packet : Packet) (destination self_destination value : ℕ) (r : Router)
    → Gains r (place n_repeaters packet destination self_destination value r) (packet ∷ [])
unfolding place push_upstream push_local push_downstream
place-Gains n_repeaters packet destination self_destination value r =
    elim (Bool-cases (destination == self_destination)) [
      | inl here ↦ rw here ([], packet ∷ [], [], sym (append-nil _), refl, sym (append-nil _), refl)
      | inr away ↦ elim (Bool-cases (ltb 0 value && ltb value n_repeaters)) [
        | inl below ↦
            rw (away, below)
              ([], [], (value - 1, packet) ∷ [], sym (append-nil _), sym (append-nil _), refl, refl)
        | inr above ↦
            rw (away, above)
              (packet ∷ [], [], [], refl, sym (append-nil _), sym (append-nil _), refl)
      ]
    ]

-- The packets of a routing call: the one packet if it is routable.
abbrev pub routed : Option ℕ → Packet → List Packet
routed none packet = []
routed (some destination) packet = packet ∷ []

-- `route` puts a routable packet at the end of exactly one queue, once, keeps everything else in place
-- and in order, and drops an unroutable one.
pub route_conserves :
    (n_repeaters : ℕ) (table : RoutingTable) (rank self_destination : ℕ) (packet : Packet)
    (r r' : Router)
    → route n_repeaters packet table rank self_destination r ≡ ok r'
    → Gains r r' (routed (routable_destination packet) packet)
unfolding route
route_conserves n_repeaters table rank self_destination packet r r' e =
    by_destination (routable_destination packet) e
  where
    by_hop :
        (destination : ℕ) (o : Result ℕ)
        → (o >>= λ value. ok (place n_repeaters packet destination self_destination value r))
          ≡ ok r'
        → Gains r r' (packet ∷ [])
    by_hop destination (ok value) e' =
        subst (λ x. Gains r x (packet ∷ [])) (cc e')
          (place-Gains n_repeaters packet destination self_destination value r)
    by_hop destination (err x) e' = elim x [ ]
    by_hop destination panic e' = absurd (cc e')

    by_destination :
        (o : Option ℕ)
        → route_to n_repeaters o packet table rank self_destination r ≡ ok r'
        → Gains r r' (routed o packet)
    by_destination none e' =
        subst (λ x. Gains r x []) (cc e')
          ([], [], [], sym (append-nil _), sym (append-nil _), sym (append-nil _), refl)
    by_destination (some destination) e' = by_hop destination (hop table destination rank) e'
