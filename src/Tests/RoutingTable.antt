-- ===== src/Tests/RoutingTable.antt =====
-- The routing table, and routing by it, at concrete inputs.
use madmax_artiq_zynq.Base.{
  ◌⊎◌, ℕ, ◌*◌, ◌≡◌, refl, some, List, [], ◌∷◌, replicate, length, get_elem?, if◌then◌else◌, ◌==◌,
  ◌+◌, ◌-◌, arith,
}
use madmax_artiq_zynq.Outcome.{ok}
use madmax_artiq_zynq.Drtioaux.Packet.{Packet, dma_remove_trace_request}
use madmax_artiq_zynq.Drtioaux.Packet.Routable.{routable_destination}
use madmax_artiq_zynq.Drtioaux.RoutingTable.{
  RoutingTable, or_panic, dest_count, max_hops, hop, default_master, config_routing_table,
}
use madmax_artiq_zynq.Drtioaux.RoutingTable.Defaults.{
  star_hop, default_master_star, config_routing_table_hops,
}
use madmax_artiq_zynq.Satman.Router.{
  Router, process, routing_error, repeater, push_downstream, decision, forward, place, route,
  route_to, push_upstream,
}
use madmax_artiq_zynq.Satman.Router
use madmax_artiq_zynq.Satman.Router.Routes.{
  Gains, routed, route-forward, route-last, route_conserves,
}

default_master_star_example :
    (table : RoutingTable) × (default_master 4 ≡ ok table) × (hop table 3 0 ≡ ok (star_hop 4 3 0))
default_master_star_example = default_master_star 4 3 0 (omega arith) (omega arith) (omega arith)

abbrev configured : List ℕ
configured = replicate 8192 5

config_routing_table_hops_example :
    (table : RoutingTable) × (config_routing_table (some configured) 4 ≡ ok table)
    × (hop table 3 1 ≡ (
        if length configured == dest_count * max_hops
        then or_panic (get_elem? configured (3 * max_hops + 1))
        else ok (star_hop 4 3 1)))
config_routing_table_hops_example =
    config_routing_table_hops configured 4 3 1 (omega arith) (omega arith) (omega arith)

-- Destination 3 is behind link 2.
abbrev pub behind_two : RoutingTable
behind_two = (0 ∷ []) ∷ (1 ∷ []) ∷ (2 ∷ []) ∷ (2 ∷ []) ∷ []

abbrev request : Packet
request = dma_remove_trace_request 1 3 7

request_destination : routable_destination request ≡ some 3
unfolding routable_destination
request_destination = refl

hop-behind_two : hop behind_two 3 0 ≡ ok 2
unfolding hop
hop-behind_two = refl

route-forward_example :
    ((repno : ℕ) × (forward 3 behind_two 0 3 ≡ ok (repeater repno))
      × (route 3 request behind_two 0 1 Router.new ≡ ok (push_downstream repno request Router.new)))
    ⊎ (((forward 3 behind_two 0 3 ≡ ok process) ⊎ (forward 3 behind_two 0 3 ≡ ok routing_error))
        × (route 3 request behind_two 0 1 Router.new ≡ ok (push_upstream request Router.new)))
route-forward_example =
    route-forward 3 behind_two 0 1 request 3 2 Router.new request_destination hop-behind_two
      (omega arith) (omega arith)

route-last_example :
    (forward 2 behind_two 0 3 ≡ ok (repeater (2 - 1)))
    × (route 2 request behind_two 0 1 Router.new ≡ ok (push_upstream request Router.new))
route-last_example =
    route-last 2 behind_two 0 1 request 3 2 Router.new request_destination hop-behind_two
      (omega arith) refl (omega arith)

routed_up : route 2 request behind_two 0 1 Router.new ≡ ok (push_upstream request Router.new)
unfolding route route_to routable_destination hop place push_upstream Router.new
routed_up = refl

route_conserves_example :
    Gains Router.new
      (push_upstream request Router.new)
      (routed (routable_destination request) request)
route_conserves_example =
    route_conserves 2 behind_two 0 1 request Router.new (push_upstream request Router.new) routed_up
