-- ===== src/Tests/Repeater.antt =====
-- The repeater of a satellite at concrete inputs.
use madmax_artiq_zynq.Base.{◌≡◌, refl, true, [], ◌∷◌}
use madmax_artiq_zynq.Outcome.{ok}
use madmax_artiq_zynq.Drtioaux.Packet.{
  Packet, subkernel_message_ack, i2c_start_request, i2c_basic_reply,
}
use madmax_artiq_zynq.Drtioaux.Packet.Routable.{routable_destination}
use madmax_artiq_zynq.Drtioaux.RoutingTable.{hop}
use madmax_artiq_zynq.Satman.Router.{Router, route, place, push_local}
use madmax_artiq_zynq.Satman.Router
use madmax_artiq_zynq.Satman.Repeater.{Wire, up, is_routed, aux_forward}
use madmax_artiq_zynq.Satman.Repeater.Forward.{AreRouted, route_all, replying, aux_forward-answered}
use madmax_artiq_zynq.Tests.RoutingTable.{behind_two}

abbrev idle : Wire
idle = record {
  rx_up = [];
  incoming = [];
  replies = [];
  sent = [];
  uplink = [];
  registers = [];
  router = Router.new;
}

abbrev request : Packet
request = i2c_start_request 3 0

-- An acknowledgement for this satellite.
abbrev routed_here : Router
routed_here = record Router.new { local_queue = subkernel_message_ack 1 ∷ [] }

aux_forward-answered_example :
    aux_forward 3 behind_two 0 1 up request
      (replying (subkernel_message_ack 1 ∷ []) (i2c_basic_reply true) [] [] idle)
    ≡ (
      ok tt,
      record idle {
        rx_up = [];
        replies = [];
        sent = request ∷ [];
        uplink = i2c_basic_reply true ∷ [];
        router = routed_here;
      },
    )
unfolding AreRouted is_routed route_all route routable_destination place hop push_local Router.new
aux_forward-answered_example =
    aux_forward-answered 3 behind_two 0 1 request (subkernel_message_ack 1 ∷ [])
      (i2c_basic_reply true) [] [] idle routed_here (refl, tt) refl refl
