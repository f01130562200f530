-- ===== src/Satman/Repeater/Forward.antt =====
-- src/satman/src/repeater.rs, aux_forward: what comes while a packet is forwarded.
use madmax_artiq_zynq.Base.{
  ℕ, suc, ◌≡◌, refl, subst, ap, Bool, true, false, List, [], ◌∷◌, ◌++◌, length, map, replicate,
}
use madmax_artiq_zynq.Outcome.{Outcome, ok, err, panic, ok_inv, ok_injective}
use madmax_artiq_zynq.Outcome
use madmax_artiq_zynq.Drtioaux.Packet.{Packet}
use madmax_artiq_zynq.Drtioaux.Link.{LinkError}
use madmax_artiq_zynq.Drtioaux.RoutingTable.{RoutingTable, Result}
use madmax_artiq_zynq.Satman.Router.{Router, route}
use madmax_artiq_zynq.Satman.Repeater.{
  Wire, up, ◌>>=◌, pure, send, send_up, recv_timeout, recv_aux_timeout, rep_link_rx_up, is_up,
  is_routed, aux_send, route_packet, forward_loop, aux_forward,
}

-- Packets that are routed here.
unfoldable pub AreRouted : List Packet → Type 0
AreRouted [] = Unit {0}
AreRouted (packet ∷ packets) = (is_routed packet ≡ true) × AreRouted packets

-- The link, whose receiver stays up for these replies and one more.
abbrev pub replying :
    (packets : List Packet) → Packet → List (Outcome LinkError Packet) → List Bool → Wire → Wire
replying packets reply rest later w = record w {
  rx_up = replicate (suc (length packets)) true ++ later;
  replies = map ok packets ++ (ok reply ∷ rest);
}

-- One for each reply, and more.
unfoldable rounds : (extra : ℕ) → List Packet → ℕ
rounds extra [] = suc extra
rounds extra (packet ∷ packets) = suc (rounds extra packets)

rounds_lem :
    (packets : List Packet) (reply : Packet) (rest : List (Outcome LinkError Packet))
    → rounds (suc (length rest)) packets ≡ suc (length (map ok packets ++ (ok reply ∷ rest)))
unfolding rounds
rounds_lem [] reply rest = refl
rounds_lem (packet ∷ packets) reply rest = ap suc (rounds_lem packets reply rest)

module _ (n_repeaters : ℕ) (table : RoutingTable) (rank self_destination : ℕ) where
  unfoldable pub route_all : List Packet → Router → Result Router
  route_all [] router = ok router
  route_all (packet ∷ packets) router =
      Outcome.◌>>=◌ (route n_repeaters packet table rank self_destination router)
        (route_all packets)

  forward_loop_lem :
      (extra : ℕ) (packets : List Packet) (reply : Packet) (rest : List (Outcome LinkError Packet))
      (later : List Bool) (w : Wire) (router : Router)
      → AreRouted packets
      → is_routed reply ≡ false
      → route_all packets w.router ≡ ok router
      → forward_loop n_repeaters table rank self_destination
          (rounds extra packets)
          (replying packets reply rest later w)
        ≡ (
          ok tt,
          record w { rx_up = later; replies = rest; uplink = reply ∷ w.uplink; router = router },
        )
  unfolding forward_loop route_packet recv_aux_timeout send_up recv_timeout rep_link_rx_up pure
      route_all ◌>>=◌ replicate AreRouted rounds
  forward_loop_lem extra [] reply rest later w router are other routes =
      rw (other, ok_injective routes) refl
  forward_loop_lem extra (packet ∷ packets) reply rest later w router (is, are) other routes =
      let (router', first, others) =
        ok_inv (route n_repeaters packet table rank self_destination w.router) (route_all packets)
          router routes in
      rw (is, first)
        (forward_loop_lem extra packets reply rest later (record w { router = router' }) router are
          other others)

  -- A repeater that is up, with a receiver that stays up, and replies in between that can be routed: the
  -- request is sent, those replies are routed in their order, and the first other one is sent over the
  -- uplink.
  pub aux_forward-answered :
      (request : Packet) (packets : List Packet) (reply : Packet)
      (rest : List (Outcome LinkError Packet)) (later : List Bool) (w : Wire) (router : Router)
      → AreRouted packets
      → is_routed reply ≡ false
      → route_all packets w.router ≡ ok router
      → aux_forward n_repeaters table rank self_destination up request
          (replying packets reply rest later w)
        ≡ (
          ok tt,
          record w {
            rx_up = later;
            replies = rest;
            sent = request ∷ w.sent;
            uplink = reply ∷ w.uplink;
            router = router;
          },
        )
  unfolding aux_forward aux_send send is_up ◌>>=◌
  aux_forward-answered request packets reply rest later w router are other routes =
      let start = record w { sent = request ∷ w.sent } in
      subst
        (λ n.
          forward_loop n_repeaters table rank self_destination n
            (replying packets reply rest later start)
          ≡ (
            ok tt,
            record w {
              rx_up = later;
              replies = rest;
              sent = request ∷ w.sent;
              uplink = reply ∷ w.uplink;
              router = router;
            },
          ))
        (rounds_lem packets reply rest)
        (forward_loop_lem (suc (length rest)) packets reply rest later start router are other
          routes)
