-- ===== src/Satman/Handlers/Links.antt =====
-- src/satman/src/drtiosat_aux.rs, process_aux_packet: the arms for the reset, the state of a destination,
-- the routing table and the rank. `errors` is what the register of errors holds, and `channel` the channel
-- of the one that is reported.
use madmax_artiq_zynq.Base.{
  ℕ, ◌+◌, ◌-◌, ◌/◌, ◌%◌, List, [], ◌∷◌, leb, ltb, ◌==◌, if◌then◌else◌, length, get_elem?, set,
}
use madmax_artiq_zynq.Outcome.{Outcome, ok, err, panic, ◌>>=◌}
use madmax_artiq_zynq.Drtioaux.Packet.{
  Packet, reset_ack, destination_status_request, destination_down_reply, destination_ok_reply,
  destination_sequence_error_reply, destination_collision_reply, destination_busy_reply,
  routing_ack,
}
use madmax_artiq_zynq.Drtioaux.Link.{LinkError}
use madmax_artiq_zynq.Drtioaux.RoutingTable.{
  RoutingTable, Result, hop, or_panic, interconnect_enable_all,
}
use madmax_artiq_zynq.Satman.Router.{Router}
use madmax_artiq_zynq.Satman.Repeater.{
  RepeaterState, Wire, Call, set_path, set_rank, rtio_reset, aux_forward,
}

-- The logs are newest first. There are as many repeaters as csr::DRTIOREP says.
pub record Links : Type 0 where
  pub table : RoutingTable
  pub rank : ℕ
  pub self_destination : ℕ
  pub router : Router
  pub repeaters : List (RepeaterState × Wire)
  pub uplink : List Packet
  pub resets : List ℕ
  pub rtio_errors : List ℕ
  pub interconnect : List (ℕ × ℕ)

abbrev pub reply_up : Packet → Links → Links
reply_up packet s = record s { uplink = packet ∷ s.uplink }

-- An error of a repeater is only logged.
unfoldable pub unless_panic : Outcome LinkError (Unit {0}) × Wire → Result Wire
unless_panic (ok done, w) = ok w
unless_panic (err e, w) = ok w
unless_panic (panic, w) = panic

unfoldable pub each :
    (RepeaterState → Call (Unit {0}))
    → List (RepeaterState × Wire)
    → Result (List (RepeaterState × Wire))
unfolding unless_panic
each call [] = ok []
each call ((state, w) ∷ repeaters) = do
  w' ← unless_panic (call state w)
  repeaters' ← each call repeaters
  ok ((state, w') ∷ repeaters')

unfoldable pub each_repeater : (RepeaterState → Call (Unit {0})) → Links → Result Links
unfolding each
each_repeater call s = do repeaters ← each call s.repeaters; ok (record s { repeaters = repeaters })

unfoldable pub reset_request_arm : Links → Result Links
unfolding each_repeater
reset_request_arm s = do
  s' ← each_repeater rtio_reset (record s { resets = 0 ∷ 1 ∷ s.resets })
  ok (reply_up reset_ack s')

unfoldable pub set_path_arm : (destination : ℕ) (hops : List ℕ) → Links → Result Links
unfolding each_repeater
set_path_arm destination hops s =
    if ltb destination (length s.table)
    then (do
      s' ←
          each_repeater (λ state. set_path state destination hops)
            (record s { table = set s.table destination hops })
      ok (reply_up routing_ack s'))
    else panic

unfoldable pub set_rank_arm : (new_rank : ℕ) → Links → Result Links
unfolding each_repeater
set_rank_arm new_rank s = do
  interconnect ← interconnect_enable_all s.table new_rank s.interconnect
  s' ←
      each_repeater (λ state. set_rank state ((new_rank + 1) % 256))
        (record s { rank = new_rank; interconnect = interconnect })
  ok (reply_up routing_ack s')

-- The first error is reported, and cleared.
unfoldable pub local_status : (errors channel : ℕ) → Links → Links
local_status errors channel s =
    if errors % 2 == 1
    then reply_up (destination_sequence_error_reply channel)
        (record s { rtio_errors = 1 ∷ s.rtio_errors })
    else if errors / 2 % 2 == 1
    then reply_up (destination_collision_reply channel)
        (record s { rtio_errors = 2 ∷ s.rtio_errors })
    else if errors / 4 % 2 == 1
    then reply_up (destination_busy_reply channel) (record s { rtio_errors = 4 ∷ s.rtio_errors })
    else reply_up destination_ok_reply s

-- The link that a request was forwarded over, back in its place; an error makes the destination down.
unfoldable pub put_back :
    (repno : ℕ) → RepeaterState → Links → Outcome LinkError (Unit {0}) × Wire → Result Links
put_back repno state s (panic, w) = panic
put_back repno state s (outcome, w) =
    let s' = record s {
      router = w.router;
      uplink = w.uplink;
      repeaters = set s.repeaters repno (state, w);
    } in
    ok (elim outcome [ ok done ↦ s' | _ ↦ reply_up destination_down_reply s' ])

unfoldable pub forward_status : (destination repno : ℕ) → Links → Result Links
unfolding put_back
forward_status destination repno s = do
  (state, w) ← or_panic (get_elem? s.repeaters repno)
  put_back repno state s (
      aux_forward (length s.repeaters) s.table s.rank s.self_destination state
        (destination_status_request destination)
        (record w { router = s.router; uplink = s.uplink }))

unfoldable pub status_arm : (errors channel destination : ℕ) → Links → Result Links
unfolding local_status forward_status
status_arm errors channel destination s = do
  hop ← hop s.table destination s.rank
  if hop == 0
      then ok (local_status errors channel (record s { self_destination = destination }))
      else if leb hop (length s.repeaters)
      then forward_status destination (hop - 1) s
      else ok (reply_up destination_down_reply s)
