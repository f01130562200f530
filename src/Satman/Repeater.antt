-- ===== src/Satman/Repeater.antt =====
-- src/satman/src/repeater.rs, with the feature has_drtio_routing: the link to the next satellite. What is
-- read from it is in Wire, in the order of the calls: whether the receiver is up, what `recv` finds, and
-- what `recv_timeout` waits for. When there is no more, the link is down, nothing is found, and the time
-- runs out. What is sent over the link, or over the uplink, is a log, newest first, as are the register
-- writes. A send succeeds: every packet fits the buffer.
pub mod Forward
use madmax_artiq_zynq.Base.{
  ℕ, zero, suc, ◌+◌, ◌%◌, ◌^◌, Bool, true, false, not, Option, none, some, List, [], ◌∷◌, ltb,
  if◌then◌else◌, length,
}
use madmax_artiq_zynq.Outcome.{Outcome, ok, err, panic}
use madmax_artiq_zynq.Drtioaux.Packet.{
  Packet, echo_request, echo_reply, reset_request, reset_ack, tsc_ack, routing_set_path,
  routing_set_rank, routing_ack, dma_playback_status, subkernel_finished, subkernel_message,
  subkernel_message_ack, subkernel_load_run_reply, subkernel_exception, dma_add_trace_reply,
  dma_playback_reply,
}
use madmax_artiq_zynq.Drtioaux.Packet.Routable.{expects_response}
use madmax_artiq_zynq.Drtioaux.Link.{LinkError, link_down, timed_out, unexpected_reply}
use madmax_artiq_zynq.Drtioaux.RoutingTable.{RoutingTable, Result}
use madmax_artiq_zynq.Satman.Router.{Router, route}

pub data RepeaterState : Type 0 where
  down up failed : RepeaterState
  send_ping : (ping_count : ℕ) → RepeaterState
  wait_ping_reply : (ping_count timeout : ℕ) → RepeaterState

pub data RepeaterWrite : Type 0 where
  protocol_error_write set_time_write reset_write : ℕ → RepeaterWrite

pub record Wire : Type 0 where
  pub rx_up : List Bool
  pub incoming : List (Outcome LinkError (Option Packet))
  pub replies : List (Outcome LinkError Packet)
  pub sent : List Packet
  pub uplink : List Packet
  pub registers : List RepeaterWrite
  pub router : Router

-- A call: what was done before an error stays done.
abbrev pub Call : Type 0 → Type 0
Call A = Wire → Outcome LinkError A × Wire

abbrev pub after :
    {A B : Type 0} → (A → Call B) → Outcome LinkError A × Wire → Outcome LinkError B × Wire
after k (ok a, w) = k a w
after k (err e, w) = (err e, w)
after k (panic, w) = (panic, w)

infixl 5 ◌>>=◌ ◌>>◌
unfoldable pub ◌>>=◌ : {A B : Type 0} → Call A → (A → Call B) → Call B
◌>>=◌ c k w = after k (c w)

abbrev pub ◌>>◌ : {B : Type 0} → Call (Unit {0}) → Call B → Call B
c >> d = c >>= λ _. d

unfoldable pub pure : {A : Type 0} → A → Call A
pure a w = (ok a, w)

unfoldable pub fail : {A : Type 0} → LinkError → Call A
fail e w = (err e, w)

unfoldable pub rep_link_rx_up : Call Bool
rep_link_rx_up w = elim w.rx_up [
  | [] ↦ (ok false, w)
  | is_up ∷ later ↦ (ok is_up, record w { rx_up = later })
]

unfoldable pub send : Packet → Call (Unit {0})
send packet w = (ok tt, record w { sent = packet ∷ w.sent })

unfoldable pub send_up : Packet → Call (Unit {0})
send_up packet w = (ok tt, record w { uplink = packet ∷ w.uplink })

unfoldable pub write : RepeaterWrite → Call (Unit {0})
write register w = (ok tt, record w { registers = register ∷ w.registers })

unfoldable pub recv : Call (Option Packet)
recv w = elim w.incoming [
  | [] ↦ (ok none, w)
  | found ∷ later ↦ (found, record w { incoming = later })
]

unfoldable pub recv_timeout : Call Packet
recv_timeout w = elim w.replies [
  | [] ↦ (err timed_out, w)
  | reply ∷ later ↦ (reply, record w { replies = later })
]

unfoldable pub recv_aux_timeout : Call Packet
recv_aux_timeout = do is_up ← rep_link_rx_up; if is_up then recv_timeout else fail link_down

unfoldable pub is_up : RepeaterState → Bool
is_up up = true
is_up _ = false

unfoldable pub is_routing_ack : Packet → Bool
is_routing_ack routing_ack = true
is_routing_ack _ = false

unfoldable pub is_tsc_ack : Packet → Bool
is_tsc_ack tsc_ack = true
is_tsc_ack _ = false

unfoldable pub is_reset_ack : Packet → Bool
is_reset_ack reset_ack = true
is_reset_ack _ = false

-- A reply of another kind is an error.
unfoldable pub wait_for : (Packet → Bool) → Call (Unit {0})
unfolding recv_aux_timeout
wait_for is_expected = do
  reply ← recv_aux_timeout
  if is_expected reply then pure tt else fail unexpected_reply

unfoldable pub aux_send : RepeaterState → Packet → Call (Unit {0})
unfolding is_up
aux_send state request = if not (is_up state) then fail link_down else send request

-- Packets that may come while another is forwarded.
unfoldable pub is_routed : Packet → Bool
is_routed (dma_playback_status _ _ _ _ _ _) = true
is_routed (subkernel_finished _ _ _ _) = true
is_routed (subkernel_message _ _ _ _ _ _) = true
is_routed (subkernel_message_ack _) = true
is_routed (subkernel_load_run_reply _ _) = true
is_routed (subkernel_exception _ _ _ _) = true
is_routed (dma_add_trace_reply _ _ _ _) = true
is_routed (dma_playback_reply _ _) = true
is_routed _ = false

-- After the hardware has set the time.
unfoldable pub sync_tsc : RepeaterState → Call (Unit {0})
unfolding wait_for is_tsc_ack
sync_tsc state =
    if not (is_up state) then pure tt else (do write (set_time_write 1); wait_for is_tsc_ack)

unfoldable pub set_path : RepeaterState → (destination : ℕ) (hops : List ℕ) → Call (Unit {0})
unfolding wait_for is_routing_ack
set_path state destination hops =
    if not (is_up state)
    then pure tt
    else (do send (routing_set_path destination hops); wait_for is_routing_ack)

-- The rows from `i` on.
unfoldable pub load_loop : RepeaterState → (i : ℕ) → RoutingTable → Call (Unit {0})
unfolding set_path
load_loop state i [] = pure tt
load_loop state i (hops ∷ table) = do set_path state (i % 256) hops; load_loop state (suc i) table

unfoldable pub load_routing_table : RepeaterState → RoutingTable → Call (Unit {0})
unfolding load_loop
load_routing_table state table = load_loop state 0 table

unfoldable pub set_rank : RepeaterState → (rank : ℕ) → Call (Unit {0})
unfolding wait_for is_routing_ack
set_rank state rank =
    if not (is_up state)
    then pure tt
    else (do send (routing_set_rank rank); wait_for is_routing_ack)

unfoldable pub rtio_reset : RepeaterState → Call (Unit {0})
unfolding wait_for is_reset_ack
rtio_reset state = do
  write (reset_write 1)
  write (reset_write 0)
  if not (is_up state) then pure tt else (do send reset_request; wait_for is_reset_ack)

module _ (n_repeaters : ℕ) (table : RoutingTable) (rank self_destination : ℕ) where
  abbrev pub routed : Wire → Result Router → Outcome LinkError (Unit {0}) × Wire
  routed w (ok router) = (ok tt, record w { router = router })
  routed w (err e) = (elim e [ ], w)
  routed w panic = (panic, w)

  unfoldable pub route_packet : Packet → Call (Unit {0})
  route_packet packet w = routed w (route n_repeaters packet table rank self_destination w.router)

  -- The replies up to the one for the master; one round for each reply, and one for none.
  unfoldable pub forward_loop : (fuel : ℕ) → Call (Unit {0})
  unfolding route_packet is_routed recv_aux_timeout
  forward_loop zero = λ w. (panic, w)
  forward_loop (suc fuel) = do
    reply ← recv_aux_timeout
    let again = forward_loop fuel
    if is_routed reply then (do route_packet reply; again) else send_up reply

  unfoldable pub aux_forward : RepeaterState → Packet → Call (Unit {0})
  unfolding forward_loop
  aux_forward state request w = (do aux_send state request; forward_loop (suc (length w.replies))) w

  unfoldable pub route_found :
      Outcome LinkError (Option Packet) × Wire → Outcome LinkError (Unit {0}) × Wire
  unfolding route_packet
  route_found (ok (some packet), w) = route_packet packet w
  route_found (ok none, w) = (ok tt, w)
  route_found (err e, w) = (ok tt, w)
  route_found (panic, w) = (panic, w)

  unfoldable pub process_unsolicited_aux : Call (Unit {0})
  unfolding route_found
  process_unsolicited_aux w = route_found (recv w)

  -- The link when the other side has replied.
  unfoldable pub bring_up : Call (Unit {0})
  unfolding sync_tsc load_routing_table set_rank
  bring_up = do sync_tsc up; load_routing_table up table; set_rank up ((rank + 1) % 256)

  unfoldable pub brought_up :
      Outcome LinkError (Unit {0}) × Wire → Outcome LinkError RepeaterState × Wire
  brought_up (ok done, w) = (ok up, w)
  brought_up (err e, w) = (ok failed, w)
  brought_up (panic, w) = (panic, w)

  -- So many times, whatever is found is thrown away.
  unfoldable pub drain : (drained : ℕ) → Call (Unit {0})
  unfolding recv
  drain zero w = (ok tt, w)
  drain (suc drained) w =
      let rest = drain drained (recv w).1 in
      elim (recv w).0 [ ok found ↦ rest | err e ↦ rest | panic ↦ (panic, w) ]

  -- `drained` is how often it is done in 200 ms.
  unfoldable pub after_echo : (drained : ℕ) → Call RepeaterState
  unfolding bring_up brought_up drain
  after_echo drained w = brought_up ((do drain drained; bring_up) w)

  unfoldable pub no_echo : (now ping_count timeout : ℕ) → RepeaterState
  no_echo now ping_count timeout =
      if ltb timeout now
      then (if ltb 200 ping_count then failed else send_ping ping_count)
      else wait_ping_reply ping_count timeout

  unfoldable pub ping_found :
      (now drained ping_count timeout : ℕ)
      → Outcome LinkError (Option Packet) × Wire
      → Outcome LinkError RepeaterState × Wire
  unfolding after_echo no_echo
  ping_found now drained ping_count timeout (ok (some echo_reply), w) = after_echo drained w
  ping_found now drained ping_count timeout (ok _, w) = (ok (no_echo now ping_count timeout), w)
  ping_found now drained ping_count timeout (err e, w) = (ok (no_echo now ping_count timeout), w)
  ping_found now drained ping_count timeout (panic, w) = (panic, w)

  unfoldable pub wait_reply : (now drained ping_count timeout : ℕ) → Call RepeaterState
  unfolding ping_found
  wait_reply now drained ping_count timeout w = ping_found now drained ping_count timeout (recv w)

  -- The receiver is read, and the new state is the one for its answer.
  unfoldable pub by_rx : (up_state down_state : RepeaterState) → Call RepeaterState
  by_rx up_state down_state = do
    is_up ← rep_link_rx_up
    pure (if is_up then up_state else down_state)

  unfoldable pub step_state : (now drained : ℕ) → RepeaterState → Call RepeaterState
  unfolding by_rx wait_reply process_unsolicited_aux
  step_state now drained down = by_rx (send_ping 0) down
  step_state now drained (send_ping ping_count) = do
    is_up ← rep_link_rx_up
    if is_up
        then (do send echo_request; pure (wait_ping_reply ((ping_count + 1) % 2 ^ 16) (now + 100)))
        else pure down
  step_state now drained (wait_ping_reply ping_count timeout) = do
    is_up ← rep_link_rx_up
    if is_up then wait_reply now drained ping_count timeout else pure down
  step_state now drained up = do process_unsolicited_aux; by_rx up down
  step_state now drained failed = by_rx failed down

  -- `errors` is what the register of errors holds; reports of them are left out.
  unfoldable pub service : (now drained errors : ℕ) → RepeaterState → Call RepeaterState
  unfolding step_state
  service now drained errors state = do
    write (protocol_error_write errors)
    step_state now drained state

  -- What forward! in src/satman/src/drtiosat_aux.rs does with a packet for this repeater.
  unfoldable pub pass_on : RepeaterState → Packet → Call (Unit {0})
  unfolding aux_forward aux_send
  pass_on state packet =
      if expects_response packet then aux_forward state packet else aux_send state packet
