-- ===== src/Satman/Handlers.antt =====
-- src/satman/src/drtiosat_aux.rs, process_aux_packet: the arms for distributed DMA and for subkernels.
-- A packet for a repeater is handed to Satman.Repeater.pass_on. `extended` and `reserved` are the places that the
-- allocator gives a trace, and `first_reply` and `second_reply` what the other core answers to requests
-- to load a kernel. `report` to `address` are the parameters of Subkernel.Requests.
pub mod LoadRun
pub mod Links
use madmax_artiq_zynq.Base.{
  ℕ, ◌%◌, ◌^◌, Bool, true, false, not, ◌||◌, Option, none, some, List, [], ◌∷◌, if◌then◌else◌,
  replicate,
}
use madmax_artiq_zynq.Outcome.{Outcome, ok, err, panic, ◌>>=◌}
use madmax_artiq_zynq.Io.Proto.{ByteOrder, Writer}
use madmax_artiq_zynq.Drtioaux.Packet.{
  Packet, dma_add_trace_request, dma_add_trace_reply, dma_remove_trace_request,
  dma_remove_trace_reply, dma_playback_request, dma_playback_reply, dma_playback_status,
  subkernel_add_data_request, subkernel_add_data_reply, subkernel_load_run_request,
  subkernel_load_run_reply, subkernel_finished, subkernel_exception_request, subkernel_exception,
  subkernel_message, subkernel_message_ack,
}
use madmax_artiq_zynq.Drtioaux.Payload.{PayloadStatus, is_last, master_payload_max_size}
use madmax_artiq_zynq.Drtioaux.RoutingTable.{RoutingTable, Result}
use madmax_artiq_zynq.Satman.Router.{Router, process, routing_error, repeater, forward, route, send}
use madmax_artiq_zynq.Satman.Sliceable.{SliceMeta}
use madmax_artiq_zynq.Satman.Messages.{front}
use madmax_artiq_zynq.Satman.Library.{add_kernel}
use madmax_artiq_zynq.Satman.Dma.Manager.{DmaWrite}
use madmax_artiq_zynq.Satman.Dma.Manager as DmaManager
use madmax_artiq_zynq.Satman.Dma.Subkernel.{ack_upload, remote_finished}
use madmax_artiq_zynq.Satman.Subkernel.{Manager, Message, Error, Exception, StackPointerBacktrace}
use madmax_artiq_zynq.Satman.Subkernel.State.{
  is_running, get_current_id, load, run, kernel_manager, ddma_nack, exception_get_slice,
  remote_subkernel_finished, message_handle_incoming, message_get_slice, message_ack_slice,
}
use madmax_artiq_zynq.Satman.Subkernel.State
use madmax_artiq_zynq.Satman.Subkernel.Step.{Parts}
use madmax_artiq_zynq.Satman.Subkernel.Requests.{received_exception}

-- The packets sent at once over the uplink are newest first, as are the register writes.
pub record Satellite : Type 0 where
  pub parts : Parts
  pub self_destination : ℕ
  pub uplink : List Packet
  pub dma_writes : List (List DmaWrite)

-- What becomes of a packet.
pub data Handled : Type 0 where
  done : Satellite → Handled
  passed : (repno : ℕ) → Packet → Handled
  refused : Handled

abbrev pub with_manager : Manager → Satellite → Satellite
with_manager m s = record s { parts = record s.parts { manager = m } }

abbrev pub with_dma : DmaManager.Manager → Satellite → Satellite
with_dma dma s = record s { parts = record s.parts { dma = dma } }

unfoldable pub is_ok : {E A : Type 0} → Outcome E A → Result Bool
is_ok (ok a) = ok true
is_ok (err e) = ok false
is_ok panic = panic

abbrev pub no_data : List ℕ
no_data = replicate master_payload_max_size 0

-- `drtioaux_async::send(0, …)`
unfoldable pub send_up : Packet → Satellite → Satellite
send_up packet s = record s { uplink = packet ∷ s.uplink }

module _ ⦃e : ByteOrder⦄
    (report : List (Option Exception) → List StackPointerBacktrace → List (ℕ × ℕ) → Writer)
    (describe : ℕ → Error → List ℕ) (polls now address n_repeaters : ℕ) (table : RoutingTable)
    (rank extended reserved : ℕ) (first_reply second_reply : Message) where
  -- `router.send`
  unfoldable pub reply : Packet → Satellite → Result Satellite
  unfolding send_up
  reply packet s = do
    (router, sent) ← send n_repeaters packet table rank s.parts.router
    let s' = record s { parts = record s.parts { router = router } }
    ok (elim sent [ none ↦ s' | some packet' ↦ send_up packet' s' ])

  -- forward!, and what is done with a packet for this satellite.
  unfoldable pub here :
      (destination : ℕ) → Packet → (Satellite → Result Satellite) → Satellite → Result Handled
  here destination packet body s = do
    decision ← forward n_repeaters table rank destination
    elim decision [
      | process ↦ (do s' ← body s; ok (done s'))
      | repeater repno ↦ ok (passed repno packet)
      | routing_error ↦ ok refused
    ]

  unfoldable pub add_trace :
      (source destination id : ℕ)
      → PayloadStatus
      → (length : ℕ) → List ℕ
      → Satellite
      → Result Satellite
  unfolding reply
  add_trace source destination id status length trace s = do
    dma ← DmaManager.add extended reserved source id status trace length s.parts.dma
    reply (dma_add_trace_reply destination source id true)
        (with_dma dma (record s { self_destination = destination }))

  unfoldable pub trace_added : (source id : ℕ) (succeeded : Bool) → Satellite → Result Satellite
  trace_added source id succeeded s = do
    (dma, m, router) ←
        ack_upload (kernel_manager describe) n_repeaters table rank s.self_destination source id
          succeeded s.parts.dma s.parts.manager s.parts.router
    ok (record s { parts = record { manager = m; router = router; dma = dma } })

  unfoldable pub remove_trace : (source id : ℕ) → Satellite → Result Satellite
  unfolding reply
  remove_trace source id s = elim (DmaManager.erase source id s.parts.dma) [
    | ok dma ↦ reply (dma_remove_trace_reply source true) (with_dma dma s)
    | err e ↦ reply (dma_remove_trace_reply source false) s
    | panic ↦ panic
  ]

  unfoldable pub play : (source id timestamp : ℕ) → Satellite → Result Satellite
  unfolding reply
  play source id timestamp s =
      if not (is_running s.parts.manager.session)
      then elim (DmaManager.playback source id timestamp s.parts.dma) [
        | ok (dma, writes) ↦
            reply (dma_playback_reply source true)
              (with_dma dma (record s { dma_writes = writes ∷ s.dma_writes }))
        | err e ↦ reply (dma_playback_reply source false) s
        | panic ↦ panic
      ]
      else reply (dma_playback_reply source false) s

  unfoldable pub played : (id error channel timestamp : ℕ) → Satellite → Satellite
  played id error channel timestamp s =
      let (dma, m) =
        remote_finished (kernel_manager describe) id error channel timestamp s.parts.dma
          s.parts.manager in
      with_dma dma (with_manager m s)

  -- The reply to the upload of a part of a library is sent over the uplink.
  unfoldable pub add_data :
      (destination id : ℕ) → PayloadStatus → (length : ℕ) → List ℕ → Satellite → Result Satellite
  unfolding send_up
  add_data destination id status length bytes s = do
    kernels ← add_kernel id status bytes length s.parts.manager.kernels
    ok (
        send_up (subkernel_add_data_reply true) (
          with_manager (record s.parts.manager { kernels = kernels })
            (record s { self_destination = destination })))

  -- Whether the request succeeded so far, and the manager.
  unfoldable pub run_if :
      (wanted : Bool) (source id timestamp : ℕ)
      → DmaManager.Manager
      → (succeeded : Bool) → Manager
      → Result (Bool × Manager)
  unfolding is_ok
  run_if false source id timestamp dma succeeded m = ok (succeeded, m)
  run_if true source id timestamp dma succeeded m =
      if DmaManager.running dma
      then ok (false, m)
      else (let (result, m') = run second_reply source id timestamp m in
          do ran ← is_ok result; ok (succeeded || ran, m'))

  unfoldable pub load_run :
      (source id : ℕ) (wanted : Bool) (timestamp : ℕ) → Satellite → Result Satellite
  unfolding run_if reply
  load_run source id wanted timestamp s =
      let (result, m) = load first_reply id s.parts.manager in
      do
        loaded ← is_ok result
        (succeeded, m') ← run_if wanted source id timestamp s.parts.dma loaded m
        reply (subkernel_load_run_reply source succeeded) (with_manager m' s)

  unfoldable pub give_exception : (source : ℕ) → Satellite → Result Satellite
  unfolding reply
  give_exception source s =
      let (meta, data_slice, m) = exception_get_slice no_data s.parts.manager in
      reply (subkernel_exception source (is_last meta.status) meta.len data_slice)
        (with_manager m s)

  unfoldable pub receive_slice : (last : Bool) (length : ℕ) → List ℕ → Satellite → Result Satellite
  receive_slice last length bytes s = do
    exception_data ← front bytes length
    (outcome, parts) ←
        received_exception report describe polls now address n_repeaters table rank
          s.self_destination exception_data last s.parts
    ok (record s { parts = parts })

  unfoldable pub receive_message :
      (source id : ℕ) → PayloadStatus → (length : ℕ) → List ℕ → Satellite → Result Satellite
  unfolding reply
  receive_message source id status length bytes s = do
    m ← message_handle_incoming status id length bytes s.parts.manager
    reply (subkernel_message_ack source) (with_manager m s)

  -- The next slice of the message, routed. `get_current_id().unwrap()`
  unfoldable pub next_slice : Option (SliceMeta × List ℕ) → Satellite → Result Satellite
  next_slice none s = ok s
  next_slice (some (meta, data_slice)) s = elim (get_current_id s.parts.manager) [
    | none ↦ panic
    | some id ↦ (do
      router ←
          route n_repeaters
            (subkernel_message s.self_destination meta.destination id meta.status
              (meta.len % 2 ^ 16) data_slice)
            table rank s.self_destination s.parts.router
      ok (record s { parts = record s.parts { router = router } }))
  ]

  unfoldable pub acknowledge : Satellite → Result Satellite
  unfolding next_slice
  acknowledge s =
      let (more, m) = message_ack_slice s.parts.manager in
      if more
      then (let (taken, m') = message_get_slice no_data m in next_slice taken (with_manager m' s))
      else ok (with_manager m s)

  -- The destination of a packet and what is done with it; nothing for the packets of the other arms.
  unfoldable pub arm_of : Packet → Option (ℕ × (Satellite → Result Satellite))
  unfolding add_trace trace_added remove_trace play played add_data load_run give_exception
      receive_slice receive_message acknowledge
  arm_of packet = elim packet [
    | dma_add_trace_request source destination id status length trace ↦
        some (destination, (add_trace source destination id status length trace))
    | dma_add_trace_reply source destination id succeeded ↦
        some (destination, (trace_added source id succeeded))
    | dma_remove_trace_request source destination id ↦ some (destination, (remove_trace source id))
    | dma_remove_trace_reply destination succeeded ↦ some (destination, λ s. ok s)
    | dma_playback_request source destination id timestamp ↦
        some (destination, (play source id timestamp))
    | dma_playback_reply destination succeeded ↦ some (
      destination,
      (λ s. ok (if not succeeded then with_manager (ddma_nack s.parts.manager) s else s)),
    )
    | dma_playback_status source destination id error channel timestamp ↦
        some (destination, (λ s. ok (played id error channel timestamp s)))
    | subkernel_add_data_request destination id status length bytes ↦
        some (destination, (add_data destination id status length bytes))
    | subkernel_load_run_request source destination id wanted timestamp ↦
        some (destination, (load_run source id wanted timestamp))
    | subkernel_load_run_reply destination succeeded ↦ some (
      destination,
      (λ s. ok (with_manager (State.subkernel_load_run_reply succeeded s.parts.manager) s)),
    )
    | subkernel_finished destination id with_exception exception_src ↦ some (
      destination,
      (λ s. ok (
          with_manager (remote_subkernel_finished id with_exception exception_src s.parts.manager)
            s)),
    )
    | subkernel_exception_request source destination ↦ some (destination, (give_exception source))
    | subkernel_exception destination last length bytes ↦
        some (destination, (receive_slice last length bytes))
    | subkernel_message source destination id status length bytes ↦
        some (destination, (receive_message source id status length bytes))
    | subkernel_message_ack destination ↦ some (destination, acknowledge)
    | _ ↦ none
  ]

  unfoldable pub handle : Packet → Satellite → Option (Result Handled)
  unfolding here arm_of
  handle packet s = elim (arm_of packet) [
    | none ↦ none
    | some (destination, body) ↦ some (here destination packet body s)
  ]
