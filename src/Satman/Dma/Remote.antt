-- ===== src/Satman/Dma/Remote.antt =====
-- src/satman/src/dma.rs, RemoteTraces: the parts of a trace that other satellites play, and the requests
-- to them, which are routed.
use madmax_artiq_zynq.Base.{ℕ, Bool, List, [], ◌∷◌, ltb, length, replicate, if◌then◌else◌}
use madmax_artiq_zynq.Outcome.{ok, ◌>>=◌}
use madmax_artiq_zynq.Drtioaux.Packet.{
  dma_add_trace_request, dma_playback_request, dma_remove_trace_request,
}
use madmax_artiq_zynq.Drtioaux.Payload.{master_payload_max_size}
use madmax_artiq_zynq.Drtioaux.RoutingTable.{RoutingTable, Result}
use madmax_artiq_zynq.Satman.Router.{Router, route}
use madmax_artiq_zynq.Satman.Sliceable.{Sliceable, get_slice_master}

pub data RemoteTraceState : Type 0 where
  unsent ready : RemoteTraceState
  sending running : (count : ℕ) → RemoteTraceState

pub record RemoteTraces : Type 0 where
  pub remote_traces : List (ℕ × Sliceable)
  pub state : RemoteTraceState

unfoldable pub new : List (ℕ × Sliceable) → RemoteTraces
new traces = record { remote_traces = traces; state = unsent }

unfoldable pub has_remote_traces : RemoteTraces → Bool
has_remote_traces r = ltb 0 (length r.remote_traces)

module _ (n_repeaters : ℕ) (table : RoutingTable) (rank self_destination : ℕ) where
  -- The first slice of every trace; the rest follows after the acknowledgements.
  unfoldable pub upload_loop :
      ℕ → List (ℕ × Sliceable) → Router → Result (List (ℕ × Sliceable) × Router)
  upload_loop id [] router = ok ([], router)
  upload_loop id ((dest, trace) ∷ traces) router =
      let (meta, data_slice, trace') =
        get_slice_master trace (replicate master_payload_max_size 0) in
      do
        router' ←
            route n_repeaters
              (dma_add_trace_request self_destination dest id meta.status meta.len data_slice) table
              rank self_destination router
        (traces', router'') ← upload_loop id traces router'
        ok ((dest, trace') ∷ traces', router'')

  unfoldable pub upload_traces : ℕ → RemoteTraces → Router → Result (ℕ × RemoteTraces × Router)
  unfolding upload_loop
  upload_traces id r router =
      let len = length r.remote_traces in
      let uploaded = upload_loop id r.remote_traces router in
      if ltb 0 len
      then (do
        (traces, router') ← uploaded
        ok (len, record { remote_traces = traces; state = sending len }, router'))
      else ok (len, r, router)

  unfoldable pub playback_loop : ℕ → ℕ → List (ℕ × Sliceable) → Router → Result Router
  playback_loop id timestamp [] router = ok router
  playback_loop id timestamp ((dest, trace) ∷ traces) router = do
    router' ←
        route n_repeaters (dma_playback_request self_destination dest id timestamp) table rank
          self_destination router
    playback_loop id timestamp traces router'

  unfoldable pub playback : ℕ → ℕ → RemoteTraces → Router → Result (RemoteTraces × Router)
  unfolding playback_loop
  playback id timestamp r router = do
    router' ← playback_loop id timestamp r.remote_traces router
    ok (record r { state = running (length r.remote_traces) }, router')

  unfoldable pub erase_loop : ℕ → List (ℕ × Sliceable) → Router → Result Router
  erase_loop id [] router = ok router
  erase_loop id ((dest, trace) ∷ traces) router = do
    router' ←
        route n_repeaters (dma_remove_trace_request self_destination dest id) table rank
          self_destination router
    erase_loop id traces router'

  unfoldable pub erase : ℕ → RemoteTraces → Router → Result Router
  unfolding erase_loop
  erase id r router = erase_loop id r.remote_traces router
