-- ===== src/Satman/Dma/Subkernel.antt =====
-- src/satman/src/dma.rs, Manager: what a subkernel asks of the traces, and the replies of the satellites
-- that play the remote ones. The manager of kernels (src/satman/src/subkernel.rs) is an interface: the
-- two operations that the traces call.
use madmax_artiq_zynq.Base.{
  ℕ, ◌+◌, ◌-◌, ◌%◌, ◌^◌, Bool, not, ◌||◌, Option, none, some, List, [], ◌∷◌, ◌==◌, if◌then◌else◌,
  replicate,
}
use madmax_artiq_zynq.Outcome.{Outcome, ok, err, ◌>>=◌}
use madmax_artiq_zynq.TreeMap.{get, insert, remove, numbers, pairs, names}
use madmax_artiq_zynq.Drtioaux.Packet.{dma_add_trace_request}
use madmax_artiq_zynq.Drtioaux.Payload.{master_payload_max_size}
use madmax_artiq_zynq.Drtioaux.RoutingTable.{RoutingTable, Result}
use madmax_artiq_zynq.Satman.Router.{Router, route}
use madmax_artiq_zynq.Satman.Sliceable.{Sliceable, at_end, get_slice_master}
use madmax_artiq_zynq.Satman.Dma.Remote.{
  RemoteTraceState, unsent, ready, sending, running, RemoteTraces,
}
use madmax_artiq_zynq.Satman.Dma.Remote
use madmax_artiq_zynq.Satman.Dma.Manager.{Manager, Error, id_not_found, of_panic}

pub record KernelManager (K : Type 0) : Type 0 where
  pub ddma_remote_uploaded : Bool → K → Option (ℕ × ℕ) × K
  pub ddma_finished : (error channel timestamp : ℕ) → K → K

module _ (n_repeaters : ℕ) (table : RoutingTable) (rank self_destination : ℕ) where
  -- The remote traces of an id erased and forgotten, and its local entry.
  unfoldable pub forget : ℕ → Manager → Router → Result (Manager × Router)
  forget id m router =
      let local = record m { entries = remove (self_destination, id) m.entries } in
      elim (get id m.remote_entries) [
        | none ↦ ok (local, router)
        | some traces ↦ (do
          router' ← Remote.erase n_repeaters table rank self_destination id traces router
          ok (record local { remote_entries = remove id m.remote_entries }, router'))
      ]

  unfoldable pub erase_name : List ℕ → Manager → Router → Result (Manager × Router)
  unfolding forget
  erase_name name m router = elim (get name m.name_map) [
    | none ↦ ok (m, router)
    | some id ↦ (do
      (m', router') ← forget id m router
      ok (record m' { name_map = remove name m'.name_map }, router'))
  ]

  unfoldable pub cleanup_loop : List (List ℕ × ℕ) → Manager → Router → Result (Manager × Router)
  cleanup_loop [] m router = ok (m, router)
  cleanup_loop ((name, id) ∷ named) m router = do
    (m', router') ← forget id m router
    cleanup_loop named m' router'

  unfoldable pub cleanup : Manager → Router → Result (Manager × Router)
  unfolding cleanup_loop
  cleanup m router = do
    (m', router') ← cleanup_loop m.name_map m router
    ok (record m' { name_map = [] }, router')

  unfoldable pub upload_traces : ℕ → Manager → Router → Result (ℕ × Manager × Router)
  upload_traces id m router = elim (get id m.remote_entries) [
    | none ↦ ok (0, m, router)
    | some traces ↦ (do
      (len, traces', router') ←
          Remote.upload_traces n_repeaters table rank self_destination id traces router
      ok (len, record m { remote_entries = insert id traces' m.remote_entries }, router'))
  ]

  unfoldable pub playback_remote : ℕ → ℕ → Manager → Router → Outcome Error (Manager × Router)
  unfolding of_panic
  playback_remote id timestamp m router = elim (get id m.remote_entries) [
    | none ↦ err id_not_found
    | some traces ↦ (do
      (traces', router') ←
          of_panic
            (Remote.playback n_repeaters table rank self_destination id timestamp traces router)
      ok (record m { remote_entries = insert id traces' m.remote_entries }, router'))
  ]

-- `count - 1` on usize, without overflow checks.
unfoldable pub one_less : ℕ → ℕ
one_less count = (count + (2 ^ 32 - 1)) % 2 ^ 32

module _ {K : Type 0} (kernels : KernelManager K) where
  -- RemoteTraces::ack_upload, where `source` has a trace and traces are being sent.
  unfoldable pub ack_trace :
      ℕ
      → RoutingTable
      → ℕ
      → ℕ
      → ℕ
      → ℕ
      → Bool
      → ℕ
      → Sliceable
      → RemoteTraces
      → K
      → Router
      → Result (RemoteTraces × K × Router)
  ack_trace n_repeaters table rank self_destination source id succeeded count trace r kernel
        router =
      let (meta, data_slice, trace') =
        get_slice_master trace (replicate master_payload_max_size 0) in
      let (start, kernel') = kernels.ddma_remote_uploaded succeeded kernel in
      let routed =
        route n_repeaters
          (dma_add_trace_request self_destination meta.destination id meta.status meta.len
            data_slice)
          table rank self_destination router in
      if not (at_end trace)
      then (do
        router' ← routed
        ok (record r { remote_traces = insert source trace' r.remote_traces }, kernel, router'))
      else if not (one_less count == 0)
      then ok (record r { state = sending (one_less count) }, kernel, router)
      else elim start [
        | none ↦ ok (record r { state = ready }, kernel', router)
        | some (id', timestamp) ↦ (do
          (r', router') ←
              Remote.playback n_repeaters table rank self_destination id' timestamp r router
          ok (r', kernel', router'))
      ]

  unfoldable pub ack_remote :
      ℕ
      → RoutingTable
      → ℕ
      → ℕ
      → ℕ
      → ℕ
      → Bool
      → RemoteTraces
      → K
      → Router
      → Result (RemoteTraces × K × Router)
  unfolding ack_trace
  ack_remote n_repeaters table rank self_destination source id succeeded r kernel router =
      elim r.state [
        | sending count ↦ (elim (get source r.remote_traces) [
          | none ↦ ok (r, kernel, router)
          | some trace ↦
              ack_trace n_repeaters table rank self_destination source id succeeded count trace r
                kernel router
        ])
        | _ ↦ ok (r, kernel, router)
      ]

  unfoldable pub ack_upload :
      ℕ → RoutingTable → ℕ → ℕ → ℕ → ℕ → Bool → Manager → K → Router → Result (Manager × K × Router)
  unfolding ack_remote
  ack_upload n_repeaters table rank self_destination source id succeeded m kernel router =
      elim (get id m.remote_entries) [
        | none ↦ ok (m, kernel, router)
        | some r ↦ (do
          (r', kernel', router') ←
              ack_remote n_repeaters table rank self_destination source id succeeded r kernel router
          ok (record m { remote_entries = insert id r' m.remote_entries }, kernel', router'))
      ]

  unfoldable pub finished_remote :
      (error channel timestamp : ℕ) → RemoteTraces → K → RemoteTraces × K
  finished_remote error channel timestamp r kernel = elim r.state [
    | running count ↦
        if not (error == 0) || (one_less count == 0)
        then (record r { state = ready }, kernels.ddma_finished error channel timestamp kernel)
        else (record r { state = running (one_less count) }, kernel)
    | _ ↦ (r, kernel)
  ]

  unfoldable pub remote_finished : (id error channel timestamp : ℕ) → Manager → K → Manager × K
  unfolding finished_remote
  remote_finished id error channel timestamp m kernel = elim (get id m.remote_entries) [
    | none ↦ (m, kernel)
    | some r ↦
        (let (r', kernel') = finished_remote error channel timestamp r kernel in
          (record m { remote_entries = insert id r' m.remote_entries }, kernel'))
  ]
