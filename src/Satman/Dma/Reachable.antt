-- ===== src/Satman/Dma/Reachable.antt =====
-- src/satman/src/dma.rs: the managers that the operations make.
use madmax_artiq_zynq.Base.{ℕ, ◌≡◌, subst, sym, ap, ◌∙◌, Bool, List}
use madmax_artiq_zynq.Outcome.{ok, Ensures}
use madmax_artiq_zynq.TreeMap.{get, pairs}
use madmax_artiq_zynq.Drtioaux.Payload.{PayloadStatus}
use madmax_artiq_zynq.Drtioaux.RoutingTable.{RoutingTable}
use madmax_artiq_zynq.Satman.Dma.Manager.{
  Manager, ManagerState, idle, playing, is_idle, Error, playback_in_progress, id_not_found,
  entry_not_complete, DmaWrite, base_address, time_offset, selected, enable, error_clear, of_panic,
  open_entry, record_loop, add, erase, put_record, playback, check_state,
}
use madmax_artiq_zynq.Satman.Dma.Manager
use madmax_artiq_zynq.Satman.Router.{Router}
use madmax_artiq_zynq.Satman.Dma.Subkernel.{
  KernelManager, erase_name, cleanup, upload_traces, playback_remote, ack_upload, remote_finished,
}
use madmax_artiq_zynq.Satman.Dma.Playable.{
  IsWellFormed, Keeps, add-IsWellFormed, erase-IsWellFormed, put_record-IsWellFormed,
  playback-Keeps, check_state_keeps, same_entries,
}
use madmax_artiq_zynq.Satman.Dma.Kept.{
  erase_name_keeps, cleanup_keeps, upload_traces_keeps, playback_remote_keeps, ack_upload_keeps,
  remote_finished_keeps,
}

-- The operations of the manager that return, with the manager before and after.
pub data Step : Manager → Manager → Type 1 where
  added :
      {m m' : Manager} (extended reserved source id : ℕ) (status : PayloadStatus) (bytes : List ℕ)
      (len : ℕ)
      → add extended reserved source id status bytes len m ≡ ok m'
      → Step m m'
  erased : {m m' : Manager} (source id : ℕ) → erase source id m ≡ ok m' → Step m m'
  recorded :
      {m m' : Manager} (address : ℕ) (buffer name : List ℕ) (duration self_destination key : ℕ)
      → put_record address buffer name duration self_destination m ≡ ok (key, m')
      → Step m m'
  started :
      {m m' : Manager} (source id timestamp : ℕ) (writes : List DmaWrite)
      → playback source id timestamp m ≡ ok (m', writes)
      → Step m m'
  polled :
      {m m' : Manager} (enabled error channel timestamp : ℕ)
      → (check_state enabled error channel timestamp m).1 ≡ m'
      → Step m m'
  name_erased :
      {m m' : Manager} (n_repeaters : ℕ) (table : RoutingTable) (rank self_destination : ℕ)
      (name : List ℕ) (router router' : Router)
      → erase_name n_repeaters table rank self_destination name m router ≡ ok (m', router')
      → Step m m'
  cleaned :
      {m m' : Manager} (n_repeaters : ℕ) (table : RoutingTable) (rank self_destination : ℕ)
      (router router' : Router)
      → cleanup n_repeaters table rank self_destination m router ≡ ok (m', router')
      → Step m m'
  uploaded :
      {m m' : Manager} (n_repeaters : ℕ) (table : RoutingTable) (rank self_destination id len : ℕ)
      (router router' : Router)
      → upload_traces n_repeaters table rank self_destination id m router ≡ ok (len, m', router')
      → Step m m'
  played_remote :
      {m m' : Manager} (n_repeaters : ℕ) (table : RoutingTable)
      (rank self_destination id timestamp : ℕ) (router router' : Router)
      → playback_remote n_repeaters table rank self_destination id timestamp m router
        ≡ ok (m', router')
      → Step m m'
  acknowledged :
      {m m' : Manager} (K : Type 0) (kernels : KernelManager K) (n_repeaters : ℕ)
      (table : RoutingTable) (rank self_destination source id : ℕ) (succeeded : Bool)
      (kernel kernel' : K) (router router' : Router)
      → ack_upload kernels n_repeaters table rank self_destination source id succeeded m kernel
          router
        ≡ ok (m', kernel', router')
      → Step m m'
  finished :
      {m m' : Manager} (K : Type 0) (kernels : KernelManager K) (id error channel timestamp : ℕ)
      (kernel : K)
      → (remote_finished kernels id error channel timestamp m kernel).0 ≡ m'
      → Step m m'

pub data Reachable : Manager → Type 1 where
  initial : Reachable Manager.new
  later : {m m' : Manager} → Reachable m → Step m m' → Reachable m'

Step-IsWellFormed : (m m' : Manager) → Step m m' → IsWellFormed m → IsWellFormed m'
Step-IsWellFormed m m' (added extended reserved source id status bytes len e) wf =
    add-IsWellFormed extended reserved source id status bytes len m m' e wf
Step-IsWellFormed m m' (erased source id e) wf = erase-IsWellFormed source id m m' e wf
Step-IsWellFormed m m' (recorded address buffer name duration self_destination key e) wf =
    put_record-IsWellFormed address buffer name duration self_destination key m m' e wf
Step-IsWellFormed m m' (started source id timestamp writes e) wf =
    same_entries m m' (subst (Keeps m) e (playback-Keeps source id timestamp m)) wf
Step-IsWellFormed m m' (polled enabled error channel timestamp e) wf =
    same_entries m m'
      (ap (λ x. x.entries) (sym e) ∙ check_state_keeps enabled error channel timestamp m) wf
Step-IsWellFormed m m' (name_erased n table rank self_destination name router router' e) wf =
    subst (Ensures (λ x. IsWellFormed x.0)) e
      (erase_name_keeps n table rank self_destination name m router wf)
Step-IsWellFormed m m' (cleaned n table rank self_destination router router' e) wf =
    subst (Ensures (λ x. IsWellFormed x.0)) e
      (cleanup_keeps n table rank self_destination m router wf)
Step-IsWellFormed m m' (uploaded n table rank self_destination id len router router' e) wf =
    subst (Ensures (λ x. IsWellFormed x.1)) e
      (upload_traces_keeps n table rank self_destination id m router wf)
Step-IsWellFormed m m' (played_remote n table rank self_destination id timestamp router router' e)
      wf =
    subst (Ensures (λ x. IsWellFormed x.0)) e
      (playback_remote_keeps n table rank self_destination id timestamp m router wf)
Step-IsWellFormed m m'
      (acknowledged K kernels n table rank self_destination source id succeeded kernel kernel'
        router router' e)
      wf =
    subst (Ensures (λ x. IsWellFormed x.0)) e (
      ack_upload_keeps n table rank self_destination kernels source id succeeded m kernel router wf)
Step-IsWellFormed m m' (finished K kernels id error channel timestamp kernel e) wf =
    subst IsWellFormed e (remote_finished_keeps kernels id error channel timestamp m kernel wf)

pub Reachable-IsWellFormed : (m : Manager) → Reachable m → IsWellFormed m
unfolding Manager.new get
Reachable-IsWellFormed m initial = λ key entry h. absurd (cc h)
Reachable-IsWellFormed m (later {m = before} reachable step) =
    Step-IsWellFormed before m step (Reachable-IsWellFormed before reachable)
