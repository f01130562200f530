-- ===== src/Satman/Dma/Kept.antt =====
-- src/satman/src/dma.rs: what subkernels ask for, and the replies of other satellites, leave the entries
-- playable.
use madmax_artiq_zynq.Base.{ℕ, Bool, inl, inr, List, [], ◌∷◌, Option-cases}
use madmax_artiq_zynq.Outcome.{Ensures, Ensures-bind, Ensures-any}
use madmax_artiq_zynq.TreeMap.{get, numbers, pairs, names}
use madmax_artiq_zynq.Drtioaux.RoutingTable.{RoutingTable}
use madmax_artiq_zynq.Satman.Router.{Router}
use madmax_artiq_zynq.Satman.Dma.Remote
use madmax_artiq_zynq.Satman.Dma.Manager.{Manager, of_panic}
use madmax_artiq_zynq.Satman.Dma.Playable.{IsWellFormed, remove_lem}
use madmax_artiq_zynq.Satman.Dma.Subkernel.{
  KernelManager, forget, erase_name, cleanup_loop, cleanup, upload_traces, playback_remote,
  ack_upload, ack_remote, remote_finished,
}

module _ (n_repeaters : ℕ) (table : RoutingTable) (rank self_destination : ℕ) where
  forget_keeps :
      (id : ℕ) (m : Manager) (router : Router)
      → IsWellFormed m
      → Ensures (λ x. IsWellFormed x.0) (forget n_repeaters table rank self_destination id m router)
  unfolding forget
  forget_keeps id m router wf = elim (Option-cases (get id m.remote_entries)) [
    | inl h ↦ rw (forget, h) (remove_lem (self_destination, id) m wf)
    | inr (traces, h) ↦
        rw (forget, h)
          (Ensures-bind _ (λ x. IsWellFormed x.0)
            (Remote.erase n_repeaters table rank self_destination id traces router) _
            (Ensures-any (Remote.erase n_repeaters table rank self_destination id traces router))
            (λ router' any. remove_lem (self_destination, id) m wf))
  ]

  pub erase_name_keeps :
      (name : List ℕ) (m : Manager) (router : Router)
      → IsWellFormed m
      → Ensures
          (λ x. IsWellFormed x.0)
          (erase_name n_repeaters table rank self_destination name m router)
  unfolding erase_name
  erase_name_keeps name m router wf = elim (Option-cases (get name m.name_map)) [
    | inl h ↦ rw (erase_name, h) wf
    | inr (id, h) ↦
        rw (erase_name, h)
          (Ensures-bind (λ x. IsWellFormed x.0) (λ x. IsWellFormed x.0)
            (forget n_repeaters table rank self_destination id m router) _
            (forget_keeps id m router wf) (λ x wf'. wf'))
  ]

  cleanup_loop_keeps :
      (named : List (List ℕ × ℕ)) (m : Manager) (router : Router)
      → IsWellFormed m
      → Ensures
          (λ x. IsWellFormed x.0)
          (cleanup_loop n_repeaters table rank self_destination named m router)
  unfolding cleanup_loop
  cleanup_loop_keeps [] m router wf = wf
  cleanup_loop_keeps ((name, id) ∷ named) m router wf =
      Ensures-bind (λ x. IsWellFormed x.0) (λ x. IsWellFormed x.0)
        (forget n_repeaters table rank self_destination id m router) _ (forget_keeps id m router wf)
        (λ x wf'. cleanup_loop_keeps named x.0 x.1 wf')

  pub cleanup_keeps :
      (m : Manager) (router : Router)
      → IsWellFormed m
      → Ensures (λ x. IsWellFormed x.0) (cleanup n_repeaters table rank self_destination m router)
  unfolding cleanup
  cleanup_keeps m router wf =
      Ensures-bind (λ x. IsWellFormed x.0) (λ x. IsWellFormed x.0)
        (cleanup_loop n_repeaters table rank self_destination m.name_map m router) _
        (cleanup_loop_keeps m.name_map m router wf) (λ x wf'. wf')

  pub upload_traces_keeps :
      (id : ℕ) (m : Manager) (router : Router)
      → IsWellFormed m
      → Ensures
          (λ x. IsWellFormed x.1)
          (upload_traces n_repeaters table rank self_destination id m router)
  unfolding upload_traces
  upload_traces_keeps id m router wf = elim (Option-cases (get id m.remote_entries)) [
    | inl h ↦ rw (upload_traces, h) wf
    | inr (traces, h) ↦
        rw (upload_traces, h)
          (Ensures-bind _ (λ x. IsWellFormed x.1)
            (Remote.upload_traces n_repeaters table rank self_destination id traces router) _
            (Ensures-any
              (Remote.upload_traces n_repeaters table rank self_destination id traces router))
            (λ x any. wf))
  ]

  pub playback_remote_keeps :
      (id timestamp : ℕ) (m : Manager) (router : Router)
      → IsWellFormed m
      → Ensures
          (λ x. IsWellFormed x.0)
          (playback_remote n_repeaters table rank self_destination id timestamp m router)
  unfolding playback_remote
  playback_remote_keeps id timestamp m router wf = elim (Option-cases (get id m.remote_entries)) [
    | inl h ↦ rw (playback_remote, h) tt
    | inr (traces, h) ↦
        rw (playback_remote, h)
          (Ensures-bind _ (λ x. IsWellFormed x.0)
            (of_panic
              (Remote.playback n_repeaters table rank self_destination id timestamp traces router))
            _
            (Ensures-any (
              of_panic (
                Remote.playback n_repeaters table rank self_destination id timestamp traces
                  router)))
            (λ x any. wf))
  ]

  module _ {K : Type 0} (kernels : KernelManager K) where
    pub ack_upload_keeps :
        (source id : ℕ) (succeeded : Bool) (m : Manager) (kernel : K) (router : Router)
        → IsWellFormed m
        → Ensures
            (λ x. IsWellFormed x.0)
            (ack_upload kernels n_repeaters table rank self_destination source id succeeded m kernel
              router)
    unfolding ack_upload
    ack_upload_keeps source id succeeded m kernel router wf =
        elim (Option-cases (get id m.remote_entries)) [
          | inl h ↦ rw (ack_upload, h) wf
          | inr (r, h) ↦
              rw (ack_upload, h)
                (Ensures-bind _ (λ x. IsWellFormed x.0)
                  (ack_remote kernels n_repeaters table rank self_destination source id succeeded r
                    kernel router)
                  _
                  (Ensures-any (
                    ack_remote kernels n_repeaters table rank self_destination source id succeeded r
                      kernel router))
                  (λ x any. wf))
        ]

pub remote_finished_keeps :
    {K : Type 0} (kernels : KernelManager K) (id error channel timestamp : ℕ) (m : Manager)
    (kernel : K)
    → IsWellFormed m
    → IsWellFormed ((remote_finished kernels id error channel timestamp m kernel).0)
unfolding remote_finished
remote_finished_keeps kernels id error channel timestamp m kernel wf =
    elim (Option-cases (get id m.remote_entries)) [
      | inl h ↦ rw (remote_finished, h) wf
      | inr (r, h) ↦ rw (remote_finished, h) wf
    ]
