-- ===== src/Satman/Handlers/LoadRun.antt =====
-- src/satman/src/drtiosat_aux.rs: a request to load and run a kernel.
use madmax_artiq_zynq.Base.{ℕ, ◌≡◌, refl, ap, ◌∙◌, true, false, Option, some, List}
use madmax_artiq_zynq.Outcome.{ok, err}
use madmax_artiq_zynq.TreeMap.{get, numbers}
use madmax_artiq_zynq.Io.Proto.{ByteOrder, Writer}
use madmax_artiq_zynq.Drtioaux.Packet.{subkernel_load_run_reply}
use madmax_artiq_zynq.Drtioaux.RoutingTable.{RoutingTable}
use madmax_artiq_zynq.Satman.Library.{KernelLibrary}
use madmax_artiq_zynq.Satman.Dma.Manager as DmaManager
use madmax_artiq_zynq.Satman.Subkernel.{
  Manager, Message, Error, Exception, StackPointerBacktrace, load_completed, new_session,
}
use madmax_artiq_zynq.Satman.Subkernel.State.{
  is_running, is_loaded, load, load_reply, run, start_if,
}
use madmax_artiq_zynq.Satman.Subkernel.Keeps.{IsSound}
use madmax_artiq_zynq.Satman.Subkernel.Loads.{with_kernel, not_loaded, load_lem, if_false}
use madmax_artiq_zynq.Satman.Handlers.{Satellite, with_manager, is_ok, reply, load_run, run_if}

-- The kernel cannot be loaded a second time.
reload_lem :
    (second_reply : Message) (id : ℕ) (m : Manager) (kernel : KernelLibrary)
    → IsSound m.session
    → get id m.kernels ≡ some kernel
    → kernel.complete ≡ true
    → load_reply second_reply ≡ err Error.load
    → load second_reply id m ≡ (err Error.load, with_kernel kernel.library id m)
unfolding load
reload_lem second_reply id m kernel sound found complete failed =
    rw (not_loaded id m.session sound, found, complete, failed) refl

rerun_lem :
    (second_reply : Message) (source id timestamp : ℕ) (m : Manager) (kernel : KernelLibrary)
    → IsSound m.session
    → get id m.kernels ≡ some kernel
    → kernel.complete ≡ true
    → load_reply second_reply ≡ err Error.load
    → run second_reply source id timestamp m ≡ (err Error.load, with_kernel kernel.library id m)
unfolding run start_if
rerun_lem second_reply source id timestamp m kernel sound found complete failed =
    ap (start_if source timestamp) (
      if_false (is_loaded id m.session) (ok tt, m) (load second_reply id m)
        (not_loaded id m.session sound)
      ∙ reload_lem second_reply id m kernel sound found complete failed)

module _ ⦃e : ByteOrder⦄
    (report : List (Option Exception) → List StackPointerBacktrace → List (ℕ × ℕ) → Writer)
    (describe : ℕ → Error → List ℕ) (polls now address n_repeaters : ℕ) (table : RoutingTable)
    (rank extended reserved : ℕ) where
  -- A kernel that is there is loaded, and when it is to run, no trace is played and the second load fails:
  -- the reply says that the request succeeded, and the kernel does not run.
  pub load_run-failed :
      (second_reply : Message) (source id timestamp : ℕ) (s : Satellite) (kernel : KernelLibrary)
      → IsSound s.parts.manager.session
      → get id s.parts.manager.kernels ≡ some kernel
      → kernel.complete ≡ true
      → DmaManager.running s.parts.dma ≡ false
      → load_reply second_reply ≡ err Error.load
      → (let m = with_kernel kernel.library id (with_kernel kernel.library id s.parts.manager) in
          (load_run report describe polls now address n_repeaters table rank extended reserved
              load_completed second_reply source id true timestamp s
            ≡ reply report describe polls now address n_repeaters table rank extended reserved
                load_completed second_reply
                (subkernel_load_run_reply source true)
                (with_manager m s))
          × (is_running m.session ≡ false))
  unfolding load_run run_if is_ok is_running new_session
  load_run-failed second_reply source id timestamp s kernel sound found complete idle failed = (
    rw
        (
          load_lem id s.parts.manager kernel sound found complete,
          idle,
          rerun_lem second_reply source id timestamp (with_kernel kernel.library id s.parts.manager)
              kernel tt found complete failed,
        )
        refl,
    refl,
  )
