-- ===== src/Satman/Subkernel/Loads.antt =====
-- src/satman/src/subkernel.rs: how often a kernel is loaded.
use madmax_artiq_zynq.Base.{
  ℕ, ◌≡◌, refl, ◌∙◌, ap, Bool, true, false, Option, some, List, [], ◌∷◌, if◌then◌else◌, arith,
}
use madmax_artiq_zynq.Outcome.{ok}
use madmax_artiq_zynq.TreeMap.{get, numbers}
use madmax_artiq_zynq.Io.Proto.{ByteOrder, Writer}
use madmax_artiq_zynq.Drtioaux.RoutingTable.{RoutingTable}
use madmax_artiq_zynq.Satman.Library.{KernelLibrary}
use madmax_artiq_zynq.Satman.Subkernel.{
  Manager, Session, Exception, StackPointerBacktrace, Error, load_completed, load_request,
  start_request, new_session,
}
use madmax_artiq_zynq.Satman.Subkernel.State.{
  is_loaded, load_reply, send, load, start, start_if, run,
}
use madmax_artiq_zynq.Satman.Subkernel.Step.{Parts}
use madmax_artiq_zynq.Satman.Subkernel.Keeps.{IsSound}
use madmax_artiq_zynq.Satman.Subkernel.Reachable.{Reachable, Reachable-IsSound}

pub not_loaded : (id : ℕ) (s : Session) → IsSound s → is_loaded id s ≡ false
unfolding is_loaded
not_loaded id s sound = ground arith

-- After a kernel was loaded.
abbrev pub with_kernel : (library : List ℕ) (id : ℕ) → Manager → Manager
with_kernel library id m =
    send (load_request library)
      (record m { session = new_session id; control = record m.control { rx = [] } })

pub load_lem :
    (id : ℕ) (m : Manager) (kernel : KernelLibrary)
    → IsSound m.session
    → get id m.kernels ≡ some kernel
    → kernel.complete ≡ true
    → load load_completed id m ≡ (ok tt, with_kernel kernel.library id m)
unfolding load load_reply
load_lem id m kernel sound found complete = rw (not_loaded id m.session sound, found, complete) refl

pub if_false : {A : Type 0} (c : Bool) (a b : A) → c ≡ false → (if c then a else b) ≡ b
if_false c a b e = rw e refl

run_lem :
    (source id timestamp : ℕ) (m : Manager) (kernel : KernelLibrary)
    → IsSound m.session
    → get id m.kernels ≡ some kernel
    → kernel.complete ≡ true
    → run load_completed source id timestamp m
      ≡ (ok tt, start source timestamp (with_kernel kernel.library id m))
unfolding run start_if
run_lem source id timestamp m kernel sound found complete = ap (start_if source timestamp) (
    if_false (is_loaded id m.session) (ok tt, m) (load load_completed id m)
      (not_loaded id m.session sound)
    ∙ load_lem id m kernel sound found complete)

module _ ⦃e : ByteOrder⦄
    (report : List (Option Exception) → List StackPointerBacktrace → List (ℕ × ℕ) → Writer)
    (describe : ℕ → Error → List ℕ) (n_repeaters : ℕ) (table : RoutingTable)
    (rank self_destination : ℕ) where
  -- Two loads: in a state that can be reached, a kernel that has just been loaded is loaded again when it
  -- is run, since nothing notes that it is there.
  pub load-run :
      (p : Parts) (kernel : KernelLibrary) (source id timestamp : ℕ)
      → Reachable report describe n_repeaters table rank self_destination p
      → get id p.manager.kernels ≡ some kernel
      → kernel.complete ≡ true
      → (run load_completed source id timestamp (load load_completed id p.manager).1).1.control.tx
        ≡ start_request
          ∷ load_request kernel.library
          ∷ load_request kernel.library
          ∷ p.manager.control.tx
  unfolding start new_session
  load-run p kernel source id timestamp r found complete =
      rw
        (load_lem id p.manager kernel
          (Reachable-IsSound report describe n_repeaters table rank self_destination p r) found
          complete)
        (ap (λ x. x.1.control.tx)
          (run_lem source id timestamp (with_kernel kernel.library id p.manager) kernel tt found
            complete))
