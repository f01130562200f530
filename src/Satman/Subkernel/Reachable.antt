-- ===== src/Satman/Subkernel/Reachable.antt =====
-- src/satman/src/subkernel.rs: the states of the manager that its operations lead to, in any order.
use madmax_artiq_zynq.Base.{ℕ, ◌≡◌, refl, Bool, true, false, Option, none, some, List}
use madmax_artiq_zynq.Outcome.{Outcome, ok, err, panic, IsOk, Ensures, ok_inv, ok_injective}
use madmax_artiq_zynq.Outcome
use madmax_artiq_zynq.TreeMap.{numbers}
use madmax_artiq_zynq.Io.Proto.{ByteOrder, Writer}
use madmax_artiq_zynq.Drtioaux.Payload.{PayloadStatus}
use madmax_artiq_zynq.Drtioaux.Packet.{subkernel_exception_request}
use madmax_artiq_zynq.Drtioaux.RoutingTable.{RoutingTable, Result}
use madmax_artiq_zynq.Satman.Router.{Router, route}
use madmax_artiq_zynq.Satman.Library.{Kernels}
use madmax_artiq_zynq.Satman.Dma.Manager as DmaManager
use madmax_artiq_zynq.Satman.Subkernel.{
  Manager, Control, Exception, StackPointerBacktrace, KernelState, Error,
  subkernel_retrieving_exception, new, new_session,
}
use madmax_artiq_zynq.Satman.Subkernel.State.{message_handle_incoming}
use madmax_artiq_zynq.Satman.Subkernel.Step.{Parts, Answer, Step, ◌>>=◌, pure, update, send_packet}
use madmax_artiq_zynq.Satman.Subkernel.Requests.{take_exception, take_slice, received_exception}
use madmax_artiq_zynq.Satman.Subkernel.Turn.{process_kern_requests}
use madmax_artiq_zynq.Satman.Subkernel.Keeps.{IsConsistent, IsSound, Keeps}
use madmax_artiq_zynq.Satman.Subkernel.Sound.Waits.{Keeps-received}
use madmax_artiq_zynq.Satman.Subkernel.Sound.Turns.{Keeps-requests}
use madmax_artiq_zynq.Satman.Subkernel.Sound.Calls.{Call, apply, apply-IsSound, incoming-IsSound}

module _ ⦃e : ByteOrder⦄
    (report : List (Option Exception) → List StackPointerBacktrace → List (ℕ × ℕ) → Writer)
    (describe : ℕ → Error → List ℕ) (n_repeaters : ℕ) (table : RoutingTable)
    (rank self_destination : ℕ) where
  -- From the start; the libraries, the channel, the router and the DMA manager can change in between as
  -- they may.
  pub data Reachable : Parts → Type 0 where
    started :
        (control : Control) (selected now : ℕ) (router : Router) (dma : DmaManager.Manager)
        → Reachable (record { manager = new control selected now; router = router; dma = dma })
    called :
        (call : Call) (p : Parts)
        → Reachable p
        → Reachable (record p { manager = apply describe call p.manager })
    changed :
        (kernels : Kernels) (control : Control) (router : Router) (dma : DmaManager.Manager)
        (p : Parts)
        → Reachable p
        → Reachable (record p {
          manager = record p.manager { kernels = kernels; control = control };
          router = router;
          dma = dma;
        })
    message_came :
        (status : PayloadStatus) (id length : ℕ) (slice : List ℕ) (p : Parts) (m : Manager)
        → message_handle_incoming status id length slice p.manager ≡ ok m
        → Reachable p
        → Reachable (record p { manager = m })
    turned :
        (polls now address : ℕ) (p : Parts) (reply : Answer (Unit {0})) (p' : Parts)
        → process_kern_requests report describe polls now address n_repeaters table rank
            self_destination p
          ≡ ok (reply, p')
        → Reachable p
        → Reachable p'
    exception_came :
        (polls now address : ℕ) (exception_data : List ℕ) (last : Bool) (p : Parts)
        (reply : Answer (Unit {0})) (p' : Parts)
        → received_exception report describe polls now address n_repeaters table rank
            self_destination exception_data last p
          ≡ ok (reply, p')
        → Reachable p
        → Reachable p'

Keeps-ok :
    {A : Type 0} (s : Step A) (p : Parts) (reply : Answer A) (p' : Parts)
    → Keeps s
    → s p ≡ ok (reply, p')
    → IsSound p.manager.session
    → IsSound p'.manager.session
unfolding Keeps
Keeps-ok s p reply p' keeps e sound = rw e at (keeps p sound)

IsOk-map :
    {A B : Type 0} (o : Result A) (f : A → B) → IsOk o → IsOk (Outcome.◌>>=◌ o (λ a. ok (f a)))
IsOk-map (ok a) f h = (f a, refl)
IsOk-map (err e) f h = absurd e
IsOk-map panic f h = absurd (cc (h.1))

module _ ⦃e : ByteOrder⦄
    (report : List (Option Exception) → List StackPointerBacktrace → List (ℕ × ℕ) → Writer)
    (describe : ℕ → Error → List ℕ) (n_repeaters : ℕ) (table : RoutingTable)
    (rank self_destination : ℕ) where
  take_exception-IsOk :
      (polls now address destination : ℕ) (so_far exception_data : List ℕ) (last : Bool) (p : Parts)
      → IsOk (
          route n_repeaters
            (subkernel_exception_request self_destination destination)
            table
            rank
            self_destination
            p.router)
      → IsOk (
          take_exception report describe polls now address n_repeaters table rank self_destination
            destination so_far exception_data last p)
  unfolding take_exception ◌>>=◌ update send_packet
  take_exception-IsOk polls now address destination so_far exception_data true p routes = (_, refl)
  take_exception-IsOk polls now address destination so_far exception_data false p routes =
      IsOk-map _ _ routes

  take_slice-IsOk :
      (polls now address : ℕ) (state : KernelState) (external : Option (List ℕ))
      (exception_data : List ℕ) (last : Bool) (p : Parts)
      → IsConsistent state external
      → ((destination : ℕ)
          → state ≡ subkernel_retrieving_exception destination
          → IsOk (
              route n_repeaters
                (subkernel_exception_request self_destination destination)
                table
                rank
                self_destination
                p.router))
      → IsOk (
          take_slice report describe polls now address n_repeaters table rank self_destination state
            external exception_data last p)
  unfolding take_slice pure
  take_slice-IsOk polls now address (subkernel_retrieving_exception destination) (some so_far)
        exception_data last p sound routes =
      take_exception-IsOk polls now address destination so_far exception_data last p
        (routes destination refl)
  take_slice-IsOk polls now address (subkernel_retrieving_exception destination) none exception_data
        last p sound routes =
      absurd sound
  take_slice-IsOk polls now address _ external exception_data last p sound routes = (_, refl)

  -- In whatever order the operations come, the session never gets to the state `loaded`, and while an
  -- exception is retrieved, there is a place for its bytes.
  pub Reachable-IsSound :
      (p : Parts)
      → Reachable report describe n_repeaters table rank self_destination p
      → IsSound p.manager.session
  unfolding new new_session
  Reachable-IsSound _ (started control selected now router dma) = tt
  Reachable-IsSound _ (called call p r) =
      apply-IsSound describe call p.manager (Reachable-IsSound p r)
  Reachable-IsSound _ (changed kernels control router dma p r) = Reachable-IsSound p r
  Reachable-IsSound _ (message_came status id length slice p m e r) =
      incoming-IsSound status id length slice p.manager m e (Reachable-IsSound p r)
  Reachable-IsSound _ (turned polls now address p reply p' e r) =
      Keeps-ok
        (process_kern_requests report describe polls now address n_repeaters table rank
          self_destination)
        p reply p'
        (Keeps-requests report describe polls now address n_repeaters table rank self_destination) e
        (Reachable-IsSound p r)
  Reachable-IsSound _ (exception_came polls now address exception_data last p reply p' e r) =
      Keeps-ok
        (received_exception report describe polls now address n_repeaters table rank
          self_destination exception_data last)
        p reply p'
        (Keeps-received report describe polls now address n_repeaters table rank self_destination
          exception_data last)
        e (Reachable-IsSound p r)

  -- Exception data that comes in any state that can be reached does not make the manager panic, if the
  -- request for the next slice can be routed.
  pub received_exception-IsOk :
      (polls now address : ℕ) (p : Parts) (exception_data : List ℕ) (last : Bool)
      → Reachable report describe n_repeaters table rank self_destination p
      → ((destination : ℕ)
          → p.manager.session.kernel_state ≡ subkernel_retrieving_exception destination
          → IsOk (
              route n_repeaters
                (subkernel_exception_request self_destination destination)
                table
                rank
                self_destination
                p.router))
      → IsOk (
          received_exception report describe polls now address n_repeaters table rank
            self_destination exception_data last p)
  unfolding received_exception
  received_exception-IsOk polls now address p exception_data last r routes =
      take_slice-IsOk polls now address p.manager.session.kernel_state
        p.manager.session.external_exception exception_data last p (Reachable-IsSound p r) routes
