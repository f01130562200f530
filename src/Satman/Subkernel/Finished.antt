-- ===== src/Satman/Subkernel/Finished.antt =====
-- src/satman/src/subkernel.rs: whether the destination that ran a kernel is told of its end.
use madmax_artiq_zynq.Base.{ℕ, ◌≡◌, refl, true, false, Option, none, some, List, [], ◌∷◌}
use madmax_artiq_zynq.Outcome.{Outcome, ok, err, panic, Ensures, Ensures-bind, Ensures-any}
use madmax_artiq_zynq.Outcome
use madmax_artiq_zynq.Io.Proto.{ByteOrder, Writer}
use madmax_artiq_zynq.Drtioaux.RoutingTable.{RoutingTable, Result}
use madmax_artiq_zynq.Satman.Subkernel.{Manager, Exception, StackPointerBacktrace, Error, Message}
use madmax_artiq_zynq.Satman.Subkernel.State.{kernel_stop, is_running, runtime_exception}
use madmax_artiq_zynq.Satman.Subkernel.Step.{
  Parts, answer, Step, go_on, ◌>>=◌, pure, raise, update, ask, send_packet, try_recv,
}
use madmax_artiq_zynq.TreeMap.{names}
use madmax_artiq_zynq.Drtioaux.Packet
use madmax_artiq_zynq.Satman.Router.{Router}
use madmax_artiq_zynq.Satman.Sliceable
use madmax_artiq_zynq.Satman.Dma.Manager.{put_record, retrieve, upload_fail}
use madmax_artiq_zynq.Satman.Dma.Manager as DmaManager
use madmax_artiq_zynq.Satman.Dma.Subkernel.{cleanup}
use madmax_artiq_zynq.Satman.Subkernel.Turn.{report_finished, handle_error, process_kern_requests}
use madmax_artiq_zynq.Satman.Router.{route}
use madmax_artiq_zynq.Satman.Subkernel.{running, absent, dma_error}
use madmax_artiq_zynq.Satman.Subkernel.State.{is_running, ddma_remote_uploaded}

-- A manager whose kernel runs, and has sent a message.
abbrev pub busy : Message → List Message → Manager → Manager
busy message rx m = record m {
  session = record m.session { kernel_state = running };
  control = record m.control { rx = message ∷ rx };
  last_finished = none;
}

-- A step that does nothing, after one that changes the router.
bind_tail :
    (o : Result Router) (f : Router → Parts) (k : Unit {0} → Step (Unit {0}))
    → ((router : Router) → k tt (f router) ≡ ok (answer tt, f router))
    → Outcome.◌>>=◌ (Outcome.◌>>=◌ o (λ router. ok (answer tt, f router))) (go_on k)
      ≡ Outcome.◌>>=◌ o (λ router. ok (answer tt, f router))
bind_tail (ok router) f k h = h router
bind_tail (err e) f k h = absurd e
bind_tail panic f k h = refl

-- After the turn in which its kernel has finished.
abbrev stopped : List Message → DmaManager.Manager → Router → Parts → Parts
stopped rx dma router p = record {
  manager = record p.manager {
    session = record p.manager.session { kernel_state = absent };
    control = record p.manager.control { rx = rx };
    last_finished = some (record {
      id = p.manager.session.id;
      with_exception = false;
      exception_source = 0;
      source = p.manager.session.source;
    });
    selected = 0;
  };
  dma = dma;
  router = router;
}

module _ ⦃e : ByteOrder⦄
    (report : List (Option Exception) → List StackPointerBacktrace → List (ℕ × ℕ) → Writer)
    (describe : ℕ → Error → List ℕ) (polls now address n_repeaters : ℕ) (table : RoutingTable)
    (rank self_destination : ℕ) where
  -- A kernel runs and says that it has finished, no earlier end is waiting to be reported, and the traces
  -- can be cleaned up: it is stopped in this turn, and in the next turn the destination that ran it is told,
  -- without an exception.
  pub kernel_finished-reported :
      (p : Parts) (rx : List Message) (dma : DmaManager.Manager) (router : Router)
      → cleanup n_repeaters table rank self_destination p.dma p.router ≡ ok (dma, router)
      → (p' : Parts) × (process_kern_requests report describe polls now address n_repeaters table
            rank self_destination
            (record p { manager = busy Message.kernel_finished rx p.manager })
          ≡ ok (answer tt, p'))
        × (p'.manager.session.kernel_state ≡ absent)
        × (process_kern_requests report describe polls now address n_repeaters table rank
              self_destination p'
            ≡ Outcome.◌>>=◌
                (route n_repeaters
                  (Packet.subkernel_finished p.manager.session.source p.manager.session.id false 0)
                  table
                  rank
                  self_destination
                  router)
                (λ router'. ok (
                  answer tt,
                  record p' {
                    manager = record p'.manager { last_finished = none };
                    router = router';
                  },
                )))
  unfolding process_kern_requests report_finished try_recv ◌>>=◌ pure raise update ask send_packet
      is_running kernel_stop
  kernel_finished-reported p rx dma router cleaned = (
    stopped rx dma router p,
    rw cleaned refl,
    refl,
    bind_tail
        (route n_repeaters
          (Packet.subkernel_finished p.manager.session.source p.manager.session.id false 0) table
          rank self_destination router)
        _ _ λ router'. refl,
  )

module _ ⦃e : ByteOrder⦄
    (report : List (Option Exception) → List StackPointerBacktrace → List (ℕ × ℕ) → Writer)
    (describe : ℕ → Error → List ℕ) (n_repeaters : ℕ) (table : RoutingTable)
    (rank self_destination : ℕ) where
  -- Turns of the main loop, each with its polls, clock and place for a recording.
  unfoldable pub turns : List (ℕ × ℕ × ℕ) → Parts → Result Parts
  turns [] p = ok p
  turns ((polls, now, address) ∷ later) p =
      Outcome.◌>>=◌
        (process_kern_requests report describe polls now address n_repeaters table rank
          self_destination p)
        (λ r. turns later r.1)

  idle_turn :
      (polls now address : ℕ) (p : Parts)
      → is_running p.manager.session ≡ false
      → p.manager.last_finished ≡ none
      → process_kern_requests report describe polls now address n_repeaters table rank
          self_destination p
        ≡ ok (answer tt, p)
  unfolding process_kern_requests report_finished ◌>>=◌ pure ask
  idle_turn polls now address p idle silent = rw (silent, idle) refl

  -- No kernel runs, and no end is waiting to be reported.
  idle_turns :
      (later : List (ℕ × ℕ × ℕ)) (p : Parts)
      → is_running p.manager.session ≡ false
      → p.manager.last_finished ≡ none
      → turns later p ≡ ok p
  unfolding turns
  idle_turns [] p idle silent = refl
  idle_turns ((polls, now, address) ∷ later) p idle silent =
      rw (idle_turn polls now address p idle silent) (idle_turns later p idle silent)

  -- The upload of traces fails, whatever the kernel does, and no end of a kernel is waiting to be reported:
  -- the kernel is stopped, the exception that is kept tells of the failed upload, and no playback is to be
  -- started. Any number of turns then change nothing, so that no packet is sent to the destination that ran
  -- the kernel. When the same error ends a message of the kernel, all that differs is that the end, with an
  -- exception, is noted for the next turn to report.
  pub upload_failed-silent :
      (p : Parts) (later : List (ℕ × ℕ × ℕ)) (polls now address : ℕ)
      → p.manager.last_finished ≡ none
      → let (start, m) = ddma_remote_uploaded describe false p.manager in
        (start ≡ none)
        × (m.session.kernel_state ≡ absent)
        × (m.session.last_exception
            ≡ some (Sliceable.new 0 (describe p.manager.session.id (dma_error upload_fail))))
        × (turns later (record p { manager = m }) ≡ ok (record p { manager = m }))
        × (handle_error report describe polls now address n_repeaters table rank self_destination
              (dma_error upload_fail)
              p
            ≡ ok (
              answer tt,
              record p {
                manager = record m {
                  last_finished = some (record {
                    id = p.manager.session.id;
                    with_exception = true;
                    exception_source = self_destination;
                    source = p.manager.session.source;
                  });
                };
              },
            ))
  unfolding is_running ddma_remote_uploaded runtime_exception kernel_stop handle_error ◌>>=◌ update
  upload_failed-silent p later polls now address silent =
      (refl, refl, refl, idle_turns later _ refl silent, refl)
