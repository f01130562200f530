-- ===== src/Satman/Subkernel/Sound/Turns.antt =====
-- src/satman/src/subkernel.rs: a turn of the main loop keeps the session sound.
use madmax_artiq_zynq.Base.{ℕ, Bool, true, false, Bool-cases, inl, inr, Option, none, some, List}
use madmax_artiq_zynq.Outcome.{Outcome, ok, err, panic, Ensures-bind, Ensures-any}
use madmax_artiq_zynq.Io.Proto.{ByteOrder, Writer}
use madmax_artiq_zynq.Drtioaux.RoutingTable.{RoutingTable, Result}
use madmax_artiq_zynq.Satman.Sliceable.{Sliceable}
use madmax_artiq_zynq.Satman.Subkernel.{
  Manager, Exception, StackPointerBacktrace, KernelState, Error, Message, no_message, unexpected,
  SubkernelFinished, DmaRecorder, subkernel_await_load, dma_pending_playback, awaiting_message,
  kernel_exception,
}
use madmax_artiq_zynq.Satman.Subkernel.State.{kernel_stop, runtime_exception}
use madmax_artiq_zynq.Satman.Subkernel.Channel.{written}
use madmax_artiq_zynq.Satman.Subkernel.Step.{Answer, answer, fail, Step, raise, update}
use madmax_artiq_zynq.Satman.Subkernel.Keeps.{
  IsConsistent, IsSound, Keeps, EndsSound, Keeps-bind, Keeps-pure, Keeps-raise, Keeps-ask,
  Keeps-update, Keeps-try_recv, Keeps-outcome, Keeps-send_packet, Keeps-if,
}
use madmax_artiq_zynq.TreeMap.{names}
use madmax_artiq_zynq.Satman.Router.{Router}
use madmax_artiq_zynq.Satman.Sliceable
use madmax_artiq_zynq.Satman.Messages.{accept_outgoing}
use madmax_artiq_zynq.Satman.Dma.Manager.{put_record, retrieve}
use madmax_artiq_zynq.Satman.Dma.Manager as DmaManager
use madmax_artiq_zynq.Satman.Dma.Subkernel.{upload_traces, playback_remote}
use madmax_artiq_zynq.Satman.Subkernel.Sound.{Keeps-enter, Keeps-tell, Keeps-stop}
use madmax_artiq_zynq.Satman.Subkernel.Sound.Waits.{Keeps-external}
use madmax_artiq_zynq.Satman.Subkernel.Turn.{
  attempt, with_dma, awaiting, is_uploading, upload_recording, put_recording, after_start,
  start_remote, send_message, get_recording, raise_exception, answer_message, process_kern_message,
  finish, keep_error, handle_error, report_end, report_finished, handle_external, handle_message,
  take_message, process_kern_requests,
}

Keeps-attempt : {A : Type 0} (s : Step A) → Keeps s → Keeps (attempt s)
unfolding Keeps
Keeps-attempt s keeps p sound =
    Ensures-bind EndsSound EndsSound (s p) _ (keeps p sound) λ (reply, p') sound'. sound'

Keeps-parts :
    (dma : DmaManager.Manager) (router : Router)
    → Keeps (λ p. ok (answer tt, record p { dma = dma; router = router }))
unfolding Keeps
Keeps-parts dma router p sound = sound

Keeps-with_dma :
    (f : DmaManager.Manager → Router → Result (DmaManager.Manager × Router)) → Keeps (with_dma f)
Keeps-with_dma f = Keeps-outcome (λ p. f p.dma p.router) _ λ r. Keeps-parts r.0 r.1

runtime_exception-IsSound :
    (describe : ℕ → Error → List ℕ) (cause : Error) (m : Manager)
    → IsSound (runtime_exception describe cause m).session
unfolding runtime_exception kernel_stop
runtime_exception-IsSound describe cause m = tt

awaiting_lem :
    (max_time : ℕ) (state : KernelState) (external : Option (List ℕ))
    → IsConsistent (awaiting max_time state) external
unfolding awaiting
awaiting_lem max_time (dma_pending_playback id timestamp) external = tt
awaiting_lem max_time _ external = tt

module _ ⦃e : ByteOrder⦄
    (report : List (Option Exception) → List StackPointerBacktrace → List (ℕ × ℕ) → Writer)
    (describe : ℕ → Error → List ℕ) (polls now address n_repeaters : ℕ) (table : RoutingTable)
    (rank self_destination : ℕ) where
  Keeps-upload_recording :
      (o : Outcome DmaManager.Error (ℕ × DmaManager.Manager))
      → Keeps (
          upload_recording report describe polls now address n_repeaters table rank self_destination
            o)
  unfolding upload_recording Keeps update raise
  Keeps-upload_recording (ok (id, dma)) p sound =
      Ensures-bind (λ _. Unit {0}) EndsSound
        (upload_traces n_repeaters table rank self_destination id dma p.router) _ (Ensures-any _)
        λ r _. tt
  Keeps-upload_recording (err e) p sound = sound
  Keeps-upload_recording panic p sound = tt

  Keeps-put_recording :
      (recorder : DmaRecorder)
      → Keeps (
          put_recording report describe polls now address n_repeaters table rank self_destination
            recorder)
  unfolding put_recording Keeps
  Keeps-put_recording recorder p =
      Keeps-upload_recording
        (put_record address recorder.buffer recorder.name recorder.duration self_destination p.dma)
        p

  Keeps-after_start :
      (o : Outcome DmaManager.Error (DmaManager.Manager × Router))
      → Keeps
          (after_start report describe polls now address n_repeaters table rank self_destination o)
  unfolding after_start Keeps raise
  Keeps-after_start (ok (dma, router)) p sound = sound
  Keeps-after_start (err e) p sound = sound
  Keeps-after_start panic p sound = tt

  Keeps-start_remote :
      (id timestamp : ℕ)
      → Keeps (
          start_remote report describe polls now address n_repeaters table rank self_destination id
            timestamp)
  unfolding start_remote Keeps update
  Keeps-start_remote id timestamp p sound =
      elim (Bool-cases (is_uploading p.manager.session.kernel_state)) [
        | inl busy ↦ rw busy tt
        | inr free ↦ rw free (
            Keeps-after_start
              (playback_remote n_repeaters table rank self_destination id timestamp p.dma p.router)
              p sound)
      ]

  Keeps-send_message :
      (destination : Option ℕ) (content : List ℕ)
      → Keeps (
          send_message report describe polls now address n_repeaters table rank self_destination
            destination content)
  unfolding send_message Keeps update
  Keeps-send_message destination content p sound =
      Ensures-bind (λ _. Unit {0}) EndsSound
        (accept_outgoing n_repeaters _ _ _ content table rank p.router p.manager.session.messages) _
        (Ensures-any _) λ r _. tt

  Keeps-get_recording :
      (name : List ℕ)
      → Keeps (
          get_recording report describe polls now address n_repeaters table rank self_destination
            name)
  unfolding get_recording Keeps
  Keeps-get_recording name p =
      Keeps-tell (Message.dma_get_reply (retrieve self_destination name p.dma)) p

  Keeps-raise_exception :
      (exceptions : List (Option Exception)) (stack_pointers : List StackPointerBacktrace)
      (backtrace : List (ℕ × ℕ))
      → Keeps (
          raise_exception report describe polls now address n_repeaters table rank self_destination
            exceptions stack_pointers backtrace)
  unfolding raise_exception
  Keeps-raise_exception exceptions stack_pointers backtrace =
      Keeps-outcome (λ p. written (report exceptions stack_pointers backtrace)) _
        λ raw.
          Keeps-bind _ _ Keeps-stop λ _. Keeps-raise Bool (kernel_exception (Sliceable.new 0 raw))

  Keeps-answer_message :
      (message : Message)
      → Keeps (
          answer_message report describe polls now address n_repeaters table rank self_destination
            message)
  unfolding answer_message
  Keeps-answer_message Message.kernel_finished =
      Keeps-bind _ _ Keeps-stop λ _. Keeps-bind _ _ (Keeps-with_dma _) λ _. Keeps-pure true
  Keeps-answer_message (Message.kernel_exception exceptions stack_pointers backtrace) =
      Keeps-raise_exception exceptions stack_pointers backtrace
  Keeps-answer_message (Message.cache_put_request key value) =
      Keeps-bind _ _ (Keeps-update _ λ m sound. sound) λ _. Keeps-pure false
  Keeps-answer_message (Message.cache_get_request key) =
      Keeps-bind _ _ (Keeps-ask _) λ found. Keeps-bind _ _ (Keeps-tell _) λ _. Keeps-pure false
  Keeps-answer_message (Message.dma_put_request recorder) =
      Keeps-bind _ _ (Keeps-put_recording recorder) λ _. Keeps-pure false
  Keeps-answer_message (Message.dma_erase_request name) =
      Keeps-bind _ _ (Keeps-with_dma _) λ _. Keeps-pure false
  Keeps-answer_message (Message.dma_get_request name) =
      Keeps-bind _ _ (Keeps-get_recording name) λ _. Keeps-pure false
  Keeps-answer_message (Message.dma_start_remote_request id timestamp) =
      Keeps-bind _ _ (Keeps-start_remote id timestamp) λ _. Keeps-pure false
  Keeps-answer_message (Message.dma_await_remote_request id) =
      Keeps-bind _ _ (Keeps-ask _)
        λ state. Keeps-bind _ _ (Keeps-enter _ (awaiting_lem _ state)) λ _. Keeps-pure false
  Keeps-answer_message (Message.subkernel_msg_send id destination content) =
      Keeps-bind _ _ (Keeps-send_message destination content) λ _. Keeps-pure false
  Keeps-answer_message (Message.subkernel_msg_recv_request id timeout tags) =
      Keeps-bind _ _ (Keeps-ask _)
        λ own. Keeps-bind _ _ (Keeps-enter _ λ _. tt) λ _. Keeps-pure false
  Keeps-answer_message (Message.subkernel_load_run_request id destination run timestamp) =
      Keeps-bind _ _ (Keeps-enter subkernel_await_load λ _. tt) λ _.
        Keeps-bind _ _ (Keeps-send_packet n_repeaters table rank self_destination _)
          λ _. Keeps-pure false
  Keeps-answer_message (Message.subkernel_await_finish_request id timeout) =
      Keeps-bind _ _ (Keeps-enter _ λ _. tt) λ _. Keeps-pure false
  Keeps-answer_message (Message.up_destinations_request destination) =
      Keeps-bind _ _ (Keeps-tell _) λ _. Keeps-pure false
  Keeps-answer_message Message.rtio_init_request =
      Keeps-bind _ _ (Keeps-tell _) λ _. Keeps-pure false
  Keeps-answer_message _ = Keeps-raise Bool unexpected

  Keeps-process_kern_message : Keeps (
      process_kern_message report describe polls now address n_repeaters table rank
        self_destination)
  unfolding process_kern_message
  Keeps-process_kern_message = Keeps-bind _ _ Keeps-try_recv λ reply. Keeps-answer_message reply

  Keeps-finish :
      (with_exception : Bool) (exception_source : ℕ)
      → Keeps (
          finish report describe polls now address n_repeaters table rank self_destination
            with_exception exception_source)
  unfolding finish
  Keeps-finish with_exception exception_source = Keeps-update _ λ m sound. sound

  Keeps-keep_error :
      (error : Error)
      → Keeps (
          keep_error report describe polls now address n_repeaters table rank self_destination
            error)
  unfolding keep_error
  Keeps-keep_error (kernel_exception exception) = Keeps-update _ λ m sound. sound
  Keeps-keep_error cause = Keeps-update _ λ m sound. runtime_exception-IsSound describe cause m

  Keeps-handle_error :
      (error : Error)
      → Keeps (
          handle_error report describe polls now address n_repeaters table rank self_destination
            error)
  unfolding handle_error
  Keeps-handle_error error =
      Keeps-bind _ _ (Keeps-keep_error error) λ _. Keeps-finish true self_destination

  Keeps-report_end :
      (f : Option SubkernelFinished)
      → Keeps
          (report_end report describe polls now address n_repeaters table rank self_destination f)
  unfolding report_end
  Keeps-report_end none = Keeps-pure tt
  Keeps-report_end (some f) =
      Keeps-bind _ _ (Keeps-update _ λ m sound. sound)
        λ _. Keeps-send_packet n_repeaters table rank self_destination _

  Keeps-handle_message :
      (reply : Answer Bool)
      → Keeps (
          handle_message report describe polls now address n_repeaters table rank self_destination
            reply)
  unfolding handle_message
  Keeps-handle_message (answer true) = Keeps-finish false 0
  Keeps-handle_message (answer false) = Keeps-pure tt
  Keeps-handle_message (fail no_message) = Keeps-pure tt
  Keeps-handle_message (fail cause) = Keeps-handle_error cause

  Keeps-take_message :
      Keeps (take_message report describe polls now address n_repeaters table rank self_destination)
  unfolding take_message
  Keeps-take_message =
      Keeps-bind _ _ (Keeps-attempt _ Keeps-process_kern_message)
        λ reply. Keeps-handle_message reply

  Keeps-handle_external :
      (reply : Answer (Unit {0})) (rest : Step (Unit {0}))
      → Keeps rest
      → Keeps (
          handle_external report describe polls now address n_repeaters table rank self_destination
            reply rest)
  unfolding handle_external
  Keeps-handle_external (answer done) rest keeps = keeps
  Keeps-handle_external (fail awaiting_message) rest keeps = Keeps-pure tt
  Keeps-handle_external (fail cause) rest keeps =
      Keeps-bind _ _ (Keeps-handle_error cause) λ _. keeps

  pub Keeps-requests : Keeps (
      process_kern_requests report describe polls now address n_repeaters table rank
        self_destination)
  unfolding process_kern_requests report_finished
  Keeps-requests = Keeps-bind _ _ (Keeps-bind _ _ (Keeps-ask _) λ f. Keeps-report_end f) λ _.
      Keeps-bind _ _ (Keeps-ask _) λ working.
        Keeps-if working _ _
          (Keeps-bind _ _
            (Keeps-attempt _ (
              Keeps-external report describe polls now address n_repeaters table rank
                self_destination))
            λ external. Keeps-handle_external external _ Keeps-take_message)
          (Keeps-pure tt)
