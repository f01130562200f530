-- ===== src/Satman/Subkernel/Turn.antt =====
-- src/satman/src/subkernel.rs: a message of the kernel, and a turn of the main loop. The parameters are
-- those of Requests.
use madmax_artiq_zynq.Base.{
  ℕ, ◌+◌, ◌-◌, ◌%◌, ◌^◌, Bool, true, false, Option, none, some, List, [], ◌==◌, if◌then◌else◌,
}
use madmax_artiq_zynq.Outcome.{Outcome, ok, err, panic}
use madmax_artiq_zynq.Outcome
use madmax_artiq_zynq.TreeMap.{get, insert, names}
use madmax_artiq_zynq.Io.Proto.{ByteOrder, Writer}
use madmax_artiq_zynq.Drtioaux.Packet
use madmax_artiq_zynq.Drtioaux.RoutingTable.{RoutingTable, Result}
use madmax_artiq_zynq.Satman.Router.{Router}
use madmax_artiq_zynq.Satman.Sliceable
use madmax_artiq_zynq.Satman.Messages.{accept_outgoing}
use madmax_artiq_zynq.Satman.Dma.Manager.{put_record, retrieve}
use madmax_artiq_zynq.Satman.Dma.Manager as DmaManager
use madmax_artiq_zynq.Satman.Dma.Subkernel.{erase_name, cleanup, upload_traces, playback_remote}
use madmax_artiq_zynq.Satman.Subkernel.{
  SubkernelFinished, Exception, StackPointerBacktrace, DmaRecorder, KernelState, Error, Message,
  msg_await, msg_sending, subkernel_await_load, dma_uploading, dma_pending_playback,
  dma_pending_await, dma_await, awaiting_message, no_message, unexpected, dma_error,
  kernel_exception,
}
use madmax_artiq_zynq.Satman.Subkernel.State.{is_running, kernel_stop, runtime_exception}
use madmax_artiq_zynq.Satman.Subkernel.Channel.{written}
use madmax_artiq_zynq.Satman.Subkernel.Step.{
  Answer, answer, fail, Step, ◌>>=◌, ◌>>◌, pure, raise, update, ask, send_packet, try_recv,
}
use madmax_artiq_zynq.Satman.Subkernel.Requests.{
  enter, tell, change_session, deadline, process_external_messages,
}

-- The value, or the error as a value.
abbrev pub attempt : {A : Type 0} → Step A → Step (Answer A)
attempt s p = Outcome.◌>>=◌ (s p) (λ r. ok (answer r.0, r.1))

-- An operation of the DMA manager that sends packets.
abbrev pub with_dma :
    (DmaManager.Manager → Router → Result (DmaManager.Manager × Router)) → Step (Unit {0})
with_dma f p =
    Outcome.◌>>=◌ (f p.dma p.router) (λ r. ok (answer tt, record p { dma = r.0; router = r.1 }))

-- `id == -1` stands for the kernel's own.
unfoldable pub message_id : (own id : ℕ) → ℕ
message_id own id = if id == 2 ^ 32 - 1 then own else id

-- What the kernel waits for after its request to wait for the playback.
unfoldable pub awaiting : (max_time : ℕ) → KernelState → KernelState
awaiting max_time (dma_pending_playback id timestamp) = dma_pending_await id timestamp max_time
awaiting max_time _ = dma_await max_time

unfoldable pub is_uploading : KernelState → Bool
is_uploading dma_uploading = true
is_uploading _ = false

module _ ⦃e : ByteOrder⦄
    (report : List (Option Exception) → List StackPointerBacktrace → List (ℕ × ℕ) → Writer)
    (describe : ℕ → Error → List ℕ) (polls now address n_repeaters : ℕ) (table : RoutingTable)
    (rank self_destination : ℕ) where
  -- What put_record answers: the traces are sent, or the recording was wrong.
  unfoldable pub upload_recording :
      Outcome DmaManager.Error (ℕ × DmaManager.Manager) → Step (Unit {0})
  upload_recording (ok (id, dma)) p =
      Outcome.◌>>=◌ (upload_traces n_repeaters table rank self_destination id dma p.router)
        (λ r. enter dma_uploading (record p { dma = r.1; router = r.2 }))
  upload_recording (err e) p = raise unexpected p
  upload_recording panic p = panic

  unfoldable pub put_recording : DmaRecorder → Step (Unit {0})
  unfolding upload_recording
  put_recording recorder p =
      upload_recording
        (put_record address recorder.buffer recorder.name recorder.duration self_destination p.dma)
        p

  -- What playback_remote answers.
  unfoldable pub after_start :
      Outcome DmaManager.Error (DmaManager.Manager × Router) → Step (Unit {0})
  after_start (ok (dma, router)) p = ok (answer tt, record p { dma = dma; router = router })
  after_start (err e) p = raise (dma_error e) p
  after_start panic p = panic

  unfoldable pub start_remote : (id timestamp : ℕ) → Step (Unit {0})
  unfolding is_uploading after_start
  start_remote id timestamp p =
      if is_uploading p.manager.session.kernel_state
      then enter (dma_pending_playback id timestamp) p
      else after_start
          (playback_remote n_repeaters table rank self_destination id timestamp p.dma p.router) p

  unfoldable pub send_message : (destination : Option ℕ) (content : List ℕ) → Step (Unit {0})
  send_message destination content p =
      let s = p.manager.session in
      Outcome.◌>>=◌
        (accept_outgoing n_repeaters s.id self_destination
          (elim destination [ none ↦ s.source | some there ↦ there ]) content table rank p.router
          s.messages)
        (λ r. enter msg_sending (record p {
          router = r.1;
          manager = record p.manager { session = record s { messages = r.0 } };
        }))

  unfoldable pub get_recording : (name : List ℕ) → Step (Unit {0})
  get_recording name p = tell (Message.dma_get_reply (retrieve self_destination name p.dma)) p

  -- The kernel's last words.
  unfoldable pub raise_exception :
      List (Option Exception) → List StackPointerBacktrace → List (ℕ × ℕ) → Step Bool
  unfolding written kernel_stop
  raise_exception exceptions stack_pointers backtrace p =
      Outcome.◌>>=◌ (written (report exceptions stack_pointers backtrace))
        (λ raw. (do update kernel_stop; raise (kernel_exception (Sliceable.new 0 raw))) p)

  -- Whether the kernel has finished.
  unfoldable pub answer_message : Message → Step Bool
  unfolding kernel_stop put_recording start_remote send_message get_recording raise_exception
      deadline message_id awaiting
  answer_message Message.kernel_finished = do
    update kernel_stop
    with_dma (cleanup n_repeaters table rank self_destination)
    pure true
  answer_message (Message.kernel_exception exceptions stack_pointers backtrace) =
      raise_exception exceptions stack_pointers backtrace
  answer_message (Message.cache_put_request key value) = do
    update (λ m. record m { cache = insert key value m.cache })
    pure false
  answer_message (Message.cache_get_request key) = do
    found ← ask (λ m. get key m.cache)
    tell (Message.cache_get_reply (elim found [ none ↦ [] | some value ↦ value ]))
    pure false
  answer_message (Message.dma_put_request recorder) = do put_recording recorder; pure false
  answer_message (Message.dma_erase_request name) = do
    with_dma (erase_name n_repeaters table rank self_destination name)
    pure false
  answer_message (Message.dma_get_request name) = do get_recording name; pure false
  answer_message (Message.dma_start_remote_request id timestamp) = do
    start_remote id timestamp
    pure false
  answer_message (Message.dma_await_remote_request id) = do
    state ← ask (λ m. m.session.kernel_state)
    enter (awaiting ((now + 10000) % 2 ^ 64) state)
    pure false
  answer_message (Message.subkernel_msg_send id destination content) = do
    send_message destination content
    pure false
  answer_message (Message.subkernel_msg_recv_request id timeout tags) = do
    own ← ask (λ m. m.session.id)
    enter (msg_await (deadline now timeout) (message_id own id) tags)
    pure false
  answer_message (Message.subkernel_load_run_request id destination run timestamp) = do
    enter subkernel_await_load
    send_packet n_repeaters table rank self_destination
        (Packet.subkernel_load_run_request self_destination destination id run timestamp)
    pure false
  answer_message (Message.subkernel_await_finish_request id timeout) = do
    enter (KernelState.subkernel_await_finish (deadline now timeout) id)
    pure false
  answer_message (Message.up_destinations_request destination) = do
    tell (Message.up_destinations_reply (destination == self_destination))
    pure false
  answer_message Message.rtio_init_request = do tell Message.rtio_init_reply; pure false
  answer_message _ = raise unexpected

  unfoldable pub process_kern_message : Step Bool
  unfolding try_recv answer_message
  process_kern_message = do reply ← try_recv; answer_message reply

  -- The news of the end, which the next turn sends.
  unfoldable pub finish : (with_exception : Bool) (exception_source : ℕ) → Step (Unit {0})
  finish with_exception exception_source = update (λ m. record m {
    last_finished = some (record {
      id = m.session.id;
      with_exception = with_exception;
      exception_source = exception_source;
      source = m.session.source;
    });
  })

  -- An exception of the kernel is kept, and any other error is made one.
  unfoldable pub keep_error : Error → Step (Unit {0})
  unfolding runtime_exception
  keep_error (kernel_exception exception) =
      change_session (λ s. record s { last_exception = some exception })
  keep_error cause = update (runtime_exception describe cause)

  unfoldable pub handle_error : Error → Step (Unit {0})
  unfolding finish keep_error
  handle_error error = do keep_error error; finish true self_destination

  unfoldable pub report_end : Option SubkernelFinished → Step (Unit {0})
  report_end none = pure tt
  report_end (some f) = do
    update (λ m. record m { last_finished = none })
    send_packet n_repeaters table rank self_destination
        (Packet.subkernel_finished f.source f.id f.with_exception f.exception_source)

  unfoldable pub report_finished : Step (Unit {0})
  unfolding report_end
  report_finished = do last_finished ← ask (λ m. m.last_finished); report_end last_finished

  unfoldable pub handle_external : Answer (Unit {0}) → Step (Unit {0}) → Step (Unit {0})
  unfolding handle_error
  handle_external (answer done) rest = rest
  handle_external (fail awaiting_message) rest = pure tt
  handle_external (fail cause) rest = do handle_error cause; rest

  unfoldable pub handle_message : Answer Bool → Step (Unit {0})
  unfolding finish handle_error
  handle_message (answer true) = finish false 0
  handle_message (answer false) = pure tt
  handle_message (fail no_message) = pure tt
  handle_message (fail cause) = handle_error cause

  -- The other half of a turn.
  unfoldable pub take_message : Step (Unit {0})
  unfolding process_kern_message handle_message
  take_message = do reply ← attempt process_kern_message; handle_message reply

  unfoldable pub process_kern_requests : Step (Unit {0})
  unfolding report_finished process_external_messages take_message handle_external
  process_kern_requests = do
    report_finished
    working ← ask (λ m. is_running m.session)
    if working
        then (do
          external ← attempt (
              process_external_messages report describe polls now address n_repeaters table rank
                self_destination)
          handle_external external take_message)
        else pure tt
