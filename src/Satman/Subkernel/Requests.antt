-- ===== src/Satman/Subkernel/Requests.antt =====
-- src/satman/src/subkernel.rs: what the manager does for the kernel that runs, in each turn of the main
-- loop. `now` is the clock in ms, `address` where the allocator puts a recording, and `polls` how often the
-- channel is tried in 100 ms. `report` is write_exception, and `describe` what it makes of an error.
use madmax_artiq_zynq.Base.{
  ℕ, zero, suc, ◌+◌, ◌%◌, ◌^◌, Bool, true, false, ◌&&◌, Option, none, some, List, [], ◌∷◌, ◌++◌,
  ltb, ◌==◌, if◌then◌else◌,
}
use madmax_artiq_zynq.Outcome.{panic}
use madmax_artiq_zynq.TreeMap.{names}
use madmax_artiq_zynq.Io.Proto.{ByteOrder, Writer}
use madmax_artiq_zynq.Drtioaux.Packet.{Packet, subkernel_exception_request}
use madmax_artiq_zynq.Drtioaux.RoutingTable.{RoutingTable}
use madmax_artiq_zynq.Satman.Messages.{accept_outgoing, get_incoming, was_message_acknowledged}
use madmax_artiq_zynq.Satman.Messages
use madmax_artiq_zynq.Satman.Subkernel.{
  Session, Exception, StackPointerBacktrace, KernelState, Error, Message, SubkernelStatus, running,
  msg_await, msg_sending, dma_pending_await, dma_await, subkernel_retrieving_exception,
  awaiting_message, exception,
}
use madmax_artiq_zynq.Satman.Subkernel.State.{set_state, send}
use madmax_artiq_zynq.Satman.Subkernel.Step.{
  Step, ◌>>=◌, ◌>>◌, pure, raise, update, ask, send_packet,
}
use madmax_artiq_zynq.Satman.Subkernel.Pass.{pass_message_to_kernel}

-- The first report of an id: its place, and where its exception is.
unfoldable pub find_finished : ℕ → List (ℕ × Option ℕ) → Option (ℕ × Option ℕ)
find_finished id [] = none
find_finished id ((status, exception_source) ∷ finished) =
    let later = find_finished id finished in
    if status == id
    then some (0, exception_source)
    else elim later [ none ↦ none | some (i, source) ↦ some (suc i, source) ]

-- `Vec::swap_remove`: the last element takes the place of the one that is removed.
unfoldable pub last_or : {A : Type 0} → A → List A → A
last_or a [] = a
last_or a (x ∷ xs) = last_or x xs

unfoldable pub but_last : {A : Type 0} → List A → List A
but_last [] = []
but_last (x ∷ []) = []
but_last (x ∷ y ∷ xs) = x ∷ but_last (y ∷ xs)

unfoldable pub swap_remove : {A : Type 0} → List A → ℕ → List A
unfolding last_or but_last
swap_remove [] i = []
swap_remove (x ∷ []) zero = []
swap_remove (x ∷ y ∷ xs) zero = last_or y xs ∷ but_last (y ∷ xs)
swap_remove (x ∷ xs) (suc i) = x ∷ swap_remove xs i

abbrev pub change_session : (Session → Session) → Step (Unit {0})
change_session f = update (λ m. record m { session = f m.session })

-- The state is set.
abbrev pub enter : KernelState → Step (Unit {0})
enter state = update (set_state state)

abbrev pub tell : Message → Step (Unit {0})
tell message = update (send message)

-- `max_time` of a request with a timeout, an i64; none unless it is positive.
unfoldable pub deadline : (now timeout : ℕ) → Option ℕ
deadline now timeout =
    if ltb 0 timeout && ltb timeout (2 ^ 63) then some ((now + timeout) % 2 ^ 64) else none

unfoldable pub is_late : (now : ℕ) → Option ℕ → Bool
is_late now none = false
is_late now (some max_time) = ltb max_time now

module _ ⦃e : ByteOrder⦄
    (report : List (Option Exception) → List StackPointerBacktrace → List (ℕ × ℕ) → Writer)
    (describe : ℕ → Error → List ℕ) (polls now address n_repeaters : ℕ) (table : RoutingTable)
    (rank self_destination : ℕ) where
  abbrev pub route_packet : Packet → Step (Unit {0})
  route_packet = send_packet n_repeaters table rank self_destination

  -- The request for a slice of the exception.
  abbrev pub ask_exception : (destination : ℕ) → Step (Unit {0})
  ask_exception destination =
      route_packet (subkernel_exception_request self_destination destination)

  -- What is done about the first report: the kernel is told, or the exception is asked for.
  unfoldable pub take_report : Option (ℕ × Option ℕ) → List (ℕ × Option ℕ) → Step (Unit {0})
  unfolding swap_remove
  take_report none finished = pure tt
  take_report (some (i, none)) finished = do
    tell Message.subkernel_await_finish_reply
    enter running
    change_session (λ s. record s { subkernels_finished = swap_remove finished i })
  take_report (some (i, some destination)) finished = do
    change_session (λ s. record s {
      external_exception = some [];
      kernel_state = subkernel_retrieving_exception destination;
    })
    ask_exception destination

  unfoldable pub check_finished_kernels : (id : ℕ) → Step (Unit {0})
  unfolding find_finished take_report
  check_finished_kernels id = do
    finished ← ask (λ m. m.session.subkernels_finished)
    take_report (find_finished id finished) finished

  unfoldable pub time_out : Step (Unit {0})
  time_out = do tell (Message.subkernel_error SubkernelStatus.timeout); enter running

  -- The message that the kernel waits for, if it has come.
  unfoldable pub deliver : (id : ℕ) (tags : List ℕ) → Option Messages.Message → Step (Unit {0})
  unfolding check_finished_kernels pass_message_to_kernel
  deliver id tags none = do check_finished_kernels id; raise awaiting_message
  deliver id tags (some message) = do
    tell (Message.subkernel_msg_recv_reply message.count)
    enter running
    pass_message_to_kernel report polls message tags

  unfoldable pub await_message : (id : ℕ) (tags : List ℕ) → Step (Unit {0})
  unfolding deliver
  await_message id tags = do
    found ← ask (λ m. get_incoming id m.session.messages)
    change_session (λ s. record s { messages = found.1 })
    deliver id tags found.0

  -- The end of the wait for remote playback, when it is late.
  unfoldable pub await_dma : (max_time : ℕ) → Step (Unit {0})
  await_dma max_time =
      if ltb max_time now
      then (do tell (Message.dma_await_remote_reply true 0 0 0); enter running)
      else pure tt

  unfoldable pub await_acknowledgement : Step (Unit {0})
  await_acknowledgement = do
    acknowledged ← ask (λ m. was_message_acknowledged m.session.messages)
    change_session (λ s. record s { messages = acknowledged.1 })
    if acknowledged.0
        then (do enter running; tell Message.subkernel_msg_sent)
        else raise awaiting_message

  unfoldable pub act_in : KernelState → Step (Unit {0})
  unfolding time_out await_message await_acknowledgement await_dma is_late
  act_in (msg_await max_time id tags) =
      if is_late now max_time then time_out else await_message id tags
  act_in msg_sending = await_acknowledgement
  act_in (KernelState.subkernel_await_finish max_time id) =
      if is_late now max_time then time_out else check_finished_kernels id
  act_in (subkernel_retrieving_exception destination) = raise awaiting_message
  act_in (dma_await max_time) = await_dma max_time
  act_in (dma_pending_await id timestamp max_time) = await_dma max_time
  act_in _ = pure tt

  unfoldable pub process_external_messages : Step (Unit {0})
  unfolding act_in
  process_external_messages = do state ← ask (λ m. m.session.kernel_state); act_in state

  unfoldable pub take_exception :
      (destination : ℕ) (so_far exception_data : List ℕ) (last : Bool) → Step (Unit {0})
  take_exception destination so_far exception_data last =
      if last
      then (do
        change_session (λ s. record s { external_exception = none })
        tell (Message.subkernel_error (exception (so_far ++ exception_data)))
        enter running)
      else (do
        change_session (λ s. record s { external_exception = some (so_far ++ exception_data) })
        ask_exception destination)

  -- `external_exception.as_mut().unwrap()`
  unfoldable pub take_slice :
      KernelState → Option (List ℕ) → (exception_data : List ℕ) (last : Bool) → Step (Unit {0})
  unfolding take_exception
  take_slice (subkernel_retrieving_exception destination) (some so_far) exception_data last =
      take_exception destination so_far exception_data last
  take_slice (subkernel_retrieving_exception destination) none exception_data last = λ p. panic
  take_slice _ external exception_data last = pure tt

  unfoldable pub received_exception : (exception_data : List ℕ) (last : Bool) → Step (Unit {0})
  unfolding take_slice
  received_exception exception_data last p =
      take_slice p.manager.session.kernel_state p.manager.session.external_exception exception_data
        last p
