-- ===== src/Satman/Subkernel/Sound/Waits.antt =====
-- src/satman/src/subkernel.rs: what the manager does about what a kernel waits for keeps the session sound.
use madmax_artiq_zynq.Base.{ℕ, Bool, true, false, Option, none, some, List}
use madmax_artiq_zynq.Io.Proto.{ByteOrder, Writer}
use madmax_artiq_zynq.Drtioaux.RoutingTable.{RoutingTable}
use madmax_artiq_zynq.Satman.Messages
use madmax_artiq_zynq.Satman.Subkernel.{
  Exception, StackPointerBacktrace, KernelState, loaded, Error, running, msg_await, msg_sending,
  dma_pending_await, dma_await, subkernel_retrieving_exception, awaiting_message,
}
use madmax_artiq_zynq.Satman.Subkernel.Step.{◌>>=◌, update, send_packet}
use madmax_artiq_zynq.Satman.Subkernel.Keeps.{
  IsConsistent, Keeps, Keeps-bind, Keeps-pure, Keeps-raise, Keeps-ask, Keeps-update,
  Keeps-send_packet, Keeps-if, Keeps-panic,
}
use madmax_artiq_zynq.TreeMap.{names}
use madmax_artiq_zynq.Drtioaux.Packet.{Packet}
use madmax_artiq_zynq.Satman.Messages.{accept_outgoing, get_incoming, was_message_acknowledged}
use madmax_artiq_zynq.Satman.Subkernel.Requests.{
  find_finished, take_report, check_finished_kernels, time_out, deliver, await_message, await_dma,
  await_acknowledgement, act_in, process_external_messages, take_exception, take_slice,
  received_exception,
}
use madmax_artiq_zynq.Satman.Subkernel.Sound.{Keeps-enter, Keeps-tell, Keeps-pass_message}

IsConsistent-some :
    (state : KernelState) (external : Option (List ℕ)) (bytes : List ℕ)
    → IsConsistent state external
    → IsConsistent state (some bytes)
IsConsistent-some loaded external bytes h = h
IsConsistent-some (subkernel_retrieving_exception destination) external bytes h = tt
IsConsistent-some _ external bytes h = tt

module _ ⦃e : ByteOrder⦄
    (report : List (Option Exception) → List StackPointerBacktrace → List (ℕ × ℕ) → Writer)
    (describe : ℕ → Error → List ℕ) (polls now address n_repeaters : ℕ) (table : RoutingTable)
    (rank self_destination : ℕ) where
  Keeps-route :
      (packet : Packet) → Keeps (send_packet n_repeaters table rank self_destination packet)
  Keeps-route packet = Keeps-send_packet n_repeaters table rank self_destination packet

  Keeps-take_report :
      (found : Option (ℕ × Option ℕ)) (finished : List (ℕ × Option ℕ))
      → Keeps (
          take_report report describe polls now address n_repeaters table rank self_destination
            found finished)
  unfolding take_report
  Keeps-take_report none finished = Keeps-pure tt
  Keeps-take_report (some (i, none)) finished =
      Keeps-bind _ _ (Keeps-tell _)
        λ _. Keeps-bind _ _ (Keeps-enter running λ _. tt) λ _. Keeps-update _ λ m sound. sound
  Keeps-take_report (some (i, some destination)) finished =
      Keeps-bind _ _ (Keeps-update _ λ m sound. tt) λ _. Keeps-route _

  Keeps-check_finished :
      (id : ℕ)
      → Keeps (
          check_finished_kernels report describe polls now address n_repeaters table rank
            self_destination id)
  unfolding check_finished_kernels
  Keeps-check_finished id =
      Keeps-bind _ _ (Keeps-ask _)
        λ finished. Keeps-take_report (find_finished id finished) finished

  Keeps-time_out :
      Keeps (time_out report describe polls now address n_repeaters table rank self_destination)
  unfolding time_out
  Keeps-time_out = Keeps-bind _ _ (Keeps-tell _) λ _. Keeps-enter running λ _. tt

  Keeps-deliver :
      (id : ℕ) (tags : List ℕ) (found : Option Messages.Message)
      → Keeps (
          deliver report describe polls now address n_repeaters table rank self_destination id tags
            found)
  unfolding deliver
  Keeps-deliver id tags none =
      Keeps-bind _ _ (Keeps-check_finished id) λ _. Keeps-raise _ awaiting_message
  Keeps-deliver id tags (some message) = Keeps-bind _ _ (Keeps-tell _) λ _.
      Keeps-bind _ _ (Keeps-enter running λ _. tt) λ _. Keeps-pass_message report polls message tags

  Keeps-await_message :
      (id : ℕ) (tags : List ℕ)
      → Keeps (
          await_message report describe polls now address n_repeaters table rank self_destination id
            tags)
  unfolding await_message
  Keeps-await_message id tags =
      Keeps-bind _ _ (Keeps-ask _)
        λ found. Keeps-bind _ _ (Keeps-update _ λ m sound. sound) λ _. Keeps-deliver id tags found.0

  Keeps-await_dma :
      (max_time : ℕ)
      → Keeps (
          await_dma report describe polls now address n_repeaters table rank self_destination
            max_time)
  unfolding await_dma
  Keeps-await_dma max_time =
      Keeps-if _ _ _ (Keeps-bind _ _ (Keeps-tell _) λ _. Keeps-enter running λ _. tt)
        (Keeps-pure tt)

  Keeps-await_acknowledgement : Keeps (
      await_acknowledgement report describe polls now address n_repeaters table rank
        self_destination)
  unfolding await_acknowledgement
  Keeps-await_acknowledgement = Keeps-bind _ _ (Keeps-ask _) λ acknowledged.
      Keeps-bind _ _ (Keeps-update _ λ m sound. sound) λ _.
        Keeps-if acknowledged.0 _ _ (Keeps-bind _ _ (Keeps-enter running λ _. tt) λ _. Keeps-tell _)
          (Keeps-raise _ awaiting_message)

  Keeps-act_in :
      (state : KernelState)
      → Keeps
          (act_in report describe polls now address n_repeaters table rank self_destination state)
  unfolding act_in
  Keeps-act_in (msg_await max_time id tags) =
      Keeps-if _ _ _ Keeps-time_out (Keeps-await_message id tags)
  Keeps-act_in msg_sending = Keeps-await_acknowledgement
  Keeps-act_in (KernelState.subkernel_await_finish max_time id) =
      Keeps-if _ _ _ Keeps-time_out (Keeps-check_finished id)
  Keeps-act_in (subkernel_retrieving_exception destination) = Keeps-raise _ awaiting_message
  Keeps-act_in (dma_await max_time) = Keeps-await_dma max_time
  Keeps-act_in (dma_pending_await id timestamp max_time) = Keeps-await_dma max_time
  Keeps-act_in _ = Keeps-pure tt

  pub Keeps-external : Keeps (
      process_external_messages report describe polls now address n_repeaters table rank
        self_destination)
  unfolding process_external_messages
  Keeps-external = Keeps-bind _ _ (Keeps-ask _) λ state. Keeps-act_in state

  Keeps-take_exception :
      (destination : ℕ) (so_far exception_data : List ℕ) (last : Bool)
      → Keeps (
          take_exception report describe polls now address n_repeaters table rank self_destination
            destination so_far exception_data last)
  unfolding take_exception Keeps ◌>>=◌ update
  Keeps-take_exception destination so_far exception_data true p sound = tt
  Keeps-take_exception destination so_far exception_data false p sound = Keeps-route _ _ (
      IsConsistent-some p.manager.session.kernel_state p.manager.session.external_exception _ sound)

  Keeps-take_slice :
      (state : KernelState) (external : Option (List ℕ)) (exception_data : List ℕ) (last : Bool)
      → Keeps (
          take_slice report describe polls now address n_repeaters table rank self_destination state
            external exception_data last)
  unfolding take_slice
  Keeps-take_slice (subkernel_retrieving_exception destination) (some so_far) exception_data last =
      Keeps-take_exception destination so_far exception_data last
  Keeps-take_slice (subkernel_retrieving_exception destination) none exception_data last =
      Keeps-panic (Unit {0})
  Keeps-take_slice _ external exception_data last = Keeps-pure tt

  pub Keeps-received :
      (exception_data : List ℕ) (last : Bool)
      → Keeps (
          received_exception report describe polls now address n_repeaters table rank
            self_destination exception_data last)
  unfolding received_exception Keeps
  Keeps-received exception_data last p =
      Keeps-take_slice p.manager.session.kernel_state p.manager.session.external_exception
        exception_data last p
