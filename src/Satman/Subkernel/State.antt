-- ===== src/Satman/Subkernel/State.antt =====
-- src/satman/src/subkernel.rs: the operations of the session that need neither the router nor the DMA
-- manager, and the wrappers of the message manager.
use madmax_artiq_zynq.Base.{
  ℕ, Bool, true, false, ◌&&◌, Option, none, some, List, [], ◌∷◌, ◌++◌, ◌==◌, if◌then◌else◌,
}
use madmax_artiq_zynq.Outcome.{Outcome, ok, err, panic, ◌>>=◌}
use madmax_artiq_zynq.TreeMap.{get, numbers}
use madmax_artiq_zynq.Drtioaux.Payload.{PayloadStatus, first_and_last}
use madmax_artiq_zynq.Drtioaux.RoutingTable.{Result}
use madmax_artiq_zynq.Satman.Sliceable.{SliceMeta, Sliceable, get_slice_master}
use madmax_artiq_zynq.Satman.Sliceable
use madmax_artiq_zynq.Satman.Messages.{handle_incoming, get_outgoing_slice, ack_slice}
use madmax_artiq_zynq.Satman.Dma.Manager.{upload_fail}
use madmax_artiq_zynq.Satman.Dma.Subkernel.{KernelManager}
use madmax_artiq_zynq.Satman.Subkernel.{
  Session, KernelState, Manager, Message, Error, absent, loaded, running, dma_uploading,
  dma_pending_playback, dma_pending_await, dma_await, subkernel_await_load, load_request,
  load_completed, start_request, dma_await_remote_reply, kernel_not_found, dma_error, new_session,
}

-- Session::running
unfoldable pub is_running : Session → Bool
is_running s = elim s.kernel_state [ absent ↦ false | loaded ↦ false | _ ↦ true ]

abbrev pub set_state : KernelState → Manager → Manager
set_state state m = record m { session = record m.session { kernel_state = state } }

-- `control.tx.send`
abbrev pub send : Message → Manager → Manager
send message m = record m { control = record m.control { tx = message ∷ m.control.tx } }

unfoldable pub get_current_id : Manager → Option ℕ
unfolding is_running
get_current_id m = if is_running m.session then some m.session.id else none

unfoldable pub is_loaded : ℕ → Session → Bool
is_loaded id s = s.id == id && elim s.kernel_state [ loaded ↦ true | _ ↦ false ]

-- The reply of the other core, which was restarted, to the request.
unfoldable pub load_reply : Message → Outcome Error (Unit {0})
load_reply load_completed = ok tt
load_reply _ = err Error.load

unfoldable pub load : (reply : Message) (id : ℕ) → Manager → Outcome Error (Unit {0}) × Manager
unfolding is_loaded load_reply new_session
load reply id m = if is_loaded id m.session then (ok tt, m) else elim (get id m.kernels) [
  | none ↦ (err kernel_not_found, m)
  | some kernel ↦
      if kernel.complete
      then (
        load_reply reply,
        send (load_request kernel.library)
            (record m { session = new_session id; control = record m.control { rx = [] } }),
      )
      else (err kernel_not_found, m)
]

-- The kernel, which is loaded, is told to start.
unfoldable pub start : (source timestamp : ℕ) → Manager → Manager
start source timestamp m = send start_request (record m {
  session = record m.session { kernel_state = running; source = source };
  selected = 2;
  now = timestamp;
})

-- The kernel is started if it could be loaded.
unfoldable pub start_if :
    (source timestamp : ℕ) → Outcome Error (Unit {0}) × Manager → Outcome Error (Unit {0}) × Manager
unfolding start
start_if source timestamp (ok done, m) = (ok tt, start source timestamp m)
start_if source timestamp (err e, m) = (err e, m)
start_if source timestamp (panic, m) = (panic, m)

unfoldable pub run :
    (reply : Message) (source id timestamp : ℕ) → Manager → Outcome Error (Unit {0}) × Manager
unfolding load start_if
run reply source id timestamp m =
    start_if source timestamp (if is_loaded id m.session then (ok tt, m) else load reply id m)

unfoldable pub kernel_stop : Manager → Manager
kernel_stop m = record (set_state absent m) { selected = 0 }

-- `report` is the exception that write_exception makes of an error in the kernel with an id.
unfoldable pub runtime_exception : (report : ℕ → Error → List ℕ) → Error → Manager → Manager
unfolding kernel_stop
runtime_exception report cause m = kernel_stop (record m {
  session = record m.session {
    last_exception = some (Sliceable.new 0 (report m.session.id cause));
  };
})

unfoldable pub ddma_finished : (error channel timestamp : ℕ) → Manager → Manager
ddma_finished error channel timestamp m = elim m.session.kernel_state [
  | dma_await max_time ↦
      set_state running (send (dma_await_remote_reply false error channel timestamp) m)
  | _ ↦ m
]

unfoldable pub ddma_nack : Manager → Manager
ddma_nack m = elim m.session.kernel_state [
  | dma_await max_time ↦ set_state running (send (dma_await_remote_reply true 0 0 0) m)
  | _ ↦ m
]

-- The id and the time of a playback that was waiting for the traces.
unfoldable pub uploaded : Manager → Option (ℕ × ℕ) × Manager
uploaded m = elim m.session.kernel_state [
  | dma_pending_playback id timestamp ↦ (some (id, timestamp), set_state running m)
  | dma_pending_await id timestamp max_time ↦
      (some (id, timestamp), set_state (dma_await max_time) m)
  | dma_uploading ↦ (none, set_state running m)
  | _ ↦ (none, m)
]

unfoldable pub ddma_remote_uploaded :
    (report : ℕ → Error → List ℕ) → (succeeded : Bool) → Manager → Option (ℕ × ℕ) × Manager
unfolding runtime_exception uploaded
ddma_remote_uploaded report succeeded m =
    uploaded
      (if succeeded then m else runtime_exception report (dma_error upload_fail) (kernel_stop m))

-- The manager of kernels that the DMA manager calls.
unfoldable pub kernel_manager : (report : ℕ → Error → List ℕ) → KernelManager Manager
unfolding ddma_remote_uploaded ddma_finished
kernel_manager report = record {
  ddma_remote_uploaded = ddma_remote_uploaded report;
  ddma_finished = ddma_finished;
}

unfoldable pub exception_get_slice : List ℕ → Manager → SliceMeta × List ℕ × Manager
exception_get_slice data_slice m = elim m.session.last_exception [
  | none ↦ (record { destination = 0; len = 0; status = first_and_last }, data_slice, m)
  | some exception ↦
      (let (meta, slice, exception') = get_slice_master exception data_slice in
        (meta, slice, record m { session = record m.session { last_exception = some exception' } }))
]

unfoldable pub subkernel_load_run_reply : (succeeded : Bool) → Manager → Manager
subkernel_load_run_reply succeeded m = elim m.session.kernel_state [
  | subkernel_await_load ↦ set_state running (send (Message.subkernel_load_run_reply succeeded) m)
  | _ ↦ m
]

unfoldable pub remote_subkernel_finished :
    (id : ℕ) (with_exception : Bool) (exception_source : ℕ) → Manager → Manager
remote_subkernel_finished id with_exception exception_source m =
    let exception_src = if with_exception then some exception_source else none in
    record m {
      session = record m.session {
        subkernels_finished = m.session.subkernels_finished ++ ((id, exception_src) ∷ []);
      };
    }

unfoldable pub message_handle_incoming :
    PayloadStatus → (id length : ℕ) → List ℕ → Manager → Result Manager
message_handle_incoming status id length slice m =
    if is_running m.session
    then (do
      messages ← handle_incoming status id length slice m.session.messages
      ok (record m { session = record m.session { messages = messages } }))
    else ok m

unfoldable pub message_get_slice : List ℕ → Manager → Option (SliceMeta × List ℕ) × Manager
message_get_slice slice m =
    if is_running m.session
    then (let (taken, messages) = get_outgoing_slice m.session.messages slice in
        (taken, record m { session = record m.session { messages = messages } }))
    else (none, m)

unfoldable pub message_ack_slice : Manager → Bool × Manager
message_ack_slice m =
    if is_running m.session
    then (let (more, messages) = ack_slice m.session.messages in
        (more, record m { session = record m.session { messages = messages } }))
    else (false, m)
