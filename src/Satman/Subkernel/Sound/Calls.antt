-- ===== src/Satman/Subkernel/Sound/Calls.antt =====
-- src/satman/src/subkernel.rs: the operations that need no other part keep the session sound.
use madmax_artiq_zynq.Base.{
  ℕ, ◌≡◌, subst, Bool, true, false, Bool-cases, inl, inr, List, if◌then◌else◌, arith,
}
use madmax_artiq_zynq.Outcome.{Outcome, ok, err, panic, ok_inv, ok_injective}
use madmax_artiq_zynq.TreeMap.{numbers}
use madmax_artiq_zynq.Drtioaux.Payload.{PayloadStatus}
use madmax_artiq_zynq.Satman.Messages.{handle_incoming}
use madmax_artiq_zynq.Satman.Subkernel.{Manager, Error, Message, new_session}
use madmax_artiq_zynq.Satman.Subkernel.State.{
  is_loaded, load, start, start_if, run, is_running, kernel_stop, runtime_exception, ddma_finished,
  ddma_nack, uploaded, ddma_remote_uploaded, exception_get_slice, subkernel_load_run_reply,
  remote_subkernel_finished, message_handle_incoming, message_get_slice, message_ack_slice,
}
use madmax_artiq_zynq.Satman.Subkernel.Keeps.{IsSound}

-- The operations that need no other part and do not panic.
pub data Call : Type 0 where
  loading : (reply : Message) (id : ℕ) → Call
  running : (reply : Message) (source id timestamp : ℕ) → Call
  playback_finished : (error channel timestamp : ℕ) → Call
  playback_refused : Call
  traces_uploaded : (succeeded : Bool) → Call
  exception_slice : List ℕ → Call
  run_replied : (succeeded : Bool) → Call
  subkernel_finished : (id : ℕ) (with_exception : Bool) (exception_source : ℕ) → Call
  message_slice : List ℕ → Call
  message_acknowledged : Call

unfoldable pub apply : (describe : ℕ → Error → List ℕ) → Call → Manager → Manager
unfolding load run ddma_finished ddma_nack ddma_remote_uploaded exception_get_slice
    subkernel_load_run_reply remote_subkernel_finished message_get_slice message_ack_slice
apply describe (loading reply id) m = (load reply id m).1
apply describe (running reply source id timestamp) m = (run reply source id timestamp m).1
apply describe (playback_finished error channel timestamp) m =
    ddma_finished error channel timestamp m
apply describe playback_refused m = ddma_nack m
apply describe (traces_uploaded succeeded) m = (ddma_remote_uploaded describe succeeded m).1
apply describe (exception_slice slice) m = (exception_get_slice slice m).2
apply describe (run_replied succeeded) m = subkernel_load_run_reply succeeded m
apply describe (subkernel_finished id with_exception exception_source) m =
    remote_subkernel_finished id with_exception exception_source m
apply describe (message_slice slice) m = (message_get_slice slice m).1
apply describe message_acknowledged m = (message_ack_slice m).1

start-IsSound : (source timestamp : ℕ) (m : Manager) → IsSound (start source timestamp m).session
unfolding start
start-IsSound source timestamp m = tt

load-IsSound :
    (reply : Message) (id : ℕ) (m : Manager)
    → IsSound m.session
    → IsSound (load reply id m).1.session
unfolding load new_session
load-IsSound reply id m sound = ground arith

ddma_finished-IsSound :
    (error channel timestamp : ℕ) (m : Manager)
    → IsSound m.session
    → IsSound (ddma_finished error channel timestamp m).session
unfolding ddma_finished
ddma_finished-IsSound error channel timestamp m sound = ground arith

start_if-IsSound :
    (source timestamp : ℕ) (r : Outcome Error (Unit {0}) × Manager)
    → IsSound r.1.session
    → IsSound (start_if source timestamp r).1.session
unfolding start_if
start_if-IsSound source timestamp (ok done, m) sound = start-IsSound source timestamp m
start_if-IsSound source timestamp (err e, m) sound = sound
start_if-IsSound source timestamp (panic, m) sound = sound

if-IsSound :
    (c : Bool) (a b : Outcome Error (Unit {0}) × Manager)
    → IsSound a.1.session
    → IsSound b.1.session
    → IsSound (if c then a else b).1.session
if-IsSound true a b h k = h
if-IsSound false a b h k = k

run-IsSound :
    (reply : Message) (source id timestamp : ℕ) (m : Manager)
    → IsSound m.session
    → IsSound (run reply source id timestamp m).1.session
unfolding run
run-IsSound reply source id timestamp m sound =
    start_if-IsSound source timestamp
      (if is_loaded id m.session then (ok tt, m) else load reply id m)
      (if-IsSound (is_loaded id m.session) (ok tt, m) (load reply id m) sound
        (load-IsSound reply id m sound))

ddma_nack-IsSound : (m : Manager) → IsSound m.session → IsSound (ddma_nack m).session
unfolding ddma_nack
ddma_nack-IsSound m sound = ground arith

uploaded-IsSound : (m : Manager) → IsSound m.session → IsSound (uploaded m).1.session
unfolding uploaded
uploaded-IsSound m sound = ground arith

ddma_remote_uploaded-IsSound :
    (describe : ℕ → Error → List ℕ) (succeeded : Bool) (m : Manager)
    → IsSound m.session
    → IsSound (ddma_remote_uploaded describe succeeded m).1.session
unfolding ddma_remote_uploaded runtime_exception kernel_stop
ddma_remote_uploaded-IsSound describe true m sound = uploaded-IsSound m sound
ddma_remote_uploaded-IsSound describe false m sound = tt

subkernel_load_run_reply-IsSound :
    (succeeded : Bool) (m : Manager)
    → IsSound m.session
    → IsSound (subkernel_load_run_reply succeeded m).session
unfolding subkernel_load_run_reply
subkernel_load_run_reply-IsSound succeeded m sound = ground arith

exception_get_slice-IsSound :
    (slice : List ℕ) (m : Manager)
    → IsSound m.session
    → IsSound (exception_get_slice slice m).2.session
unfolding exception_get_slice
exception_get_slice-IsSound slice m sound = ground arith

message_get_slice-IsSound :
    (slice : List ℕ) (m : Manager)
    → IsSound m.session
    → IsSound (message_get_slice slice m).1.session
unfolding message_get_slice
message_get_slice-IsSound slice m sound = ground arith

message_ack_slice-IsSound :
    (m : Manager) → IsSound m.session → IsSound (message_ack_slice m).1.session
unfolding message_ack_slice
message_ack_slice-IsSound m sound = ground arith

pub apply-IsSound :
    (describe : ℕ → Error → List ℕ) (call : Call) (m : Manager)
    → IsSound m.session
    → IsSound (apply describe call m).session
unfolding apply remote_subkernel_finished
apply-IsSound describe (loading reply id) m sound = load-IsSound reply id m sound
apply-IsSound describe (running reply source id timestamp) m sound =
    run-IsSound reply source id timestamp m sound
apply-IsSound describe (playback_finished error channel timestamp) m sound =
    ddma_finished-IsSound error channel timestamp m sound
apply-IsSound describe playback_refused m sound = ddma_nack-IsSound m sound
apply-IsSound describe (traces_uploaded succeeded) m sound =
    ddma_remote_uploaded-IsSound describe succeeded m sound
apply-IsSound describe (exception_slice slice) m sound = exception_get_slice-IsSound slice m sound
apply-IsSound describe (run_replied succeeded) m sound =
    subkernel_load_run_reply-IsSound succeeded m sound
apply-IsSound describe (subkernel_finished id with_exception exception_source) m sound = sound
apply-IsSound describe (message_slice slice) m sound = message_get_slice-IsSound slice m sound
apply-IsSound describe message_acknowledged m sound = message_ack_slice-IsSound m sound

pub incoming-IsSound :
    (status : PayloadStatus) (id length : ℕ) (slice : List ℕ) (m m' : Manager)
    → message_handle_incoming status id length slice m ≡ ok m'
    → IsSound m.session
    → IsSound m'.session
unfolding message_handle_incoming
incoming-IsSound status id length slice m m' e sound = elim (Bool-cases (is_running m.session)) [
  | inl busy ↦
      subst (λ x. IsSound x.session)
        (ok_injective
          (ok_inv (handle_incoming status id length slice m.session.messages) _ m'
            (rw busy at e)).2)
        sound
  | inr idle ↦ subst (λ x. IsSound x.session) (ok_injective (rw idle at e)) sound
]
