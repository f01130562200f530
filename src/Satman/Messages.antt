-- ===== src/Satman/Messages.antt =====
-- src/satman/src/subkernel.rs, MessageManager: messages between kernels, which leave in slices from one
-- slot, each acknowledged before the next, and are put together in a buffer on arrival.
pub mod Incoming
pub mod Outgoing
use madmax_artiq_zynq.Base.{
  ℕ, suc, ◌+◌, Bool, true, false, Option, none, some, List, [], ◌∷◌, ◌++◌, leb, ◌==◌, if◌then◌else◌,
  length, take, drop, replicate,
}
use madmax_artiq_zynq.Outcome.{Outcome, ok, err, panic, ◌>>=◌}
use madmax_artiq_zynq.Drtioaux.Packet.{Packet, subkernel_message}
use madmax_artiq_zynq.Drtioaux.Payload.{PayloadStatus, is_first, is_last, master_payload_max_size}
use madmax_artiq_zynq.Drtioaux.RoutingTable.{RoutingTable, Result}
use madmax_artiq_zynq.Satman.Router.{Router, route}
use madmax_artiq_zynq.Satman.Sliceable.{SliceMeta, Sliceable, get_slice_master}
use madmax_artiq_zynq.Satman.Sliceable

pub record Message : Type 0 where
  pub count : ℕ
  pub id : ℕ
  pub content : List ℕ

pub data OutMessageState : Type 0 where
  no_message message_being_sent message_sent message_acknowledged : OutMessageState

pub record MessageManager : Type 0 where
  pub out_message : Option Sliceable
  pub out_state : OutMessageState
  pub in_queue : List Message
  pub in_buffer : Option Message

unfoldable pub new : MessageManager
new = record { out_message = none; out_state = no_message; in_queue = []; in_buffer = none }

-- `&data[..length]`
unfoldable pub front : List ℕ → ℕ → Result (List ℕ)
front bytes len = if leb len (length bytes) then ok (take len bytes) else panic

-- A new message: `data[0]` is the count, and `data[1..length]` the rest.
unfoldable pub begin : ℕ → List ℕ → Result Message
begin id [] = panic
begin id (count ∷ content) = ok (record { count = count; id = id; content = content })

-- The buffer with a slice put into it.
unfoldable pub buffered : Option Message → ℕ → ℕ → List ℕ → Result Message
unfolding front begin
buffered none id len bytes = do used ← front bytes len; begin id used
buffered (some message) id len bytes = do
  used ← front bytes len
  ok (record message { content = message.content ++ used })

unfoldable pub handle_incoming :
    PayloadStatus → ℕ → ℕ → List ℕ → MessageManager → Result MessageManager
handle_incoming status id len bytes mm = do
  message ← buffered (if is_first status then none else mm.in_buffer) id len bytes
  ok (
      if is_last status
      then record mm { in_buffer = none; in_queue = mm.in_queue ++ (message ∷ []) }
      else record mm { in_buffer = some message })

unfoldable pub was_message_acknowledged : MessageManager → Bool × MessageManager
was_message_acknowledged mm = elim mm.out_state [
  | message_acknowledged ↦ (true, record mm { out_state = no_message })
  | _ ↦ (false, mm)
]

-- The slot after a slice was taken from it.
unfoldable pub after_slice : SliceMeta → Sliceable → MessageManager → MessageManager
after_slice meta s mm =
    if is_last meta.status
    then record mm { out_message = none; out_state = message_sent }
    else record mm { out_message = some s }

unfoldable pub get_outgoing_slice :
    MessageManager → List ℕ → Option (SliceMeta × List ℕ) × MessageManager
get_outgoing_slice mm data_slice = elim mm.out_state [
  | message_being_sent ↦ (elim mm.out_message [
    | none ↦ (none, mm)
    | some s ↦
        (let (meta, slice, s') = get_slice_master s data_slice in
          (some (meta, slice), after_slice meta s' mm))
  ])
  | _ ↦ (none, mm)
]

-- Whether there is more to be sent.
unfoldable pub ack_slice : MessageManager → Bool × MessageManager
ack_slice mm = elim mm.out_state [
  | message_being_sent ↦ (true, mm)
  | message_sent ↦ (false, record mm { out_state = message_acknowledged })
  | _ ↦ (false, mm)
]

-- An all-zero array for a slice.
abbrev pub blank : List ℕ
blank = replicate master_payload_max_size 0

-- The slot with a new message in it.
unfoldable pub load_message : ℕ → List ℕ → MessageManager → MessageManager
load_message destination message mm = record mm {
  out_message = some (Sliceable.new destination message);
  out_state = message_being_sent;
}

unfoldable pub accept_outgoing :
    ℕ
    → ℕ
    → ℕ
    → ℕ
    → List ℕ
    → RoutingTable
    → ℕ
    → Router
    → MessageManager
    → Result (MessageManager × Router)
unfolding load_message
accept_outgoing n_repeaters id self_destination destination message table rank router mm =
    let (slice, mm') = get_outgoing_slice (load_message destination message mm) blank in
    elim slice [
      | none ↦ panic
      | some (meta, bytes) ↦ (do
        router' ←
            route n_repeaters
              (subkernel_message self_destination destination id meta.status meta.len bytes) table
              rank self_destination router
        ok (mm', router'))
    ]

-- The first message of the queue with this id, and the queue without it.
unfoldable pub take_message : ℕ → List Message → Option Message × List Message
take_message id [] = (none, [])
take_message id (message ∷ queue) =
    let (found, rest) = take_message id queue in
    if message.id == id then (some message, queue) else (found, message ∷ rest)

unfoldable pub get_incoming : ℕ → MessageManager → Option Message × MessageManager
unfolding take_message
get_incoming id mm =
    let (found, queue) = take_message id mm.in_queue in (found, record mm { in_queue = queue })
