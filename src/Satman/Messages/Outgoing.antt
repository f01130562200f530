-- ===== src/Satman/Messages/Outgoing.antt =====
-- src/satman/src/subkernel.rs: the slot sends a message as its slices, one for each acknowledgement,
-- and ends acknowledged.
use madmax_artiq_zynq.Base.{
  ℕ, zero, suc, ◌+◌, ◌-◌, ◌≤◌, ◌<◌, ◌≡◌, refl, inl, inr, min, false, none, some, List, [], ◌∷◌,
  ◌==◌, if◌then◌else◌, length, drop, arith, Bool-cases,
}
use madmax_artiq_zynq.Outcome.{ok}
use madmax_artiq_zynq.Drtioaux.Payload.{master_payload_max_size}
use madmax_artiq_zynq.Satman.Sliceable.{SliceMeta, Sliceable, at_end, get_slice_master}
use madmax_artiq_zynq.Satman.Sliceable
use madmax_artiq_zynq.Satman.Sliceable.Slices.{
  is_last-from_status, Slice, slices, slices-Splits, get_slice_lem,
}
use madmax_artiq_zynq.Satman.Messages.{
  MessageManager, message_being_sent, message_acknowledged, blank, load_message, after_slice,
  get_outgoing_slice, ack_slice,
}
use madmax_artiq_zynq.Satman.Messages.Incoming.{handle_all, received, handle_all-Splits}

-- A slice is taken and acknowledged; while there is more to be sent, the next follows.
unfoldable pub send_all : ℕ → MessageManager → List Slice × MessageManager
send_all zero mm = ([], mm)
send_all (suc fuel) mm =
    let (slice, mm1) = get_outgoing_slice mm blank in
    let (more, mm2) = ack_slice mm1 in
    let rest = send_all fuel mm2 in
    elim slice [
      | none ↦ ([], mm1)
      | some sent ↦ if more then (sent ∷ rest.0, rest.1) else (sent ∷ [], mm2)
    ]

-- The slot empty, its message acknowledged.
abbrev pub finished : MessageManager → MessageManager
finished mm = record mm { out_message = none; out_state = message_acknowledged }

send_all-slices :
    (fuel : ℕ) (s : Sliceable) (mm : MessageManager)
    → mm.out_message ≡ some s
    → mm.out_state ≡ message_being_sent
    → s.it ≤ length s.content
    → length s.content - s.it < fuel
    → send_all fuel mm ≡ (slices master_payload_max_size fuel s, finished mm)
unfolding send_all slices get_outgoing_slice get_slice_master after_slice ack_slice at_end
send_all-slices zero s mm slot state within enough = absurd (omega arith)
send_all-slices (suc fuel) s mm slot state within enough =
    rw
      (
        state,
        slot,
        get_slice_lem master_payload_max_size n s refl (omega arith),
        is_last-from_status (s.it == 0) (s.it + n == length s.content),
      )
      (elim (Bool-cases (s.it + n == length s.content)) [
        | inl done ↦ rw done refl
        | inr more ↦ rw more (
            rw
              (send_all-slices fuel (record s { it = s.it + n })
                (record mm {
                  out_message = some (record s { it = s.it + n });
                  out_state = message_being_sent;
                })
                refl refl (omega arith) (omega (arith, unfinished more)))
              refl)
      ])
  where
    n : ℕ
    n = min master_payload_max_size (length s.content - s.it)

    unfinished : (s.it + n == length s.content) ≡ false → n ≡ master_payload_max_size
    unfinished e = ground arith

-- A message that is loaded into the slot is sent as the slices of its bytes, one for each
-- acknowledgement, and the slot ends empty and acknowledged. Handled in order by a manager on the other
-- side, the slices leave there the one message, with its count and its content.
pub send_all-handle_all :
    (destination id count : ℕ) (content : List ℕ) (sender receiver : MessageManager)
    → (sent : List Slice) × (send_all
          (length content + 2)
          (load_message destination (count ∷ content) sender)
        ≡ (sent, finished sender))
      × (handle_all id sent receiver
          ≡ ok (received (record { count = count; id = id; content = content }) receiver))
unfolding load_message Sliceable.new drop
send_all-handle_all destination id count content sender receiver = (
  slices master_payload_max_size (length content + 2) whole,
  send_all-slices (length content + 2) whole (load_message destination (count ∷ content) sender)
      refl refl (omega arith) (omega arith),
  handle_all-Splits id count content _ receiver (
      slices-Splits master_payload_max_size (length content + 2) whole (omega arith) (omega arith)
        (omega arith) (omega arith)),
)
  where
    whole : Sliceable
    whole = Sliceable.new destination (count ∷ content)
