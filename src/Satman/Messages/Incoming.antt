-- ===== src/Satman/Messages/Incoming.antt =====
-- src/satman/src/subkernel.rs: the slices of a message are put together to the message.
use madmax_artiq_zynq.Base.{
  ℕ, ◌≤◌, ◌<◌, ◌≡◌, refl, sym, ap, ◌∙◌, inl, inr, true, false, none, some, List, [], ◌∷◌, ◌++◌,
  length, take, length-take, append_assoc, arith, le→leb,
}
use madmax_artiq_zynq.Outcome.{ok, ◌>>=◌}
use madmax_artiq_zynq.Drtioaux.Payload.{from_status, is_first, is_last, master_payload_max_size}
use madmax_artiq_zynq.Drtioaux.RoutingTable.{Result}
use madmax_artiq_zynq.Satman.Sliceable.Slices.{Slice, Splits}
use madmax_artiq_zynq.Satman.Messages.{
  Message, MessageManager, front, begin, buffered, handle_incoming,
}

-- The packets of a message, handled in order.
unfoldable pub handle_all : ℕ → List Slice → MessageManager → Result MessageManager
handle_all id [] mm = ok mm
handle_all id ((meta, bytes) ∷ slices) mm = do
  mm' ← handle_incoming meta.status id meta.len bytes mm
  handle_all id slices mm'

abbrev pub received : Message → MessageManager → MessageManager
received message mm = record mm { in_buffer = none; in_queue = mm.in_queue ++ (message ∷ []) }

pub front_ok : (bytes : List ℕ) (n : ℕ) → n ≤ length bytes → front bytes n ≡ ok (take n bytes)
unfolding front
front_ok bytes n h = rw (le→leb n (length bytes) h)

-- The slices after the first.
handle_rest :
    (id : ℕ) (rest : List ℕ) (slices : List Slice) (message : Message) (mm : MessageManager)
    → Splits master_payload_max_size false rest slices
    → mm.in_buffer ≡ some message
    → handle_all id slices mm
      ≡ ok (received (record message { content = message.content ++ rest }) mm)
unfolding handle_all handle_incoming buffered from_status is_first is_last
handle_rest id rest [] message mm split e = absurd split
handle_rest id rest ((meta, bytes) ∷ slices) message mm (short, sized, inl (status, ended, used))
      e =
    rw (status, ended, e, front_ok bytes meta.len (omega arith), used)
handle_rest id rest ((meta, bytes) ∷ slices) message mm
      (short, sized, inr (rest', status, pos, joined, split)) e =
    rw (status, e, front_ok bytes meta.len (omega arith))
      (handle_rest id rest' slices _ _ split refl
        ∙ ap (λ c. ok (received (record message { content = c }) mm))
            (append_assoc message.content (take meta.len bytes) rest'
              ∙ ap (◌++◌ message.content) (sym joined)))

-- A message that is cut in two, the first part not empty.
cut :
    (count : ℕ) (content used rest : List ℕ)
    → 0 < length used
    → count ∷ content ≡ used ++ rest
    → (tail : List ℕ) × (used ≡ count ∷ tail) × (content ≡ tail ++ rest)
cut count content [] rest h e = absurd (omega arith)
cut count content (x ∷ tail) rest h e = (tail, cc, cc)

-- The slices of a message, handled in order, leave it at the end of the queue, once, and the buffer
-- empty, whatever the buffer held before; the first byte is the count.
pub handle_all-Splits :
    (id count : ℕ) (content : List ℕ) (slices : List Slice) (mm : MessageManager)
    → Splits master_payload_max_size true (count ∷ content) slices
    → handle_all id slices mm
      ≡ ok (received (record { count = count; id = id; content = content }) mm)
unfolding handle_all handle_incoming buffered begin from_status is_first is_last
handle_all-Splits id count content [] mm split = absurd split
handle_all-Splits id count content ((meta, bytes) ∷ slices) mm
      (short, sized, inl (status, ended, used)) =
    rw (status, ended, front_ok bytes meta.len (omega arith), used)
handle_all-Splits id count content ((meta, bytes) ∷ slices) mm
      (short, sized, inr (rest, status, pos, joined, split)) =
    let (tail, head, same) =
      cut count content (take meta.len bytes) rest (omega (arith, length-take meta.len bytes))
        joined in
    rw (status, front_ok bytes meta.len (omega arith), head)
      (handle_rest id rest slices _ _ split refl
        ∙ ap (λ c. ok (received (record { count = count; id = id; content = c }) mm)) (sym same))
