-- ===== src/Rpc/Recv/Lays.antt =====
-- src/libksupport/src/rpc.rs: recv_value lays a value out as its tag's alignment and size say.
use madmax_artiq_zynq.Base.{
  ℕ, zero, suc, ◌+◌, ◌*◌, ◌%◌, ◌^◌, ◌≤◌, ◌<◌, ◌≡◌, inl, inr, refl, ◌∙◌, List, [], ◌∷◌, ◌++◌, length,
  length-append, arith,
}
use madmax_artiq_zynq.Outcome.{Outcome, ok, IsOk}
use madmax_artiq_zynq.Io.Proto.{ByteOrder}
use madmax_artiq_zynq.Rpc.Tag.{Tag}
use madmax_artiq_zynq.Rpc.Tag.Shape.{Shape, Shapes, nil, cons, count, print, print_all}
use madmax_artiq_zynq.Rpc.Tag.Grammar.{tag_of, next-print, next-print_alone}
use madmax_artiq_zynq.Rpc.Layout.{round_up, parts}
use madmax_artiq_zynq.Rpc.Layout.Rounding.{up}
use madmax_artiq_zynq.Rpc.Layout.Struct.{
  align_of, greatest_align, size_of, fields_end, HasLayout, IsAlignment,
}
use madmax_artiq_zynq.Rpc.Layout.Aligned.{
  align_of-IsAlignment, parts-tag_of, AllHaveLayout-tuple, alignment-tag_of,
}
use madmax_artiq_zynq.Rpc.Layout.Sized.{Fits, size-tag_of}
use madmax_artiq_zynq.Rpc.Layout.Shift.{up-aligned, up-divides}
use madmax_artiq_zynq.Rpc.Recv.{
  Recv, store, offset, consume_value, recv_parts, recv_times, recv_slice, recv_lengths, recv_list,
  recv_array, recv_value_on, recv_value, recv_return, allocate,
}
use madmax_artiq_zynq.Rpc.Recv.Lands.{
  Lands, Lands-bind, step-Lands, lift-Lands, Lands-pure, Lands-lift, Lands-weaken, Lands-store,
  read_exact-Lands, read_u8-Lands, read_u32-Lands, read_u64-Lands, round_up-align_ok,
}
use madmax_artiq_zynq.Rpc.Recv.Elements.{
  Done, EndsAt, times, Advances, AllAdvance, recv_parts-Lands, recv_times-Lands,
  recv_elements-Lands,
}
use madmax_artiq_zynq.Rpc.Recv.Receivable.{IsReceivable, AllReceivable, IsReceivable-HasLayout}
use madmax_artiq_zynq.Rpc.Recv.Fields.{
  offset-EndsAt, after_length, tuple_EndsAt, fields_end-times, times-EndsAt,
}

module _ {H : Type 0} where
  consume_value-Lands :
      (width align data_ptr : ℕ) (map : ℕ → Recv H (Unit {0}))
      → IsAlignment align
      → ((ptr : ℕ) → Lands Done (map ptr))
      → Lands (EndsAt (up data_ptr align + width)) (consume_value width align data_ptr map)
  consume_value-Lands width align data_ptr map h lands = rw (rounded.1) (
      step-Lands _ _ _ _ (lands rounded.0)
        λ _. Lands-pure H _ _ (offset-EndsAt rounded.0 (up data_ptr align) width rounded.2))
    where
      rounded :
          (r : ℕ) × (round_up data_ptr align ≡ ok r)
          × (Fits (up data_ptr align) → r ≡ up data_ptr align)
      rounded = round_up-align_ok data_ptr align h

module _ ⦃e : ByteOrder⦄ {H : Type 0} (alloc : H → ℕ → Outcome ⊥ (ℕ × H))
    (total : (heap : H) (bytes : ℕ) → IsOk (alloc heap bytes)) where
  allocate-Lands : (bytes : ℕ) → Lands {H = H} (λ _. Unit {0}) (allocate alloc bytes)
  unfolding Lands
  allocate-Lands bytes m = rw ((total m.heap bytes).1) tt

  recv_slice-Lands : (ptr : ℕ) → Lands Done (recv_slice alloc ptr)
  recv_slice-Lands ptr = step-Lands _ _ _ _ (read_u32-Lands H) λ length.
      step-Lands _ _ _ _ (allocate-Lands length) λ block.
        step-Lands _ _ _ _ (Lands-store H ptr (e.of_u32 block ++ e.of_u32 length))
          λ _. step-Lands _ _ _ _ (read_exact-Lands H length) λ bytes. Lands-store H block bytes

  recv_list-Lands :
      (recv : Tag → ℕ → Recv H ℕ) (s : Shape) (ptr : ℕ)
      → HasLayout s
      → Fits (size_of s)
      → Advances recv s
      → Lands Done (recv_list alloc recv (print s) ptr)
  unfolding recv_list
  recv_list-Lands recv s ptr h fits advance = rw (next-print_alone s) (
      step-Lands _ _ _ _ (read_u32-Lands H) λ length.
        rw (alignment-tag_of s h, rounded.1, size-tag_of s h fits)
          (step-Lands _ _ _ _
            (allocate-Lands ((rounded.0 + (size_of s * length) % 2 ^ 32) % 2 ^ 32))
            λ block. step-Lands _ _ _ _ (Lands-store H ptr (e.of_u32 block)) λ _.
              step-Lands _ _ _ _ (Lands-store H (offset block 4) (e.of_u32 length)) λ _.
                step-Lands _ _ _ _ (Lands-store H block (e.of_u32 (offset block rounded.0)))
                  λ _. recv_elements-Lands recv s length (offset block rounded.0) h advance))
    where
      rounded :
          (r : ℕ) × (round_up 8 (align_of s) ≡ ok r)
          × (Fits (up 8 (align_of s)) → r ≡ up 8 (align_of s))
      rounded = round_up-align_ok 8 (align_of s) (align_of-IsAlignment s h)

  recv_lengths-Lands :
      (num_dims total_len data_ptr base : ℕ)
      → base % 4 ≡ 0
      → EndsAt base data_ptr
      → Lands
          (λ p. EndsAt (base + 4 * num_dims) p.1)
          (recv_lengths alloc num_dims total_len data_ptr)
  unfolding recv_lengths
  recv_lengths-Lands zero total_len data_ptr base aligned h =
      Lands-pure H _ _ λ fits. omega (arith, h (omega arith))
  recv_lengths-Lands (suc num_dims) total_len data_ptr base aligned h =
      step-Lands _ _ _ _ (read_u32-Lands H) λ len.
        Lands-bind (EndsAt (up data_ptr 4 + 4)) _
          (consume_value 4 4 data_ptr (λ ptr. store ptr (e.of_u32 len))) _
          (consume_value-Lands 4 4 data_ptr _ (inr (inl refl))
            λ ptr. Lands-store H ptr (e.of_u32 len))
          λ next_ptr moved.
            Lands-weaken H (λ p. EndsAt (base + 4 + 4 * num_dims) p.1) _ _
              (recv_lengths-Lands num_dims ((total_len * len) % 2 ^ 32) next_ptr (base + 4)
                (omega arith) (after_length data_ptr next_ptr base aligned h moved))
              λ p end fits. omega (arith, end (omega arith))

  recv_array-Lands :
      (recv : Tag → ℕ → Recv H ℕ) (s : Shape) (num_dims data_ptr : ℕ)
      → HasLayout s
      → Fits (size_of s)
      → Advances recv s
      → Lands
          (EndsAt (up data_ptr 4 + 4 * (1 + num_dims)))
          (recv_array alloc recv (print s) num_dims data_ptr)
  unfolding recv_array
  recv_array-Lands recv s num_dims data_ptr h fits advance = rw (rounded.1) (
      Lands-bind (λ p. EndsAt (up data_ptr 4 + 4 + 4 * num_dims) p.1) _
        (recv_lengths alloc num_dims 1 (offset rounded.0 4)) _
        (recv_lengths-Lands num_dims 1 (offset rounded.0 4) (up data_ptr 4 + 4)
          (omega (arith, up-divides data_ptr 4))
          (offset-EndsAt rounded.0 (up data_ptr 4) 4 rounded.2))
        λ p end.
          rw (next-print_alone s, size-tag_of s h fits)
            (step-Lands _ _ _ _ (allocate-Lands ((size_of s * p.0) % 2 ^ 32)) λ block.
              step-Lands _ _ _ _ (Lands-store H rounded.0 (e.of_u32 block)) λ _.
                step-Lands _ _ _ _ (recv_elements-Lands recv s p.0 block h advance)
                  λ _. Lands-pure H _ p.1 λ fits. omega (arith, end (omega arith))))
    where
      rounded : (r : ℕ) × (round_up data_ptr 4 ≡ ok r) × (Fits (up data_ptr 4) → r ≡ up data_ptr 4)
      rounded = round_up-align_ok data_ptr 4 (inr (inl refl))

  recv_tuple-Lands :
      (fuel : ℕ) (ss : Shapes) (data_ptr : ℕ)
      → HasLayout (Shape.tuple ss)
      → AllAdvance (recv_value_on alloc fuel) ss
      → Lands
          (EndsAt (up data_ptr (greatest_align ss) + up (fields_end 0 ss) (greatest_align ss)))
          (recv_value_on alloc (suc fuel) (tag_of (Shape.tuple ss)) data_ptr)
  unfolding recv_value_on tag_of align_of
  recv_tuple-Lands fuel ss data_ptr h advance =
      lift-Lands _ _ _ _ (alignment-tag_of (Shape.tuple ss) h) (
        lift-Lands _ _ _ _ start.1 (
          Lands-bind (EndsAt (fields_end start.0 ss)) _
            (recv_parts (recv_value_on alloc fuel) (count ss) (print_all ss) start.0) _
            (recv_parts-Lands (recv_value_on alloc fuel) ss start.0 (AllHaveLayout-tuple ss h)
              advance)
            λ stop at.
              Lands-lift H _ (round_up stop (greatest_align ss)) _
                (round_up-align_ok stop (greatest_align ss) power).1
                (tuple_EndsAt ss data_ptr start.0 stop _ h start.2 at
                  (round_up-align_ok stop (greatest_align ss) power).2)))
    where
      power : IsAlignment (greatest_align ss)
      power = align_of-IsAlignment (Shape.tuple ss) h

      start :
          (r : ℕ) × (round_up data_ptr (greatest_align ss) ≡ ok r)
          × EndsAt (up data_ptr (greatest_align ss)) r
      start = round_up-align_ok data_ptr (greatest_align ss) power

  recv_range-Lands :
      (fuel : ℕ) (s : Shape) (data_ptr : ℕ)
      → HasLayout s
      → Advances (recv_value_on alloc fuel) s
      → Lands
          (EndsAt (up data_ptr (align_of s) + 3 * size_of s))
          (recv_value_on alloc (suc fuel) (tag_of (Shape.range s)) data_ptr)
  unfolding recv_value_on tag_of align_of
  recv_range-Lands fuel s data_ptr h advance =
      lift-Lands _ _ _ _ (alignment-tag_of (Shape.range s) h) (
        lift-Lands _ _ _ _ start.1 (
          rw (next-print_alone s) (
            Lands-weaken H (EndsAt (fields_end start.0 (times 3 s))) _ _
              (recv_times-Lands (recv_value_on alloc fuel) s 3 start.0 h advance)
              λ end at. times-EndsAt 3 s data_ptr start.0 end h start.2 at)))
    where
      start :
          (r : ℕ) × (round_up data_ptr (align_of s) ≡ ok r) × EndsAt (up data_ptr (align_of s)) r
      start = round_up-align_ok data_ptr (align_of s) (align_of-IsAlignment s h)

  mutual
    unfolding recv_value_on tag_of align_of size_of print

    recv_value_on-Lands :
        (fuel : ℕ) (s : Shape)
        → length (parts (tag_of s)) < fuel
        → IsReceivable s
        → Advances (recv_value_on alloc fuel) s
    recv_value_on-Lands zero s enough h data_ptr = absurd (omega arith)
    recv_value_on-Lands (suc fuel) Shape.none enough h data_ptr =
        Lands-pure H _ data_ptr
          λ fits. omega (arith, up-aligned data_ptr 1 (inl refl) (omega arith))
    recv_value_on-Lands (suc fuel) Shape.bool enough h data_ptr =
        consume_value-Lands 1 1 data_ptr _ (inl refl)
          λ ptr. step-Lands _ _ _ _ (read_u8-Lands H) λ v. Lands-store H ptr (v ∷ [])
    recv_value_on-Lands (suc fuel) Shape.int32 enough h data_ptr =
        consume_value-Lands 4 4 data_ptr _ (inr (inl refl))
          λ ptr. step-Lands _ _ _ _ (read_u32-Lands H) λ v. Lands-store H ptr (e.of_u32 v)
    recv_value_on-Lands (suc fuel) Shape.int64 enough h data_ptr =
        consume_value-Lands 8 8 data_ptr _ (inr (inr refl))
          λ ptr. step-Lands _ _ _ _ (read_u64-Lands H) λ v. Lands-store H ptr (e.of_u64 v)
    recv_value_on-Lands (suc fuel) Shape.float64 enough h data_ptr =
        consume_value-Lands 8 8 data_ptr _ (inr (inr refl))
          λ ptr. step-Lands _ _ _ _ (read_u64-Lands H) λ v. Lands-store H ptr (e.of_u64 v)
    recv_value_on-Lands (suc fuel) Shape.string enough h data_ptr =
        consume_value-Lands 8 4 data_ptr _ (inr (inl refl)) recv_slice-Lands
    recv_value_on-Lands (suc fuel) Shape.bytes enough h data_ptr =
        consume_value-Lands 8 4 data_ptr _ (inr (inl refl)) recv_slice-Lands
    recv_value_on-Lands (suc fuel) Shape.byte_array enough h data_ptr =
        consume_value-Lands 8 4 data_ptr _ (inr (inl refl)) recv_slice-Lands
    recv_value_on-Lands (suc fuel) Shape.object enough h data_ptr = absurd h
    recv_value_on-Lands (suc fuel) (Shape.tuple ss) enough h data_ptr =
        recv_tuple-Lands fuel ss data_ptr h.0 (recv_value_on-AllAdvance fuel ss (omega arith) h.1)
    recv_value_on-Lands (suc fuel) (Shape.list s) enough h data_ptr =
        consume_value-Lands 4 4 data_ptr _ (inr (inl refl)) λ ptr.
          recv_list-Lands (recv_value_on alloc fuel) s ptr h.0 h.1
            (recv_value_on-Lands fuel s (omega (arith, parts-tag_of s)) h.2)
    recv_value_on-Lands (suc fuel) (Shape.array s num_dims) enough h data_ptr =
        recv_array-Lands (recv_value_on alloc fuel) s num_dims data_ptr h.0 h.1
          (recv_value_on-Lands fuel s (omega (arith, parts-tag_of s)) h.2)
    recv_value_on-Lands (suc fuel) (Shape.range s) enough h data_ptr =
        recv_range-Lands fuel s data_ptr h.0
          (recv_value_on-Lands fuel s (omega (arith, parts-tag_of s)) h.1)
    recv_value_on-Lands (suc fuel) (Shape.keyword s) enough h data_ptr = absurd h

    recv_value_on-AllAdvance :
        (fuel : ℕ) (ss : Shapes)
        → length (print_all ss) ≤ fuel
        → AllReceivable ss
        → AllAdvance (recv_value_on alloc fuel) ss
    recv_value_on-AllAdvance fuel nil enough h = tt
    recv_value_on-AllAdvance fuel (cons s ss) enough h = (
      recv_value_on-Lands fuel s
          (omega (arith, parts-tag_of s, length-append (print s) (print_all ss))) h.0,
      recv_value_on-AllAdvance fuel ss (omega (arith, length-append (print s) (print_all ss))) h.1,
    )

  -- Receiving a value whose shape can be received, into an address where it fits, with an
  -- allocator that does not panic: no panic, and either an error of the reader, or the pointer is moved
  -- to the shape's next aligned address and past its size.
  pub recv_value-Lands :
      (s : Shape) (data_ptr : ℕ)
      → IsReceivable s
      → Fits (up data_ptr (align_of s) + size_of s)
      → Lands
          (λ end. end ≡ up data_ptr (align_of s) + size_of s)
          (recv_value alloc (tag_of s) data_ptr)
  unfolding recv_value
  recv_value-Lands s data_ptr h fits =
      Lands-weaken H (EndsAt (up data_ptr (align_of s) + size_of s)) _ _
        (recv_value_on-Lands (suc (length (parts (tag_of s)))) s (omega arith) h data_ptr)
        λ end at. at fits

  -- With an allocator that does not panic, receiving so many elements from an aligned address takes just the size that a list or an array
  -- allocates for them, the number times the tag's size, when that fits in the memory.
  pub recv_times-Lands_fill :
      (s : Shape) (n start : ℕ)
      → IsReceivable s
      → start % align_of s ≡ 0
      → Fits (start + n * size_of s)
      → Lands
          (λ end. end ≡ start + n * size_of s)
          (recv_times (recv_value alloc) (tag_of s) n start)
  unfolding recv_value
  recv_times-Lands_fill s n start h aligned fits =
      Lands-weaken H (EndsAt (fields_end start (times n s))) _ _
        (recv_times-Lands (recv_value alloc) s n start layout
          (recv_value_on-Lands (suc (length (parts (tag_of s)))) s (omega arith) h))
        λ end at. at (omega (arith, fields)) ∙ fields
    where
      layout : HasLayout s
      layout = IsReceivable-HasLayout s h

      fields : fields_end start (times n s) ≡ start + n * size_of s
      fields = fields_end-times n s start layout aligned

  -- recv_return of a printed shape and other tags: no panic, and either an error of the reader or the
  -- bytes of the other tags.
  pub recv_return-print :
      (s : Shape) (others : List ℕ) (data_ptr : ℕ)
      → IsReceivable s
      → Lands (λ left. left ≡ others) (recv_return alloc (print s ++ others) data_ptr)
  unfolding recv_return recv_value
  recv_return-print s others data_ptr h = rw (next-print s others) (
      step-Lands _ _ _ _
        (recv_value_on-Lands (suc (length (parts (tag_of s)))) s (omega arith) h data_ptr)
        λ _. Lands-pure H _ others refl)
