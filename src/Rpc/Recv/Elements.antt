-- ===== src/Rpc/Recv/Elements.antt =====
-- src/libksupport/src/rpc.rs: where the data pointer stands after the elements of a tuple, of a list and
-- of an array.
use madmax_artiq_zynq.Base.{ℕ, zero, suc, ◌+◌, ◌*◌, ◌%◌, ◌^◌, ◌≡◌, refl, subst, arith}
use madmax_artiq_zynq.Io.Proto.{read_exact}
use madmax_artiq_zynq.Rpc.Tag.{Tag}
use madmax_artiq_zynq.Rpc.Tag.Shape.{Shape, Shapes, nil, cons, count, print, print_all}
use madmax_artiq_zynq.Rpc.Tag.Grammar.{tag_of, next-print}
use madmax_artiq_zynq.Rpc.Layout.Rounding.{up}
use madmax_artiq_zynq.Rpc.Layout.Struct.{align_of, size_of, fields_end, HasLayout, AllHaveLayout}
use madmax_artiq_zynq.Rpc.Layout.Sized.{Fits, fields_end-grows}
use madmax_artiq_zynq.Rpc.Recv.{Recv, reading, recv_parts, recv_times, recv_elements, recv_block}
use madmax_artiq_zynq.Rpc.Recv.Lands.{
  Lands, Lands-bind, Lands-pure, Lands-weaken, Lands-store, read_exact-Lands,
}

abbrev pub Done : Unit {0} → Type 0
Done _ = Unit {0}

-- If the fields fit in the memory, the pointer is after the last.
abbrev pub EndsAt : ℕ → ℕ → Type 0
EndsAt end data_ptr = Fits end → data_ptr ≡ end

-- So many fields of a shape.
abbrev pub times : ℕ → Shape → Shapes
times zero s = nil
times (suc n) s = cons s (times n s)

pub AllHaveLayout-times : (n : ℕ) (s : Shape) → HasLayout s → AllHaveLayout (times n s)
AllHaveLayout-times zero s h = tt
AllHaveLayout-times (suc n) s h = (h, AllHaveLayout-times n s h)

module _ {H : Type 0} (recv : Tag → ℕ → Recv H ℕ) where
  -- The value of a shape goes to the next aligned address.
  abbrev pub Advances : Shape → Type 0
  Advances s =
      (data_ptr : ℕ)
      → Lands (EndsAt (up data_ptr (align_of s) + size_of s)) (recv (tag_of s) data_ptr)

  abbrev pub AllAdvance : Shapes → Type 0
  AllAdvance nil = Unit {0}
  AllAdvance (cons s ss) = Advances s × AllAdvance ss

  -- The fields after one whose end is known.
  then_EndsAt :
      (ss : Shapes) (start data_ptr end : ℕ)
      → AllHaveLayout ss
      → EndsAt start data_ptr
      → EndsAt (fields_end data_ptr ss) end
      → EndsAt (fields_end start ss) end
  then_EndsAt ss start data_ptr end h first others fits =
      subst (λ d. EndsAt (fields_end d ss) end) (first (omega (arith, fields_end-grows start ss h)))
        others fits

  pub recv_parts-Lands :
      (ss : Shapes) (data_ptr : ℕ)
      → AllHaveLayout ss
      → AllAdvance ss
      → Lands (EndsAt (fields_end data_ptr ss)) (recv_parts recv (count ss) (print_all ss) data_ptr)
  unfolding recv_parts print size_of
  recv_parts-Lands nil data_ptr h advance = Lands-pure H _ data_ptr λ fits. refl
  recv_parts-Lands (cons s ss) data_ptr h advance = rw (next-print s (print_all ss)) (
      Lands-bind (EndsAt (up data_ptr (align_of s) + size_of s)) _ (recv (tag_of s) data_ptr) _
        (advance.0 data_ptr)
        λ next_ptr first.
          Lands-weaken H (EndsAt (fields_end next_ptr ss)) _ _
            (recv_parts-Lands ss next_ptr h.1 advance.1)
            λ end others.
              then_EndsAt ss (up data_ptr (align_of s) + size_of s) next_ptr end h.1 first others)

  pub recv_times-Lands :
      (s : Shape) (n data_ptr : ℕ)
      → HasLayout s
      → Advances s
      → Lands (EndsAt (fields_end data_ptr (times n s))) (recv_times recv (tag_of s) n data_ptr)
  unfolding recv_times size_of
  recv_times-Lands s zero data_ptr h advance = Lands-pure H _ data_ptr λ fits. refl
  recv_times-Lands s (suc n) data_ptr h advance =
      Lands-bind (EndsAt (up data_ptr (align_of s) + size_of s)) _ (recv (tag_of s) data_ptr) _
        (advance data_ptr)
        λ next_ptr first.
          Lands-weaken H (EndsAt (fields_end next_ptr (times n s))) _ _
            (recv_times-Lands s n next_ptr h advance)
            λ end others.
              then_EndsAt (times n s) (up data_ptr (align_of s) + size_of s) next_ptr end
                (AllHaveLayout-times n s h) first others

  recv_block-Lands : (storage bytes : ℕ) → Lands Done (recv_block recv storage bytes)
  recv_block-Lands storage bytes =
      Lands-bind _ _ (reading (read_exact (bytes % 2 ^ 32))) _ (read_exact-Lands H (bytes % 2 ^ 32))
        λ dest _. Lands-store H storage dest

  recv_elements-each :
      (P : ℕ → Type 0) (tag : Tag) (length storage : ℕ)
      → Lands P (recv_times recv tag length storage)
      → Lands Done (recv_elements recv tag length storage)
  unfolding recv_elements
  recv_elements-each P Tag.none length storage h = Lands-bind P _ _ _ h λ _ _. Lands-pure H _ tt tt
  recv_elements-each P Tag.bool length storage h = recv_block-Lands storage length
  recv_elements-each P Tag.int32 length storage h = recv_block-Lands storage (length * 4)
  recv_elements-each P Tag.int64 length storage h = recv_block-Lands storage (length * 8)
  recv_elements-each P Tag.float64 length storage h = recv_block-Lands storage (length * 8)
  recv_elements-each P Tag.string length storage h =
      Lands-bind P _ _ _ h λ _ _. Lands-pure H _ tt tt
  recv_elements-each P Tag.bytes length storage h = Lands-bind P _ _ _ h λ _ _. Lands-pure H _ tt tt
  recv_elements-each P Tag.byte_array length storage h =
      Lands-bind P _ _ _ h λ _ _. Lands-pure H _ tt tt
  recv_elements-each P Tag.object length storage h =
      Lands-bind P _ _ _ h λ _ _. Lands-pure H _ tt tt
  recv_elements-each P (Tag.tuple it arity) length storage h =
      Lands-bind P _ _ _ h λ _ _. Lands-pure H _ tt tt
  recv_elements-each P (Tag.list it) length storage h =
      Lands-bind P _ _ _ h λ _ _. Lands-pure H _ tt tt
  recv_elements-each P (Tag.array it num_dims) length storage h =
      Lands-bind P _ _ _ h λ _ _. Lands-pure H _ tt tt
  recv_elements-each P (Tag.range it) length storage h =
      Lands-bind P _ _ _ h λ _ _. Lands-pure H _ tt tt
  recv_elements-each P (Tag.keyword it) length storage h =
      Lands-bind P _ _ _ h λ _ _. Lands-pure H _ tt tt

  pub recv_elements-Lands :
      (s : Shape) (length storage : ℕ)
      → HasLayout s
      → Advances s
      → Lands Done (recv_elements recv (tag_of s) length storage)
  recv_elements-Lands s length storage h advance =
      recv_elements-each (EndsAt (fields_end storage (times length s))) (tag_of s) length storage
        (recv_times-Lands s length storage h advance)
