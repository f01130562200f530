-- ===== src/Rpc/Recv/Fields.antt =====
-- src/libksupport/src/rpc.rs: arithmetic of the data pointer of recv_value.
use madmax_artiq_zynq.Base.{
  ℕ, zero, suc, ◌+◌, ◌*◌, ◌%◌, ◌^◌, ◌≤◌, ◌≡◌, inl, inr, refl, ◌∙◌, ap, subst, arith,
}
use madmax_artiq_zynq.Rpc.Tag.Shape.{Shape, Shapes}
use madmax_artiq_zynq.Rpc.Layout.Rounding.{up}
use madmax_artiq_zynq.Rpc.Layout.Struct.{
  align_of, greatest_align, size_of, fields_end, HasLayout, IsAlignment,
}
use madmax_artiq_zynq.Rpc.Layout.Aligned.{align_of-IsAlignment, AllHaveLayout-tuple}
use madmax_artiq_zynq.Rpc.Layout.Sized.{Fits, up-align_of}
use madmax_artiq_zynq.Rpc.Layout.Shift.{
  up-shift, next_aligned, up-aligned, up-divides, AllDivide, greatest_align-divides,
  fields_end-shift,
}
use native.Mathlib.Nat.{mod-eq_of_lt}
use madmax_artiq_zynq.Rpc.Recv.{offset}
use madmax_artiq_zynq.Rpc.Recv.Elements.{EndsAt, times}

pub offset-EndsAt : (r u width : ℕ) → (Fits u → r ≡ u) → EndsAt (u + width) (offset r width)
offset-EndsAt r u width h fits =
    ap (λ r. offset r width) (h (omega arith))
    ∙ mod-eq_of_lt {n = u + width} {m = 2 ^ 32} (omega arith)

pub after_length :
    (data_ptr next_ptr base : ℕ)
    → base % 4 ≡ 0
    → EndsAt base data_ptr
    → EndsAt (up data_ptr 4 + 4) next_ptr
    → EndsAt (base + 4) next_ptr
after_length data_ptr next_ptr base aligned h moved fits =
    subst (λ d. EndsAt (up d 4 + 4) next_ptr) (h (omega arith)) moved (omega (arith, same))
    ∙ omega (arith, same)
  where
    same : up base 4 ≡ base
    same = up-aligned base 4 (inr (inl refl)) aligned

-- The fields of a tuple that starts at an aligned address, and its padding.
pub tuple_EndsAt :
    (ss : Shapes) (data_ptr start stop end : ℕ)
    → HasLayout (Shape.tuple ss)
    → EndsAt (up data_ptr (greatest_align ss)) start
    → EndsAt (fields_end start ss) stop
    → EndsAt (up stop (greatest_align ss)) end
    → EndsAt (up data_ptr (greatest_align ss) + up (fields_end 0 ss) (greatest_align ss)) end
unfolding align_of
tuple_EndsAt ss data_ptr start stop end h at_start at_stop at_end fits =
    subst (λ x. EndsAt (up x g) end) stopped at_end (omega (arith, shifted)) ∙ shifted
  where
    g : ℕ
    g = greatest_align ss

    base : ℕ
    base = up data_ptr g

    power : IsAlignment g
    power = align_of-IsAlignment (Shape.tuple ss) h

    aligned : AllDivide base ss
    aligned =
        greatest_align-divides base g ss (AllHaveLayout-tuple ss h) power (up-divides data_ptr g)
          (omega arith)

    fields : fields_end base ss ≡ base + fields_end 0 ss
    fields =
        ap (λ x. fields_end x ss) (omega arith)
        ∙ fields_end-shift base 0 ss (AllHaveLayout-tuple ss h) aligned

    shifted : up (base + fields_end 0 ss) g ≡ base + up (fields_end 0 ss) g
    shifted = up-shift base (fields_end 0 ss) g power (up-divides data_ptr g)

    padded : fields_end 0 ss ≤ up (fields_end 0 ss) g
    padded = (up-align_of (Shape.tuple ss) (fields_end 0 ss) h).0

    stopped : stop ≡ base + fields_end 0 ss
    stopped =
        subst (λ x. EndsAt (fields_end x ss) stop) (at_start (omega (arith, fits))) at_stop
          (omega (arith, fits, fields, padded))
        ∙ fields

-- So many values of a shape from an aligned address on.
pub fields_end-times :
    (n : ℕ) (s : Shape) (base : ℕ)
    → HasLayout s
    → base % align_of s ≡ 0
    → fields_end base (times n s) ≡ base + n * size_of s
unfolding size_of
fields_end-times zero s base h aligned = omega arith
fields_end-times (suc n) s base h aligned =
    rw (up-aligned base (align_of s) (align_of-IsAlignment s h) aligned)
      (fields_end-times n s (base + size_of s) h (next_aligned s base h aligned) ∙ omega arith)

pub times-EndsAt :
    (n : ℕ) (s : Shape) (data_ptr start end : ℕ)
    → HasLayout s
    → EndsAt (up data_ptr (align_of s)) start
    → EndsAt (fields_end start (times n s)) end
    → EndsAt (up data_ptr (align_of s) + n * size_of s) end
times-EndsAt n s data_ptr start end h at_start at_end fits =
    subst (λ x. EndsAt (fields_end x (times n s)) end) (at_start (omega arith)) at_end
      (omega (arith, fields))
    ∙ fields
  where
    fields :
        fields_end (up data_ptr (align_of s)) (times n s) ≡ up data_ptr (align_of s) + n * size_of s
    fields = fields_end-times n s (up data_ptr (align_of s)) h (up-divides data_ptr (align_of s))
