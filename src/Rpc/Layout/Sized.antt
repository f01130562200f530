-- ===== src/Rpc/Layout/Sized.antt =====
-- src/libksupport/src/rpc.rs: the size of a tag is the one of the structure it describes.
use madmax_artiq_zynq.Base.{
  ℕ, zero, suc, ◌+◌, ◌*◌, ◌%◌, ◌^◌, ◌≤◌, ◌<◌, ◌≡◌, inl, inr, refl, ap, max, true, length,
  length-append, arith,
}
use madmax_artiq_zynq.Outcome.{ok}
use madmax_artiq_zynq.Rpc.Tag.Shape.{Shape, Shapes, nil, cons, count, print, print_all}
use madmax_artiq_zynq.Rpc.Tag.Grammar.{tag_of, next-print, next-print_alone}
use madmax_artiq_zynq.Rpc.Layout.{is_power_of_two, round_up, parts, elements_size, size_on, size}
use madmax_artiq_zynq.Rpc.Layout.Rounding.{up, up-bounds, round_up-up}
use madmax_artiq_zynq.Rpc.Layout.Struct.{
  align_of, greatest_align, size_of, fields_end, HasLayout, AllHaveLayout, IsAlignment,
}
use madmax_artiq_zynq.Rpc.Layout.Aligned.{
  align_of-IsAlignment, parts-tag_of, AllHaveLayout-tuple, alignment-tag_of,
}
use native.Mathlib.Nat.{mod-eq_of_lt}

-- Rounding up to an alignment stays below 2^32.
abbrev pub Fits : ℕ → Type 0
Fits n = n + 8 ≤ 2 ^ 32

pub IsAlignment-pos : (a : ℕ) → IsAlignment a → (0 < a) × (a ≤ 8)
IsAlignment-pos a h = ground arith

pub IsAlignment-power : (a : ℕ) → IsAlignment a → is_power_of_two 32 a ≡ true
unfolding is_power_of_two
IsAlignment-power a (inl e) = rw e
IsAlignment-power a (inr (inl e)) = rw e
IsAlignment-power a (inr (inr e)) = rw e

pub round_up-align : (v a : ℕ) → IsAlignment a → Fits v → round_up v a ≡ ok (up v a)
round_up-align v a h fits =
    round_up-up v a (IsAlignment-pos a h).0 (IsAlignment-power a h)
      (omega (arith, (IsAlignment-pos a h).1))

pub up-align_of :
    (s : Shape) (v : ℕ)
    → HasLayout s
    → (v ≤ up v (align_of s)) × (up v (align_of s) < v + align_of s)
up-align_of s v h =
    up-bounds v (align_of s) (IsAlignment-pos (align_of s) (align_of-IsAlignment s h)).0

pub fields_end-grows : (pos : ℕ) (ss : Shapes) → AllHaveLayout ss → pos ≤ fields_end pos ss
unfolding size_of
fields_end-grows pos nil h = omega arith
fields_end-grows pos (cons s ss) h =
    omega
      (arith, (up-align_of s pos h.0).0, fields_end-grows (up pos (align_of s) + size_of s) ss h.1)

-- The padding at the end of a tuple.
pub tuple-end :
    (ss : Shapes) → HasLayout (Shape.tuple ss) → fields_end 0 ss ≤ size_of (Shape.tuple ss)
unfolding size_of align_of
tuple-end ss h = (up-align_of (Shape.tuple ss) (fields_end 0 ss) h).0

zero_max : (n : ℕ) → max 0 n ≡ n
zero_max n = omega arith

max_zero : (n : ℕ) → n ≡ max n 0
max_zero n = omega arith

max_assoc : (a b c : ℕ) → max (max a b) c ≡ max a (max b c)
max_assoc a b c = omega arith

times_three : (n : ℕ) → Fits (3 * n) → (n * 3) % 2 ^ 32 ≡ 3 * n
times_three n fits = omega arith

mutual
  unfolding size_of align_of size_on tag_of print elements_size

  size_on-tag_of :
      (fuel : ℕ) (s : Shape)
      → length (parts (tag_of s)) < fuel
      → HasLayout s
      → Fits (size_of s)
      → size_on fuel (tag_of s) ≡ ok (size_of s)
  size_on-tag_of zero s enough h fits = absurd (omega arith)
  size_on-tag_of (suc fuel) Shape.none enough h fits = refl
  size_on-tag_of (suc fuel) Shape.bool enough h fits = refl
  size_on-tag_of (suc fuel) Shape.int32 enough h fits = refl
  size_on-tag_of (suc fuel) Shape.int64 enough h fits = refl
  size_on-tag_of (suc fuel) Shape.float64 enough h fits = refl
  size_on-tag_of (suc fuel) Shape.string enough h fits = refl
  size_on-tag_of (suc fuel) Shape.bytes enough h fits = refl
  size_on-tag_of (suc fuel) Shape.byte_array enough h fits = refl
  size_on-tag_of (suc fuel) Shape.object enough h fits = absurd h
  size_on-tag_of (suc fuel) (Shape.tuple ss) enough h fits =
      rw
        (
          elements_size-print_all fuel ss 0 0 (omega arith) (AllHaveLayout-tuple ss h)
              (omega (arith, tuple-end ss h)),
          zero_max (greatest_align ss),
        )
        (round_up-align (fields_end 0 ss) (greatest_align ss)
          (align_of-IsAlignment (Shape.tuple ss) h) (omega (arith, tuple-end ss h)))
  size_on-tag_of (suc fuel) (Shape.list s) enough h fits = refl
  size_on-tag_of (suc fuel) (Shape.array s num_dims) enough h fits = refl
  size_on-tag_of (suc fuel) (Shape.range s) enough h fits =
      rw (next-print_alone s, size_on-tag_of fuel s (omega (arith, parts-tag_of s)) h (omega arith))
        (ap ok (times_three (size_of s) fits))
  size_on-tag_of (suc fuel) (Shape.keyword s) enough h fits = absurd h

  elements_size-print_all :
      (fuel : ℕ) (ss : Shapes) (pos most : ℕ)
      → length (print_all ss) ≤ fuel
      → AllHaveLayout ss
      → Fits (fields_end pos ss)
      → elements_size (size_on fuel) (count ss) (print_all ss) pos most
        ≡ ok (fields_end pos ss, max most (greatest_align ss))
  elements_size-print_all fuel nil pos most enough h fits = ap (λ m. ok (pos, m)) (max_zero most)
  elements_size-print_all fuel (cons s ss) pos most enough h fits =
      rw
        (
          next-print s (print_all ss),
          alignment-tag_of s h.0,
          round_up-align pos (align_of s) (align_of-IsAlignment s h.0)
              (omega (arith, grows, (up-align_of s pos h.0).0)),
          size_on-tag_of fuel s
              (omega (arith, parts-tag_of s, length-append (print s) (print_all ss))) h.0
              (omega (arith, grows)),
          mod-eq_of_lt {n = up pos (align_of s) + size_of s} {m = 2 ^ 32} (omega (arith, grows)),
          elements_size-print_all fuel ss (up pos (align_of s) + size_of s) (max most (align_of s))
              (omega (arith, length-append (print s) (print_all ss))) h.1 fits,
        )
        (ap (λ m. ok (fields_end start ss, m)) (max_assoc most (align_of s) (greatest_align ss)))
    where
      start : ℕ
      start = up pos (align_of s) + size_of s

      grows : start ≤ fields_end start ss
      grows = fields_end-grows start ss h.1

-- The size of a printed shape is the one that the structure rules give it, when it fits in the memory.
pub size-tag_of : (s : Shape) → HasLayout s → Fits (size_of s) → size (tag_of s) ≡ ok (size_of s)
unfolding size
size-tag_of s h fits = size_on-tag_of (suc (length (parts (tag_of s)))) s (omega arith) h fits
