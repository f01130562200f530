-- ===== src/Rpc/Layout/Aligned.antt =====
-- src/libksupport/src/rpc.rs: the alignment of a tag is the one of the structure it describes.
use madmax_artiq_zynq.Base.{
  ℕ, zero, suc, ◌≤◌, ◌<◌, ◌≡◌, ◌⊎◌, inl, inr, refl, ap, max, length, length-append, arith,
}
use madmax_artiq_zynq.Outcome.{ok}
use madmax_artiq_zynq.Rpc.Tag.{next, next_on, expect}
use madmax_artiq_zynq.Rpc.Tag.Shape.{Shape, Shapes, nil, cons, count, print, print_all}
use madmax_artiq_zynq.Rpc.Tag.Grammar.{tag_of, next-print, next-print_alone}
use madmax_artiq_zynq.Rpc.Layout.{max_alignment, alignment_on, alignment, parts}
use madmax_artiq_zynq.Rpc.Layout.Struct.{
  align_of, greatest_align, HasLayout, AllHaveLayout, IsAlignment,
}
use mathlib.Core.Option.{Option}

-- The greatest of no alignments is 0.
greatest-IsAlignment : (a b : ℕ) → IsAlignment a → (b ≡ 0) ⊎ IsAlignment b → IsAlignment (max a b)
greatest-IsAlignment a b ha hb = ground arith

mutual
  unfolding align_of

  pub align_of-IsAlignment : (s : Shape) → HasLayout s → IsAlignment (align_of s)
  align_of-IsAlignment Shape.none h = inl refl
  align_of-IsAlignment Shape.bool h = inl refl
  align_of-IsAlignment Shape.int32 h = inr (inl refl)
  align_of-IsAlignment Shape.int64 h = inr (inr refl)
  align_of-IsAlignment Shape.float64 h = inr (inr refl)
  align_of-IsAlignment Shape.string h = inr (inl refl)
  align_of-IsAlignment Shape.bytes h = inr (inl refl)
  align_of-IsAlignment Shape.byte_array h = inr (inl refl)
  align_of-IsAlignment Shape.object h = absurd h
  align_of-IsAlignment (Shape.tuple nil) h = absurd h
  align_of-IsAlignment (Shape.tuple (cons s ss)) h =
      greatest-IsAlignment (align_of s) (greatest_align ss) (align_of-IsAlignment s h.0)
        (greatest_align-IsAlignment ss h.1)
  align_of-IsAlignment (Shape.list s) h = inr (inl refl)
  align_of-IsAlignment (Shape.array s num_dims) h = inr (inl refl)
  align_of-IsAlignment (Shape.range s) h = align_of-IsAlignment s h
  align_of-IsAlignment (Shape.keyword s) h = absurd h

  pub greatest_align-IsAlignment :
      (ss : Shapes) → AllHaveLayout ss → (greatest_align ss ≡ 0) ⊎ IsAlignment (greatest_align ss)
  greatest_align-IsAlignment nil h = inl refl
  greatest_align-IsAlignment (cons s ss) h = inr (
      greatest-IsAlignment (align_of s) (greatest_align ss) (align_of-IsAlignment s h.0)
        (greatest_align-IsAlignment ss h.1))

pub parts-tag_of : (s : Shape) → length (parts (tag_of s)) < length (print s)
unfolding tag_of print
parts-tag_of s = ground arith

-- What the iterator's `max` makes of the elements' alignments.
unfoldable greatest? : Shapes → Option ℕ
greatest? nil = Option.none
greatest? (cons s ss) = Option.some (greatest_align (cons s ss))

greatest?-cons :
    (a : ℕ) (ss : Shapes)
    → elim (greatest? ss) [ Option.none ↦ a | Option.some other ↦ max a other ]
      ≡ max a (greatest_align ss)
unfolding greatest? align_of
greatest?-cons a nil = omega arith
greatest?-cons a (cons s ss) = refl

unwrap-greatest? :
    (ss : Shapes) → HasLayout (Shape.tuple ss) → expect (greatest? ss) ≡ ok (greatest_align ss)
unfolding greatest?
unwrap-greatest? nil h = absurd h
unwrap-greatest? (cons s ss) h = refl

pub AllHaveLayout-tuple : (ss : Shapes) → HasLayout (Shape.tuple ss) → AllHaveLayout ss
AllHaveLayout-tuple nil h = tt
AllHaveLayout-tuple (cons s ss) h = h

mutual
  unfolding align_of greatest? alignment_on tag_of print max_alignment next next_on

  alignment_on-tag_of :
      (fuel : ℕ) (s : Shape)
      → length (parts (tag_of s)) < fuel
      → HasLayout s
      → alignment_on fuel (tag_of s) ≡ ok (align_of s)
  alignment_on-tag_of zero s enough h = absurd (omega arith)
  alignment_on-tag_of (suc fuel) Shape.none enough h = refl
  alignment_on-tag_of (suc fuel) Shape.bool enough h = refl
  alignment_on-tag_of (suc fuel) Shape.int32 enough h = refl
  alignment_on-tag_of (suc fuel) Shape.int64 enough h = refl
  alignment_on-tag_of (suc fuel) Shape.float64 enough h = refl
  alignment_on-tag_of (suc fuel) Shape.string enough h = refl
  alignment_on-tag_of (suc fuel) Shape.bytes enough h = refl
  alignment_on-tag_of (suc fuel) Shape.byte_array enough h = refl
  alignment_on-tag_of (suc fuel) Shape.object enough h = absurd h
  alignment_on-tag_of (suc fuel) (Shape.tuple ss) enough h =
      rw (max_alignment-print_all fuel ss (omega arith) (AllHaveLayout-tuple ss h))
        (unwrap-greatest? ss h)
  alignment_on-tag_of (suc fuel) (Shape.list s) enough h = refl
  alignment_on-tag_of (suc fuel) (Shape.array s num_dims) enough h = refl
  alignment_on-tag_of (suc fuel) (Shape.range s) enough h =
      rw (next-print_alone s, alignment_on-tag_of fuel s (omega (arith, parts-tag_of s)) h)
  alignment_on-tag_of (suc fuel) (Shape.keyword s) enough h = absurd h

  max_alignment-print_all :
      (fuel : ℕ) (ss : Shapes)
      → length (print_all ss) ≤ fuel
      → AllHaveLayout ss
      → max_alignment (alignment_on fuel) (count ss) (print_all ss) ≡ ok (greatest? ss)
  max_alignment-print_all fuel nil enough h = refl
  max_alignment-print_all fuel (cons s ss) enough h =
      rw
        (
          next-print s (print_all ss),
          alignment_on-tag_of fuel s
              (omega (arith, parts-tag_of s, length-append (print s) (print_all ss))) h.0,
          max_alignment-print_all fuel ss (omega (arith, length-append (print s) (print_all ss)))
              h.1,
        )
        (ap (λ a. ok (Option.some a)) (greatest?-cons (align_of s) ss))

-- The alignment of a printed shape is the one that the structure rules give it.
pub alignment-tag_of : (s : Shape) → HasLayout s → alignment (tag_of s) ≡ ok (align_of s)
unfolding alignment
alignment-tag_of s h = alignment_on-tag_of (suc (length (parts (tag_of s)))) s (omega arith) h
