-- ===== src/Rpc/Layout/Shift.antt =====
-- src/libksupport/src/rpc.rs: a structure's layout is the same at every address that its alignment
-- divides, and it ends at such an address.
use madmax_artiq_zynq.Base.{
  ℕ, ◌+◌, ◌-◌, ◌*◌, ◌/◌, ◌%◌, ◌≤◌, ◌≡◌, inl, inr, refl, ap, subst, ◌∙◌, arith,
}
use madmax_artiq_zynq.Rpc.Tag.Shape.{Shape, Shapes, nil, cons}
use madmax_artiq_zynq.Rpc.Layout.Rounding.{up}
use madmax_artiq_zynq.Rpc.Layout.Struct.{
  align_of, greatest_align, size_of, fields_end, HasLayout, AllHaveLayout, IsAlignment,
}
use madmax_artiq_zynq.Rpc.Layout.Aligned.{align_of-IsAlignment}
use native.Mathlib.Nat.{mul-mod_left, add-mod, zero-mod}

pub up-shift : (base v a : ℕ) → IsAlignment a → base % a ≡ 0 → up (base + v) a ≡ base + up v a
unfolding up
up-shift base v a (inl e) h = rw e (omega arith)
up-shift base v a (inr (inl e)) h = rw e (omega (arith, subst (λ a. base % a ≡ 0) e h))
up-shift base v a (inr (inr e)) h = rw e (omega (arith, subst (λ a. base % a ≡ 0) e h))

pub up-aligned : (base a : ℕ) → IsAlignment a → base % a ≡ 0 → up base a ≡ base
unfolding up
up-aligned base a (inl e) h = rw e (omega arith)
up-aligned base a (inr (inl e)) h = rw e (omega (arith, subst (λ a. base % a ≡ 0) e h))
up-aligned base a (inr (inr e)) h = rw e (omega (arith, subst (λ a. base % a ≡ 0) e h))

pub up-divides : (v a : ℕ) → up v a % a ≡ 0
unfolding up
up-divides v a = mul-mod_left ((v + (a - 1)) / a) a

three-divides : (n a : ℕ) → IsAlignment a → n % a ≡ 0 → 3 * n % a ≡ 0
three-divides n a (inl e) h = rw e (omega arith)
three-divides n a (inr (inl e)) h = rw e (omega (arith, subst (λ a. n % a ≡ 0) e h))
three-divides n a (inr (inr e)) h = rw e (omega (arith, subst (λ a. n % a ≡ 0) e h))

-- The alignment of a value divides its size, so that the elements of a list whose first is aligned are
-- all aligned.
pub align_of-divides : (s : Shape) → HasLayout s → size_of s % align_of s ≡ 0
unfolding align_of size_of
align_of-divides Shape.none h = refl
align_of-divides Shape.bool h = refl
align_of-divides Shape.int32 h = refl
align_of-divides Shape.int64 h = refl
align_of-divides Shape.float64 h = refl
align_of-divides Shape.string h = refl
align_of-divides Shape.bytes h = refl
align_of-divides Shape.byte_array h = refl
align_of-divides Shape.object h = absurd h
align_of-divides (Shape.tuple ss) h = up-divides (fields_end 0 ss) (greatest_align ss)
align_of-divides (Shape.list s) h = refl
align_of-divides (Shape.array s num_dims) h = omega arith
align_of-divides (Shape.range s) h =
    three-divides (size_of s) (align_of s) (align_of-IsAlignment s h) (align_of-divides s h)
align_of-divides (Shape.keyword s) h = absurd h

-- The end of a value that starts at an aligned address is aligned.
pub next_aligned :
    (s : Shape) (base : ℕ)
    → HasLayout s
    → base % align_of s ≡ 0
    → (base + size_of s) % align_of s ≡ 0
next_aligned s base h aligned =
    rw (add-mod base (size_of s) (align_of s), aligned, align_of-divides s h)
      (zero-mod (align_of s))

-- Every field's alignment divides the base.
abbrev pub AllDivide : (base : ℕ) → Shapes → Type 0
AllDivide base nil = Unit {0}
AllDivide base (cons s ss) = (base % align_of s ≡ 0) × AllDivide base ss

smaller-divides :
    (base a m : ℕ) → IsAlignment a → IsAlignment m → a ≤ m → base % m ≡ 0 → base % a ≡ 0
smaller-divides base a m (inl e) hm less h = rw e (omega arith)
smaller-divides base a m (inr (inl e)) (inl e') less h = absurd (omega arith)
smaller-divides base a m (inr (inl e)) (inr (inl e')) less h = rw e (subst (λ m. base % m ≡ 0) e' h)
smaller-divides base a m (inr (inl e)) (inr (inr e')) less h =
    rw e (omega (arith, subst (λ m. base % m ≡ 0) e' h))
smaller-divides base a m (inr (inr e)) (inl e') less h = absurd (omega arith)
smaller-divides base a m (inr (inr e)) (inr (inl e')) less h = absurd (omega arith)
smaller-divides base a m (inr (inr e)) (inr (inr e')) less h = rw e (subst (λ m. base % m ≡ 0) e' h)

pub greatest_align-divides :
    (base m : ℕ) (ss : Shapes)
    → AllHaveLayout ss
    → IsAlignment m
    → base % m ≡ 0
    → greatest_align ss ≤ m
    → AllDivide base ss
unfolding align_of
greatest_align-divides base m nil h hm e less = tt
greatest_align-divides base m (cons s ss) h hm e less = (
  smaller-divides base (align_of s) m (align_of-IsAlignment s h.0) hm (omega arith) e,
  greatest_align-divides base m ss h.1 hm e (omega arith),
)

pub fields_end-shift :
    (base pos : ℕ) (ss : Shapes)
    → AllHaveLayout ss
    → AllDivide base ss
    → fields_end (base + pos) ss ≡ base + fields_end pos ss
unfolding size_of
fields_end-shift base pos nil h d = refl
fields_end-shift base pos (cons s ss) h d =
    ap (λ start. fields_end start ss)
      (omega (arith, up-shift base pos (align_of s) (align_of-IsAlignment s h.0) d.0))
    ∙ fields_end-shift base (up pos (align_of s) + size_of s) ss h.1 d.1
