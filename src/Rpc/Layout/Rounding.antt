-- ===== src/Rpc/Layout/Rounding.antt =====
-- src/libksupport/src/rpc.rs: what round_up computes.
use madmax_artiq_zynq.Base.{
  ℕ, zero, suc, ◌+◌, ◌-◌, ◌*◌, ◌/◌, ◌%◌, ◌^◌, ◌≤◌, ◌<◌, ◌≡◌, ◌⊎◌, inl, inr, refl, ap, Bool, true,
  false, ◌||◌, ==_refl, arith,
}
use madmax_artiq_zynq.Outcome.{ok}
use madmax_artiq_zynq.Rpc.Layout.{is_power_of_two, round_up}
use native.Mathlib.Nat.{
  mod-lt, div-add-mod', mod-eq_of_lt, lt_of_mul-lt-mul_right, mul-le-mul_right, one-le-pow,
}

-- The multiple of a that is v, or the next one.
unfoldable pub up : (v a : ℕ) → ℕ
up v a = (v + (a - 1)) / a * a

pub up-bounds : (v a : ℕ) → 0 < a → (v ≤ up v a) × (up v a < v + a)
unfolding up
up-bounds v a h = (
  omega (arith, div-add-mod' (v + (a - 1)) a, mod-lt (v + (a - 1)) h),
  omega (arith, div-add-mod' (v + (a - 1)) a),
)

lt_or_eq : (k n : ℕ) → k ≤ n → (k < n) ⊎ (k ≡ n)
lt_or_eq k n h = ground arith

or_true : (b : Bool) → b || true ≡ true
or_true true = refl
or_true false = refl

is_power_of_two-pow : (bits k : ℕ) → k < bits → is_power_of_two bits (2 ^ k) ≡ true
unfolding is_power_of_two
is_power_of_two-pow zero k h = absurd (omega arith)
is_power_of_two-pow (suc bits) k h = elim (lt_or_eq k bits (omega arith)) [
  | inl less ↦ rw (is_power_of_two-pow bits k less) (or_true _)
  | inr same ↦ rw (same, ==_refl (2 ^ bits))
]

pub round_up-power :
    (v a : ℕ)
    → is_power_of_two 32 a ≡ true
    → round_up v a ≡ ok ((v + (a - 1)) % 2 ^ 32 - (v + (a - 1)) % 2 ^ 32 % a)
unfolding round_up
round_up-power v a power = rw power

pub round_up-up :
    (v a : ℕ) → 0 < a → is_power_of_two 32 a ≡ true → v + a ≤ 2 ^ 32 → round_up v a ≡ ok (up v a)
unfolding round_up up
round_up-up v a pos power h =
    rw (power, mod-eq_of_lt {n = v + (a - 1)} {m = 2 ^ 32} (omega arith))
      (ap ok (omega (arith, div-add-mod' (v + (a - 1)) a)))

-- Nothing overflows: the least multiple of the power of two that is not below the value.
pub round_up-least :
    (v k : ℕ)
    → k < 32
    → v + 2 ^ k ≤ 2 ^ 32
    → (q : ℕ) × (round_up v (2 ^ k) ≡ ok (q * 2 ^ k))
      × (v ≤ q * 2 ^ k)
      × ((n : ℕ) → v ≤ n * 2 ^ k → q * 2 ^ k ≤ n * 2 ^ k)
unfolding up
round_up-least v k h fits = (
  (v + (2 ^ k - 1)) / 2 ^ k,
  round_up-up v (2 ^ k) pos (is_power_of_two-pow 32 k h) fits,
  (up-bounds v (2 ^ k) pos).0,
  λ n bound. mul-le-mul_right (2 ^ k) (least n bound),
)
  where
    pos : 0 < 2 ^ k
    pos = one-le-pow k 2 (omega arith)

    least : (n : ℕ) → v ≤ n * 2 ^ k → (v + (2 ^ k - 1)) / 2 ^ k ≤ n
    least n bound = omega (
      arith,
      lt_of_mul-lt-mul_right (2 ^ k) {m = (v + (2 ^ k - 1)) / 2 ^ k} {n = suc n}
          (omega (arith, (up-bounds v (2 ^ k) pos).1)),
    )
