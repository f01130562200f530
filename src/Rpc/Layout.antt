-- ===== src/Rpc/Layout.antt =====
-- src/libksupport/src/rpc.rs: round_up, and the alignment and size that mod tag gives a tag's values on
-- the 32-bit core. An address or a size is a natural below 2^32; sums and products wrap.
pub mod Rounding
pub mod Struct
pub mod Aligned
pub mod Sized
pub mod Shift
use madmax_artiq_zynq.Base.{
  ℕ, zero, suc, ◌+◌, ◌-◌, ◌*◌, ◌%◌, ◌^◌, max, Bool, true, false, List, [], ◌∷◌, ◌==◌, ◌||◌,
  if◌then◌else◌, length,
}
use madmax_artiq_zynq.Outcome.{Outcome, ok, err, panic, ◌>>=◌}
use madmax_artiq_zynq.Rpc.Tag.{Tag, OutOfFuel, out_of_fuel, Result, expect, next}
use madmax_artiq_zynq.Rpc.Tag
use mathlib.Core.Option
use mathlib.Core.Option.{Option}

-- Whether p is one of the powers below 2^bits.
unfoldable pub is_power_of_two : (bits : ℕ) → ℕ → Bool
is_power_of_two zero p = false
is_power_of_two (suc bits) p = p == 2 ^ bits || is_power_of_two bits p

unfoldable pub round_up : (val power_of_two : ℕ) → Result ℕ
unfolding is_power_of_two
round_up val power_of_two =
    if is_power_of_two 32 power_of_two
    then (let sum = (val + (power_of_two - 1)) % 2 ^ 32 in ok (sum - sum % power_of_two))
    else panic

-- `it.take(count).map(|t| t.alignment()).max()`
unfoldable pub max_alignment : (Tag → Result ℕ) → (count : ℕ) → List ℕ → Result (Option ℕ)
max_alignment alignment zero it = ok Option.none
max_alignment alignment (suc count) it = do
  item ← next it
  elim item [
    | Option.none ↦ ok Option.none
    | Option.some (tag, rest) ↦ do
      first ← alignment tag
      others ← max_alignment alignment count rest
      ok (Option.some (elim others [ Option.none ↦ first | Option.some other ↦ max first other ]))
  ]

-- `max().unwrap()`
abbrev pub unwrap : {A : Type 0} → Option A → Result A
unwrap = expect

unfoldable pub alignment_on : (fuel : ℕ) → Tag → Result ℕ
unfolding max_alignment
alignment_on zero tag = err out_of_fuel
alignment_on (suc fuel) Tag.none = ok 1
alignment_on (suc fuel) Tag.bool = ok 1
alignment_on (suc fuel) Tag.int32 = ok 4
alignment_on (suc fuel) Tag.int64 = ok 8
alignment_on (suc fuel) Tag.float64 = ok 8
alignment_on (suc fuel) (Tag.tuple it arity) = do
  most ← max_alignment (alignment_on fuel) arity it
  unwrap most
alignment_on (suc fuel) (Tag.range it) = do
  most ← max_alignment (alignment_on fuel) 3 it
  unwrap most
alignment_on (suc fuel) Tag.bytes = ok 4
alignment_on (suc fuel) Tag.string = ok 4
alignment_on (suc fuel) Tag.byte_array = ok 4
alignment_on (suc fuel) (Tag.list it) = ok 4
alignment_on (suc fuel) (Tag.array it num_dims) = ok 4
alignment_on (suc fuel) (Tag.keyword it) = panic
alignment_on (suc fuel) Tag.object = ok 4

-- The bytes of a tag's parts.
abbrev pub parts : Tag → List ℕ
parts (Tag.tuple it arity) = it
parts (Tag.list it) = it
parts (Tag.array it num_dims) = it
parts (Tag.range it) = it
parts (Tag.keyword it) = it
parts _ = []

-- The nesting is no deeper than the bytes are long.
unfoldable pub alignment : Tag → Result ℕ
unfolding alignment_on
alignment tag = alignment_on (suc (length (parts tag))) tag

-- The loop of a tuple: the size so far and the greatest alignment, after `count` more elements.
unfoldable pub elements_size :
    (Tag → Result ℕ) → (count : ℕ) → List ℕ → (size max_alignment : ℕ) → Result (ℕ × ℕ)
unfolding alignment round_up
elements_size size_of zero it size most = ok (size, most)
elements_size size_of (suc count) it size most = do
  item ← next it
  (tag, rest) ← expect item
  align ← alignment tag
  start ← round_up size align
  width ← size_of tag
  elements_size size_of count rest ((start + width) % 2 ^ 32) (max most align)

unfoldable pub size_on : (fuel : ℕ) → Tag → Result ℕ
unfolding elements_size
size_on zero tag = err out_of_fuel
size_on (suc fuel) Tag.none = ok 0
size_on (suc fuel) Tag.bool = ok 1
size_on (suc fuel) Tag.int32 = ok 4
size_on (suc fuel) Tag.int64 = ok 8
size_on (suc fuel) Tag.float64 = ok 8
size_on (suc fuel) Tag.string = ok 8
size_on (suc fuel) Tag.bytes = ok 8
size_on (suc fuel) Tag.byte_array = ok 8
size_on (suc fuel) (Tag.tuple it arity) = do
  (size, most) ← elements_size (size_on fuel) arity it 0 0
  round_up size most
size_on (suc fuel) (Tag.list it) = ok 4
size_on (suc fuel) (Tag.array it num_dims) = ok (4 * (1 + num_dims))
size_on (suc fuel) (Tag.range it) = do
  item ← next it
  (tag, rest) ← expect item
  width ← size_on fuel tag
  ok ((width * 3) % 2 ^ 32)
size_on (suc fuel) (Tag.keyword it) = panic
size_on (suc fuel) Tag.object = panic

unfoldable pub size : Tag → Result ℕ
unfolding size_on
size tag = size_on (suc (length (parts tag))) tag
