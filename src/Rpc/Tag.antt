-- ===== src/Rpc/Tag.antt =====
-- src/libksupport/src/rpc.rs, mod tag: TagIterator reads tags from bytes. An iterator is the bytes that
-- it has not read; a tag keeps the bytes of its parts.
pub mod Ends
pub mod Shape
pub mod Grammar
use madmax_artiq_zynq.Base.{
  ℕ, zero, suc, ◌+◌, ◌-◌, Bool, true, false, List, [], ◌∷◌, ◌++◌, ◌==◌, if◌then◌else◌, length, take,
  drop,
}
use madmax_artiq_zynq.Outcome.{Outcome, ok, err, panic, ◌>>=◌}
use mathlib.Core.Option
use mathlib.Core.Option.{Option}

pub data Tag : Type 0 where
  none bool int32 int64 float64 string bytes byte_array object : Tag
  tuple : (it : List ℕ) (arity : ℕ) → Tag
  list : (it : List ℕ) → Tag
  array : (it : List ℕ) (num_dims : ℕ) → Tag
  range keyword : (it : List ℕ) → Tag

-- The source needs no fuel; Ends shows that a round for each byte is enough.
pub data OutOfFuel : Type 0 where
  out_of_fuel : OutOfFuel

abbrev pub Result : Type 0 → Type 0
Result = Outcome OutOfFuel

-- `next` of the iterator: a tag and the iterator after it, or the end.
abbrev pub Next : Type 0
Next = List ℕ → Result (Option (Tag × List ℕ))

-- `expect("truncated tag")`
abbrev pub expect : {A : Type 0} → Option A → Result A
expect Option.none = panic
expect (Option.some a) = ok a

-- The loop of `sub`.
unfoldable pub skip : Next → ℕ → List ℕ → Result (List ℕ)
skip next zero it = ok it
skip next (suc count) it = do item ← next it; (tag, rest) ← expect item; skip next count rest

-- The bytes of the next `count` tags, and the iterator after them.
unfoldable pub sub : Next → ℕ → List ℕ → Result (List ℕ × List ℕ)
unfolding skip
sub next count it = do rest ← skip next count it; ok (take (length it - length rest) it, rest)

-- `data[0]` and `&data[1..]`
abbrev pub split_first : List ℕ → Result (ℕ × List ℕ)
split_first [] = panic
split_first (b ∷ it) = ok (b, it)

unfoldable pub tag_of_byte : Next → ℕ → List ℕ → Result (Tag × List ℕ)
unfolding sub
tag_of_byte next tag_byte it =
    if tag_byte == b'n'
    then ok (Tag.none, it)
    else if tag_byte == b'b'
    then ok (bool, it)
    else if tag_byte == b'i'
    then ok (int32, it)
    else if tag_byte == b'I'
    then ok (int64, it)
    else if tag_byte == b'f'
    then ok (float64, it)
    else if tag_byte == b's'
    then ok (string, it)
    else if tag_byte == b'B'
    then ok (bytes, it)
    else if tag_byte == b'A'
    then ok (byte_array, it)
    else if tag_byte == b't'
    then (do
      (count, it') ← split_first it
      (part, rest) ← sub next count it'
      ok (tuple part count, rest))
    else if tag_byte == b'l'
    then (do (part, rest) ← sub next 1 it; ok (list part, rest))
    else if tag_byte == b'a'
    then (do
      (count, it') ← split_first it
      (part, rest) ← sub next 1 it'
      ok (array part count, rest))
    else if tag_byte == b'r'
    then (do (part, rest) ← sub next 1 it; ok (range part, rest))
    else if tag_byte == b'k'
    then (do (part, rest) ← sub next 1 it; ok (keyword part, rest))
    else if tag_byte == b'O'
    then ok (object, it)
    else panic

unfoldable pub next_on : ℕ → Next
next_on zero it = err out_of_fuel
next_on (suc fuel) [] = ok Option.none
next_on (suc fuel) (tag_byte ∷ it) = do
  (tag, rest) ← tag_of_byte (next_on fuel) tag_byte it
  ok (Option.some (tag, rest))

unfoldable pub next : Next
unfolding next_on
next it = next_on (suc (length it)) it

unfoldable pub as_u8 : Tag → ℕ
as_u8 Tag.none = b'n'
as_u8 bool = b'b'
as_u8 int32 = b'i'
as_u8 int64 = b'I'
as_u8 float64 = b'f'
as_u8 string = b's'
as_u8 bytes = b'B'
as_u8 byte_array = b'A'
as_u8 (tuple it arity) = b't'
as_u8 (list it) = b'l'
as_u8 (array it num_dims) = b'a'
as_u8 (range it) = b'r'
as_u8 (keyword it) = b'k'
as_u8 object = b'O'

-- The bytes before the first colon, and those after it.
unfoldable pub split_tag : List ℕ → Result (List ℕ × List ℕ)
split_tag [] = panic
split_tag (b ∷ rest) =
    let more = split_tag rest in
    if b == b':' then ok ([], rest) else (do (args, returned) ← more; ok (b ∷ args, returned))
