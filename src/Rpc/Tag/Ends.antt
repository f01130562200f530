-- ===== src/Rpc/Tag/Ends.antt =====
-- src/libksupport/src/rpc.rs, mod tag: reading a tag ends, and reads at least a byte.
use madmax_artiq_zynq.Base.{
  ℕ, zero, suc, ◌≤◌, ◌<◌, Bool, true, false, List, [], ◌∷◌, ◌==◌, if◌then◌else◌, length, arith,
}
use madmax_artiq_zynq.Outcome.{ok, err, panic, ◌>>=◌}
use madmax_artiq_zynq.Rpc.Tag.{
  Tag, Result, Next, expect, skip, sub, split_first, tag_of_byte, next_on, next, bool, int32, int64,
  float64, string, bytes, byte_array, object, tuple, list, array, range, keyword,
}
use mathlib.Core.Option.{Option}

-- The call does not run out of fuel, and what it returns is such.
unfoldable pub Settles : {A : Type 0} → (A → Type 0) → Result A → Type 0
Settles P (ok a) = P a
Settles P (err e) = ⊥
Settles P panic = Unit {0}

Settles-bind :
    {A B : Type 0} (Q : A → Type 0) (P : B → Type 0) (o : Result A) (f : A → Result B)
    → Settles Q o
    → ((a : A) → Q a → Settles P (f a))
    → Settles P (o >>= f)
unfolding Settles
Settles-bind Q P (ok a) f q p = p a q
Settles-bind Q P (err e) f q p = absurd q
Settles-bind Q P panic f q p = tt

-- At the end, or what is left is shorter than n.
abbrev pub IsShorter : ℕ → Option (Tag × List ℕ) → Type 0
IsShorter n Option.none = Unit {0}
IsShorter n (Option.some (tag, rest)) = length rest < n

Settles-weaken :
    {A : Type 0} (P Q : A → Type 0) (o : Result A)
    → Settles P o
    → ((a : A) → P a → Q a)
    → Settles Q o
unfolding Settles
Settles-weaken P Q (ok a) p h = h a p
Settles-weaken P Q (err e) p h = p
Settles-weaken P Q panic p h = tt

Settles-expect :
    {B : Type 0} (n : ℕ) (P : B → Type 0) (f : Tag × List ℕ → Result B)
    (item : Option (Tag × List ℕ))
    → IsShorter n item
    → ((tag : Tag) (rest : List ℕ) → length rest < n → Settles P (f (tag, rest)))
    → Settles P (expect item >>= f)
unfolding Settles
Settles-expect n P f Option.none shorter h = tt
Settles-expect n P f (Option.some (tag, rest)) shorter h = h tag rest shorter

-- What is left is no longer than n.
abbrev EndsWithin : {A : Type 0} → ℕ → A × List ℕ → Type 0
EndsWithin n (a, rest) = length rest ≤ n

if-Settles :
    {A : Type 0} (P : A → Type 0) (c : Bool) (a b : Result A)
    → Settles P a
    → Settles P b
    → Settles P (if c then a else b)
unfolding Settles
if-Settles P true a b p q = p
if-Settles P false a b p q = q

atom-Settles : (tag : Tag) (it : List ℕ) → Settles (EndsWithin (length it)) (ok (tag, it))
unfolding Settles
atom-Settles tag it = omega arith

panic-Settles : {A : Type 0} (P : A → Type 0) → Settles P panic
unfolding Settles
panic-Settles P = tt

module _ (f : Next) (bound : ℕ)
    (settles : (it : List ℕ) → length it < bound → Settles (IsShorter (length it)) (f it)) where
  skip-Settles :
      (count : ℕ) (it : List ℕ)
      → length it < bound
      → Settles (λ rest. length rest ≤ length it) (skip f count it)
  unfolding Settles skip
  skip-Settles zero it h = omega arith
  skip-Settles (suc count) it h =
      Settles-bind (IsShorter (length it)) (λ rest. length rest ≤ length it) (f it) _ (settles it h)
        λ item shorter. Settles-expect (length it) _ _ item shorter λ tag rest less.
          Settles-weaken (λ left. length left ≤ length rest) _ (skip f count rest)
            (skip-Settles count rest (omega arith)) λ left h'. omega arith

  sub-Settles :
      (count : ℕ) (it : List ℕ)
      → length it < bound
      → Settles (EndsWithin (length it)) (sub f count it)
  unfolding Settles sub
  sub-Settles count it h =
      Settles-bind (λ rest. length rest ≤ length it) _ (skip f count it) _ (skip-Settles count it h)
        λ rest h'. h'

  -- A part of `count` tags, and the tag made of it.
  part-Settles :
      (count : ℕ) (make : List ℕ → Tag) (it : List ℕ)
      → length it < bound
      → Settles (EndsWithin (length it)) (sub f count it >>= λ (part, rest). ok (make part, rest))
  unfolding Settles
  part-Settles count make it h =
      Settles-bind (EndsWithin (length it)) _ (sub f count it) _ (sub-Settles count it h) λ p h'. h'

  counted-Settles :
      (count : ℕ → ℕ) (make : List ℕ → ℕ → Tag) (it : List ℕ)
      → length it < bound
      → Settles (EndsWithin (length it)) (
          split_first it >>= λ (n, it').
          sub f (count n) it' >>= λ (part, rest). ok (make part n, rest))
  unfolding Settles
  counted-Settles count make [] h = tt
  counted-Settles count make (n ∷ it) h =
      Settles-weaken (EndsWithin (length it)) _ _
        (part-Settles (count n) (λ part. make part n) it (omega arith)) λ p h'. omega arith

  tag_of_byte-Settles :
      (b : ℕ) (it : List ℕ)
      → length it < bound
      → Settles (EndsWithin (length it)) (tag_of_byte f b it)
  unfolding tag_of_byte
  tag_of_byte-Settles b it h = if-Settles _ (b == b'n') _ _ (atom-Settles Tag.none it) (
      if-Settles _ (b == b'b') _ _ (atom-Settles bool it) (
        if-Settles _ (b == b'i') _ _ (atom-Settles int32 it) (
          if-Settles _ (b == b'I') _ _ (atom-Settles int64 it) (
            if-Settles _ (b == b'f') _ _ (atom-Settles float64 it) (
              if-Settles _ (b == b's') _ _ (atom-Settles string it) (
                if-Settles _ (b == b'B') _ _ (atom-Settles bytes it) (
                  if-Settles _ (b == b'A') _ _ (atom-Settles byte_array it) (
                    if-Settles _ (b == b't') _ _ (counted-Settles (λ n. n) tuple it h) (
                      if-Settles _ (b == b'l') _ _ (part-Settles 1 list it h) (
                        if-Settles _ (b == b'a') _ _ (counted-Settles (λ _. 1) array it h) (
                          if-Settles _ (b == b'r') _ _ (part-Settles 1 range it h) (
                            if-Settles _ (b == b'k') _ _ (part-Settles 1 keyword it h) (
                              if-Settles _ (b == b'O') _ _ (atom-Settles object it)
                                (panic-Settles _))))))))))))))

-- A fuel above the number of bytes is enough, and an item takes at least a byte.
next_on-Settles :
    (fuel : ℕ) (it : List ℕ) → length it < fuel → Settles (IsShorter (length it)) (next_on fuel it)
unfolding Settles next_on
next_on-Settles zero it h = absurd (omega arith)
next_on-Settles (suc fuel) [] h = tt
next_on-Settles (suc fuel) (b ∷ it) h =
    Settles-bind (EndsWithin (length it)) (IsShorter (suc (length it)))
      (tag_of_byte (next_on fuel) b it) _
      (tag_of_byte-Settles (next_on fuel) fuel (next_on-Settles fuel) b it (omega arith))
      λ (tag, rest) h'. omega arith

-- Reading a tag ends: the bytes that are there are fuel enough. It panics (on an unknown or a truncated
-- tag), says that no byte is left, or leaves fewer bytes than it was given.
pub next-Settles : (it : List ℕ) → Settles (IsShorter (length it)) (next it)
unfolding next
next-Settles it = next_on-Settles (suc (length it)) it (omega arith)
