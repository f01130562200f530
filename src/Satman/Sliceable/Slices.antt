-- ===== src/Satman/Sliceable/Slices.antt =====
-- src/satman/src/routing.rs: the slices of a sliceable, taken one after the other up to its end, make up
-- its data; the first and the last are marked.
use madmax_artiq_zynq.Base.{
  ℕ, zero, suc, ◌+◌, ◌-◌, ◌^◌, ◌≤◌, ◌<◌, ◌≡◌, refl, sym, ◌∙◌, ◌⊎◌, inl, inr, min, Bool, true, false,
  List, [], ◌∷◌, ◌++◌, ◌==◌, if◌then◌else◌, length, take, drop, replicate, arith, Bool-cases,
  length-take, length-drop, length-append, length-replicate, take-append, take-append-drop,
  take_all, drop-drop, ==_iff, ==_ne,
}
use madmax_artiq_zynq.Drtioaux.Payload.{from_status, is_last}
use madmax_artiq_zynq.Satman.Sliceable.{SliceMeta, Sliceable, at_end, get_slice}
use native.Mathlib.Nat.{mod-eq_of_lt}

pub is_last-from_status : (a b : Bool) → is_last (from_status a b) ≡ b
unfolding is_last from_status
is_last-from_status true true = refl
is_last-from_status true false = refl
is_last-from_status false true = refl
is_last-from_status false false = refl

-- A slice as a packet carries it.
abbrev pub Slice : Type 0
Slice = SliceMeta × List ℕ

-- The part of the array that is in use.
abbrev pub payload_of : Slice → List ℕ
payload_of (meta, slice) = take meta.len slice

-- The slices are marked first (if `first` says so) and last, and their payloads make up `content`.
abbrev pub Splits : ℕ → Bool → List ℕ → List Slice → Type 0
Splits size first content [] = ⊥
Splits size first content ((meta, slice) ∷ slices) =
    (meta.len ≤ size)
    × (length slice ≡ size)
    × (((meta.status ≡ from_status first true) × (slices ≡ []) × (take meta.len slice ≡ content))
        ⊎ ((rest : List ℕ) × (meta.status ≡ from_status first false)
            × (0 < meta.len)
            × (content ≡ take meta.len slice ++ rest)
            × Splits size false rest slices))

-- The driver of ack_upload and of the message slots: a slice, and after each acknowledgement the next,
-- until the sliceable is at its end.
unfoldable pub slices : ℕ → ℕ → Sliceable → List Slice
slices size zero s = []
slices size (suc fuel) s =
    let (meta, slice, s') = get_slice size s (replicate size 0) in
    let more = slices size fuel s' in (meta, slice) ∷ (if at_end s' then [] else more)

-- The array of a slice: n elements of xs over zeros.
unfoldable pub array : ℕ → ℕ → List ℕ → List ℕ
array size n xs = take n xs ++ drop n (replicate size 0)

length-array :
    (size n : ℕ) (xs : List ℕ) → n ≤ size → n ≤ length xs → length (array size n xs) ≡ size
unfolding array
length-array size n xs h k = omega (
  arith,
  length-append (take n xs) (drop n (replicate size 0)),
  length-take n xs,
  length-drop {A = ℕ} n (replicate size 0),
  length-replicate {A = ℕ} size 0,
)

take-array : (size n : ℕ) (xs : List ℕ) → n ≤ length xs → take n (array size n xs) ≡ take n xs
unfolding array
take-array size n xs h =
    take-append n (take n xs) (drop n (replicate size 0)) (omega (arith, length-take n xs))

-- What one call of `get_slice` returns, with n the length of the slice.
pub get_slice_lem :
    (size n : ℕ) (s : Sliceable)
    → n ≡ min size (length s.content - s.it)
    → size < 2 ^ 16
    → get_slice size s (replicate size 0) ≡ (
      record {
        destination = s.destination;
        len = n;
        status = from_status (s.it == 0) (s.it + n == length s.content);
      },
      array size n (drop s.it s.content),
      record s { it = s.it + n },
    )
unfolding get_slice array
get_slice_lem size n s e small = rw (← e, mod-eq_of_lt (in_u16 n e)) refl
  where
    in_u16 : (m : ℕ) → m ≡ min size (length s.content - s.it) → m < 2 ^ 16
    in_u16 m e' = omega arith

-- The slices of a sliceable, from its position on, are its data in order; only the first slice of all is
-- marked first, and only the last is marked last. One round for each byte is enough.
pub slices-Splits :
    (size fuel : ℕ) (s : Sliceable)
    → 0 < size
    → size < 2 ^ 16
    → s.it ≤ length s.content
    → length s.content - s.it < fuel
    → Splits size (s.it == 0) (drop s.it s.content) (slices size fuel s)
unfolding slices at_end
slices-Splits size zero s pos small within enough = absurd (omega arith)
slices-Splits size (suc fuel) s pos small within enough = rw (get_slice_lem size n s refl small) (
  n_le,
  length-array size n (drop s.it s.content) n_le fits,
  elim (Bool-cases (s.it + n == length s.content)) [
    | inl done ↦ rw done (
        inl (
          refl,
          refl,
          take-array size n (drop s.it s.content) fits
              ∙ take_all n (drop s.it s.content)
                  (omega (arith, (==_iff _ _).0 done, length-drop s.it s.content)),
        ))
    | inr more ↦ rw more (
        inr (
          drop n (drop s.it s.content),
          refl,
          omega (arith, unfinished more),
          rw (take-array size n (drop s.it s.content) fits)
              (sym (take-append-drop n (drop s.it s.content))),
          rw (==_ne (s.it + n) 0 (omega (arith, unfinished more)), ← drop-drop s.it n s.content) at
              (slices-Splits size fuel (record s { it = s.it + n }) pos small (omega arith)
                (omega (arith, unfinished more))),
        ))
  ],
)
  where
    n : ℕ
    n = min size (length s.content - s.it)

    n_le : n ≤ size
    n_le = omega arith

    fits : n ≤ length (drop s.it s.content)
    fits = omega (arith, length-drop s.it s.content)

    unfinished : (s.it + n == length s.content) ≡ false → n ≡ size
    unfinished e = ground arith
