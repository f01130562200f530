-- ===== src/Satman/Analyzer/Ring.antt =====
-- src/satman/src/analyzer.rs: the slices of the analyzer's buffer, read out to the last.
use madmax_artiq_zynq.Base.{
  ℕ, ◌+◌, ◌-◌, ◌%◌, ◌≤◌, ◌<◌, ◌≡◌, refl, sym, ap, ◌∙◌, inl, inr, true, false, List, ◌++◌, leb,
  length, take, drop, Bool-cases, arith, le→leb, ==_refl, append_assoc, drop-append_within,
  take-append_within, take-append_beyond, length-append, length-take, length-drop, take-append,
  take_all,
}
use madmax_artiq_zynq.Outcome.{ok}
use madmax_artiq_zynq.Satman.Analyzer.{buffer_size, range, clone_from_slice, copy_ring}

range_ok :
    (bytes : List ℕ) (from to : ℕ)
    → from ≤ to
    → to ≤ length bytes
    → range bytes from to ≡ ok (take (to - from) (drop from bytes))
unfolding range
range_ok bytes from to h k = rw (le→leb from to h, le→leb to (length bytes) k) refl

clone_ok :
    (bytes : List ℕ) (from to : ℕ) (source : List ℕ)
    → from ≤ to
    → to ≤ length bytes
    → to - from ≡ length source
    → clone_from_slice bytes from to source ≡ ok (take from bytes ++ (source ++ drop to bytes))
unfolding clone_from_slice
clone_ok bytes from to source h k e =
    rw (le→leb from to h, le→leb to (length bytes) k, e, ==_refl (length source)) refl

-- The bytes of the ring from a position on, at most once round.
abbrev pub ring : ℕ → ℕ → List ℕ → List ℕ
ring i len buffer = take len (drop i (buffer ++ buffer))

pub ring_straight :
    (buffer : List ℕ) (i len : ℕ)
    → i + len ≤ length buffer
    → ring i len buffer ≡ take len (drop i buffer)
ring_straight buffer i len h =
    ap (take len) (drop-append_within i buffer buffer (omega arith))
    ∙ take-append_within len (drop i buffer) buffer (omega (arith, length-drop i buffer))

pub ring_round :
    (buffer : List ℕ) (i len rest : ℕ)
    → i ≤ length buffer
    → i + len ≡ length buffer + rest
    → ring i len buffer ≡ drop i buffer ++ take rest buffer
ring_round buffer i len rest h e =
    ap (take len) (drop-append_within i buffer buffer h)
    ∙ take-append_beyond len rest (drop i buffer) buffer (omega (arith, length-drop i buffer))

-- A copy over the end of the ring: to the end, and from the start.
module _ (buffer : List ℕ) (i len rest : ℕ) (data_slice : List ℕ)
    (sized : length buffer ≡ buffer_size) (within : i < buffer_size)
    (split : i + len ≡ buffer_size + rest) (short : len ≤ buffer_size)
    (fits : len ≤ length data_slice) where
  abbrev end : List ℕ
  end = drop i buffer

  abbrev first : List ℕ
  first = end ++ drop (buffer_size - i) data_slice

  abbrev round_copy : List ℕ
  round_copy = end ++ (take rest buffer ++ drop len first)

  length-end : length end ≡ buffer_size - i
  length-end = omega (arith, length-drop i buffer)

  length-first : length first ≡ length data_slice
  length-first = omega (
    arith,
    length-end,
    length-append end (drop (buffer_size - i) data_slice),
    length-drop (buffer_size - i) data_slice,
  )

  length-rest : length (take rest buffer) ≡ len - (buffer_size - i)
  length-rest = omega (arith, length-take rest buffer)

  take-round : take len round_copy ≡ ring i len buffer
  take-round =
      ap (take len) (sym (append_assoc end (take rest buffer) (drop len first)))
      ∙ take-append len (end ++ take rest buffer) (drop len first)
          (omega (arith, length-append end (take rest buffer), length-end, length-rest))
      ∙ sym (ring_round buffer i len rest (omega arith) (omega arith))

  length-round : length round_copy ≡ length data_slice
  length-round = omega (
    arith,
    length-end,
    length-rest,
    length-first,
    length-append end (take rest buffer ++ drop len first),
    length-append (take rest buffer) (drop len first),
    length-drop len first,
  )

  range-end : range buffer i buffer_size ≡ ok end
  range-end =
      range_ok buffer i buffer_size (omega arith) (omega arith)
      ∙ ap ok (take_all (buffer_size - i) end (omega (arith, length-end)))

  range-start : range buffer 0 ((i + len) % buffer_size) ≡ ok (take rest buffer)
  unfolding drop
  range-start =
      ap (range buffer 0) (omega arith)
      ∙ range_ok buffer 0 rest (omega arith) (omega arith)
      ∙ ap (λ n. ok (take n buffer)) (omega arith)

  clone_end : clone_from_slice data_slice 0 (buffer_size - i) end ≡ ok first
  unfolding take
  clone_end =
      clone_ok data_slice 0 (buffer_size - i) end (omega arith) (omega arith)
        (omega (arith, length-end))

  clone_start : clone_from_slice first (buffer_size - i) len (take rest buffer) ≡ ok round_copy
  clone_start =
      clone_ok first (buffer_size - i) len (take rest buffer) (omega arith)
        (omega (arith, length-first)) (omega (arith, length-rest))
      ∙ ap (λ x. ok (x ++ (take rest buffer ++ drop len first)))
          (take-append (buffer_size - i) end (drop (buffer_size - i) data_slice) length-end)

  copy_round : copy_ring buffer i len data_slice ≡ ok round_copy
  unfolding copy_ring
  copy_round =
      rw (le→leb buffer_size (i + len) (omega arith), range-end, clone_end, range-start) clone_start

pub copy_ring_lem :
    (buffer : List ℕ) (i len : ℕ) (data_slice : List ℕ)
    → length buffer ≡ buffer_size
    → i < buffer_size
    → len ≤ buffer_size
    → len ≤ length data_slice
    → (copied : List ℕ) × (copy_ring buffer i len data_slice ≡ ok copied)
      × (take len copied ≡ ring i len buffer)
      × (length copied ≡ length data_slice)
unfolding copy_ring take
copy_ring_lem buffer i len data_slice sized within short fits =
    elim (Bool-cases (leb buffer_size (i + len))) [
      | inl round ↦
          (let rest = i + len - buffer_size in
            let e = wrapped round in
            (
              round_copy buffer i len rest data_slice sized within e short fits,
              copy_round buffer i len rest data_slice sized within e short fits,
              take-round buffer i len rest data_slice sized within e short fits,
              length-round buffer i len rest data_slice sized within e short fits,
            ))
      | inr straight ↦ (
        middle ++ drop len data_slice,
        rw
            (
              straight,
              range_ok buffer i (i + len) (omega arith) (omega (arith, below straight)),
              clone_ok data_slice 0 len (take (i + len - i) (drop i buffer)) (omega arith) fits (
                  omega (
                    arith,
                    below straight,
                    length-take (i + len - i) (drop i buffer),
                    length-drop i buffer,
                  )),
            )
            (ap (λ n. ok (take n (drop i buffer) ++ drop len data_slice)) (omega arith)),
        take-append len middle (drop len data_slice) (length-middle straight)
            ∙ sym (ring_straight buffer i len (omega (arith, below straight))),
        omega (
          arith,
          length-append middle (drop len data_slice),
          length-middle straight,
          length-drop len data_slice,
        ),
      )
    ]
  where
    wrapped : leb buffer_size (i + len) ≡ true → i + len ≡ buffer_size + (i + len - buffer_size)
    wrapped h = ground arith

    below : leb buffer_size (i + len) ≡ false → i + len < buffer_size
    below h = ground arith

    middle : List ℕ
    middle = take len (drop i buffer)

    length-middle : leb buffer_size (i + len) ≡ false → length (take len (drop i buffer)) ≡ len
    length-middle h = omega (arith, below h, length-take len (drop i buffer), length-drop i buffer)
