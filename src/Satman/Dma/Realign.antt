-- ===== src/Satman/Dma/Realign.antt =====
-- src/satman/src/dma.rs: a realigned trace.
use madmax_artiq_zynq.Base.{
  ℕ, zero, suc, ◌+◌, ◌-◌, ◌%◌, ◌≤◌, ◌<◌, ◌≡◌, refl, ◌∙◌, inl, inr, true, false, ◌&&◌, List, [], ◌∷◌,
  ◌++◌, ltb, leb, if◌then◌else◌, length, get_elem?, set, drop, replicate, arith, lt→ltb,
  length-append, length-set, length-replicate, get_elem?-set, get_elem?-some, get_elem?-append,
  get_elem?-drop, get_elem?_ext, get_elem?_beyond, Bool-cases,
}
use madmax_artiq_zynq.Outcome.{ok}
use madmax_artiq_zynq.Satman.Dma.Entry.{Entry, alignment, padding_for, shift_loop, realign, pointer}

-- After the rounds the bytes from `data_len - done` on stand `padding` places higher.
shift_loop_lem :
    (data_len padding rounds i : ℕ) (trace : List ℕ)
    → length trace ≡ data_len + padding
    → i + rounds ≡ data_len + 1
    → 0 < i
    → (shifted : List ℕ) × (shift_loop data_len padding rounds i trace ≡ ok shifted)
      × (length shifted ≡ data_len + padding)
      × ((p : ℕ)
          → get_elem? shifted p ≡ (
              if leb padding p && ltb p (data_len + padding + 1 - i)
              then get_elem? trace (p - padding)
              else get_elem? trace p))
unfolding shift_loop
shift_loop_lem data_len padding zero i trace sized ends pos =
    (trace, refl, sized, λ p. ground arith)
shift_loop_lem data_len padding (suc rounds) i trace sized ends pos =
    let (byte, here) = get_elem?-some trace (data_len - i) (omega arith) in
    let target = data_len + padding - i in
    let (shifted, e, len, elems) =
      shift_loop_lem data_len padding rounds (i + 1) (set trace target byte)
        (length-set trace target byte ∙ sized) (omega arith) (omega arith) in
    (
      shifted,
      rw (here, lt→ltb target (length trace) (omega arith)) e,
      len,
      λ p. ground (
        arith,
        elems p,
        get_elem?-set trace target p byte (omega arith),
        get_elem?-set trace target (p - padding) byte (omega arith),
        here,
      ),
    )

padding_for_lem :
    (address : ℕ)
    → ((address + padding_for address) % alignment ≡ 0) × (padding_for address < alignment)
unfolding padding_for
padding_for_lem address = ground arith

shifted_elem :
    (bytes : List ℕ) (padding p : ℕ) (shifted : List ℕ)
    → get_elem? shifted (padding + p) ≡ (
        if leb padding (padding + p) && ltb (padding + p) (length bytes + padding + 1 - 1)
        then get_elem? (bytes ++ replicate padding 0) (padding + p - padding)
        else get_elem? (bytes ++ replicate padding 0) (padding + p))
    → get_elem? shifted (padding + p) ≡ get_elem? bytes p
shifted_elem bytes padding p shifted e = elim (Bool-cases (ltb p (length bytes))) [
  | inl within ↦
      e
      ∙ ground (arith, get_elem?-append bytes (replicate padding 0) (padding + p - padding), index)
  | inr beyond ↦
      e
      ∙ ground (
        arith,
        get_elem?-append bytes (replicate padding 0) (padding + p),
        get_elem?_beyond bytes p (omega (arith, outside beyond)),
        get_elem?_beyond (replicate {A = ℕ} padding 0) (padding + p - length bytes)
            (omega (arith, outside beyond, length-replicate {A = ℕ} padding 0)),
      )
]
  where
    index : padding + p - padding ≡ p
    index = omega arith

    outside : ltb p (length bytes) ≡ false → length bytes ≤ p
    outside h = ground arith

-- A trace that the gateware can play back: complete, and from an aligned address on these bytes.
pub record Plays (entry : Entry) (bytes : List ℕ) : Type 0 where
  pub is_complete : entry.complete ≡ true
  pub aligned : pointer entry % alignment ≡ 0
  pub content : drop entry.padding_len entry.trace ≡ bytes

-- Realigning a trace succeeds wherever the allocator puts it: it is complete, starts at an aligned
-- address after less than 64 bytes of padding, and what starts there is the trace with a zero byte at the
-- end, the same bytes in the same order. The duration stays.
pub realign_lem :
    (address : ℕ) (entry : Entry)
    → (realigned : Entry) × (realign address entry ≡ ok realigned)
      × Plays realigned (entry.trace ++ (0 ∷ []))
      × (realigned.padding_len < alignment)
      × (length realigned.trace ≡ length entry.trace + 1 + realigned.padding_len)
      × (realigned.duration ≡ entry.duration)
unfolding realign pointer
realign_lem address entry =
    let bytes = entry.trace ++ (0 ∷ []) in
    let padding = padding_for address in
    let (shifted, e, len, elems) =
      shift_loop_lem (length bytes) padding (length bytes) 1 (bytes ++ replicate padding 0)
        (omega
          (arith, length-append bytes (replicate padding 0), length-replicate {A = ℕ} padding 0))
        (omega arith) (omega arith) in
    (
      record entry { trace = shifted; address = address; complete = true; padding_len = padding },
      rw e refl,
      record {
        is_complete = refl;
        aligned = (padding_for_lem address).0;
        content = get_elem?_ext (drop padding shifted) bytes (λ p.
            get_elem?-drop padding p shifted
            ∙ shifted_elem bytes padding p shifted (elems (padding + p)));
      },
      (padding_for_lem address).1,
      omega (arith, len, length-append entry.trace (0 ∷ [])),
      refl,
    )
