-- ===== src/Satman/Analyzer/Drain.antt =====
-- src/satman/src/analyzer.rs: the analyzer's data, read out slice by slice up to the last.
use madmax_artiq_zynq.Base.{
  ℕ, zero, suc, ◌+◌, ◌-◌, ◌%◌, ◌^◌, ◌≤◌, ◌<◌, ◌≡◌, refl, sym, ap, ◌∙◌, inl, inr, min, true, false,
  List, [], ◌++◌, leb, ◌==◌, if◌then◌else◌, length, take, drop, replicate, Bool-cases, arith,
  length-replicate, drop-drop, take_add, drop-append_beyond,
}
use madmax_artiq_zynq.Outcome.{ok, panic, ◌>>=◌}
use madmax_artiq_zynq.Drtioaux.Payload.{sat_payload_max_size}
use madmax_artiq_zynq.Drtioaux.RoutingTable.{Result}
use madmax_artiq_zynq.Satman.Analyzer.{
  buffer_size, Analyzer, AnalyzerWrite, arm, copy_ring, get_header, get_data,
}
use madmax_artiq_zynq.Satman.Analyzer.Ring.{ring, ring_straight, ring_round, copy_ring_lem}
use native.Mathlib.Nat.{mod-eq_of_lt}

-- The master's side of it: slices are asked for until one is marked last.
unfoldable pub collect : ℕ → ℕ → List ℕ → Analyzer → Result (List ℕ × Analyzer × List AnalyzerWrite)
collect zero address buffer a = panic
collect (suc fuel) address buffer a = do
  (meta, slice, a', writes) ← get_data address buffer a (replicate sat_payload_max_size 0)
  let more = collect fuel address buffer a'
  if meta.last then ok (take meta.len slice, a', writes) else (do
    (rest, a'', writes') ← more
    ok (take meta.len slice ++ rest, a'', writes ++ writes'))

-- A stretch of the ring is two stretches, one after the other.
ring-append :
    (buffer : List ℕ) (i m k : ℕ)
    → length buffer ≡ buffer_size
    → i < buffer_size
    → m + k ≤ buffer_size
    → ring i (m + k) buffer ≡ ring i m buffer ++ ring ((i + m) % buffer_size) k buffer
ring-append buffer i m k sized within short =
    take_add m k (drop i (buffer ++ buffer))
    ∙ ap (λ x. ring i m buffer ++ take k x) (drop-drop i m (buffer ++ buffer))
    ∙ ap (◌++◌ (ring i m buffer)) (elim (Bool-cases (leb buffer_size (i + m))) [
      | inr below ↦ ap (λ n. ring n k buffer) (omega (arith, small below))
      | inl over ↦
          ap (take k) (
            drop-append_beyond (i + m) (i + m - buffer_size) buffer buffer
              (omega (arith, large over)))
          ∙ sym (ring_straight buffer (i + m - buffer_size) k (omega (arith, large over)))
          ∙ ap (λ n. ring n k buffer) (omega (arith, large over))
    ])
  where
    small : leb buffer_size (i + m) ≡ false → i + m < buffer_size
    small h = ground arith

    large : leb buffer_size (i + m) ≡ true → buffer_size ≤ i + m
    large h = ground arith

module _ (address : ℕ) (buffer : List ℕ) (sized : length buffer ≡ buffer_size) where
  get_data_copied :
      (a : Analyzer) (n : ℕ) (slice : List ℕ)
      → n ≡ min sat_payload_max_size (a.data_len - a.sent_bytes)
      → copy_ring buffer
          ((a.data_pointer + a.sent_bytes) % buffer_size)
          n
          (replicate sat_payload_max_size 0)
        ≡ ok slice
      → get_data address buffer a (replicate sat_payload_max_size 0)
        ≡ ok (
          record { len = n; last = a.sent_bytes + n == a.data_len },
          slice,
          record a { sent_bytes = a.sent_bytes + n },
          if a.sent_bytes + n == a.data_len then arm address else [],
        )
  unfolding get_data
  get_data_copied a n slice e copied = rw (← e, copied, mod-eq_of_lt in_u16) refl
    where
      in_u16 : n < 2 ^ 16
      in_u16 = omega (arith, e)

  -- One slice, from an analyzer that has not sent more than it has.
  get_data_lem :
      (a : Analyzer) (n : ℕ)
      → a.data_len ≤ buffer_size
      → a.sent_bytes ≤ a.data_len
      → n ≡ min sat_payload_max_size (a.data_len - a.sent_bytes)
      → (slice : List ℕ) × (get_data address buffer a (replicate sat_payload_max_size 0)
          ≡ ok (
            record { len = n; last = a.sent_bytes + n == a.data_len },
            slice,
            record a { sent_bytes = a.sent_bytes + n },
            if a.sent_bytes + n == a.data_len then arm address else [],
          ))
        × (take n slice ≡ ring ((a.data_pointer + a.sent_bytes) % buffer_size) n buffer)
  get_data_lem a n held sent e =
      let (slice, copied, bytes, len) =
        copy_ring_lem buffer ((a.data_pointer + a.sent_bytes) % buffer_size) n
          (replicate sat_payload_max_size 0) sized (omega arith) (omega arith)
          (omega (arith, length-replicate {A = ℕ} sat_payload_max_size 0)) in
      (slice, get_data_copied a n slice e copied, bytes)

  collect_lem :
      (fuel : ℕ) (a : Analyzer)
      → a.data_len ≤ buffer_size
      → a.sent_bytes ≤ a.data_len
      → a.data_len - a.sent_bytes < fuel
      → collect fuel address buffer a
        ≡ ok (
          ring ((a.data_pointer + a.sent_bytes) % buffer_size) (a.data_len - a.sent_bytes) buffer,
          record a { sent_bytes = a.data_len },
          arm address,
        )
  unfolding collect
  collect_lem zero a held sent enough = absurd (omega arith)
  collect_lem (suc fuel) a held sent enough =
      let (slice, e, bytes) = get_data_lem a n held sent refl in
      rw e (elim (Bool-cases (a.sent_bytes + n == a.data_len)) [
        | inl done ↦
            rw (done, bytes)
              (ap
                  (λ k.
                    ok (ring i k buffer, record a { sent_bytes = a.sent_bytes + k }, arm address))
                  (whole done)
                ∙ ap
                    (λ k. ok (
                      ring i (a.data_len - a.sent_bytes) buffer,
                      record a { sent_bytes = k },
                      arm address,
                    ))
                    (omega arith))
        | inr more ↦
            rw
              (
                more,
                bytes,
                collect_lem fuel (record a { sent_bytes = a.sent_bytes + n }) held (omega arith)
                    (omega (arith, unfinished more)),
              )
              (ap (λ x. ok (x, record a { sent_bytes = a.data_len }, arm address)) split)
      ])
    where
      n : ℕ
      n = min sat_payload_max_size (a.data_len - a.sent_bytes)

      i : ℕ
      i = (a.data_pointer + a.sent_bytes) % buffer_size

      whole : (a.sent_bytes + n == a.data_len) ≡ true → n ≡ a.data_len - a.sent_bytes
      whole h = ground arith

      unfinished : (a.sent_bytes + n == a.data_len) ≡ false → n ≡ sat_payload_max_size
      unfinished h = ground arith

      split :
          ring i n buffer
            ++ ring
                ((a.data_pointer + (a.sent_bytes + n)) % buffer_size)
                (a.data_len - (a.sent_bytes + n))
                buffer
          ≡ ring i (a.data_len - a.sent_bytes) buffer
      split =
          ap (λ k. ring i n buffer ++ ring k (a.data_len - (a.sent_bytes + n)) buffer) (omega arith)
          ∙ sym (
              ring-append buffer i n (a.data_len - (a.sent_bytes + n)) sized (omega arith)
                (omega arith))
          ∙ ap (λ k. ring i k buffer) (omega arith)

-- What the ring holds in the order in which it was written, after so many bytes.
abbrev pub recorded : ℕ → List ℕ → List ℕ
recorded count buffer =
    if leb buffer_size count
    then drop (count % buffer_size) buffer ++ take (count % buffer_size) buffer
    else take count buffer

-- After the header has been asked for, the slices up to the one marked last, put together, are what the
-- gateware recorded, oldest first: all of it if it fits the buffer, and otherwise the whole buffer from
-- the place of the next byte, once round. The last slice arms the analyzer again. No copy panics, and one
-- round for each byte is enough.
pub collect-get_header :
    (address overflow bus_err count : ℕ) (buffer : List ℕ)
    → length buffer ≡ buffer_size
    → (a : Analyzer) × (collect
          (buffer_size + 1)
          address
          buffer
          (get_header overflow bus_err count).1
        ≡ ok (recorded count buffer, a, arm address))
unfolding get_header drop
collect-get_header address overflow bus_err count buffer sized =
    elim (Bool-cases (leb buffer_size count)) [
      | inl full ↦ rw full (
        _,
        collect_lem address buffer sized (buffer_size + 1)
              (record {
                data_len = buffer_size;
                sent_bytes = 0;
                data_pointer = count % buffer_size;
              })
              (omega arith) (omega arith) (omega arith)
            ∙ ap
                (λ x. ok (
                  x,
                  record {
                    data_len = buffer_size;
                    sent_bytes = buffer_size;
                    data_pointer = count % buffer_size;
                  },
                  arm address,
                ))
                (ap (λ k. ring k buffer_size buffer) (omega arith)
                  ∙ ring_round buffer (count % buffer_size) buffer_size (count % buffer_size)
                      (omega arith) (omega arith)),
      )
      | inr part ↦ rw part (
        _,
        collect_lem address buffer sized (buffer_size + 1)
              (record { data_len = count; sent_bytes = 0; data_pointer = 0 })
              (omega (arith, below part)) (omega arith) (omega (arith, below part))
            ∙ ap
                (λ x. ok (
                  x,
                  record { data_len = count; sent_bytes = count; data_pointer = 0 },
                  arm address,
                ))
                (ring_straight buffer 0 (count - 0) (omega (arith, below part))
                  ∙ ap (λ n. take n buffer) (omega arith)),
      )
    ]
  where
    below : leb buffer_size count ≡ false → count < buffer_size
    below h = ground arith
