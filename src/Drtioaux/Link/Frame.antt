-- ===== src/Drtioaux/Link/Frame.antt =====
-- src/libboard_artiq/src/drtioaux.rs: the frame that the closure of `send` leaves in its buffer.
use madmax_artiq_zynq.Base.{
  ℕ, zero, suc, ◌+◌, ◌%◌, ◌≤◌, ◌≡◌, refl, sym, ap, ◌∙◌, List, [], ◌∷◌, ◌++◌, length, take, drop,
  replicate, arith, append_assoc, append-nil, length-append, length-replicate, take-append, le→leb,
}
use madmax_artiq_zynq.Outcome.{Outcome, ok}
use madmax_artiq_zynq.Io.Cursor.{Cursor, new}
use madmax_artiq_zynq.Io.Cursor.Exact.{
  IsWithin, remaining, splice, write_all_total, length-remaining, splice-IsWithin, length-splice,
}
use madmax_artiq_zynq.Io.Proto.Trip.{write_u8_lem, write_u32_lem}
use madmax_artiq_zynq.Io.Proto.{ByteOrder, Writer, write_u8, write_u32}
use madmax_artiq_zynq.Drtioaux.Packet.{Packet}
use madmax_artiq_zynq.Drtioaux.Payload.{max_packet}
use madmax_artiq_zynq.Drtioaux.Write.{write_to}
use madmax_artiq_zynq.Drtioaux.Link.{LinkError, put, pad, padding, fill}

-- The cursor stands behind `out`, in a buffer of `size` bytes.
pub record Holds (size : ℕ) (c : Cursor) (out : List ℕ) : Type 0 where
  pub written : take c.pos c.inner ≡ out
  pub at : c.pos ≡ length out
  pub within : IsWithin c
  pub sized : length c.inner ≡ size

-- The cursor that `c` becomes, with what it holds.
abbrev pub Puts : ℕ → Outcome LinkError Cursor → List ℕ → Type 0
Puts size o out = (c : Cursor) × (o ≡ ok c) × Holds size c out

splice-Holds :
    (size : ℕ) (c : Cursor) (out bytes : List ℕ)
    → Holds size c out
    → length out + length bytes ≤ size
    → Holds size (splice c bytes) (out ++ bytes)
unfolding splice
splice-Holds size c out bytes h fits = record {
  written =
      ap (take (c.pos + length bytes)) (sym (append_assoc (take c.pos c.inner) bytes behind))
      ∙ take-append (c.pos + length bytes) (take c.pos c.inner ++ bytes) behind
          (omega (arith, length-append (take c.pos c.inner) bytes, ap length h.written))
      ∙ ap (λ xs. xs ++ bytes) h.written;
  at = omega (arith, length-append out bytes, h.at);
  within = splice-IsWithin c bytes h.within room;
  sized = length-splice c bytes h.within room ∙ h.sized;
}
  where
    behind : List ℕ
    behind = drop (c.pos + length bytes) c.inner

    room : length bytes ≤ length (remaining c)
    room = omega (arith, length-remaining c, h.at, h.sized)

pub put-Holds :
    (size : ℕ) (c : Cursor) (out bytes : List ℕ) (w : Writer)
    → w ≡ ok bytes
    → Holds size c out
    → length out + length bytes ≤ size
    → Puts size (put c w) (out ++ bytes)
unfolding put
put-Holds size c out bytes w e h fits = (
  splice c bytes,
  rw
      (
        e,
        write_all_total c bytes h.within,
        le→leb (length bytes) (length (remaining c))
            (omega (arith, length-remaining c, h.at, h.sized)),
      )
      refl,
  splice-Holds size c out bytes h fits,
)

pub pad-Holds :
    (size n : ℕ) (c : Cursor) (out : List ℕ)
    → Holds size c out
    → length out + n ≤ size
    → Puts size (pad n c) (out ++ replicate n 0)
unfolding pad replicate
pad-Holds size zero c out h fits = (c, refl, rw (append-nil out) h)
pad-Holds size (suc n) c out h fits =
    let (c', e, h') = put-Holds size c out (0 ∷ []) (write_u8 0) (write_u8_lem 0) h (omega arith) in
    let (c'', e', h'') =
      pad-Holds size n c' (out ++ (0 ∷ [])) h' (omega (arith, length-append out (0 ∷ []))) in
    (c'', rw e e', rw (append_assoc out (0 ∷ []) (replicate n 0)) at h'')

-- The zeros end at an offset of 4 modulo 8, and after at most 1020 bytes of packet the checksum still
-- fits.
pub padding_aligns :
    (position : ℕ)
    → ((position + padding position) % 8 ≡ 4)
      × (position ≤ 1020 → position + padding position + 4 ≤ max_packet)
unfolding padding
padding_aligns position = (omega arith, omega arith)

-- A packet with the zeros behind it: what the checksum covers.
unfoldable pub padded : List ℕ → List ℕ
padded bytes = bytes ++ replicate (padding (length bytes)) 0

pub length-padded : (bytes : List ℕ) → length (padded bytes) ≡ length bytes + padding (length bytes)
unfolding padded
length-padded bytes = omega (
  arith,
  length-append bytes (replicate (padding (length bytes)) 0),
  length-replicate {A = ℕ} (padding (length bytes)) 0,
)

module _ ⦃e : ByteOrder⦄ where
  -- A padded packet with a checksum behind it.
  unfoldable pub sealed : ℕ → List ℕ → List ℕ
  sealed checksum bytes = padded bytes ++ e.of_u32 checksum

  pub length-sealed :
      (checksum : ℕ) (bytes : List ℕ)
      → length (sealed checksum bytes) ≡ length bytes + padding (length bytes) + 4
  unfolding sealed
  length-sealed checksum bytes = omega (
    arith,
    length-append (padded bytes) (e.of_u32 checksum),
    length-padded bytes,
    e.length-of_u32 checksum,
  )

new-Holds : (inner : List ℕ) → Holds (length inner) (new inner) []
unfolding new take
new-Holds inner = record { written = refl; at = refl; within = omega arith; sized = refl }

module _ ⦃e : ByteOrder⦄ (crc : List ℕ → ℕ) where
  -- The frame of a packet whose bytes are `bytes`.
  unfoldable pub frame : List ℕ → List ℕ
  frame bytes = sealed (crc (padded bytes)) bytes

  pub length-frame :
      (bytes : List ℕ) → length (frame bytes) ≡ length bytes + padding (length bytes) + 4
  unfolding frame
  length-frame bytes = length-sealed (crc (padded bytes)) bytes

  pub fill-Holds :
      (packet : Packet) (inner bytes : List ℕ)
      → write_to packet ≡ ok bytes
      → length bytes ≤ 1020
      → length inner ≡ max_packet
      → Puts max_packet (fill crc packet (new inner)) (frame bytes)
  unfolding fill frame sealed padded
  fill-Holds packet inner bytes w short sized =
      let (c1, e1, h1) =
        put-Holds max_packet (new inner) [] bytes (write_to packet) w
          (rw sized at (new-Holds inner)) (omega arith) in
      let (c2, e2, h2) =
        pad-Holds max_packet (padding (length bytes)) c1 bytes h1
          (omega (arith, (padding_aligns (length bytes)).1 short)) in
      let (c3, e3, h3) =
        put-Holds max_packet c2 summed (e.of_u32 (crc summed)) (write_u32 (crc summed))
          (write_u32_lem (crc summed)) h2
          (omega (
            arith,
            length-padded bytes,
            e.length-of_u32 (crc summed),
            (padding_aligns (length bytes)).1 short,
          )) in
      (c3, rw (e1, h1.at, e2, h2.written) e3, h3)
    where
      summed : List ℕ
      summed = padded bytes
