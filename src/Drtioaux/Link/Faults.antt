-- ===== src/Drtioaux/Link/Faults.antt =====
-- src/libboard_artiq/src/drtioaux.rs: what `recv` makes of a frame that is not as it was sent.
use madmax_artiq_zynq.Base.{
  ℕ, ◌^◌, ◌<◌, ◌≡◌, ◌≢◌, refl, List, ◌∷◌, ◌++◌, length, arith, length-append, lt→leb_false,
  le→ltb_false, ==_ne,
}
use madmax_artiq_zynq.Outcome.{ok, err, panic}
use madmax_artiq_zynq.Io.Proto.{ByteOrder, ◌>>=◌ as reader_bind, lift}
use madmax_artiq_zynq.Io.Proto.Trip.{read_u8-cons, read_u16-append, read_u32-append}
use madmax_artiq_zynq.Drtioaux.Packet.{Packet}
use madmax_artiq_zynq.Drtioaux.Payload.{read_payload, master_payload_max_size}
use madmax_artiq_zynq.Drtioaux.Write.{write_to}
use madmax_artiq_zynq.Drtioaux.Valid.{IsValid}
use madmax_artiq_zynq.Drtioaux.RoundTrip.{encodes}
use madmax_artiq_zynq.Drtioaux.Link.Frame.{padded, sealed}
use madmax_artiq_zynq.Drtioaux.Link.Delivery.{unframe-sealed}
use madmax_artiq_zynq.Drtioaux.Read.{read_from, run_arm}
use madmax_artiq_zynq.Drtioaux.Read.Board.{read_link}
use madmax_artiq_zynq.Drtioaux.Link.{Link, corrupted_packet, unframe, recv}

-- The link with a message in its buffer and no error.
abbrev pub WithMessage : Link → List ℕ → Link
WithMessage l buffer = record l { aux_rx_present = 1; aux_rx_error = 0; rx_buffer = buffer }

module _ ⦃e : ByteOrder⦄ (crc : List ℕ → ℕ) where
  -- The first bytes of a DmaAddTraceRequest.
  abbrev pub trace_header : ℕ → ℕ → ℕ → ℕ → ℕ → List ℕ → List ℕ
  trace_header source destination id status len rest =
      0xb0 ∷ source ∷ destination ∷ (e.of_u32 id ++ (status ∷ (e.of_u16 len ++ rest)))

  read_from-oversized :
      (source destination id status len : ℕ) (rest : List ℕ)
      → id < 2 ^ 32
      → len < 2 ^ 16
      → master_payload_max_size < len
      → read_from (trace_header source destination id status len rest) ≡ panic
  unfolding read_from run_arm read_link reader_bind lift read_payload
  read_from-oversized source destination id status len rest hi hl over =
      rw
        (
          read_u8-cons 0xb0
              (source ∷ destination ∷ (e.of_u32 id ++ (status ∷ (e.of_u16 len ++ rest)))),
          read_u8-cons source (destination ∷ (e.of_u32 id ++ (status ∷ (e.of_u16 len ++ rest)))),
          read_u8-cons destination (e.of_u32 id ++ (status ∷ (e.of_u16 len ++ rest))),
          read_u32-append id (status ∷ (e.of_u16 len ++ rest)) hi,
          read_u8-cons status (e.of_u16 len ++ rest),
          read_u16-append len rest hl,
          lt→leb_false len master_payload_max_size over,
        )
        refl

  -- A trace packet whose length field exceeds the payload size stops the receiver, whatever follows it:
  -- the checksum is not looked at.
  pub recv_oversized :
      (l : Link) (source destination id status len : ℕ) (rest : List ℕ)
      → id < 2 ^ 32
      → len < 2 ^ 16
      → master_payload_max_size < len
      → (recv crc (WithMessage l (trace_header source destination id status len rest))).0 ≡ panic
  unfolding recv unframe
  recv_oversized l source destination id status len rest hi hl over =
      rw
        (
          le→ltb_false 8 (length (trace_header source destination id status len rest)) (
              omega (
                arith,
                length-append (e.of_u32 id) (status ∷ (e.of_u16 len ++ rest)),
                e.length-of_u32 id,
                length-append (e.of_u16 len) rest,
                e.length-of_u16 len,
              )),
          read_from-oversized source destination id status len rest hi hl over,
        )
        refl

  -- A valid packet that arrives with any other checksum than that of its bytes and zeros is refused as
  -- corrupted.
  pub recv_corrupted :
      (l : Link) (p : Packet) (bytes : List ℕ) (checksum : ℕ) (junk : List ℕ)
      → IsValid p
      → write_to p ≡ ok bytes
      → checksum < 2 ^ 32
      → checksum ≢ crc (padded bytes)
      → (recv crc (WithMessage l (sealed checksum bytes ++ junk))).0 ≡ err corrupted_packet
  unfolding recv
  recv_corrupted l p bytes checksum junk h written bounded wrong =
      let t = encodes p h in
      let same : t.bytes ≡ bytes = cc (t.written) in
      rw (← same, unframe-sealed crc checksum p t junk bounded, ==_ne _ _ (rw (← same) at wrong))
        refl
