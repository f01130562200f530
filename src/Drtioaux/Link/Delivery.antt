-- ===== src/Drtioaux/Link/Delivery.antt =====
-- src/libboard_artiq/src/drtioaux.rs: what `send` transmits, `recv` accepts on the other side.
use madmax_artiq_zynq.Base.{
  ℕ, ◌+◌, ◌-◌, ◌*◌, ◌/◌, ◌%◌, ◌^◌, ◌≤◌, ◌<◌, ◌≡◌, refl, ap, ◌∙◌, some, List, ◌∷◌, ◌++◌, ltb, ◌==◌,
  length, take, drop, replicate, arith, append_assoc, length-append, length-replicate, take-append,
  drop-append, false, le→ltb_false, le→leb, ==_refl,
}
use madmax_artiq_zynq.Outcome.{ok, ◌>>◌, guard}
use madmax_artiq_zynq.Io.Cursor.{Cursor}
use native.Mathlib.Nat.{mod-eq_of_lt}
use madmax_artiq_zynq.Io.Proto.{ByteOrder}
use madmax_artiq_zynq.Io.Proto.Trip.{read_u32-append}
use madmax_artiq_zynq.Drtioaux.Packet.{Packet}
use madmax_artiq_zynq.Drtioaux.Valid.{IsValid, on_wire}
use madmax_artiq_zynq.Drtioaux.Valid.Wire.{on_wire-IsValid, on_wire-on_wire}
use madmax_artiq_zynq.Drtioaux.RoundTrip.{encodes}
use madmax_artiq_zynq.Drtioaux.RoundTrip.Fields.{Encodes}
use madmax_artiq_zynq.Drtioaux.Payload.{max_packet}
use madmax_artiq_zynq.Drtioaux.Write.{write_to}
use madmax_artiq_zynq.Drtioaux.Link.{
  Link, corrupted_packet, aux_tx_write, aux_tx_length_write, aux_rx_present_write, padding, front,
  unframe, recv, send, copy_work_buffer,
}
use madmax_artiq_zynq.Drtioaux.Link.Frame.{
  padded, length-padded, sealed, length-sealed, padding_aligns, frame, length-frame, fill-Holds,
}

front-append : (xs ys : List ℕ) (n : ℕ) → length xs ≡ n → front (xs ++ ys) n ≡ ok xs
unfolding front
front-append xs ys n h =
    rw (le→leb n (length (xs ++ ys)) (omega (arith, length-append xs ys)), take-append n xs ys h)

copy_whole :
    (src dst : List ℕ) (n : ℕ) → n % 4 ≡ 0 → copy_work_buffer src dst n ≡ take n src ++ drop n dst
unfolding copy_work_buffer
copy_whole src dst n m = let whole : n / 4 * 4 ≡ n = omega arith in rw whole

module _ ⦃e : ByteOrder⦄ where
  -- What the reader of a packet leaves of a buffer that begins with the sealed packet.
  behind : ℕ → List ℕ → List ℕ → List ℕ
  behind checksum bytes junk = replicate (padding (length bytes)) 0 ++ (e.of_u32 checksum ++ junk)

  sealed-split :
      (v : ℕ) (bytes junk : List ℕ) → sealed v bytes ++ junk ≡ bytes ++ behind v bytes junk
  unfolding sealed behind padded
  sealed-split v bytes junk =
      rw (append_assoc (padded bytes) _ junk)
        (append_assoc bytes (replicate (padding (length bytes)) 0) (e.of_u32 v ++ junk))

  sealed-summed :
      (v : ℕ) (bytes junk : List ℕ) → sealed v bytes ++ junk ≡ padded bytes ++ (e.of_u32 v ++ junk)
  unfolding sealed
  sealed-summed v bytes junk = append_assoc (padded bytes) (e.of_u32 v) junk

  position :
      (v : ℕ) (bytes junk : List ℕ)
      → length (sealed v bytes ++ junk) - length (behind v bytes junk) ≡ length bytes
  position v bytes junk =
      omega
        (arith, ap length (sealed-split v bytes junk), length-append bytes (behind v bytes junk))

  long_enough : (v : ℕ) (bytes junk : List ℕ) → ltb (length (sealed v bytes ++ junk)) 8 ≡ false
  long_enough v bytes junk = le→ltb_false 8 _ (
      omega (
        arith,
        length-append (sealed v bytes) junk,
        length-sealed v bytes,
        (padding_aligns (length bytes)).0,
      ))

  -- A buffer that begins with a packet and any checksum: the packet is accepted if the checksum is that
  -- of the packet with its zeros.
  pub unframe-sealed :
      (crc : List ℕ → ℕ) (v : ℕ) (p : Packet) (t : Encodes p) (junk : List ℕ)
      → v < 2 ^ 32
      → unframe crc (sealed v t.bytes ++ junk)
        ≡ (guard (v == crc (padded t.bytes)) corrupted_packet >> ok (on_wire p))
  unfolding unframe
  unframe-sealed crc v p t junk bounded =
      rw
        (
          long_enough v t.bytes junk,
          sealed-split v t.bytes junk,
          t.reads (behind v t.bytes junk),
          ← sealed-split v t.bytes junk,
          position v t.bytes junk,
          sealed-summed v t.bytes junk,
          front-append (padded t.bytes) (e.of_u32 v ++ junk) at_checksum (length-padded t.bytes),
          drop-append at_checksum (padded t.bytes) (e.of_u32 v ++ junk) (length-padded t.bytes),
          read_u32-append v junk bounded,
        )
        refl
    where
      at_checksum : ℕ
      at_checksum = length t.bytes + padding (length t.bytes)

module _ ⦃e : ByteOrder⦄ (crc : List ℕ → ℕ) where
  -- The state of the link after a packet was sent: the frame lies in front of what the buffer held.
  abbrev pub Sent : List ℕ → Link → Link
  Sent bytes l = record l {
    tx_buffer = frame crc bytes ++ drop (length (frame crc bytes)) l.tx_buffer;
    writes = aux_tx_write 1 ∷ aux_tx_length_write (length (frame crc bytes)) ∷ l.writes;
  }

  send_encoded : (p : Packet) (l : Link) (t : Encodes p) → send crc p l ≡ ok (Sent t.bytes l)
  unfolding send
  send_encoded p l t =
      let (c, filled, held) =
        fill-Holds crc p (replicate max_packet 0) t.bytes t.written t.short
          (length-replicate {A = ℕ} max_packet 0) in
      rw
        (
          filled,
          copy_whole c.inner l.tx_buffer c.pos (aligned t.bytes c held.at),
          held.written,
          held.at,
          mod-eq_of_lt (in_u16 t.bytes t.short),
        )
        refl
    where
      aligned : (bytes : List ℕ) (c : Cursor) → c.pos ≡ length (frame crc bytes) → c.pos % 4 ≡ 0
      aligned bytes c e = omega (arith, length-frame crc bytes, (padding_aligns (length bytes)).0)

      in_u16 : (bytes : List ℕ) → length bytes ≤ 1020 → length (frame crc bytes) < 2 ^ 16
      in_u16 bytes short =
          omega (arith, length-frame crc bytes, (padding_aligns (length bytes)).1 short)

  -- A valid packet is always sent: the link's buffer begins with the packet's bytes, the zeros and the
  -- checksum, whole, and the length register gets their number.
  pub send_total :
      (p : Packet) (l : Link)
      → IsValid p
      → (bytes : List ℕ) × (write_to p ≡ ok bytes) × (send crc p l ≡ ok (Sent bytes l))
  send_total p l h = let t = encodes p h in (t.bytes, t.written, send_encoded p l t)

  -- A buffer that begins with a packet's frame gives the packet.
  unframe-frame :
      (p : Packet) (t : Encodes p) (junk : List ℕ)
      → ((xs : List ℕ) → crc xs < 2 ^ 32)
      → unframe crc (frame crc t.bytes ++ junk) ≡ ok (on_wire p)
  unfolding frame
  unframe-frame p t junk bounded = rw (
    unframe-sealed crc (crc (padded t.bytes)) p t junk (bounded _),
    ==_refl (crc (padded t.bytes)),
  )

  -- The link of the receiver, with the sender's buffer before it.
  abbrev pub Arrived : Link → Link → Link
  Arrived sender receiver = record receiver {
    aux_rx_present = 1;
    aux_rx_error = 0;
    rx_buffer = sender.tx_buffer;
  }

  -- A valid packet that one side sends is received on the other side as it is, with the unused part of
  -- its array cleared; the receiver acknowledges it.
  pub recv-send :
      (p : Packet) (sender receiver : Link)
      → ((xs : List ℕ) → crc xs < 2 ^ 32)
      → IsValid p
      → (sent : Link) × (send crc p sender ≡ ok sent)
        × (recv crc (Arrived sent receiver) ≡ (
          ok (some (on_wire p)),
          record (Arrived sent receiver) { writes = aux_rx_present_write 1 ∷ receiver.writes },
        ))
  unfolding recv
  recv-send p sender receiver bounded h =
      let t = encodes p h in
      (
        Sent t.bytes sender,
        send_encoded p sender t,
        rw (unframe-frame p t (drop (length (frame crc t.bytes)) sender.tx_buffer) bounded) refl,
      )

  -- A packet that a node receives and sends on unchanged arrives at the next node as it arrived at the
  -- first.
  pub recv-forward :
      (p : Packet) (sender middle receiver : Link)
      → ((xs : List ℕ) → crc xs < 2 ^ 32)
      → IsValid p
      → (sent relayed : Link) × (send crc p sender ≡ ok sent)
        × ((recv crc (Arrived sent middle)).0 ≡ ok (some (on_wire p)))
        × (send crc (on_wire p) (recv crc (Arrived sent middle)).1 ≡ ok relayed)
        × ((recv crc (Arrived relayed receiver)).0 ≡ ok (some (on_wire p)))
  recv-forward p sender middle receiver bounded h =
      let (sent, e, r) = recv-send p sender middle bounded h in
      let (relayed, e', r') =
        recv-send (on_wire p) (recv crc (Arrived sent middle)).1 receiver bounded
          (on_wire-IsValid p h) in
      (
        sent,
        relayed,
        e,
        ap (λ x. x.0) r,
        e',
        ap (λ x. x.0) r' ∙ ap (λ q. ok (some q)) (on_wire-on_wire p h),
      )
