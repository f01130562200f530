-- ===== src/Drtioaux/Link.antt =====
-- src/libboard_artiq/src/drtioaux.rs: frames on an auxiliary link. A frame is a packet, zeros up to an
-- offset of 4 modulo 8, and the checksum of all that. What the core reads from a link's registers and
-- buffers is the state, and what it writes to the registers is kept as a log, newest first. The
-- checksum is the crc crate's, a parameter.
pub mod Frame
pub mod Delivery
pub mod Faults
use madmax_artiq_zynq.Base.{
  ℕ, zero, suc, ◌+◌, ◌-◌, ◌*◌, ◌/◌, ◌%◌, ◌^◌, Bool, true, false, not, Option, none, some, List, [],
  ◌∷◌, ◌++◌, ltb, leb, ◌==◌, if◌then◌else◌, length, take, drop, replicate,
}
use madmax_artiq_zynq.Outcome.{Outcome, ok, err, panic, ◌>>=◌, ◌>>◌, guard, map_err}
use madmax_artiq_zynq.Io.Cursor.{Cursor, IoError, unexpected_eof, new, set_position, write_all}
use madmax_artiq_zynq.Io.Proto.{ByteOrder, Writer, read_u32, write_u8, write_u32}
use madmax_artiq_zynq.Drtioaux.Packet.{Packet}
use madmax_artiq_zynq.Drtioaux.Payload.{max_packet}
use madmax_artiq_zynq.Drtioaux.Read.{Error, io, read_from}
use madmax_artiq_zynq.Drtioaux.Write.{write_to}

-- `drtioaux::Error`
pub data LinkError : Type 0 where
  gateware_error corrupted_packet link_down timed_out unexpected_reply routing_error : LinkError
  protocol : Error → LinkError

abbrev pub of_io : IoError → LinkError
of_io e = protocol (io e)

pub data RegisterWrite : Type 0 where
  aux_rx_present_write aux_rx_error_write aux_tx_length_write aux_tx_write : ℕ → RegisterWrite

pub record Link : Type 0 where
  pub aux_rx_present : ℕ
  pub aux_rx_error : ℕ
  -- The 0x400 bytes at the read pointer.
  pub rx_buffer : List ℕ
  pub tx_buffer : List ℕ
  pub writes : List RegisterWrite

unfoldable pub reset : Link → Link
reset l = record l { writes = aux_rx_error_write 1 ∷ aux_rx_present_write 1 ∷ l.writes }

unfoldable pub has_rx_error : Link → Bool × Link
has_rx_error l =
    if not (l.aux_rx_error == 0)
    then (true, record l { writes = aux_rx_error_write 1 ∷ l.writes })
    else (false, l)

-- The number of zeros between a packet of `position` bytes and its checksum.
unfoldable pub padding : ℕ → ℕ
padding position = (12 - position % 8) % 8

-- `copy_work_buffer`: whole words of the source replace the front of the destination.
unfoldable pub copy_work_buffer : List ℕ → List ℕ → ℕ → List ℕ
copy_work_buffer src dst len = let n = len / 4 * 4 in take n src ++ drop n dst

-- A writer's bytes through the cursor.
unfoldable pub put : Cursor → Writer → Outcome LinkError Cursor
put c w = map_err of_io (w >>= write_all c)

unfoldable pub pad : ℕ → Cursor → Outcome LinkError Cursor
unfolding put
pad zero c = ok c
pad (suc n) c = do c' ← put c (write_u8 0); pad n c'

unfoldable pub receive :
    {T : Type 0} → (List ℕ → Outcome LinkError T) → Link → Outcome LinkError (Option T) × Link
receive f l =
    if l.aux_rx_present == 1
    then (
      (f l.rx_buffer >>= λ t. ok (some t)),
      record l { writes = aux_rx_present_write 1 ∷ l.writes },
    )
    else (ok none, l)

-- `&buffer[0..end]`
unfoldable pub front : List ℕ → ℕ → Outcome LinkError (List ℕ)
front buffer end = if leb end (length buffer) then ok (take end buffer) else panic

module _ ⦃e : ByteOrder⦄ (crc : List ℕ → ℕ) where
  -- The closure of `recv`: the packet of a buffer, if its checksum is right. The position of the
  -- reader is the number of bytes that it has taken off the buffer.
  unfoldable pub unframe : List ℕ → Outcome LinkError Packet
  unframe buffer = do
    guard (not (ltb (length buffer) 8)) (of_io unexpected_eof)
    (packet, rest) ← map_err protocol (read_from buffer)
    let position = length buffer - length rest
    let checksum_at = position + padding position
    summed ← front buffer checksum_at
    (stored, rest') ← map_err of_io (read_u32 (drop checksum_at buffer))
    guard (stored == crc summed) corrupted_packet
    ok packet

  unfoldable pub recv : Link → Outcome LinkError (Option Packet) × Link
  unfolding has_rx_error receive
  recv l =
      let (failed, l') = has_rx_error l in
      if failed then (err gateware_error, l') else receive unframe l'

  -- `recv_timeout`: each poll is a reading of the clock and the link as `recv` finds it. `none` means
  -- that the polls given here end before the loop does.
  unfoldable pub recv_loop : ℕ → List (ℕ × Link) → Option (Outcome LinkError Packet)
  unfolding recv
  recv_loop limit [] = none
  recv_loop limit ((now, l) ∷ polls) =
      let again = recv_loop limit polls in
      if ltb now limit
      then (elim (recv l).0 [
        | ok none ↦ again
        | ok (some packet) ↦ some (ok packet)
        | err e ↦ some (err e)
        | panic ↦ some panic
      ])
      else some (err timed_out)

  unfoldable pub recv_timeout : ℕ → Option ℕ → List (ℕ × Link) → Option (Outcome LinkError Packet)
  unfolding recv_loop
  recv_timeout start none polls = recv_loop (start + 10) polls
  recv_timeout start (some timeout_ms) polls = recv_loop (start + timeout_ms) polls

  -- The closure of `send`: the cursor behind the frame.
  unfoldable pub fill : Packet → Cursor → Outcome LinkError Cursor
  fill packet c = do
    c' ← put c (write_to packet)
    c'' ← pad (padding c'.pos) c'
    put c'' (write_u32 (crc (take c''.pos c''.inner)))

  -- `send`, after the wait for the transmitter. Any state of the link before goes.
  unfoldable pub send : Packet → Link → Outcome LinkError Link
  send packet l = do
    c ← fill packet (new (replicate max_packet 0))
    ok (record l {
      tx_buffer = copy_work_buffer c.inner l.tx_buffer c.pos;
      writes = aux_tx_write 1 ∷ aux_tx_length_write (c.pos % 2 ^ 16) ∷ l.writes;
    })
