-- ===== src/Drtioaux/RoundTrip/Fields.antt =====
-- src/libboard_artiq/src/drtioaux_proto.rs: the round trip of a status, of a payload array and of the
-- pixel array, and the rule that joins a packet's tag with its fields.
use madmax_artiq_zynq.Base.{
  ℕ, All, ap, zero, suc, ◌*◌, ◌≤◌, ◌≡◌, refl, true, some, List, [], ◌∷◌, ◌++◌, length, take,
  replicate, leb, arith, le→leb, leb→le, length-take,
}
use madmax_artiq_zynq.Outcome.{Outcome, ok}
use madmax_artiq_zynq.Io.Proto.{
  ByteOrder, Reader, Writer, ◌>>=◌, ◌>>◌, pure, lift, read_u8, read_exact, write_u8, write_all,
}
use madmax_artiq_zynq.Io.Proto.Trip.{
  Trip, seq, weaken, final, read_u8-cons, u8, u64, exact, pure_lem,
}
use madmax_artiq_zynq.Drtioaux.Payload.{
  PayloadStatus, middle, first, last, first_and_last, from_u8, to_u8, read_status, write_status,
  read_payload, write_payload, read_pixels, write_pixels, cxp_payload_max_size_u64,
}
use madmax_artiq_zynq.Drtioaux.Packet.{Packet}
use madmax_artiq_zynq.Drtioaux.Valid.{IsPayload, IsU64, settle, on_wire}
use madmax_artiq_zynq.Drtioaux.Read.{read_from, run_arm}
use madmax_artiq_zynq.Drtioaux.Read.Board.{read_link}
use madmax_artiq_zynq.Drtioaux.Write.{write_to}

pub from_u8-to_u8 : (status : PayloadStatus) → from_u8 (to_u8 status) ≡ ok status
unfolding from_u8 to_u8
from_u8-to_u8 middle = refl
from_u8-to_u8 first = refl
from_u8-to_u8 last = refl
from_u8-to_u8 first_and_last = refl

-- A status that is decoded behind the fields that follow it.
pub decoded :
    {A : Type 0} (status : PayloadStatus) (k : PayloadStatus → A) (s : List ℕ)
    → (lift (from_u8 (to_u8 status)) >>= (λ x. pure (k x))) s ≡ ok (k status, s)
unfolding lift ◌>>=◌ pure
decoded status k s = rw (from_u8-to_u8 status)

pub lift_ok :
    {A : Type 0} {o : Outcome _ A} {a : A} → o ≡ ok a → (s : List ℕ) → lift o s ≡ ok (a, s)
unfolding lift
lift_ok e s = rw e

-- The status as a plain byte.
pub status_byte : (v : PayloadStatus) → Trip 1 (write_status v) read_u8 (to_u8 v)
unfolding write_status
status_byte v = u8 (to_u8 v)

pub status : (v : PayloadStatus) → Trip 1 (write_status v) read_status v
unfolding write_status read_status
status v = final _ (u8 (to_u8 v)) (lift_ok (from_u8-to_u8 v))

pub payload :
    (size len : ℕ) (xs : List ℕ)
    → IsPayload size len xs
    → Trip size (write_payload xs len) (read_payload size len) (settle size len xs)
unfolding write_payload read_payload settle
payload size len xs (sized, fits) =
    rw (le→leb len (length xs) (omega arith), le→leb len size fits)
      (weaken fits
        (final _ (exact len (take len xs) (omega (arith, length-take len xs))) (pure_lem _)))

settle-zero : (size : ℕ) (xs : List ℕ) → settle size 0 xs ≡ replicate size 0
unfolding settle take
settle-zero size xs = ap (λ k. replicate k 0) (omega arith)

settle-suc :
    (size len x : ℕ) (xs : List ℕ) → settle (suc size) (suc len) (x ∷ xs) ≡ x ∷ settle size len xs
unfolding settle take
settle-suc size len x xs = ap (λ k. x ∷ (take len xs ++ replicate k 0)) (omega arith)

write_all_lem : (xs : List ℕ) → write_all xs ≡ ok xs
unfolding write_all
write_all_lem xs = refl

module _ ⦃e : ByteOrder⦄ where
  pixels_loop :
      (size len : ℕ) (xs : List ℕ)
      → length xs ≡ size
      → len ≤ size
      → All IsU64 xs
      → Trip (8 * len) (write_pixels xs len) (read_pixels size len) (settle size len xs)
  unfolding write_pixels read_pixels
  pixels_loop size zero xs sized fits small =
      rw (settle-zero size xs)
        (record { bytes = []; written = write_all_lem []; short = omega arith; reads = pure_lem _ })
  pixels_loop zero (suc len) xs sized fits small = absurd (omega arith)
  pixels_loop (suc size) (suc len) [] sized fits small = absurd (omega arith)
  pixels_loop (suc size) (suc len) (x ∷ xs) sized fits (small, rest) = weaken (omega arith) (
      seq _ (u64 x small) (
        final _ (pixels_loop size len xs (omega arith) (omega arith) rest)
          (λ s. rw settle-suc (pure_lem _ s))))

  -- What was written of a packet can be read back: the bytes of p, at most max_packet without the
  -- checksum, and the packet that a source beginning with them gives.
  pub record Encodes (p : Packet) : Type 0 where
    pub bytes : List ℕ
    pub written : write_to p ≡ ok bytes
    pub short : length bytes ≤ 1020
    pub reads : (rest : List ℕ) → read_from (bytes ++ rest) ≡ ok (on_wire p, rest)

  module _ {p : Packet} {n : ℕ} {w : Writer} {r : Reader Packet} where
    pub arm :
        (tag : ℕ)
        → read_link tag ≡ some r
        → write_to p ≡ (write_u8 tag >> w)
        → Trip n w r (on_wire p)
        → leb n 1019 ≡ true
        → Encodes p
    unfolding ◌>>◌ write_u8 write_all read_from run_arm read_u8 read_exact ◌>>=◌
    arm tag is_arm is_written t bounded = record {
      bytes = tag ∷ t.bytes;
      written = rw (is_written, t.written) refl;
      short = omega (arith, t.short, leb→le n 1019 bounded);
      reads = λ rest. rw (read_u8-cons tag (t.bytes ++ rest), is_arm, t.reads rest);
    }

  module _ {p : Packet} where
    pub bare :
        (tag : ℕ)
        → read_link tag ≡ some (pure p)
        → write_to p ≡ write_u8 tag
        → on_wire p ≡ p
        → Encodes p
    unfolding write_u8 write_all read_from run_arm
    bare tag is_arm is_written same = record {
      bytes = tag ∷ [];
      written = is_written;
      short = omega arith;
      reads = λ rest. rw (read_u8-cons tag rest, is_arm, pure_lem p rest, same);
    }

  -- The pixel array of a packet, read into an array of its full size.
  pub pixels :
      (len : ℕ) (xs : List ℕ)
      → IsPayload cxp_payload_max_size_u64 len xs
      → All IsU64 xs
      → Trip 1016
          (write_pixels xs len)
          (read_pixels cxp_payload_max_size_u64 len)
          (settle cxp_payload_max_size_u64 len xs)
  pixels len xs (sized, fits) small =
      weaken (omega arith) (pixels_loop cxp_payload_max_size_u64 len xs sized fits small)
