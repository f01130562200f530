-- ===== src/Io/Proto/Bytes.antt =====
-- src/libio/proto.rs: byte strings with a length in front.
use madmax_artiq_zynq.Base.{ℕ, ◌≡◌, ◌+◌, ◌^◌, ◌<◌, refl, Bool, List, ◌++◌, if◌then◌else◌, length}
use madmax_artiq_zynq.Outcome.{Outcome, ok, err, panic}
use madmax_artiq_zynq.Outcome
use madmax_artiq_zynq.Io.Cursor.{IoError}
use madmax_artiq_zynq.Io.Proto.{ByteOrder, read_bytes, write_bytes}
use madmax_artiq_zynq.Io.Proto.Trip.{Trip, seq, exact, u32}
use native.Mathlib.Nat.{mod-eq_of_lt}

pub data ReadStringError : Type 0 where
  utf8 : ReadStringError
  other : IoError → ReadStringError

module _ ⦃e : ByteOrder⦄ where
  -- `valid` is the standard library's test of UTF-8; a string is kept as its bytes.
  unfoldable pub read_string : (List ℕ → Bool) → List ℕ → Outcome ReadStringError (List ℕ × List ℕ)
  read_string valid s =
      Outcome.◌>>=◌ (Outcome.map_err other (read_bytes s))
        (λ p. if valid p.0 then ok p else err utf8)

  bytes_trip :
      (value : List ℕ)
      → length value < 2 ^ 32
      → Trip (4 + length value) (write_bytes value) read_bytes value
  unfolding write_bytes read_bytes
  bytes_trip value h =
      rw (mod-eq_of_lt h) (seq _ (u32 (length value) h) (exact (length value) value refl))

  -- A byte string whose length fits the 32-bit length field can be written, and is read back from any
  -- source that begins with what was written; as a string it is read back if it is valid UTF-8.
  pub read_string-write_bytes :
      (valid : List ℕ → Bool) (value rest : List ℕ)
      → length value < 2 ^ 32
      → (written : List ℕ) × (write_bytes value ≡ ok written)
        × (read_bytes (written ++ rest) ≡ ok (value, rest))
        × (read_string valid (written ++ rest)
            ≡ (if valid value then ok (value, rest) else err utf8))
  unfolding read_string
  read_string-write_bytes valid value rest h =
      let t = bytes_trip value h in (t.bytes, t.written, t.reads rest, rw (t.reads rest) refl)
