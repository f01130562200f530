-- ===== src/Io/Proto.antt =====
-- src/libio/proto.rs: readers and writers of the primitive values. A source of bytes is the list of
-- the bytes that it still delivers (a cursor: Cursor.Exact.remaining), and a writer is the list of the
-- bytes that it hands to `write_all`. The byte order is the byteorder crate's, taken as an instance
-- argument.
pub mod Trip
pub mod Bytes
use madmax_artiq_zynq.Base.{
  ℕ, zero, suc, ◌+◌, ◌%◌, ◌^◌, ◌<◌, ◌≡◌, Bool, true, false, not, List, [], ◌∷◌, ◌++◌, leb, ◌==◌,
  if◌then◌else◌, length, take, drop,
}
use madmax_artiq_zynq.Outcome.{Outcome, ok, err, panic}
use madmax_artiq_zynq.Outcome
use madmax_artiq_zynq.Io.Cursor.{IoError, unexpected_eof}

-- A byte order of the byteorder crate: fixed widths, and reading undoes writing.
pub record ByteOrder : Type 0 where
  pub to_u16 : List ℕ → ℕ
  pub to_u32 : List ℕ → ℕ
  pub to_u64 : List ℕ → ℕ
  pub of_u16 : ℕ → List ℕ
  pub of_u32 : ℕ → List ℕ
  pub of_u64 : ℕ → List ℕ
  pub length-of_u16 : (v : ℕ) → length (of_u16 v) ≡ 2
  pub length-of_u32 : (v : ℕ) → length (of_u32 v) ≡ 4
  pub length-of_u64 : (v : ℕ) → length (of_u64 v) ≡ 8
  pub to_u16-of_u16 : (v : ℕ) → v < 2 ^ 16 → to_u16 (of_u16 v) ≡ v
  pub to_u32-of_u32 : (v : ℕ) → v < 2 ^ 32 → to_u32 (of_u32 v) ≡ v
  pub to_u64-of_u64 : (v : ℕ) → v < 2 ^ 64 → to_u64 (of_u64 v) ≡ v

abbrev pub Reader : Type 0 → Type 0
Reader A = List ℕ → Outcome IoError (A × List ℕ)

abbrev pub Writer : Type 0
Writer = Outcome IoError (List ℕ)

infixl 5 ◌>>=◌ ◌>>◌
unfoldable pub ◌>>=◌ : {A B : Type 0} → Reader A → (A → Reader B) → Reader B
◌>>=◌ r k s = Outcome.◌>>=◌ (r s) (λ p. k p.0 p.1)

unfoldable pub pure : {A : Type 0} → A → Reader A
pure a s = ok (a, s)

-- A step that reads nothing and can fail.
unfoldable pub lift : {A : Type 0} → Outcome IoError A → Reader A
lift o s = Outcome.◌>>=◌ o (λ a. ok (a, s))

-- One writer after the other.
unfoldable pub ◌>>◌ : Writer → Writer → Writer
w >> v = Outcome.◌>>=◌ w (λ xs. Outcome.◌>>=◌ v (λ ys. ok (xs ++ ys)))

unfoldable pub write_all : List ℕ → Writer
write_all bytes = ok bytes

unfoldable pub read_exact : ℕ → Reader (List ℕ)
read_exact n s = if leb n (length s) then ok (take n s, drop n s) else err unexpected_eof

-- `bytes[0]` of a buffer of one byte.
abbrev first : List ℕ → ℕ
first [] = 0
first (b ∷ bytes) = b

unfoldable pub read_u8 : Reader ℕ
unfolding ◌>>=◌ pure read_exact
read_u8 = do bytes ← read_exact 1; pure (first bytes)

unfoldable pub read_bool : Reader Bool
unfolding ◌>>=◌ pure read_u8
read_bool = do v ← read_u8; pure (not (v == 0))

unfoldable pub write_u8 : ℕ → Writer
unfolding write_all
write_u8 value = write_all (value ∷ [])

abbrev as_u8 : Bool → ℕ
as_u8 true = 1
as_u8 false = 0

unfoldable pub write_bool : Bool → Writer
unfolding write_u8
write_bool value = write_u8 (as_u8 value)

module _ ⦃e : ByteOrder⦄ where
  unfoldable pub read_u16 : Reader ℕ
  unfolding ◌>>=◌ pure read_exact
  read_u16 = do bytes ← read_exact 2; pure (e.to_u16 bytes)

  unfoldable pub read_u32 : Reader ℕ
  unfolding ◌>>=◌ pure read_exact
  read_u32 = do bytes ← read_exact 4; pure (e.to_u32 bytes)

  unfoldable pub read_u64 : Reader ℕ
  unfolding ◌>>=◌ pure read_exact
  read_u64 = do bytes ← read_exact 8; pure (e.to_u64 bytes)

  unfoldable pub read_bytes : Reader (List ℕ)
  unfolding ◌>>=◌ read_u32 read_exact
  read_bytes = do length ← read_u32; read_exact length

  unfoldable pub write_u16 : ℕ → Writer
  unfolding write_all
  write_u16 value = write_all (e.of_u16 value)

  unfoldable pub write_u32 : ℕ → Writer
  unfolding write_all
  write_u32 value = write_all (e.of_u32 value)

  unfoldable pub write_u64 : ℕ → Writer
  unfolding write_all
  write_u64 value = write_all (e.of_u64 value)

  -- `value.len() as u32`
  unfoldable pub write_bytes : List ℕ → Writer
  unfolding ◌>>◌ write_all write_u32
  write_bytes value = do write_u32 (length value % 2 ^ 32); write_all value
