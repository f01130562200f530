-- ===== src/Io/Proto/Trip.antt =====
-- src/libio/proto.rs: the rules by which a reader takes back what a writer wrote, one for each primitive
-- and two for sequences.
use madmax_artiq_zynq.Base.{
  ℕ, ◌+◌, ◌^◌, ◌≤◌, ◌<◌, ◌≡◌, refl, Bool, true, false, take, drop, List, [], ◌∷◌, ◌++◌, length,
  arith, take-append, drop-append, length-append, append_assoc,
}
use madmax_artiq_zynq.Outcome.{ok}
use madmax_artiq_zynq.Io.Proto.{
  ByteOrder, Reader, Writer, ◌>>=◌, ◌>>◌, pure, read_exact, read_u8, read_bool, read_u16, read_u32,
  read_u64, write_all, write_u8, write_bool, write_u16, write_u32, write_u64,
}

-- The writer `w` writes at most n bytes, and the reader `r` takes exactly those off any source that
-- begins with them, and returns `a`.
pub record Trip {A : Type 0} (n : ℕ) (w : Writer) (r : Reader A) (a : A) : Type 0 where
  pub bytes : List ℕ
  pub written : w ≡ ok bytes
  pub short : length bytes ≤ n
  pub reads : (rest : List ℕ) → r (bytes ++ rest) ≡ ok (a, rest)

pub weaken :
    {A : Type 0} {n m : ℕ} {w : Writer} {r : Reader A} {a : A} → n ≤ m → Trip n w r a → Trip m w r a
weaken h t = record {
  bytes = t.bytes;
  written = t.written;
  short = omega (arith, t.short);
  reads = t.reads;
}

pub read_exact-append :
    (n : ℕ) (bytes rest : List ℕ)
    → length bytes ≡ n
    → read_exact n (bytes ++ rest) ≡ ok (bytes, rest)
unfolding read_exact
read_exact-append n bytes rest e =
    ground (arith, take-append n bytes rest e, drop-append n bytes rest e, length-append bytes rest)

pub read_u8-cons : (b : ℕ) (s : List ℕ) → read_u8 (b ∷ s) ≡ ok (b, s)
unfolding read_u8 read_exact ◌>>=◌ pure take drop
read_u8-cons b s = ground arith

pub write_u8_lem : (b : ℕ) → write_u8 b ≡ ok (b ∷ [])
unfolding write_u8 write_all
write_u8_lem b = refl

pub exact :
    (n : ℕ) (bytes : List ℕ) → length bytes ≡ n → Trip n (write_all bytes) (read_exact n) bytes
unfolding write_all
exact n bytes e = record {
  bytes = bytes;
  written = refl;
  short = omega arith;
  reads = λ rest. read_exact-append n bytes rest e;
}

module _ {A B : Type 0} {n m : ℕ} {w v : Writer} {r : Reader A} {a : A} {b : B} where
  pub seq : (k : A → Reader B) → Trip n w r a → Trip m v (k a) b → Trip (n + m) (w >> v) (r >>= k) b
  unfolding ◌>>=◌ ◌>>◌
  seq k t u = record {
    bytes = t.bytes ++ u.bytes;
    written = rw (t.written, u.written);
    short = omega (arith, t.short, u.short, length-append t.bytes u.bytes);
    reads = λ rest. rw (append_assoc t.bytes u.bytes rest, t.reads) (u.reads rest);
  }

-- The final field, after which the value is put together.
module _ {A B : Type 0} {n : ℕ} {w : Writer} {r : Reader A} {a : A} {b : B} where
  pub final :
      (k : A → Reader B) → Trip n w r a → ((s : List ℕ) → k a s ≡ ok (b, s)) → Trip n w (r >>= k) b
  unfolding ◌>>=◌
  final k t f = record {
    bytes = t.bytes;
    written = t.written;
    short = t.short;
    reads = λ rest. rw t.reads (f rest);
  }

pub pure_lem : {A : Type 0} (a : A) (s : List ℕ) → pure a s ≡ ok (a, s)
unfolding pure
pure_lem a s = refl

pub u8 : (v : ℕ) → Trip 1 (write_u8 v) read_u8 v
unfolding write_u8 read_u8
u8 v = final _ (exact 1 (v ∷ []) refl) (pure_lem v)

pub bool : (v : Bool) → Trip 1 (write_bool v) read_bool v
unfolding write_bool read_bool
bool true = final _ (u8 1) (pure_lem true)
bool false = final _ (u8 0) (pure_lem false)

module _ ⦃e : ByteOrder⦄ where
  pub write_u32_lem : (v : ℕ) → write_u32 v ≡ ok (e.of_u32 v)
  unfolding write_u32 write_all
  write_u32_lem v = refl

  pub read_u32-append :
      (v : ℕ) (rest : List ℕ) → v < 2 ^ 32 → read_u32 (e.of_u32 v ++ rest) ≡ ok (v, rest)
  unfolding read_u32 ◌>>=◌ pure
  read_u32-append v rest h =
      rw (read_exact-append 4 (e.of_u32 v) rest (e.length-of_u32 v), e.to_u32-of_u32 v h)

  pub read_u16-append :
      (v : ℕ) (rest : List ℕ) → v < 2 ^ 16 → read_u16 (e.of_u16 v ++ rest) ≡ ok (v, rest)
  unfolding read_u16 ◌>>=◌ pure
  read_u16-append v rest h =
      rw (read_exact-append 2 (e.of_u16 v) rest (e.length-of_u16 v), e.to_u16-of_u16 v h)

  pub u16 : (v : ℕ) → v < 2 ^ 16 → Trip 2 (write_u16 v) read_u16 v
  unfolding write_u16 read_u16
  u16 v h =
      final _ (exact 2 (e.of_u16 v) (e.length-of_u16 v))
        (λ s. rw (e.to_u16-of_u16 v h) (pure_lem v s))

  pub u32 : (v : ℕ) → v < 2 ^ 32 → Trip 4 (write_u32 v) read_u32 v
  unfolding write_u32 read_u32
  u32 v h =
      final _ (exact 4 (e.of_u32 v) (e.length-of_u32 v))
        (λ s. rw (e.to_u32-of_u32 v h) (pure_lem v s))

  pub u64 : (v : ℕ) → v < 2 ^ 64 → Trip 8 (write_u64 v) read_u64 v
  unfolding write_u64 read_u64
  u64 v h =
      final _ (exact 8 (e.of_u64 v) (e.length-of_u64 v))
        (λ s. rw (e.to_u64-of_u64 v h) (pure_lem v s))
