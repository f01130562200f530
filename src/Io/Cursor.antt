-- ===== src/Io/Cursor.antt =====
-- src/libio/cursor.rs: a position in a byte buffer that is read and written through it. `read_exact`
-- and `write_all` are the default methods of the standard library's Read and Write: they loop over
-- the cursor's own `read` and `write`.
pub mod Exact
use madmax_artiq_zynq.Base.{
  ℕ, zero, suc, ◌+◌, ◌-◌, ◌≤◌, min, List, [], ◌∷◌, ◌++◌, leb, ◌==◌, if◌then◌else◌, length, take,
  drop,
}
use madmax_artiq_zynq.Outcome.{Outcome, ok, err, panic, ◌>>=◌}

-- The errors that the standard library's default methods make.
pub data IoError : Type 0 where
  unexpected_eof write_zero : IoError

pub record Cursor : Type 0 where
  pub inner : List ℕ
  pub pos : ℕ

unfoldable pub new : List ℕ → Cursor
new inner = record { inner = inner; pos = 0 }

unfoldable pub set_position : Cursor → ℕ → Cursor
set_position c pos = record c { pos = pos }

-- The slice `inner[pos..]`; out of range it is a panic.
unfoldable pub rest_of : Cursor → Outcome IoError (List ℕ)
rest_of c = if leb c.pos (length c.inner) then ok (drop c.pos c.inner) else panic

-- `read` into a buffer of `want` bytes: what it copied, and the cursor behind it.
unfoldable pub read : Cursor → ℕ → Outcome IoError (List ℕ × Cursor)
unfolding rest_of
read c want = do
  rest ← rest_of c
  let len = min want (length rest)
  ok (take len rest, record c { pos = c.pos + len })

-- `write`: the number of bytes that found room, and the cursor behind them.
unfoldable pub write : Cursor → List ℕ → Outcome IoError (ℕ × Cursor)
unfolding rest_of
write c buf = do
  rest ← rest_of c
  let len = min (length buf) (length rest)
  ok (
    len,
    record {
      inner = take c.pos c.inner ++ (take len buf ++ drop (c.pos + len) c.inner);
      pos = c.pos + len;
    },
  )

-- `write` of the cursor over a growing vector: it appends, whatever the position.
unfoldable pub write_vec : Cursor → List ℕ → ℕ × Cursor
write_vec c buf = (length buf, record c { inner = c.inner ++ buf })

-- `read_exact`: every round that goes on has read a byte at least, so `want` rounds are enough.
read_loop : ℕ → Cursor → ℕ → List ℕ → Outcome IoError (List ℕ × Cursor)
read_loop fuel c zero got = ok (got, c)
read_loop zero c (suc want) got = panic
read_loop (suc fuel) c (suc want) got = do
  (bytes, c') ← read c (suc want)
  let more = read_loop fuel c' (suc want - length bytes) (got ++ bytes)
  if length bytes == 0 then err unexpected_eof else more

unfoldable pub read_exact : Cursor → ℕ → Outcome IoError (List ℕ × Cursor)
unfolding read_loop read
read_exact c want = read_loop want c want []

write_loop : ℕ → Cursor → List ℕ → Outcome IoError Cursor
write_loop fuel c [] = ok c
write_loop zero c (b ∷ buf) = panic
write_loop (suc fuel) c (b ∷ buf) = do
  (len, c') ← write c (b ∷ buf)
  let more = write_loop fuel c' (drop len (b ∷ buf))
  if len == 0 then err write_zero else more

unfoldable pub write_all : Cursor → List ℕ → Outcome IoError Cursor
unfolding write_loop write
write_all c buf = write_loop (length buf) c buf
