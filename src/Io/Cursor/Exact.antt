-- ===== src/Io/Cursor/Exact.antt =====
-- src/libio/cursor.rs: what the loops `read_exact` and `write_all` come to on a cursor whose position
-- lies in its buffer.
use madmax_artiq_zynq.Base.{
  ℕ, zero, suc, ◌+◌, ◌-◌, ◌≤◌, ◌≡◌, refl, ap, sym, ◌∙◌, List, [], ◌∷◌, ◌++◌, leb, if◌then◌else◌,
  length, take, drop, arith, length-drop, drop_all, leb→le, leb_false→lt, take-append-drop,
  drop-append, drop-drop, length-append, ◌<◌, length-take, take_all, inl, inr, Bool-cases,
}
use madmax_artiq_zynq.Outcome.{ok, err}
use madmax_artiq_zynq.Io.Cursor.{
  Cursor, unexpected_eof, write_zero, read, rest_of, read_exact, read_loop, write, write_all,
  write_loop,
}

abbrev pub IsWithin : Cursor → Type 0
IsWithin c = c.pos ≤ length c.inner

-- What a reader of the cursor has before it.
unfoldable pub remaining : Cursor → List ℕ
remaining c = drop c.pos c.inner

unfoldable pub advance : Cursor → ℕ → Cursor
advance c n = record c { pos = c.pos + n }

pub length-remaining : (c : Cursor) → length (remaining c) ≡ length c.inner - c.pos
unfolding remaining
length-remaining c = length-drop c.pos c.inner

read_enough :
    (c : Cursor) (n : ℕ)
    → IsWithin c
    → n ≤ length (remaining c)
    → read c n ≡ ok (take n (remaining c), advance c n)
unfolding read remaining advance rest_of
read_enough c n h e = ground (arith)

-- A short read takes all that is left.
read_short :
    (c : Cursor) (n : ℕ)
    → IsWithin c
    → length (remaining c) ≤ n
    → read c n ≡ ok (remaining c, advance c (length (remaining c)))
unfolding read remaining advance rest_of
read_short c n h e = ground (arith, take_all (length (drop c.pos c.inner)) (drop c.pos c.inner))

advance-IsWithin :
    (c : Cursor) (n : ℕ) → IsWithin c → n ≤ length (remaining c) → IsWithin (advance c n)
unfolding advance
advance-IsWithin c n h e = omega (arith, length-remaining c)

read_exact_enough :
    (c : Cursor) (n : ℕ)
    → IsWithin c
    → n ≤ length (remaining c)
    → read_exact c n ≡ ok (take n (remaining c), advance c n)
unfolding read_exact read_loop
read_exact_enough c zero h e = unfold take advance in ground arith
read_exact_enough c (suc n) h e =
    rw (read_enough c (suc n) h e) (ground (arith, length-take (suc n) (remaining c)))

pub remaining-advance : (c : Cursor) (n : ℕ) → remaining (advance c n) ≡ drop n (remaining c)
unfolding remaining advance
remaining-advance c n = sym (drop-drop c.pos n c.inner)

loop_at_end :
    (fuel : ℕ) (c : Cursor) (want : ℕ) (got : List ℕ)
    → IsWithin c
    → length (remaining c) ≡ 0
    → 0 < want
    → want ≤ fuel
    → read_loop fuel c want got ≡ err unexpected_eof
unfolding read_loop
loop_at_end fuel c zero got w e h k = absurd (omega arith)
loop_at_end zero c (suc want) got w e h k = absurd (omega arith)
loop_at_end (suc fuel) c (suc want) got w e h k =
    rw (read_short c (suc want) w (omega arith)) (ground arith)

read_exact_eof :
    (c : Cursor) (n : ℕ)
    → IsWithin c
    → length (remaining c) < n
    → read_exact c n ≡ err unexpected_eof
unfolding read_exact read_loop
read_exact_eof c zero w h = absurd (omega arith)
read_exact_eof c (suc n) w h = rw (read_short c (suc n) w (omega arith)) (
    ground (
      arith,
      loop_at_end n (advance c (length (remaining c))) (suc n - length (remaining c))
          ([] ++ remaining c),
      advance-IsWithin c (length (remaining c)),
      length-drop (length (remaining c)) (remaining c),
      ap length (remaining-advance c (length (remaining c))),
    ))

-- On a cursor whose position lies in its buffer, `read_exact n` returns the next n bytes and steps
-- over them when that many are left, and otherwise fails with UnexpectedEof.
pub read_exact_total :
    (c : Cursor) (n : ℕ)
    → IsWithin c
    → read_exact c n ≡ (
        if leb n (length (remaining c))
        then ok (take n (remaining c), advance c n)
        else err unexpected_eof)
read_exact_total c n w = elim (Bool-cases (leb n (length (remaining c)))) [
  | inl e ↦ rw e (read_exact_enough c n w (leb→le _ _ e))
  | inr e ↦ rw e (read_exact_eof c n w (leb_false→lt _ _ e))
]

-- What the buffer becomes when `buf` is written at the position.
unfoldable pub splice : Cursor → List ℕ → Cursor
splice c buf = record {
  inner = take c.pos c.inner ++ (buf ++ drop (c.pos + length buf) c.inner);
  pos = c.pos + length buf;
}

write_enough :
    (c : Cursor) (buf : List ℕ)
    → IsWithin c
    → length buf ≤ length (remaining c)
    → write c buf ≡ ok (length buf, splice c buf)
unfolding write remaining splice rest_of
write_enough c buf w h = ground (arith, take_all (length buf) buf)

write_short :
    (c : Cursor) (buf : List ℕ)
    → IsWithin c
    → length (remaining c) ≤ length buf
    → write c buf ≡ ok (length (remaining c), splice c (take (length (remaining c)) buf))
unfolding write remaining splice rest_of
write_short c buf w h = ground (arith, length-take (length (drop c.pos c.inner)) buf)

write_all_enough :
    (c : Cursor) (buf : List ℕ)
    → IsWithin c
    → length buf ≤ length (remaining c)
    → write_all c buf ≡ ok (splice c buf)
unfolding write_all write_loop
write_all_enough c [] w h = unfold splice in ground (arith, take-append-drop c.pos c.inner)
write_all_enough c (b ∷ buf) w h =
    rw (write_enough c (b ∷ buf) w h) (ground (arith, drop_all (length (b ∷ buf)) (b ∷ buf)))

splice_pos : (c : Cursor) (buf : List ℕ) → (splice c buf).pos ≡ c.pos + length buf
unfolding splice
splice_pos c buf = refl

pub length-splice :
    (c : Cursor) (buf : List ℕ)
    → IsWithin c
    → length buf ≤ length (remaining c)
    → length (splice c buf).inner ≡ length c.inner
unfolding splice
length-splice c buf w h = omega (
  arith,
  length-append (take c.pos c.inner) (buf ++ drop (c.pos + length buf) c.inner),
  length-append buf (drop (c.pos + length buf) c.inner),
  length-take c.pos c.inner,
  length-drop (c.pos + length buf) c.inner,
  length-remaining c,
)

pub splice-IsWithin :
    (c : Cursor) (buf : List ℕ)
    → IsWithin c
    → length buf ≤ length (remaining c)
    → IsWithin (splice c buf)
splice-IsWithin c buf w h =
    omega (arith, length-splice c buf w h, length-remaining c, splice_pos c buf)

-- What was behind the written bytes is left to be written over.
pub remaining-splice :
    (c : Cursor) (buf : List ℕ)
    → IsWithin c
    → length buf ≤ length (remaining c)
    → remaining (splice c buf) ≡ drop (length buf) (remaining c)
unfolding splice remaining
remaining-splice c buf w h =
    sym (drop-drop c.pos (length buf) (take c.pos c.inner ++ (buf ++ behind)))
    ∙ ap (drop (length buf)) (
        drop-append c.pos (take c.pos c.inner) (buf ++ behind)
          (omega (arith, length-take c.pos c.inner)))
    ∙ drop-append (length buf) buf behind refl
    ∙ sym (drop-drop c.pos (length buf) c.inner)
  where
    behind : List ℕ
    behind = drop (c.pos + length buf) c.inner

write_loop_full :
    (fuel : ℕ) (c : Cursor) (buf : List ℕ)
    → IsWithin c
    → length (remaining c) ≡ 0
    → 0 < length buf
    → 0 < fuel
    → write_loop fuel c buf ≡ err write_zero
unfolding write_loop
write_loop_full fuel c [] w e h k = absurd (omega arith)
write_loop_full zero c (b ∷ buf) w e h k = absurd (omega arith)
write_loop_full (suc fuel) c (b ∷ buf) w e h k =
    rw (write_short c (b ∷ buf) w (omega arith)) (ground arith)

write_all_full :
    (c : Cursor) (buf : List ℕ)
    → IsWithin c
    → length (remaining c) < length buf
    → write_all c buf ≡ err write_zero
unfolding write_all write_loop
write_all_full c [] w h = absurd (omega arith)
write_all_full c (b ∷ buf) w h = rw (write_short c (b ∷ buf) w (omega arith)) (
    ground (
      arith,
      write_loop_full (length buf) (splice c written) (drop r (b ∷ buf)),
      splice-IsWithin c written w,
      ap length (remaining-splice c written w (omega (arith, length_written))),
      length_written,
      length-drop (length written) (remaining c),
      length-drop r (b ∷ buf),
    ))
  where
    r : ℕ
    r = length (remaining c)

    written : List ℕ
    written = take r (b ∷ buf)

    length_written : length written ≡ r
    length_written = omega (arith, length-take r (b ∷ buf))

-- On a cursor whose position lies in its buffer, `write_all` puts all bytes at the position and steps
-- over them when they fit, and otherwise fails with WriteZero.
pub write_all_total :
    (c : Cursor) (buf : List ℕ)
    → IsWithin c
    → write_all c buf
      ≡ (if leb (length buf) (length (remaining c)) then ok (splice c buf) else err write_zero)
write_all_total c buf w = elim (Bool-cases (leb (length buf) (length (remaining c)))) [
  | inl e ↦ rw e (write_all_enough c buf w (leb→le _ _ e))
  | inr e ↦ rw e (write_all_full c buf w (leb_false→lt _ _ e))
]
