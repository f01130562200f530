-- ===== src/Tests/Io.antt =====
-- libio at concrete inputs.
use madmax_artiq_zynq.Base.{
  ℕ, ◌≡◌, refl, true, List, [], ◌∷◌, ◌++◌, take, drop, leb, length, if◌then◌else◌, arith,
}
use madmax_artiq_zynq.Outcome.{ok, err}
use madmax_artiq_zynq.Io.Cursor.{Cursor, unexpected_eof, write_zero, read_exact, write_all}
use madmax_artiq_zynq.Io.Cursor.Exact.{
  remaining, advance, splice, read_exact_total, write_all_total,
}
use madmax_artiq_zynq.Io.Proto.{read_bytes, write_bytes}
use madmax_artiq_zynq.Io.Proto.Bytes.{read_string, read_string-write_bytes}
use madmax_artiq_zynq.Tests.LittleEndian.{little_endian}

abbrev five : Cursor
five = record { inner = 1 ∷ 2 ∷ 3 ∷ 4 ∷ 5 ∷ []; pos = 2 }

read_three : read_exact five 3 ≡ ok (3 ∷ 4 ∷ 5 ∷ [], record five { pos = 5 })
unfolding read_exact take drop
read_three = refl

read_four : read_exact five 4 ≡ err unexpected_eof
unfolding read_exact take drop
read_four = refl

read_exact_total_example : read_exact five 4 ≡ (
    if leb 4 (length (remaining five))
    then ok (take 4 (remaining five), advance five 4)
    else err unexpected_eof)
read_exact_total_example = read_exact_total five 4 (omega arith)

write_all_total_example :
    write_all five (9 ∷ 8 ∷ [])
    ≡ (if leb 2 (length (remaining five)) then ok (splice five (9 ∷ 8 ∷ [])) else err write_zero)
write_all_total_example = write_all_total five (9 ∷ 8 ∷ []) (omega arith)

read_string-write_bytes_example :
    (written : List ℕ) × (write_bytes (104 ∷ 105 ∷ []) ≡ ok written)
    × (read_bytes (written ++ 7 ∷ []) ≡ ok (104 ∷ 105 ∷ [], 7 ∷ []))
    × (read_string (λ _. true) (written ++ 7 ∷ []) ≡ ok (104 ∷ 105 ∷ [], 7 ∷ []))
read_string-write_bytes_example =
    read_string-write_bytes (λ _. true) (104 ∷ 105 ∷ []) (7 ∷ []) (omega arith)
