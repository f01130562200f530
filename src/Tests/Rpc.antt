-- ===== src/Tests/Rpc.antt =====
-- The tags and the receiver of rpc.rs at concrete inputs.
use madmax_artiq_zynq.Base.{ℕ, ◌+◌, ◌*◌, ◌^◌, ◌≤◌, ◌≡◌, refl, [], ◌∷◌, ◌++◌, drop, take, arith}
use madmax_artiq_zynq.Outcome.{Outcome, ok, IsOk}
use madmax_artiq_zynq.Io.Proto.{read_u8, read_u32, read_u64}
use madmax_artiq_zynq.Rpc.Tag.{next, tag_of_byte}
use madmax_artiq_zynq.Rpc.Tag.Shape.{Shape, nil, cons, print}
use madmax_artiq_zynq.Rpc.Tag.Ends.{Settles, IsShorter, next-Settles}
use madmax_artiq_zynq.Rpc.Tag.Grammar.{tag_of, next-print}
use madmax_artiq_zynq.Rpc.Layout.{round_up, size}
use madmax_artiq_zynq.Rpc.Layout.Rounding.{round_up-least, up}
use madmax_artiq_zynq.Rpc.Layout.Struct.{align_of, size_of, HasLayout}
use madmax_artiq_zynq.Rpc.Layout.Sized.{size-tag_of}
use madmax_artiq_zynq.Rpc.Recv.{Machine, recv_value, recv_times}
use madmax_artiq_zynq.Rpc.Recv.Lands.{Lands}
use madmax_artiq_zynq.Rpc.Recv.Lays.{recv_value-Lands, recv_times-Lands_fill}
use madmax_artiq_zynq.Tests.LittleEndian.{little_endian}
use mathlib.Core.Option.{Option}

-- A tuple of a Boolean, a 64-bit integer and a list of integers.
abbrev record_shape : Shape
record_shape = Shape.tuple (cons Shape.bool (cons Shape.int64 (cons (Shape.list Shape.int32) nil)))

-- The allocator hands out one block after the other.
abbrev bump : ℕ → ℕ → Outcome ⊥ (ℕ × ℕ)
bump heap bytes = ok (heap, heap + bytes)

bump-IsOk : (heap bytes : ℕ) → IsOk (bump heap bytes)
bump-IsOk heap bytes = ((heap, heap + bytes), refl)

size_runs : size (tag_of record_shape) ≡ ok 24
unfolding size round_up tag_of next tag_of_byte
size_runs = refl

abbrev arrived : Machine ℕ
arrived = record {
  reader = 1 ∷ 7 ∷ 0 ∷ 0 ∷ 0 ∷ 0 ∷ 0 ∷ 0 ∷ 0 ∷ 1 ∷ 0 ∷ 0 ∷ 0 ∷ 9 ∷ 0 ∷ 0 ∷ 0 ∷ [];
  heap = 4096;
  stores = [];
}

recv_value_runs :
    recv_value bump (tag_of record_shape) 100 arrived
    ≡ ok (
      128,
      record {
        reader = [];
        heap = 4108;
        stores =
            (4104, 9 ∷ 0 ∷ 0 ∷ 0 ∷ [])
            ∷ (4096, 8 ∷ 16 ∷ 0 ∷ 0 ∷ [])
            ∷ (4100, 1 ∷ 0 ∷ 0 ∷ 0 ∷ [])
            ∷ (120, 0 ∷ 16 ∷ 0 ∷ 0 ∷ [])
            ∷ (112, 7 ∷ 0 ∷ 0 ∷ 0 ∷ 0 ∷ 0 ∷ 0 ∷ 0 ∷ [])
            ∷ (104, 1 ∷ [])
            ∷ [];
      },
    )
unfolding recv_value size round_up tag_of next tag_of_byte read_u8 read_u64 drop take read_u32
recv_value_runs = refl

record_HasLayout : HasLayout record_shape
record_HasLayout = (tt, (tt, (tt, tt)))

next-Settles_example : Settles (IsShorter 3) (next (b't' ∷ 2 ∷ b'i' ∷ []))
next-Settles_example = next-Settles (b't' ∷ 2 ∷ b'i' ∷ [])

next-print_example :
    next (print record_shape ++ b'n' ∷ []) ≡ ok (Option.some (tag_of record_shape, b'n' ∷ []))
next-print_example = next-print record_shape (b'n' ∷ [])

round_up-least_example :
    (q : ℕ) × (round_up 13 (2 ^ 3) ≡ ok (q * 2 ^ 3))
    × (13 ≤ q * 2 ^ 3)
    × ((n : ℕ) → 13 ≤ n * 2 ^ 3 → q * 2 ^ 3 ≤ n * 2 ^ 3)
round_up-least_example = round_up-least 13 3 (omega arith) (omega arith)

size-tag_of_example : size (tag_of record_shape) ≡ ok (size_of record_shape)
unfolding size_of
size-tag_of_example = size-tag_of record_shape record_HasLayout (omega arith)

recv_value-Lands_example :
    Lands {H = ℕ}
      (λ end. end ≡ up 100 (align_of record_shape) + size_of record_shape)
      (recv_value bump (tag_of record_shape) 100)
unfolding up size_of align_of
recv_value-Lands_example =
    recv_value-Lands bump bump-IsOk record_shape 100
      (record_HasLayout, (tt, (tt, ((tt, omega arith, tt), tt)))) (omega arith)

recv_times-Lands_fill_example :
    Lands {H = ℕ}
      (λ end. end ≡ 104 + 3 * size_of Shape.int64)
      (recv_times (recv_value bump) (tag_of Shape.int64) 3 104)
unfolding size_of align_of
recv_times-Lands_fill_example =
    recv_times-Lands_fill bump bump-IsOk Shape.int64 3 104 tt refl (omega arith)
