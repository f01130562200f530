-- ===== src/Rpc/Layout/Struct.antt =====
-- src/libksupport/src/rpc.rs: the layout of a shape's value in memory, as the C structure rules give it
-- on the 32-bit core: a field starts at the next multiple of its alignment, and a structure is padded
-- to a multiple of the greatest one.
use madmax_artiq_zynq.Base.{ℕ, ◌+◌, ◌*◌, ◌≡◌, ◌⊎◌, max}
use madmax_artiq_zynq.Rpc.Tag.Shape.{Shape, Shapes, nil, cons}
use madmax_artiq_zynq.Rpc.Layout.Rounding.{up}

unfoldable mutual
  pub align_of : Shape → ℕ
  align_of Shape.none = 1
  align_of Shape.bool = 1
  align_of Shape.int32 = 4
  align_of Shape.int64 = 8
  align_of Shape.float64 = 8
  align_of Shape.string = 4
  align_of Shape.bytes = 4
  align_of Shape.byte_array = 4
  align_of Shape.object = 4
  align_of (Shape.tuple ss) = greatest_align ss
  align_of (Shape.list s) = 4
  align_of (Shape.array s num_dims) = 4
  align_of (Shape.range s) = align_of s
  align_of (Shape.keyword s) = 4

  pub greatest_align : Shapes → ℕ
  greatest_align nil = 0
  greatest_align (cons s ss) = max (align_of s) (greatest_align ss)

unfoldable mutual
  unfolding align_of up

  pub size_of : Shape → ℕ
  size_of Shape.none = 0
  size_of Shape.bool = 1
  size_of Shape.int32 = 4
  size_of Shape.int64 = 8
  size_of Shape.float64 = 8
  size_of Shape.string = 8
  size_of Shape.bytes = 8
  size_of Shape.byte_array = 8
  size_of Shape.object = 4
  size_of (Shape.tuple ss) = up (fields_end 0 ss) (greatest_align ss)
  size_of (Shape.list s) = 4
  size_of (Shape.array s num_dims) = 4 * (1 + num_dims)
  size_of (Shape.range s) = 3 * size_of s
  size_of (Shape.keyword s) = 0

  -- Where the last field ends, when the first may start at pos.
  pub fields_end : (pos : ℕ) → Shapes → ℕ
  fields_end pos nil = pos
  fields_end pos (cons s ss) = fields_end (up pos (align_of s) + size_of s) ss

-- A value that can stand in a composite one: no keyword, no object, no empty tuple. What is behind a
-- pointer does not matter.
abbrev mutual
  pub HasLayout : Shape → Type 0
  HasLayout (Shape.tuple nil) = ⊥
  HasLayout (Shape.tuple (cons s ss)) = HasLayout s × AllHaveLayout ss
  HasLayout (Shape.range s) = HasLayout s
  HasLayout (Shape.keyword s) = ⊥
  HasLayout Shape.object = ⊥
  HasLayout _ = Unit {0}

  pub AllHaveLayout : Shapes → Type 0
  AllHaveLayout nil = Unit {0}
  AllHaveLayout (cons s ss) = HasLayout s × AllHaveLayout ss

-- The alignments of the core.
abbrev pub IsAlignment : ℕ → Type 0
IsAlignment a = (a ≡ 1) ⊎ ((a ≡ 4) ⊎ (a ≡ 8))
