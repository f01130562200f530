-- ===== src/Rpc/Recv/Receivable.antt =====
-- src/libksupport/src/rpc.rs: the shapes whose values recv_value can build.
use madmax_artiq_zynq.Rpc.Tag.Shape.{Shape, Shapes, nil, cons}
use madmax_artiq_zynq.Rpc.Layout.Struct.{size_of, HasLayout}
use madmax_artiq_zynq.Rpc.Layout.Sized.{Fits}

-- A value that can be received: its parts too, and the elements of a list or of an array have a size.
abbrev mutual
  pub IsReceivable : Shape → Type 0
  IsReceivable (Shape.tuple ss) = HasLayout (Shape.tuple ss) × AllReceivable ss
  IsReceivable (Shape.list s) = HasLayout s × Fits (size_of s) × IsReceivable s
  IsReceivable (Shape.array s num_dims) = HasLayout s × Fits (size_of s) × IsReceivable s
  IsReceivable (Shape.range s) = HasLayout s × IsReceivable s
  IsReceivable (Shape.keyword s) = ⊥
  IsReceivable Shape.object = ⊥
  IsReceivable _ = Unit {0}

  pub AllReceivable : Shapes → Type 0
  AllReceivable nil = Unit {0}
  AllReceivable (cons s ss) = IsReceivable s × AllReceivable ss

pub IsReceivable-HasLayout : (s : Shape) → IsReceivable s → HasLayout s
IsReceivable-HasLayout Shape.none h = tt
IsReceivable-HasLayout Shape.bool h = tt
IsReceivable-HasLayout Shape.int32 h = tt
IsReceivable-HasLayout Shape.int64 h = tt
IsReceivable-HasLayout Shape.float64 h = tt
IsReceivable-HasLayout Shape.string h = tt
IsReceivable-HasLayout Shape.bytes h = tt
IsReceivable-HasLayout Shape.byte_array h = tt
IsReceivable-HasLayout Shape.object h = absurd h
IsReceivable-HasLayout (Shape.tuple ss) h = h.0
IsReceivable-HasLayout (Shape.list s) h = tt
IsReceivable-HasLayout (Shape.array s num_dims) h = tt
IsReceivable-HasLayout (Shape.range s) h = h.0
IsReceivable-HasLayout (Shape.keyword s) h = absurd h
