-- ===== src/Rpc/Tag/Shape.antt =====
-- src/libksupport/src/rpc.rs, mod tag: what a tag's bytes describe, as a tree.
use madmax_artiq_zynq.Base.{ℕ, suc, List, [], ◌∷◌, ◌++◌}

mutual
  pub data Shape : Type 0 where
    none bool int32 int64 float64 string bytes byte_array object : Shape
    tuple : Shapes → Shape
    list : Shape → Shape
    array : Shape → (num_dims : ℕ) → Shape
    range keyword : Shape → Shape

  pub data Shapes : Type 0 where
    nil : Shapes
    cons : Shape → Shapes → Shapes

abbrev pub count : Shapes → ℕ
count nil = 0
count (cons s ss) = suc (count ss)

-- The bytes of a shape.
unfoldable mutual
  pub print : Shape → List ℕ
  print none = b'n' ∷ []
  print bool = b'b' ∷ []
  print int32 = b'i' ∷ []
  print int64 = b'I' ∷ []
  print float64 = b'f' ∷ []
  print string = b's' ∷ []
  print bytes = b'B' ∷ []
  print byte_array = b'A' ∷ []
  print object = b'O' ∷ []
  print (tuple ss) = b't' ∷ count ss ∷ print_all ss
  print (list s) = b'l' ∷ print s
  print (array s num_dims) = b'a' ∷ num_dims ∷ print s
  print (range s) = b'r' ∷ print s
  print (keyword s) = b'k' ∷ print s

  pub print_all : Shapes → List ℕ
  print_all nil = []
  print_all (cons s ss) = print s ++ print_all ss
