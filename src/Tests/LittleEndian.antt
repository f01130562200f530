-- ===== src/Tests/LittleEndian.antt =====
-- The byte order of the target, as a value of the byteorder crate's interface.
use madmax_artiq_zynq.Base.{ℕ, zero, suc, ◌+◌, ◌*◌, ◌/◌, ◌%◌, refl, List, [], ◌∷◌, arith}
use madmax_artiq_zynq.Io.Proto.{ByteOrder}

-- The n lowest bytes of v, lowest first.
abbrev bytes : ℕ → ℕ → List ℕ
bytes zero v = []
bytes (suc n) v = (v % 256) ∷ bytes n (v / 256)

abbrev number : List ℕ → ℕ
number [] = 0
number (b ∷ bs) = b + 256 * number bs

instance abbrev pub little_endian : ByteOrder
little_endian = record {
  to_u16 = number;
  to_u32 = number;
  to_u64 = number;
  of_u16 = bytes 2;
  of_u32 = bytes 4;
  of_u64 = bytes 8;
  length-of_u16 = λ v. refl;
  length-of_u32 = λ v. refl;
  length-of_u64 = λ v. refl;
  to_u16-of_u16 = λ v h. omega arith;
  to_u32-of_u32 = λ v h. omega arith;
  to_u64-of_u64 = λ v h. omega arith;
}
