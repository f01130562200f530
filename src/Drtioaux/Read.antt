-- ===== src/Drtioaux/Read.antt =====
-- src/libboard_artiq/src/drtioaux_proto.rs: `Packet::read_from`.
pub mod Board
pub mod Dma
pub mod Subkernel
pub mod Mgmt
use madmax_artiq_zynq.Base.{ℕ, Option, none, some, List}
use madmax_artiq_zynq.Outcome.{Outcome, ok, err, panic, ◌>>=◌, map_err}
use madmax_artiq_zynq.Io.Cursor.{IoError}
use madmax_artiq_zynq.Io.Proto.{ByteOrder, Reader, read_u8}
use madmax_artiq_zynq.Drtioaux.Packet.{Packet}
use Board.{read_link}

-- `drtioaux_proto::Error`
pub data Error : Type 0 where
  unknown_packet : ℕ → Error
  io : IoError → Error

-- The arm of the match that the tag selects.
unfoldable pub run_arm : ℕ → Option (Reader Packet) → List ℕ → Outcome Error (Packet × List ℕ)
run_arm ty none s = err (unknown_packet ty)
run_arm ty (some arm) s = map_err io (arm s)

module _ ⦃e : ByteOrder⦄ where
  unfoldable pub read_from : List ℕ → Outcome Error (Packet × List ℕ)
  unfolding run_arm read_link
  read_from s = do (ty, s') ← map_err io (read_u8 s); run_arm ty (read_link ty) s'
