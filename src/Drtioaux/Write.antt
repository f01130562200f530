-- ===== src/Drtioaux/Write.antt =====
-- src/libboard_artiq/src/drtioaux_proto.rs: `Packet::write_to`.
pub mod Board
pub mod Dma
pub mod Subkernel
pub mod Mgmt
use madmax_artiq_zynq.Io.Proto.{ByteOrder, Writer}
use madmax_artiq_zynq.Drtioaux.Packet.{Packet}
use Board.{write_link}

module _ ⦃e : ByteOrder⦄ where
  unfoldable pub write_to : Packet → Writer
  unfolding write_link
  write_to p = write_link p
