-- ===== src/Drtioaux/Write/Board.antt =====
-- src/libboard_artiq/src/drtioaux_proto.rs: `write_to` on the packets of these groups:
-- link, monitor, i2c, spi. A packet of no group before goes on to the next.
use madmax_artiq_zynq.Io.Proto.{
  ByteOrder, Writer, ◌>>◌, write_all, write_u8, write_u16, write_u32, write_u64, write_bool,
}
use madmax_artiq_zynq.Drtioaux.Packet.{
  Packet, echo_request, echo_reply, reset_request, reset_ack, tsc_ack, destination_status_request,
  destination_down_reply, destination_ok_reply, destination_sequence_error_reply,
  destination_collision_reply, destination_busy_reply, routing_set_path, routing_set_rank,
  routing_ack, monitor_request, monitor_reply, injection_request, injection_status_request,
  injection_status_reply, i2c_start_request, i2c_restart_request, i2c_stop_request,
  i2c_write_request, i2c_write_reply, i2c_read_request, i2c_read_reply, i2c_basic_reply,
  i2c_switch_select_request, spi_set_config_request, spi_write_request, spi_read_request,
  spi_read_reply, spi_basic_reply,
}
use madmax_artiq_zynq.Drtioaux.Write.Dma.{write_analyzer}

module _ ⦃e : ByteOrder⦄ where
  unfoldable pub write_spi : Packet → Writer
  unfolding write_analyzer
  write_spi (spi_set_config_request destination busno flags len div cs) = do
    write_u8 0x90
    write_u8 destination
    write_u8 busno
    write_u8 flags
    write_u8 len
    write_u8 div
    write_u8 cs
  write_spi (spi_write_request destination busno data_word) = do
    write_u8 0x92
    write_u8 destination
    write_u8 busno
    write_u32 data_word
  write_spi (spi_read_request destination busno) = do
    write_u8 0x93
    write_u8 destination
    write_u8 busno
  write_spi (spi_read_reply succeeded data_word) = do
    write_u8 0x94
    write_bool succeeded
    write_u32 data_word
  write_spi (spi_basic_reply succeeded) = do write_u8 0x95; write_bool succeeded
  write_spi p = write_analyzer p

  unfoldable pub write_i2c : Packet → Writer
  unfolding write_spi
  write_i2c (i2c_start_request destination busno) = do
    write_u8 0x80
    write_u8 destination
    write_u8 busno
  write_i2c (i2c_restart_request destination busno) = do
    write_u8 0x81
    write_u8 destination
    write_u8 busno
  write_i2c (i2c_stop_request destination busno) = do
    write_u8 0x82
    write_u8 destination
    write_u8 busno
  write_i2c (i2c_write_request destination busno data_byte) = do
    write_u8 0x83
    write_u8 destination
    write_u8 busno
    write_u8 data_byte
  write_i2c (i2c_write_reply succeeded ack) = do write_u8 0x84; write_bool succeeded; write_bool ack
  write_i2c (i2c_read_request destination busno ack) = do
    write_u8 0x85
    write_u8 destination
    write_u8 busno
    write_bool ack
  write_i2c (i2c_read_reply succeeded data_byte) = do
    write_u8 0x86
    write_bool succeeded
    write_u8 data_byte
  write_i2c (i2c_basic_reply succeeded) = do write_u8 0x87; write_bool succeeded
  write_i2c (i2c_switch_select_request destination busno address mask) = do
    write_u8 0x88
    write_u8 destination
    write_u8 busno
    write_u8 address
    write_u8 mask
  write_i2c p = write_spi p

  unfoldable pub write_monitor : Packet → Writer
  unfolding write_i2c
  write_monitor (monitor_request destination channel probe) = do
    write_u8 0x40
    write_u8 destination
    write_u16 channel
    write_u8 probe
  write_monitor (monitor_reply value) = do write_u8 0x41; write_u64 value
  write_monitor (injection_request destination channel overrd value) = do
    write_u8 0x50
    write_u8 destination
    write_u16 channel
    write_u8 overrd
    write_u8 value
  write_monitor (injection_status_request destination channel overrd) = do
    write_u8 0x51
    write_u8 destination
    write_u16 channel
    write_u8 overrd
  write_monitor (injection_status_reply value) = do write_u8 0x52; write_u8 value
  write_monitor p = write_i2c p

  unfoldable pub write_link : Packet → Writer
  unfolding write_monitor
  write_link echo_request = write_u8 0x00
  write_link echo_reply = write_u8 0x01
  write_link reset_request = write_u8 0x02
  write_link reset_ack = write_u8 0x03
  write_link tsc_ack = write_u8 0x04
  write_link (destination_status_request destination) = do write_u8 0x20; write_u8 destination
  write_link destination_down_reply = write_u8 0x21
  write_link destination_ok_reply = write_u8 0x22
  write_link (destination_sequence_error_reply channel) = do write_u8 0x23; write_u16 channel
  write_link (destination_collision_reply channel) = do write_u8 0x24; write_u16 channel
  write_link (destination_busy_reply channel) = do write_u8 0x25; write_u16 channel
  write_link (routing_set_path destination hops) = do
    write_u8 0x30
    write_u8 destination
    write_all hops
  write_link (routing_set_rank rank) = do write_u8 0x31; write_u8 rank
  write_link routing_ack = write_u8 0x32
  write_link p = write_monitor p
