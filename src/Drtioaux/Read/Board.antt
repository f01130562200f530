-- ===== src/Drtioaux/Read/Board.antt =====
-- src/libboard_artiq/src/drtioaux_proto.rs: `read_from` on the tags of the packets of these groups:
-- link, monitor, i2c, spi. A tag of no group before goes on to the next.
use madmax_artiq_zynq.Base.{ℕ, Option, some, ◌==◌, if◌then◌else◌}
use madmax_artiq_zynq.Io.Proto.{
  ByteOrder, Reader, ◌>>=◌, pure, read_exact, read_u8, read_u16, read_u32, read_u64, read_bool,
}
use madmax_artiq_zynq.Drtioaux.Packet.{
  Packet, echo_request, echo_reply, reset_request, reset_ack, tsc_ack, destination_status_request,
  destination_down_reply, destination_ok_reply, destination_sequence_error_reply,
  destination_collision_reply, destination_busy_reply, routing_set_path, routing_set_rank,
  routing_ack, monitor_request, monitor_reply, injection_request, injection_status_request,
  injection_status_reply, i2c_start_request, i2c_restart_request, i2c_stop_request,
  i2c_write_request, i2c_write_reply, i2c_read_request, i2c_read_reply, i2c_basic_reply,
  i2c_switch_select_request, spi_set_config_request, spi_write_request, spi_read_request,
  spi_read_reply, spi_basic_reply,
}
use madmax_artiq_zynq.Drtioaux.Read.Dma.{read_analyzer}

module _ ⦃e : ByteOrder⦄ where
  unfoldable pub read_spi : ℕ → Option (Reader Packet)
  unfolding read_analyzer
  read_spi ty =
      if ty == 0x90
      then some (do
        destination ← read_u8
        busno ← read_u8
        flags ← read_u8
        len ← read_u8
        div ← read_u8
        cs ← read_u8
        pure (spi_set_config_request destination busno flags len div cs))
      else if ty == 0x92
      then some (do
        destination ← read_u8
        busno ← read_u8
        data_word ← read_u32
        pure (spi_write_request destination busno data_word))
      else if ty == 0x93
      then some
          (do destination ← read_u8; busno ← read_u8; pure (spi_read_request destination busno))
      else if ty == 0x94
      then some (do
        succeeded ← read_bool
        data_word ← read_u32
        pure (spi_read_reply succeeded data_word))
      else if ty == 0x95
      then some (do succeeded ← read_bool; pure (spi_basic_reply succeeded))
      else read_analyzer ty

  unfoldable pub read_i2c : ℕ → Option (Reader Packet)
  unfolding read_spi
  read_i2c ty =
      if ty == 0x80
      then some
          (do destination ← read_u8; busno ← read_u8; pure (i2c_start_request destination busno))
      else if ty == 0x81
      then some
          (do destination ← read_u8; busno ← read_u8; pure (i2c_restart_request destination busno))
      else if ty == 0x82
      then some
          (do destination ← read_u8; busno ← read_u8; pure (i2c_stop_request destination busno))
      else if ty == 0x83
      then some (do
        destination ← read_u8
        busno ← read_u8
        data_byte ← read_u8
        pure (i2c_write_request destination busno data_byte))
      else if ty == 0x84
      then some (do succeeded ← read_bool; ack ← read_bool; pure (i2c_write_reply succeeded ack))
      else if ty == 0x85
      then some (do
        destination ← read_u8
        busno ← read_u8
        ack ← read_bool
        pure (i2c_read_request destination busno ack))
      else if ty == 0x86
      then some
          (do succeeded ← read_bool; data_byte ← read_u8; pure (i2c_read_reply succeeded data_byte))
      else if ty == 0x87
      then some (do succeeded ← read_bool; pure (i2c_basic_reply succeeded))
      else if ty == 0x88
      then some (do
        destination ← read_u8
        busno ← read_u8
        address ← read_u8
        mask ← read_u8
        pure (i2c_switch_select_request destination busno address mask))
      else read_spi ty

  unfoldable pub read_monitor : ℕ → Option (Reader Packet)
  unfolding read_i2c
  read_monitor ty =
      if ty == 0x40
      then some (do
        destination ← read_u8
        channel ← read_u16
        probe ← read_u8
        pure (monitor_request destination channel probe))
      else if ty == 0x41
      then some (do value ← read_u64; pure (monitor_reply value))
      else if ty == 0x50
      then some (do
        destination ← read_u8
        channel ← read_u16
        overrd ← read_u8
        value ← read_u8
        pure (injection_request destination channel overrd value))
      else if ty == 0x51
      then some (do
        destination ← read_u8
        channel ← read_u16
        overrd ← read_u8
        pure (injection_status_request destination channel overrd))
      else if ty == 0x52
      then some (do value ← read_u8; pure (injection_status_reply value))
      else read_i2c ty

  unfoldable pub read_link : ℕ → Option (Reader Packet)
  unfolding read_monitor
  read_link ty =
      if ty == 0x00
      then some (pure echo_request)
      else if ty == 0x01
      then some (pure echo_reply)
      else if ty == 0x02
      then some (pure reset_request)
      else if ty == 0x03
      then some (pure reset_ack)
      else if ty == 0x04
      then some (pure tsc_ack)
      else if ty == 0x20
      then some (do destination ← read_u8; pure (destination_status_request destination))
      else if ty == 0x21
      then some (pure destination_down_reply)
      else if ty == 0x22
      then some (pure destination_ok_reply)
      else if ty == 0x23
      then some (do channel ← read_u16; pure (destination_sequence_error_reply channel))
      else if ty == 0x24
      then some (do channel ← read_u16; pure (destination_collision_reply channel))
      else if ty == 0x25
      then some (do channel ← read_u16; pure (destination_busy_reply channel))
      else if ty == 0x30
      then some
          (do destination ← read_u8; hops ← read_exact 32; pure (routing_set_path destination hops))
      else if ty == 0x31
      then some (do rank ← read_u8; pure (routing_set_rank rank))
      else if ty == 0x32
      then some (pure routing_ack)
      else read_monitor ty
