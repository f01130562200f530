-- ===== src/Drtioaux/RoundTrip/Board.antt =====
-- src/libboard_artiq/src/drtioaux_proto.rs: the round trip of each packet of these groups: link, monitor, i2c, spi.
use madmax_artiq_zynq.Base.{ℕ, Bool, List, refl}
use madmax_artiq_zynq.Io.Proto.{ByteOrder}
use madmax_artiq_zynq.Io.Proto.Trip.{seq, final, u8, u16, u32, u64, bool, exact, pure_lem}
use madmax_artiq_zynq.Drtioaux.Packet.{
  echo_request, echo_reply, reset_request, reset_ack, tsc_ack, destination_status_request,
  destination_down_reply, destination_ok_reply, destination_sequence_error_reply,
  destination_collision_reply, destination_busy_reply, routing_set_path, routing_set_rank,
  routing_ack, monitor_request, monitor_reply, injection_request, injection_status_request,
  injection_status_reply, i2c_start_request, i2c_restart_request, i2c_stop_request,
  i2c_write_request, i2c_write_reply, i2c_read_request, i2c_read_reply, i2c_basic_reply,
  i2c_switch_select_request, spi_set_config_request, spi_write_request, spi_read_request,
  spi_read_reply, spi_basic_reply,
}
use madmax_artiq_zynq.Drtioaux.Valid.{IsValid, on_wire}
use madmax_artiq_zynq.Drtioaux.Read.Board.{read_link}
use madmax_artiq_zynq.Drtioaux.Write.{write_to}
use madmax_artiq_zynq.Drtioaux.RoundTrip.Fields.{Encodes, arm, bare}

module _ ⦃e : ByteOrder⦄ where
  pub echo_request_lem : Encodes echo_request
  unfolding read_link write_to on_wire
  echo_request_lem = bare 0x00 refl refl refl

  pub echo_reply_lem : Encodes echo_reply
  unfolding read_link write_to on_wire
  echo_reply_lem = bare 0x01 refl refl refl

  pub reset_request_lem : Encodes reset_request
  unfolding read_link write_to on_wire
  reset_request_lem = bare 0x02 refl refl refl

  pub reset_ack_lem : Encodes reset_ack
  unfolding read_link write_to on_wire
  reset_ack_lem = bare 0x03 refl refl refl

  pub tsc_ack_lem : Encodes tsc_ack
  unfolding read_link write_to on_wire
  tsc_ack_lem = bare 0x04 refl refl refl

  pub destination_status_request_lem :
      (destination : ℕ) → Encodes (destination_status_request destination)
  unfolding read_link write_to on_wire
  destination_status_request_lem destination =
      arm 0x20 refl refl (final _ (u8 destination) (pure_lem _)) refl

  pub destination_down_reply_lem : Encodes destination_down_reply
  unfolding read_link write_to on_wire
  destination_down_reply_lem = bare 0x21 refl refl refl

  pub destination_ok_reply_lem : Encodes destination_ok_reply
  unfolding read_link write_to on_wire
  destination_ok_reply_lem = bare 0x22 refl refl refl

  pub destination_sequence_error_reply_lem :
      (channel : ℕ)
      → IsValid (destination_sequence_error_reply channel)
      → Encodes (destination_sequence_error_reply channel)
  unfolding read_link write_to on_wire
  destination_sequence_error_reply_lem channel h =
      arm 0x23 refl refl (final _ (u16 channel h) (pure_lem _)) refl

  pub destination_collision_reply_lem :
      (channel : ℕ)
      → IsValid (destination_collision_reply channel)
      → Encodes (destination_collision_reply channel)
  unfolding read_link write_to on_wire
  destination_collision_reply_lem channel h =
      arm 0x24 refl refl (final _ (u16 channel h) (pure_lem _)) refl

  pub destination_busy_reply_lem :
      (channel : ℕ)
      → IsValid (destination_busy_reply channel)
      → Encodes (destination_busy_reply channel)
  unfolding read_link write_to on_wire
  destination_busy_reply_lem channel h =
      arm 0x25 refl refl (final _ (u16 channel h) (pure_lem _)) refl

  pub routing_set_path_lem :
      (destination : ℕ) (hops : List ℕ)
      → IsValid (routing_set_path destination hops)
      → Encodes (routing_set_path destination hops)
  unfolding read_link write_to on_wire
  routing_set_path_lem destination hops h =
      arm 0x30 refl refl (seq _ (u8 destination) (final _ (exact 32 hops h) (pure_lem _))) refl

  pub routing_set_rank_lem : (rank : ℕ) → Encodes (routing_set_rank rank)
  unfolding read_link write_to on_wire
  routing_set_rank_lem rank = arm 0x31 refl refl (final _ (u8 rank) (pure_lem _)) refl

  pub routing_ack_lem : Encodes routing_ack
  unfolding read_link write_to on_wire
  routing_ack_lem = bare 0x32 refl refl refl

  pub monitor_request_lem :
      (destination channel probe : ℕ)
      → IsValid (monitor_request destination channel probe)
      → Encodes (monitor_request destination channel probe)
  unfolding read_link write_to on_wire
  monitor_request_lem destination channel probe h =
      arm 0x40 refl refl
        (seq _ (u8 destination) (seq _ (u16 channel h) (final _ (u8 probe) (pure_lem _)))) refl

  pub monitor_reply_lem :
      (value : ℕ) → IsValid (monitor_reply value) → Encodes (monitor_reply value)
  unfolding read_link write_to on_wire
  monitor_reply_lem value h = arm 0x41 refl refl (final _ (u64 value h) (pure_lem _)) refl

  pub injection_request_lem :
      (destination channel overrd value : ℕ)
      → IsValid (injection_request destination channel overrd value)
      → Encodes (injection_request destination channel overrd value)
  unfolding read_link write_to on_wire
  injection_request_lem destination channel overrd value h =
      arm 0x50 refl refl
        (seq _ (u8 destination)
          (seq _ (u16 channel h) (seq _ (u8 overrd) (final _ (u8 value) (pure_lem _)))))
        refl

  pub injection_status_request_lem :
      (destination channel overrd : ℕ)
      → IsValid (injection_status_request destination channel overrd)
      → Encodes (injection_status_request destination channel overrd)
  unfolding read_link write_to on_wire
  injection_status_request_lem destination channel overrd h =
      arm 0x51 refl refl
        (seq _ (u8 destination) (seq _ (u16 channel h) (final _ (u8 overrd) (pure_lem _)))) refl

  pub injection_status_reply_lem : (value : ℕ) → Encodes (injection_status_reply value)
  unfolding read_link write_to on_wire
  injection_status_reply_lem value = arm 0x52 refl refl (final _ (u8 value) (pure_lem _)) refl

  pub i2c_start_request_lem :
      (destination busno : ℕ) → Encodes (i2c_start_request destination busno)
  unfolding read_link write_to on_wire
  i2c_start_request_lem destination busno =
      arm 0x80 refl refl (seq _ (u8 destination) (final _ (u8 busno) (pure_lem _))) refl

  pub i2c_restart_request_lem :
      (destination busno : ℕ) → Encodes (i2c_restart_request destination busno)
  unfolding read_link write_to on_wire
  i2c_restart_request_lem destination busno =
      arm 0x81 refl refl (seq _ (u8 destination) (final _ (u8 busno) (pure_lem _))) refl

  pub i2c_stop_request_lem : (destination busno : ℕ) → Encodes (i2c_stop_request destination busno)
  unfolding read_link write_to on_wire
  i2c_stop_request_lem destination busno =
      arm 0x82 refl refl (seq _ (u8 destination) (final _ (u8 busno) (pure_lem _))) refl

  pub i2c_write_request_lem :
      (destination busno data_byte : ℕ) → Encodes (i2c_write_request destination busno data_byte)
  unfolding read_link write_to on_wire
  i2c_write_request_lem destination busno data_byte =
      arm 0x83 refl refl
        (seq _ (u8 destination) (seq _ (u8 busno) (final _ (u8 data_byte) (pure_lem _)))) refl

  pub i2c_write_reply_lem : (succeeded ack : Bool) → Encodes (i2c_write_reply succeeded ack)
  unfolding read_link write_to on_wire
  i2c_write_reply_lem succeeded ack =
      arm 0x84 refl refl (seq _ (bool succeeded) (final _ (bool ack) (pure_lem _))) refl

  pub i2c_read_request_lem :
      (destination busno : ℕ) (ack : Bool) → Encodes (i2c_read_request destination busno ack)
  unfolding read_link write_to on_wire
  i2c_read_request_lem destination busno ack =
      arm 0x85 refl refl
        (seq _ (u8 destination) (seq _ (u8 busno) (final _ (bool ack) (pure_lem _)))) refl

  pub i2c_read_reply_lem :
      (succeeded : Bool) (data_byte : ℕ) → Encodes (i2c_read_reply succeeded data_byte)
  unfolding read_link write_to on_wire
  i2c_read_reply_lem succeeded data_byte =
      arm 0x86 refl refl (seq _ (bool succeeded) (final _ (u8 data_byte) (pure_lem _))) refl

  pub i2c_basic_reply_lem : (succeeded : Bool) → Encodes (i2c_basic_reply succeeded)
  unfolding read_link write_to on_wire
  i2c_basic_reply_lem succeeded = arm 0x87 refl refl (final _ (bool succeeded) (pure_lem _)) refl

  pub i2c_switch_select_request_lem :
      (destination busno address mask : ℕ)
      → Encodes (i2c_switch_select_request destination busno address mask)
  unfolding read_link write_to on_wire
  i2c_switch_select_request_lem destination busno address mask =
      arm 0x88 refl refl
        (seq _ (u8 destination)
          (seq _ (u8 busno) (seq _ (u8 address) (final _ (u8 mask) (pure_lem _)))))
        refl

  pub spi_set_config_request_lem :
      (destination busno flags len div cs : ℕ)
      → Encodes (spi_set_config_request destination busno flags len div cs)
  unfolding read_link write_to on_wire
  spi_set_config_request_lem destination busno flags len div cs =
      arm 0x90 refl refl
        (seq _ (u8 destination) (
          seq _ (u8 busno)
            (seq _ (u8 flags) (seq _ (u8 len) (seq _ (u8 div) (final _ (u8 cs) (pure_lem _)))))))
        refl

  pub spi_write_request_lem :
      (destination busno data_word : ℕ)
      → IsValid (spi_write_request destination busno data_word)
      → Encodes (spi_write_request destination busno data_word)
  unfolding read_link write_to on_wire
  spi_write_request_lem destination busno data_word h =
      arm 0x92 refl refl
        (seq _ (u8 destination) (seq _ (u8 busno) (final _ (u32 data_word h) (pure_lem _)))) refl

  pub spi_read_request_lem : (destination busno : ℕ) → Encodes (spi_read_request destination busno)
  unfolding read_link write_to on_wire
  spi_read_request_lem destination busno =
      arm 0x93 refl refl (seq _ (u8 destination) (final _ (u8 busno) (pure_lem _))) refl

  pub spi_read_reply_lem :
      (succeeded : Bool) (data_word : ℕ)
      → IsValid (spi_read_reply succeeded data_word)
      → Encodes (spi_read_reply succeeded data_word)
  unfolding read_link write_to on_wire
  spi_read_reply_lem succeeded data_word h =
      arm 0x94 refl refl (seq _ (bool succeeded) (final _ (u32 data_word h) (pure_lem _))) refl

  pub spi_basic_reply_lem : (succeeded : Bool) → Encodes (spi_basic_reply succeeded)
  unfolding read_link write_to on_wire
  spi_basic_reply_lem succeeded = arm 0x95 refl refl (final _ (bool succeeded) (pure_lem _)) refl
