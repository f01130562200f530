-- ===== src/Drtioaux/Write/Subkernel.antt =====
-- src/libboard_artiq/src/drtioaux_proto.rs: `write_to` on the packets of these groups:
-- subkernel. A packet of no group before goes on to the next.
use madmax_artiq_zynq.Io.Proto.{
  ByteOrder, Writer, ◌>>◌, write_u8, write_u16, write_u32, write_u64, write_bool,
}
use madmax_artiq_zynq.Drtioaux.Payload.{write_status, write_payload}
use madmax_artiq_zynq.Drtioaux.Packet.{
  Packet, subkernel_add_data_request, subkernel_add_data_reply, subkernel_load_run_request,
  subkernel_load_run_reply, subkernel_finished, subkernel_exception_request, subkernel_exception,
  subkernel_message, subkernel_message_ack,
}
use madmax_artiq_zynq.Drtioaux.Write.Mgmt.{write_core_mgmt}

module _ ⦃e : ByteOrder⦄ where
  unfoldable pub write_subkernel : Packet → Writer
  unfolding write_core_mgmt
  write_subkernel (subkernel_add_data_request destination id status len payload) = do
    write_u8 0xc0
    write_u8 destination
    write_u32 id
    write_status status
    write_u16 len
    write_payload payload len
  write_subkernel (subkernel_add_data_reply succeeded) = do write_u8 0xc1; write_bool succeeded
  write_subkernel (subkernel_load_run_request source destination id run timestamp) = do
    write_u8 0xc4
    write_u8 source
    write_u8 destination
    write_u32 id
    write_bool run
    write_u64 timestamp
  write_subkernel (subkernel_load_run_reply destination succeeded) = do
    write_u8 0xc5
    write_u8 destination
    write_bool succeeded
  write_subkernel (subkernel_finished destination id with_exception exception_src) = do
    write_u8 0xc8
    write_u8 destination
    write_u32 id
    write_bool with_exception
    write_u8 exception_src
  write_subkernel (subkernel_exception_request source destination) = do
    write_u8 0xc9
    write_u8 source
    write_u8 destination
  write_subkernel (subkernel_exception destination last len payload) = do
    write_u8 0xca
    write_u8 destination
    write_bool last
    write_u16 len
    write_payload payload len
  write_subkernel (subkernel_message source destination id status len payload) = do
    write_u8 0xcb
    write_u8 source
    write_u8 destination
    write_u32 id
    write_status status
    write_u16 len
    write_payload payload len
  write_subkernel (subkernel_message_ack destination) = do write_u8 0xcc; write_u8 destination
  write_subkernel p = write_core_mgmt p
