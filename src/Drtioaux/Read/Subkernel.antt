-- ===== src/Drtioaux/Read/Subkernel.antt =====
-- src/libboard_artiq/src/drtioaux_proto.rs: `read_from` on the tags of the packets of these groups:
-- subkernel. A tag of no group before goes on to the next.
use madmax_artiq_zynq.Base.{ℕ, Option, some, ◌==◌, if◌then◌else◌}
use madmax_artiq_zynq.Io.Proto.{
  ByteOrder, Reader, ◌>>=◌, pure, lift, read_u8, read_u16, read_u32, read_u64, read_bool,
}
use madmax_artiq_zynq.Drtioaux.Payload.{from_u8, read_status, read_payload, master_payload_max_size}
use madmax_artiq_zynq.Drtioaux.Packet.{
  Packet, subkernel_add_data_request, subkernel_add_data_reply, subkernel_load_run_request,
  subkernel_load_run_reply, subkernel_finished, subkernel_exception_request, subkernel_exception,
  subkernel_message, subkernel_message_ack,
}
use madmax_artiq_zynq.Drtioaux.Read.Mgmt.{read_core_mgmt}

module _ ⦃e : ByteOrder⦄ where
  unfoldable pub read_subkernel : ℕ → Option (Reader Packet)
  unfolding read_core_mgmt
  read_subkernel ty =
      if ty == 0xc0
      then some (do
        destination ← read_u8
        id ← read_u32
        status ← read_status
        len ← read_u16
        payload ← read_payload master_payload_max_size len
        pure (subkernel_add_data_request destination id status len payload))
      else if ty == 0xc1
      then some (do succeeded ← read_bool; pure (subkernel_add_data_reply succeeded))
      else if ty == 0xc4
      then some (do
        source ← read_u8
        destination ← read_u8
        id ← read_u32
        run ← read_bool
        timestamp ← read_u64
        pure (subkernel_load_run_request source destination id run timestamp))
      else if ty == 0xc5
      then some (do
        destination ← read_u8
        succeeded ← read_bool
        pure (subkernel_load_run_reply destination succeeded))
      else if ty == 0xc8
      then some (do
        destination ← read_u8
        id ← read_u32
        with_exception ← read_bool
        exception_src ← read_u8
        pure (subkernel_finished destination id with_exception exception_src))
      else if ty == 0xc9
      then some (do
        source ← read_u8
        destination ← read_u8
        pure (subkernel_exception_request source destination))
      else if ty == 0xca
      then some (do
        destination ← read_u8
        last ← read_bool
        len ← read_u16
        payload ← read_payload master_payload_max_size len
        pure (subkernel_exception destination last len payload))
      else if ty == 0xcb
      then some (do
        source ← read_u8
        destination ← read_u8
        id ← read_u32
        status_byte ← read_u8
        len ← read_u16
        payload ← read_payload master_payload_max_size len
        status ← lift (from_u8 status_byte)
        pure (subkernel_message source destination id status len payload))
      else if ty == 0xcc
      then some (do destination ← read_u8; pure (subkernel_message_ack destination))
      else read_core_mgmt ty
