-- ===== src/Drtioaux/Read/Dma.antt =====
-- src/libboard_artiq/src/drtioaux_proto.rs: `read_from` on the tags of the packets of these groups:
-- analyzer, dma. A tag of no group before goes on to the next.
use madmax_artiq_zynq.Base.{ℕ, Option, some, ◌==◌, if◌then◌else◌}
use madmax_artiq_zynq.Io.Proto.{
  ByteOrder, Reader, ◌>>=◌, pure, lift, read_u8, read_u16, read_u32, read_u64, read_bool,
}
use madmax_artiq_zynq.Drtioaux.Payload.{
  from_u8, read_payload, sat_payload_max_size, master_payload_max_size,
}
use madmax_artiq_zynq.Drtioaux.Packet.{
  Packet, analyzer_header_request, analyzer_header, analyzer_data_request, analyzer_data,
  dma_add_trace_request, dma_add_trace_reply, dma_remove_trace_request, dma_remove_trace_reply,
  dma_playback_request, dma_playback_reply, dma_playback_status,
}
use madmax_artiq_zynq.Drtioaux.Read.Subkernel.{read_subkernel}

module _ ⦃e : ByteOrder⦄ where
  unfoldable pub read_dma : ℕ → Option (Reader Packet)
  unfolding read_subkernel
  read_dma ty =
      if ty == 0xb0
      then some (do
        source ← read_u8
        destination ← read_u8
        id ← read_u32
        status_byte ← read_u8
        len ← read_u16
        trace ← read_payload master_payload_max_size len
        status ← lift (from_u8 status_byte)
        pure (dma_add_trace_request source destination id status len trace))
      else if ty == 0xb1
      then some (do
        source ← read_u8
        destination ← read_u8
        id ← read_u32
        succeeded ← read_bool
        pure (dma_add_trace_reply source destination id succeeded))
      else if ty == 0xb2
      then some (do
        source ← read_u8
        destination ← read_u8
        id ← read_u32
        pure (dma_remove_trace_request source destination id))
      else if ty == 0xb3
      then some (do
        destination ← read_u8
        succeeded ← read_bool
        pure (dma_remove_trace_reply destination succeeded))
      else if ty == 0xb4
      then some (do
        source ← read_u8
        destination ← read_u8
        id ← read_u32
        timestamp ← read_u64
        pure (dma_playback_request source destination id timestamp))
      else if ty == 0xb5
      then some (do
        destination ← read_u8
        succeeded ← read_bool
        pure (dma_playback_reply destination succeeded))
      else if ty == 0xb6
      then some (do
        source ← read_u8
        destination ← read_u8
        id ← read_u32
        error ← read_u8
        channel ← read_u32
        timestamp ← read_u64
        pure (dma_playback_status source destination id error channel timestamp))
      else read_subkernel ty

  unfoldable pub read_analyzer : ℕ → Option (Reader Packet)
  unfolding read_dma
  read_analyzer ty =
      if ty == 0xa0
      then some (do destination ← read_u8; pure (analyzer_header_request destination))
      else if ty == 0xa1
      then some (do
        sent_bytes ← read_u32
        total_byte_count ← read_u64
        overflow_occurred ← read_bool
        pure (analyzer_header sent_bytes total_byte_count overflow_occurred))
      else if ty == 0xa2
      then some (do destination ← read_u8; pure (analyzer_data_request destination))
      else if ty == 0xa3
      then some (do
        last ← read_bool
        len ← read_u16
        payload ← read_payload sat_payload_max_size len
        pure (analyzer_data last len payload))
      else read_dma ty
