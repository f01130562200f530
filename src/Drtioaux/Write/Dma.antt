-- ===== src/Drtioaux/Write/Dma.antt =====
-- src/libboard_artiq/src/drtioaux_proto.rs: `write_to` on the packets of these groups:
-- analyzer, dma. A packet of no group before goes on to the next.
use madmax_artiq_zynq.Io.Proto.{
  ByteOrder, Writer, ◌>>◌, write_u8, write_u16, write_u32, write_u64, write_bool,
}
use madmax_artiq_zynq.Drtioaux.Payload.{write_status, write_payload}
use madmax_artiq_zynq.Drtioaux.Packet.{
  Packet, analyzer_header_request, analyzer_header, analyzer_data_request, analyzer_data,
  dma_add_trace_request, dma_add_trace_reply, dma_remove_trace_request, dma_remove_trace_reply,
  dma_playback_request, dma_playback_reply, dma_playback_status,
}
use madmax_artiq_zynq.Drtioaux.Write.Subkernel.{write_subkernel}

module _ ⦃e : ByteOrder⦄ where
  unfoldable pub write_dma : Packet → Writer
  unfolding write_subkernel
  write_dma (dma_add_trace_request source destination id status len trace) = do
    write_u8 0xb0
    write_u8 source
    write_u8 destination
    write_u32 id
    write_status status
    write_u16 len
    write_payload trace len
  write_dma (dma_add_trace_reply source destination id succeeded) = do
    write_u8 0xb1
    write_u8 source
    write_u8 destination
    write_u32 id
    write_bool succeeded
  write_dma (dma_remove_trace_request source destination id) = do
    write_u8 0xb2
    write_u8 source
    write_u8 destination
    write_u32 id
  write_dma (dma_remove_trace_reply destination succeeded) = do
    write_u8 0xb3
    write_u8 destination
    write_bool succeeded
  write_dma (dma_playback_request source destination id timestamp) = do
    write_u8 0xb4
    write_u8 source
    write_u8 destination
    write_u32 id
    write_u64 timestamp
  write_dma (dma_playback_reply destination succeeded) = do
    write_u8 0xb5
    write_u8 destination
    write_bool succeeded
  write_dma (dma_playback_status source destination id error channel timestamp) = do
    write_u8 0xb6
    write_u8 source
    write_u8 destination
    write_u32 id
    write_u8 error
    write_u32 channel
    write_u64 timestamp
  write_dma p = write_subkernel p

  unfoldable pub write_analyzer : Packet → Writer
  unfolding write_dma
  write_analyzer (analyzer_header_request destination) = do write_u8 0xa0; write_u8 destination
  write_analyzer (analyzer_header sent_bytes total_byte_count overflow_occurred) = do
    write_u8 0xa1
    write_u32 sent_bytes
    write_u64 total_byte_count
    write_bool overflow_occurred
  write_analyzer (analyzer_data_request destination) = do write_u8 0xa2; write_u8 destination
  write_analyzer (analyzer_data last len payload) = do
    write_u8 0xa3
    write_bool last
    write_u16 len
    write_payload payload len
  write_analyzer p = write_dma p
