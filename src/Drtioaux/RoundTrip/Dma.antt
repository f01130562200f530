-- ===== src/Drtioaux/RoundTrip/Dma.antt =====
-- src/libboard_artiq/src/drtioaux_proto.rs: the round trip of each packet of these groups: analyzer, dma.
use madmax_artiq_zynq.Base.{ℕ, Bool, List, refl}
use madmax_artiq_zynq.Io.Proto.{ByteOrder}
use madmax_artiq_zynq.Io.Proto.Trip.{seq, final, u8, u16, u32, u64, bool, pure_lem}
use madmax_artiq_zynq.Drtioaux.Payload.{PayloadStatus}
use madmax_artiq_zynq.Drtioaux.Packet.{
  analyzer_header_request, analyzer_header, analyzer_data_request, analyzer_data,
  dma_add_trace_request, dma_add_trace_reply, dma_remove_trace_request, dma_remove_trace_reply,
  dma_playback_request, dma_playback_reply, dma_playback_status,
}
use madmax_artiq_zynq.Drtioaux.Valid.{IsValid, on_wire}
use madmax_artiq_zynq.Drtioaux.Read.Board.{read_link}
use madmax_artiq_zynq.Drtioaux.Write.{write_to}
use madmax_artiq_zynq.Drtioaux.RoundTrip.Fields.{
  Encodes, arm, decoded, status_byte, payload as payload_trip,
}

module _ ⦃e : ByteOrder⦄ where
  pub analyzer_header_request_lem :
      (destination : ℕ) → Encodes (analyzer_header_request destination)
  unfolding read_link write_to on_wire
  analyzer_header_request_lem destination =
      arm 0xa0 refl refl (final _ (u8 destination) (pure_lem _)) refl

  pub analyzer_header_lem :
      (sent_bytes total_byte_count : ℕ) (overflow_occurred : Bool)
      → IsValid (analyzer_header sent_bytes total_byte_count overflow_occurred)
      → Encodes (analyzer_header sent_bytes total_byte_count overflow_occurred)
  unfolding read_link write_to on_wire
  analyzer_header_lem sent_bytes total_byte_count overflow_occurred h =
      arm 0xa1 refl refl
        (seq _ (u32 sent_bytes h.0)
          (seq _ (u64 total_byte_count h.1) (final _ (bool overflow_occurred) (pure_lem _))))
        refl

  pub analyzer_data_request_lem : (destination : ℕ) → Encodes (analyzer_data_request destination)
  unfolding read_link write_to on_wire
  analyzer_data_request_lem destination =
      arm 0xa2 refl refl (final _ (u8 destination) (pure_lem _)) refl

  pub analyzer_data_lem :
      (last : Bool) (len : ℕ) (payload : List ℕ)
      → IsValid (analyzer_data last len payload)
      → Encodes (analyzer_data last len payload)
  unfolding read_link write_to on_wire
  analyzer_data_lem last len payload h =
      arm 0xa3 refl refl
        (seq _ (bool last)
          (seq _ (u16 len h.0) (final _ (payload_trip _ len payload h.1) (pure_lem _))))
        refl

  pub dma_add_trace_request_lem :
      (source destination id : ℕ) (status : PayloadStatus) (len : ℕ) (trace : List ℕ)
      → IsValid (dma_add_trace_request source destination id status len trace)
      → Encodes (dma_add_trace_request source destination id status len trace)
  unfolding read_link write_to on_wire
  dma_add_trace_request_lem source destination id status len trace h =
      arm 0xb0 refl refl
        (seq _ (u8 source) (
          seq _ (u8 destination) (
            seq _ (u32 id h.0) (
              seq _ (status_byte status) (
                seq _ (u16 len h.1) (final _ (payload_trip _ len trace h.2) (decoded status _)))))))
        refl

  pub dma_add_trace_reply_lem :
      (source destination id : ℕ) (succeeded : Bool)
      → IsValid (dma_add_trace_reply source destination id succeeded)
      → Encodes (dma_add_trace_reply source destination id succeeded)
  unfolding read_link write_to on_wire
  dma_add_trace_reply_lem source destination id succeeded h =
      arm 0xb1 refl refl
        (seq _ (u8 source)
          (seq _ (u8 destination) (seq _ (u32 id h) (final _ (bool succeeded) (pure_lem _)))))
        refl

  pub dma_remove_trace_request_lem :
      (source destination id : ℕ)
      → IsValid (dma_remove_trace_request source destination id)
      → Encodes (dma_remove_trace_request source destination id)
  unfolding read_link write_to on_wire
  dma_remove_trace_request_lem source destination id h =
      arm 0xb2 refl refl
        (seq _ (u8 source) (seq _ (u8 destination) (final _ (u32 id h) (pure_lem _)))) refl

  pub dma_remove_trace_reply_lem :
      (destination : ℕ) (succeeded : Bool) → Encodes (dma_remove_trace_reply destination succeeded)
  unfolding read_link write_to on_wire
  dma_remove_trace_reply_lem destination succeeded =
      arm 0xb3 refl refl (seq _ (u8 destination) (final _ (bool succeeded) (pure_lem _))) refl

  pub dma_playback_request_lem :
      (source destination id timestamp : ℕ)
      → IsValid (dma_playback_request source destination id timestamp)
      → Encodes (dma_playback_request source destination id timestamp)
  unfolding read_link write_to on_wire
  dma_playback_request_lem source destination id timestamp h =
      arm 0xb4 refl refl
        (seq _ (u8 source)
          (seq _ (u8 destination) (seq _ (u32 id h.0) (final _ (u64 timestamp h.1) (pure_lem _)))))
        refl

  pub dma_playback_reply_lem :
      (destination : ℕ) (succeeded : Bool) → Encodes (dma_playback_reply destination succeeded)
  unfolding read_link write_to on_wire
  dma_playback_reply_lem destination succeeded =
      arm 0xb5 refl refl (seq _ (u8 destination) (final _ (bool succeeded) (pure_lem _))) refl

  pub dma_playback_status_lem :
      (source destination id error channel timestamp : ℕ)
      → IsValid (dma_playback_status source destination id error channel timestamp)
      → Encodes (dma_playback_status source destination id error channel timestamp)
  unfolding read_link write_to on_wire
  dma_playback_status_lem source destination id error channel timestamp h =
      arm 0xb6 refl refl
        (seq _ (u8 source) (
          seq _ (u8 destination) (
            seq _ (u32 id h.0) (
              seq _ (u8 error)
                (seq _ (u32 channel h.1) (final _ (u64 timestamp h.2) (pure_lem _)))))))
        refl
