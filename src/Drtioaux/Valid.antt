-- ===== src/Drtioaux/Valid.antt =====
-- src/libboard_artiq/src/drtioaux_proto.rs: the packets that the field types allow, and what of a
-- packet survives the wire.
pub mod Wire
use madmax_artiq_zynq.Base.{ℕ, ◌-◌, ◌^◌, ◌≤◌, ◌<◌, ◌≡◌, List, ◌++◌, All, length, take, replicate}
use madmax_artiq_zynq.Drtioaux.Payload.{
  sat_payload_max_size, master_payload_max_size, cxp_payload_max_size, cxp_payload_max_size_u64,
}
use madmax_artiq_zynq.Drtioaux.Packet.{
  Packet, destination_sequence_error_reply, destination_collision_reply, destination_busy_reply,
  routing_set_path, monitor_request, monitor_reply, injection_request, injection_status_request,
  spi_write_request, spi_read_reply, analyzer_header, analyzer_data, dma_add_trace_request,
  dma_add_trace_reply, dma_remove_trace_request, dma_playback_request, dma_playback_status,
  subkernel_add_data_request, subkernel_load_run_request, subkernel_finished, subkernel_exception,
  subkernel_message, core_mgmt_config_read_request, core_mgmt_config_write_request,
  core_mgmt_config_remove_request, core_mgmt_flash_request, core_mgmt_flash_add_data_request,
  core_mgmt_get_log_reply, core_mgmt_config_read_reply, cxp_error, cxp_read_request, cxp_read_reply,
  cxp_write32_request, cxp_roi_viewer_setup_request, cxp_roi_viewer_pixel_data_reply,
  cxp_roi_viewer_frame_data_reply,
}

abbrev pub IsU16 : ℕ → Type 0
IsU16 v = v < 2 ^ 16

abbrev pub IsU32 : ℕ → Type 0
IsU32 v = v < 2 ^ 32

abbrev pub IsU64 : ℕ → Type 0
IsU64 v = v < 2 ^ 64

-- An array of `size` bytes of which `len` are in use.
abbrev pub IsPayload : ℕ → ℕ → List ℕ → Type 0
IsPayload size len payload = (length payload ≡ size) × (len ≤ size)

-- The fields are in the range of their types (a byte needs no bound on the wire), arrays have their
-- size, and lengths do not exceed it.
abbrev pub IsValid : Packet → Type 0
IsValid (destination_sequence_error_reply channel) = IsU16 channel
IsValid (destination_collision_reply channel) = IsU16 channel
IsValid (destination_busy_reply channel) = IsU16 channel
IsValid (routing_set_path _ hops) = (length hops ≡ 32)
IsValid (monitor_request _ channel _) = IsU16 channel
IsValid (monitor_reply value) = IsU64 value
IsValid (injection_request _ channel _ _) = IsU16 channel
IsValid (injection_status_request _ channel _) = IsU16 channel
IsValid (spi_write_request _ _ data_word) = IsU32 data_word
IsValid (spi_read_reply _ data_word) = IsU32 data_word
IsValid (analyzer_header sent_bytes total_byte_count _) =
    (IsU32 sent_bytes) × (IsU64 total_byte_count)
IsValid (analyzer_data _ len payload) = (IsU16 len) × (IsPayload sat_payload_max_size len payload)
IsValid (dma_add_trace_request _ _ id _ len trace) =
    (IsU32 id) × (IsU16 len) × (IsPayload master_payload_max_size len trace)
IsValid (dma_add_trace_reply _ _ id _) = IsU32 id
IsValid (dma_remove_trace_request _ _ id) = IsU32 id
IsValid (dma_playback_request _ _ id timestamp) = (IsU32 id) × (IsU64 timestamp)
IsValid (dma_playback_status _ _ id _ channel timestamp) =
    (IsU32 id) × (IsU32 channel) × (IsU64 timestamp)
IsValid (subkernel_add_data_request _ id _ len payload) =
    (IsU32 id) × (IsU16 len) × (IsPayload master_payload_max_size len payload)
IsValid (subkernel_load_run_request _ _ id _ timestamp) = (IsU32 id) × (IsU64 timestamp)
IsValid (subkernel_finished _ id _ _) = IsU32 id
IsValid (subkernel_exception _ _ len payload) =
    (IsU16 len) × (IsPayload master_payload_max_size len payload)
IsValid (subkernel_message _ _ id _ len payload) =
    (IsU32 id) × (IsU16 len) × (IsPayload master_payload_max_size len payload)
IsValid (core_mgmt_config_read_request _ len key) =
    (IsU16 len) × (IsPayload master_payload_max_size len key)
IsValid (core_mgmt_config_write_request _ _ len payload) =
    (IsU16 len) × (IsPayload master_payload_max_size len payload)
IsValid (core_mgmt_config_remove_request _ len key) =
    (IsU16 len) × (IsPayload master_payload_max_size len key)
IsValid (core_mgmt_flash_request _ payload_length) = IsU32 payload_length
IsValid (core_mgmt_flash_add_data_request _ _ len payload) =
    (IsU16 len) × (IsPayload master_payload_max_size len payload)
IsValid (core_mgmt_get_log_reply _ len payload) =
    (IsU16 len) × (IsPayload sat_payload_max_size len payload)
IsValid (core_mgmt_config_read_reply _ len value) =
    (IsU16 len) × (IsPayload sat_payload_max_size len value)
IsValid (cxp_error len message) = (IsU16 len) × (IsPayload cxp_payload_max_size len message)
IsValid (cxp_read_request _ address len) = (IsU32 address) × (IsU16 len)
IsValid (cxp_read_reply len payload) = (IsU16 len) × (IsPayload cxp_payload_max_size len payload)
IsValid (cxp_write32_request _ address value) = (IsU32 address) × (IsU32 value)
IsValid (cxp_roi_viewer_setup_request _ x0 y0 x1 y1) =
    (IsU16 x0) × (IsU16 y0) × (IsU16 x1) × (IsU16 y1)
IsValid (cxp_roi_viewer_pixel_data_reply len payload) =
    (IsU16 len) × (IsPayload cxp_payload_max_size_u64 len payload) × (All IsU64 payload)
IsValid (cxp_roi_viewer_frame_data_reply width height pixel_code) =
    (IsU16 width) × (IsU16 height) × (IsU16 pixel_code)
IsValid _ = Unit {0}

-- The receiver gets an array whose unused elements are zero.
unfoldable pub settle : ℕ → ℕ → List ℕ → List ℕ
settle size len payload = take len payload ++ replicate (size - len) 0

-- A packet as it arrives: the elements of an array behind its length are not sent.
unfoldable pub on_wire : Packet → Packet
on_wire (analyzer_data last len payload) =
    analyzer_data last len (settle sat_payload_max_size len payload)
on_wire (dma_add_trace_request source destination id status len trace) =
    dma_add_trace_request source destination id status len
      (settle master_payload_max_size len trace)
on_wire (subkernel_add_data_request destination id status len payload) =
    subkernel_add_data_request destination id status len
      (settle master_payload_max_size len payload)
on_wire (subkernel_exception destination last len payload) =
    subkernel_exception destination last len (settle master_payload_max_size len payload)
on_wire (subkernel_message source destination id status len payload) =
    subkernel_message source destination id status len (settle master_payload_max_size len payload)
on_wire (core_mgmt_config_read_request destination len key) =
    core_mgmt_config_read_request destination len (settle master_payload_max_size len key)
on_wire (core_mgmt_config_write_request destination last len payload) =
    core_mgmt_config_write_request destination last len (settle master_payload_max_size len payload)
on_wire (core_mgmt_config_remove_request destination len key) =
    core_mgmt_config_remove_request destination len (settle master_payload_max_size len key)
on_wire (core_mgmt_flash_add_data_request destination last len payload) =
    core_mgmt_flash_add_data_request destination last len
      (settle master_payload_max_size len payload)
on_wire (core_mgmt_get_log_reply last len payload) =
    core_mgmt_get_log_reply last len (settle sat_payload_max_size len payload)
on_wire (core_mgmt_config_read_reply last len value) =
    core_mgmt_config_read_reply last len (settle sat_payload_max_size len value)
on_wire (cxp_error len message) = cxp_error len (settle cxp_payload_max_size len message)
on_wire (cxp_read_reply len payload) = cxp_read_reply len (settle cxp_payload_max_size len payload)
on_wire (cxp_roi_viewer_pixel_data_reply len payload) =
    cxp_roi_viewer_pixel_data_reply len (settle cxp_payload_max_size_u64 len payload)
on_wire p = p
