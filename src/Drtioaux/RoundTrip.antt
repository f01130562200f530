-- ===== src/Drtioaux/RoundTrip.antt =====
-- src/libboard_artiq/src/drtioaux_proto.rs: `read_from` takes back what `write_to` wrote.
pub mod Fields
pub mod Board
pub mod Dma
pub mod Subkernel
pub mod Mgmt
use madmax_artiq_zynq.Base.{ℕ, ◌≤◌, ◌≡◌, List, ◌++◌, length}
use madmax_artiq_zynq.Outcome.{ok}
use madmax_artiq_zynq.Drtioaux.Read.{read_from}
use madmax_artiq_zynq.Drtioaux.Write.{write_to}
use madmax_artiq_zynq.Io.Proto.{ByteOrder}
use madmax_artiq_zynq.Drtioaux.Packet.{
  Packet, echo_request, echo_reply, reset_request, reset_ack, tsc_ack, destination_status_request,
  destination_down_reply, destination_ok_reply, destination_sequence_error_reply,
  destination_collision_reply, destination_busy_reply, routing_set_path, routing_set_rank,
  routing_ack, monitor_request, monitor_reply, injection_request, injection_status_request,
  injection_status_reply, i2c_start_request, i2c_restart_request, i2c_stop_request,
  i2c_write_request, i2c_write_reply, i2c_read_request, i2c_read_reply, i2c_basic_reply,
  i2c_switch_select_request, spi_set_config_request, spi_write_request, spi_read_request,
  spi_read_reply, spi_basic_reply, analyzer_header_request, analyzer_header, analyzer_data_request,
  analyzer_data, dma_add_trace_request, dma_add_trace_reply, dma_remove_trace_request,
  dma_remove_trace_reply, dma_playback_request, dma_playback_reply, dma_playback_status,
  subkernel_add_data_request, subkernel_add_data_reply, subkernel_load_run_request,
  subkernel_load_run_reply, subkernel_finished, subkernel_exception_request, subkernel_exception,
  subkernel_message, subkernel_message_ack, core_mgmt_get_log_request, core_mgmt_clear_log_request,
  core_mgmt_config_read_request, core_mgmt_config_read_continue, core_mgmt_config_write_request,
  core_mgmt_config_remove_request, core_mgmt_config_erase_request, core_mgmt_reboot_request,
  core_mgmt_allocator_debug_request, core_mgmt_flash_request, core_mgmt_flash_add_data_request,
  core_mgmt_drop_link_ack, core_mgmt_drop_link, core_mgmt_get_log_reply,
  core_mgmt_config_read_reply, core_mgmt_reply, cxp_error, cxp_wait_reply, cxp_read_request,
  cxp_read_reply, cxp_write32_request, cxp_write32_reply, cxp_roi_viewer_setup_request,
  cxp_roi_viewer_setup_reply, cxp_roi_viewer_data_request, cxp_roi_viewer_pixel_data_reply,
  cxp_roi_viewer_frame_data_reply,
}
use madmax_artiq_zynq.Drtioaux.Valid.{IsValid, on_wire}
use Fields.{Encodes}
use Board.{
  echo_request_lem, echo_reply_lem, reset_request_lem, reset_ack_lem, tsc_ack_lem,
  destination_status_request_lem, destination_down_reply_lem, destination_ok_reply_lem,
  destination_sequence_error_reply_lem, destination_collision_reply_lem, destination_busy_reply_lem,
  routing_set_path_lem, routing_set_rank_lem, routing_ack_lem, monitor_request_lem,
  monitor_reply_lem, injection_request_lem, injection_status_request_lem,
  injection_status_reply_lem, i2c_start_request_lem, i2c_restart_request_lem, i2c_stop_request_lem,
  i2c_write_request_lem, i2c_write_reply_lem, i2c_read_request_lem, i2c_read_reply_lem,
  i2c_basic_reply_lem, i2c_switch_select_request_lem, spi_set_config_request_lem,
  spi_write_request_lem, spi_read_request_lem, spi_read_reply_lem, spi_basic_reply_lem,
}
use Dma.{
  analyzer_header_request_lem, analyzer_header_lem, analyzer_data_request_lem, analyzer_data_lem,
  dma_add_trace_request_lem, dma_add_trace_reply_lem, dma_remove_trace_request_lem,
  dma_remove_trace_reply_lem, dma_playback_request_lem, dma_playback_reply_lem,
  dma_playback_status_lem,
}
use Subkernel.{
  subkernel_add_data_request_lem, subkernel_add_data_reply_lem, subkernel_load_run_request_lem,
  subkernel_load_run_reply_lem, subkernel_finished_lem, subkernel_exception_request_lem,
  subkernel_exception_lem, subkernel_message_lem, subkernel_message_ack_lem,
}
use Mgmt.{
  core_mgmt_get_log_request_lem, core_mgmt_clear_log_request_lem, core_mgmt_config_read_request_lem,
  core_mgmt_config_read_continue_lem, core_mgmt_config_write_request_lem,
  core_mgmt_config_remove_request_lem, core_mgmt_config_erase_request_lem,
  core_mgmt_reboot_request_lem, core_mgmt_allocator_debug_request_lem, core_mgmt_flash_request_lem,
  core_mgmt_flash_add_data_request_lem, core_mgmt_drop_link_ack_lem, core_mgmt_drop_link_lem,
  core_mgmt_get_log_reply_lem, core_mgmt_config_read_reply_lem, core_mgmt_reply_lem, cxp_error_lem,
  cxp_wait_reply_lem, cxp_read_request_lem, cxp_read_reply_lem, cxp_write32_request_lem,
  cxp_write32_reply_lem, cxp_roi_viewer_setup_request_lem, cxp_roi_viewer_setup_reply_lem,
  cxp_roi_viewer_data_request_lem, cxp_roi_viewer_pixel_data_reply_lem,
  cxp_roi_viewer_frame_data_reply_lem,
}

module _ ⦃e : ByteOrder⦄ where
  -- The lemma of each packet.
  pub encodes : (p : Packet) → IsValid p → Encodes p
  encodes echo_request h = echo_request_lem
  encodes echo_reply h = echo_reply_lem
  encodes reset_request h = reset_request_lem
  encodes reset_ack h = reset_ack_lem
  encodes tsc_ack h = tsc_ack_lem
  encodes (destination_status_request destination) h = destination_status_request_lem destination
  encodes destination_down_reply h = destination_down_reply_lem
  encodes destination_ok_reply h = destination_ok_reply_lem
  encodes (destination_sequence_error_reply channel) h =
      destination_sequence_error_reply_lem channel h
  encodes (destination_collision_reply channel) h = destination_collision_reply_lem channel h
  encodes (destination_busy_reply channel) h = destination_busy_reply_lem channel h
  encodes (routing_set_path destination hops) h = routing_set_path_lem destination hops h
  encodes (routing_set_rank rank) h = routing_set_rank_lem rank
  encodes routing_ack h = routing_ack_lem
  encodes (monitor_request destination channel probe) h =
      monitor_request_lem destination channel probe h
  encodes (monitor_reply value) h = monitor_reply_lem value h
  encodes (injection_request destination channel overrd value) h =
      injection_request_lem destination channel overrd value h
  encodes (injection_status_request destination channel overrd) h =
      injection_status_request_lem destination channel overrd h
  encodes (injection_status_reply value) h = injection_status_reply_lem value
  encodes (i2c_start_request destination busno) h = i2c_start_request_lem destination busno
  encodes (i2c_restart_request destination busno) h = i2c_restart_request_lem destination busno
  encodes (i2c_stop_request destination busno) h = i2c_stop_request_lem destination busno
  encodes (i2c_write_request destination busno data_byte) h =
      i2c_write_request_lem destination busno data_byte
  encodes (i2c_write_reply succeeded ack) h = i2c_write_reply_lem succeeded ack
  encodes (i2c_read_request destination busno ack) h = i2c_read_request_lem destination busno ack
  encodes (i2c_read_reply succeeded data_byte) h = i2c_read_reply_lem succeeded data_byte
  encodes (i2c_basic_reply succeeded) h = i2c_basic_reply_lem succeeded
  encodes (i2c_switch_select_request destination busno address mask) h =
      i2c_switch_select_request_lem destination busno address mask
  encodes (spi_set_config_request destination busno flags len div cs) h =
      spi_set_config_request_lem destination busno flags len div cs
  encodes (spi_write_request destination busno data_word) h =
      spi_write_request_lem destination busno data_word h
  encodes (spi_read_request destination busno) h = spi_read_request_lem destination busno
  encodes (spi_read_reply succeeded data_word) h = spi_read_reply_lem succeeded data_word h
  encodes (spi_basic_reply succeeded) h = spi_basic_reply_lem succeeded
  encodes (analyzer_header_request destination) h = analyzer_header_request_lem destination
  encodes (analyzer_header sent_bytes total_byte_count overflow_occurred) h =
      analyzer_header_lem sent_bytes total_byte_count overflow_occurred h
  encodes (analyzer_data_request destination) h = analyzer_data_request_lem destination
  encodes (analyzer_data last len payload) h = analyzer_data_lem last len payload h
  encodes (dma_add_trace_request source destination id status len trace) h =
      dma_add_trace_request_lem source destination id status len trace h
  encodes (dma_add_trace_reply source destination id succeeded) h =
      dma_add_trace_reply_lem source destination id succeeded h
  encodes (dma_remove_trace_request source destination id) h =
      dma_remove_trace_request_lem source destination id h
  encodes (dma_remove_trace_reply destination succeeded) h =
      dma_remove_trace_reply_lem destination succeeded
  encodes (dma_playback_request source destination id timestamp) h =
      dma_playback_request_lem source destination id timestamp h
  encodes (dma_playback_reply destination succeeded) h =
      dma_playback_reply_lem destination succeeded
  encodes (dma_playback_status source destination id error channel timestamp) h =
      dma_playback_status_lem source destination id error channel timestamp h
  encodes (subkernel_add_data_request destination id status len payload) h =
      subkernel_add_data_request_lem destination id status len payload h
  encodes (subkernel_add_data_reply succeeded) h = subkernel_add_data_reply_lem succeeded
  encodes (subkernel_load_run_request source destination id run timestamp) h =
      subkernel_load_run_request_lem source destination id run timestamp h
  encodes (subkernel_load_run_reply destination succeeded) h =
      subkernel_load_run_reply_lem destination succeeded
  encodes (subkernel_finished destination id with_exception exception_src) h =
      subkernel_finished_lem destination id with_exception exception_src h
  encodes (subkernel_exception_request source destination) h =
      subkernel_exception_request_lem source destination
  encodes (subkernel_exception destination last len payload) h =
      subkernel_exception_lem destination last len payload h
  encodes (subkernel_message source destination id status len payload) h =
      subkernel_message_lem source destination id status len payload h
  encodes (subkernel_message_ack destination) h = subkernel_message_ack_lem destination
  encodes (core_mgmt_get_log_request destination clear) h =
      core_mgmt_get_log_request_lem destination clear
  encodes (core_mgmt_clear_log_request destination) h = core_mgmt_clear_log_request_lem destination
  encodes (core_mgmt_config_read_request destination len key) h =
      core_mgmt_config_read_request_lem destination len key h
  encodes (core_mgmt_config_read_continue destination) h =
      core_mgmt_config_read_continue_lem destination
  encodes (core_mgmt_config_write_request destination last len payload) h =
      core_mgmt_config_write_request_lem destination last len payload h
  encodes (core_mgmt_config_remove_request destination len key) h =
      core_mgmt_config_remove_request_lem destination len key h
  encodes (core_mgmt_config_erase_request destination) h =
      core_mgmt_config_erase_request_lem destination
  encodes (core_mgmt_reboot_request destination) h = core_mgmt_reboot_request_lem destination
  encodes (core_mgmt_allocator_debug_request destination) h =
      core_mgmt_allocator_debug_request_lem destination
  encodes (core_mgmt_flash_request destination payload_length) h =
      core_mgmt_flash_request_lem destination payload_length h
  encodes (core_mgmt_flash_add_data_request destination last len payload) h =
      core_mgmt_flash_add_data_request_lem destination last len payload h
  encodes (core_mgmt_drop_link_ack destination) h = core_mgmt_drop_link_ack_lem destination
  encodes core_mgmt_drop_link h = core_mgmt_drop_link_lem
  encodes (core_mgmt_get_log_reply last len payload) h =
      core_mgmt_get_log_reply_lem last len payload h
  encodes (core_mgmt_config_read_reply last len value) h =
      core_mgmt_config_read_reply_lem last len value h
  encodes (core_mgmt_reply succeeded) h = core_mgmt_reply_lem succeeded
  encodes (cxp_error len message) h = cxp_error_lem len message h
  encodes cxp_wait_reply h = cxp_wait_reply_lem
  encodes (cxp_read_request destination address len) h =
      cxp_read_request_lem destination address len h
  encodes (cxp_read_reply len payload) h = cxp_read_reply_lem len payload h
  encodes (cxp_write32_request destination address value) h =
      cxp_write32_request_lem destination address value h
  encodes cxp_write32_reply h = cxp_write32_reply_lem
  encodes (cxp_roi_viewer_setup_request destination x0 y0 x1 y1) h =
      cxp_roi_viewer_setup_request_lem destination x0 y0 x1 y1 h
  encodes cxp_roi_viewer_setup_reply h = cxp_roi_viewer_setup_reply_lem
  encodes (cxp_roi_viewer_data_request destination) h = cxp_roi_viewer_data_request_lem destination
  encodes (cxp_roi_viewer_pixel_data_reply len payload) h =
      cxp_roi_viewer_pixel_data_reply_lem len payload h
  encodes (cxp_roi_viewer_frame_data_reply width height pixel_code) h =
      cxp_roi_viewer_frame_data_reply_lem width height pixel_code h

  -- Every valid packet can be written, in at most 1020 bytes, and from any source that begins with those
  -- bytes the packet is read back as it is on the wire (the unused part of its array cleared), with what
  -- follows left to be read.
  pub read_from-write_to :
      (p : Packet) (rest : List ℕ)
      → IsValid p
      → (bytes : List ℕ) × (write_to p ≡ ok bytes)
        × (length bytes ≤ 1020)
        × (read_from (bytes ++ rest) ≡ ok (on_wire p, rest))
  read_from-write_to p rest h = let t = encodes p h in (t.bytes, t.written, t.short, t.reads rest)
