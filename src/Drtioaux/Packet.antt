-- ===== src/Drtioaux/Packet.antt =====
-- src/libboard_artiq/src/drtioaux_proto.rs: the packets of the auxiliary channel. A field is a number
-- below the bound of its type (IsValid states the bounds that matter on the wire), an array the list
-- of its elements.
pub mod Routable
use madmax_artiq_zynq.Base.{ℕ, Bool, List}
use madmax_artiq_zynq.Drtioaux.Payload.{PayloadStatus}

pub data Packet : Type 0 where
  echo_request : Packet
  echo_reply : Packet
  reset_request : Packet
  reset_ack : Packet
  tsc_ack : Packet
  destination_status_request : (destination : ℕ) → Packet
  destination_down_reply : Packet
  destination_ok_reply : Packet
  destination_sequence_error_reply : (channel : ℕ) → Packet
  destination_collision_reply : (channel : ℕ) → Packet
  destination_busy_reply : (channel : ℕ) → Packet
  routing_set_path : (destination : ℕ) (hops : List ℕ) → Packet
  routing_set_rank : (rank : ℕ) → Packet
  routing_ack : Packet
  monitor_request : (destination channel probe : ℕ) → Packet
  monitor_reply : (value : ℕ) → Packet
  injection_request : (destination channel overrd value : ℕ) → Packet
  injection_status_request : (destination channel overrd : ℕ) → Packet
  injection_status_reply : (value : ℕ) → Packet
  i2c_start_request : (destination busno : ℕ) → Packet
  i2c_restart_request : (destination busno : ℕ) → Packet
  i2c_stop_request : (destination busno : ℕ) → Packet
  i2c_write_request : (destination busno data_byte : ℕ) → Packet
  i2c_write_reply : (succeeded ack : Bool) → Packet
  i2c_read_request : (destination busno : ℕ) (ack : Bool) → Packet
  i2c_read_reply : (succeeded : Bool) (data_byte : ℕ) → Packet
  i2c_basic_reply : (succeeded : Bool) → Packet
  i2c_switch_select_request : (destination busno address mask : ℕ) → Packet
  spi_set_config_request : (destination busno flags len div cs : ℕ) → Packet
  spi_write_request : (destination busno data_word : ℕ) → Packet
  spi_read_request : (destination busno : ℕ) → Packet
  spi_read_reply : (succeeded : Bool) (data_word : ℕ) → Packet
  spi_basic_reply : (succeeded : Bool) → Packet
  analyzer_header_request : (destination : ℕ) → Packet
  analyzer_header : (sent_bytes total_byte_count : ℕ) (overflow_occurred : Bool) → Packet
  analyzer_data_request : (destination : ℕ) → Packet
  analyzer_data : (last : Bool) (len : ℕ) (payload : List ℕ) → Packet
  dma_add_trace_request :
      (source destination id : ℕ) (status : PayloadStatus) (len : ℕ) (trace : List ℕ) → Packet
  dma_add_trace_reply : (source destination id : ℕ) (succeeded : Bool) → Packet
  dma_remove_trace_request : (source destination id : ℕ) → Packet
  dma_remove_trace_reply : (destination : ℕ) (succeeded : Bool) → Packet
  dma_playback_request : (source destination id timestamp : ℕ) → Packet
  dma_playback_reply : (destination : ℕ) (succeeded : Bool) → Packet
  dma_playback_status : (source destination id error channel timestamp : ℕ) → Packet
  subkernel_add_data_request :
      (destination id : ℕ) (status : PayloadStatus) (len : ℕ) (payload : List ℕ) → Packet
  subkernel_add_data_reply : (succeeded : Bool) → Packet
  subkernel_load_run_request : (source destination id : ℕ) (run : Bool) (timestamp : ℕ) → Packet
  subkernel_load_run_reply : (destination : ℕ) (succeeded : Bool) → Packet
  subkernel_finished : (destination id : ℕ) (with_exception : Bool) (exception_src : ℕ) → Packet
  subkernel_exception_request : (source destination : ℕ) → Packet
  subkernel_exception : (destination : ℕ) (last : Bool) (len : ℕ) (payload : List ℕ) → Packet
  subkernel_message :
      (source destination id : ℕ) (status : PayloadStatus) (len : ℕ) (payload : List ℕ) → Packet
  subkernel_message_ack : (destination : ℕ) → Packet
  core_mgmt_get_log_request : (destination : ℕ) (clear : Bool) → Packet
  core_mgmt_clear_log_request : (destination : ℕ) → Packet
  core_mgmt_config_read_request : (destination len : ℕ) (key : List ℕ) → Packet
  core_mgmt_config_read_continue : (destination : ℕ) → Packet
  core_mgmt_config_write_request :
      (destination : ℕ) (last : Bool) (len : ℕ) (payload : List ℕ) → Packet
  core_mgmt_config_remove_request : (destination len : ℕ) (key : List ℕ) → Packet
  core_mgmt_config_erase_request : (destination : ℕ) → Packet
  core_mgmt_reboot_request : (destination : ℕ) → Packet
  core_mgmt_allocator_debug_request : (destination : ℕ) → Packet
  core_mgmt_flash_request : (destination payload_length : ℕ) → Packet
  core_mgmt_flash_add_data_request :
      (destination : ℕ) (last : Bool) (len : ℕ) (payload : List ℕ) → Packet
  core_mgmt_drop_link_ack : (destination : ℕ) → Packet
  core_mgmt_drop_link : Packet
  core_mgmt_get_log_reply : (last : Bool) (len : ℕ) (payload : List ℕ) → Packet
  core_mgmt_config_read_reply : (last : Bool) (len : ℕ) (value : List ℕ) → Packet
  core_mgmt_reply : (succeeded : Bool) → Packet
  cxp_error : (len : ℕ) (message : List ℕ) → Packet
  cxp_wait_reply : Packet
  cxp_read_request : (destination address len : ℕ) → Packet
  cxp_read_reply : (len : ℕ) (payload : List ℕ) → Packet
  cxp_write32_request : (destination address value : ℕ) → Packet
  cxp_write32_reply : Packet
  cxp_roi_viewer_setup_request : (destination x0 y0 x1 y1 : ℕ) → Packet
  cxp_roi_viewer_setup_reply : Packet
  cxp_roi_viewer_data_request : (destination : ℕ) → Packet
  cxp_roi_viewer_pixel_data_reply : (len : ℕ) (payload : List ℕ) → Packet
  cxp_roi_viewer_frame_data_reply : (width height pixel_code : ℕ) → Packet
