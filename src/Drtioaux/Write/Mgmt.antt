-- ===== src/Drtioaux/Write/Mgmt.antt =====
-- src/libboard_artiq/src/drtioaux_proto.rs: `write_to` on the packets of these groups:
-- core_mgmt, cxp. A packet of no group before goes on to the next.
use madmax_artiq_zynq.Outcome.{panic}
use madmax_artiq_zynq.Io.Proto.{ByteOrder, Writer, ◌>>◌, write_u8, write_u16, write_u32, write_bool}
use madmax_artiq_zynq.Drtioaux.Payload.{write_payload, write_pixels}
use madmax_artiq_zynq.Drtioaux.Packet.{
  Packet, core_mgmt_get_log_request, core_mgmt_clear_log_request, core_mgmt_config_read_request,
  core_mgmt_config_read_continue, core_mgmt_config_write_request, core_mgmt_config_remove_request,
  core_mgmt_config_erase_request, core_mgmt_reboot_request, core_mgmt_allocator_debug_request,
  core_mgmt_flash_request, core_mgmt_flash_add_data_request, core_mgmt_drop_link_ack,
  core_mgmt_drop_link, core_mgmt_get_log_reply, core_mgmt_config_read_reply, core_mgmt_reply,
  cxp_error, cxp_wait_reply, cxp_read_request, cxp_read_reply, cxp_write32_request,
  cxp_write32_reply, cxp_roi_viewer_setup_request, cxp_roi_viewer_setup_reply,
  cxp_roi_viewer_data_request, cxp_roi_viewer_pixel_data_reply, cxp_roi_viewer_frame_data_reply,
}

module _ ⦃e : ByteOrder⦄ where
  -- The groups name every packet, so the final clause is not reached from `write_to`.
  unfoldable pub write_cxp : Packet → Writer
  write_cxp (cxp_error len message) = do write_u8 0xe0; write_u16 len; write_payload message len
  write_cxp cxp_wait_reply = write_u8 0xe1
  write_cxp (cxp_read_request destination address len) = do
    write_u8 0xe2
    write_u8 destination
    write_u32 address
    write_u16 len
  write_cxp (cxp_read_reply len payload) = do
    write_u8 0xe3
    write_u16 len
    write_payload payload len
  write_cxp (cxp_write32_request destination address value) = do
    write_u8 0xe4
    write_u8 destination
    write_u32 address
    write_u32 value
  write_cxp cxp_write32_reply = write_u8 0xe5
  write_cxp (cxp_roi_viewer_setup_request destination x0 y0 x1 y1) = do
    write_u8 0xe6
    write_u8 destination
    write_u16 x0
    write_u16 y0
    write_u16 x1
    write_u16 y1
  write_cxp cxp_roi_viewer_setup_reply = write_u8 0xe7
  write_cxp (cxp_roi_viewer_data_request destination) = do write_u8 0xe8; write_u8 destination
  write_cxp (cxp_roi_viewer_pixel_data_reply len payload) = do
    write_u8 0xe9
    write_u16 len
    write_pixels payload len
  write_cxp (cxp_roi_viewer_frame_data_reply width height pixel_code) = do
    write_u8 0xea
    write_u16 width
    write_u16 height
    write_u16 pixel_code
  write_cxp _ = panic

  unfoldable pub write_core_mgmt : Packet → Writer
  unfolding write_cxp
  write_core_mgmt (core_mgmt_get_log_request destination clear) = do
    write_u8 0xd0
    write_u8 destination
    write_bool clear
  write_core_mgmt (core_mgmt_clear_log_request destination) = do write_u8 0xd1; write_u8 destination
  write_core_mgmt (core_mgmt_config_read_request destination len key) = do
    write_u8 0xd2
    write_u8 destination
    write_u16 len
    write_payload key len
  write_core_mgmt (core_mgmt_config_read_continue destination) = do
    write_u8 0xd3
    write_u8 destination
  write_core_mgmt (core_mgmt_config_write_request destination last len payload) = do
    write_u8 0xd4
    write_u8 destination
    write_bool last
    write_u16 len
    write_payload payload len
  write_core_mgmt (core_mgmt_config_remove_request destination len key) = do
    write_u8 0xd5
    write_u8 destination
    write_u16 len
    write_payload key len
  write_core_mgmt (core_mgmt_config_erase_request destination) = do
    write_u8 0xd6
    write_u8 destination
  write_core_mgmt (core_mgmt_reboot_request destination) = do write_u8 0xd7; write_u8 destination
  write_core_mgmt (core_mgmt_allocator_debug_request destination) = do
    write_u8 0xd8
    write_u8 destination
  write_core_mgmt (core_mgmt_flash_request destination payload_length) = do
    write_u8 0xd9
    write_u8 destination
    write_u32 payload_length
  write_core_mgmt (core_mgmt_flash_add_data_request destination last len payload) = do
    write_u8 0xda
    write_u8 destination
    write_bool last
    write_u16 len
    write_payload payload len
  write_core_mgmt (core_mgmt_drop_link_ack destination) = do write_u8 0xdb; write_u8 destination
  write_core_mgmt core_mgmt_drop_link = write_u8 0xdc
  write_core_mgmt (core_mgmt_get_log_reply last len payload) = do
    write_u8 0xdd
    write_bool last
    write_u16 len
    write_payload payload len
  write_core_mgmt (core_mgmt_config_read_reply last len value) = do
    write_u8 0xde
    write_bool last
    write_u16 len
    write_payload value len
  write_core_mgmt (core_mgmt_reply succeeded) = do write_u8 0xdf; write_bool succeeded
  write_core_mgmt p = write_cxp p
