-- ===== src/Drtioaux/Read/Mgmt.antt =====
-- src/libboard_artiq/src/drtioaux_proto.rs: `read_from` on the tags of the packets of these groups:
-- core_mgmt, cxp. A tag of no group before goes on to the next.
use madmax_artiq_zynq.Base.{ℕ, Option, none, some, ◌==◌, if◌then◌else◌}
use madmax_artiq_zynq.Io.Proto.{
  ByteOrder, Reader, ◌>>=◌, pure, read_u8, read_u16, read_u32, read_bool,
}
use madmax_artiq_zynq.Drtioaux.Payload.{
  read_payload, read_pixels, sat_payload_max_size, master_payload_max_size, cxp_payload_max_size,
  cxp_payload_max_size_u64,
}
use madmax_artiq_zynq.Drtioaux.Packet.{
  Packet, core_mgmt_get_log_request, core_mgmt_clear_log_request, core_mgmt_config_read_request,
  core_mgmt_config_read_continue, core_mgmt_config_write_request, core_mgmt_config_remove_request,
  core_mgmt_config_erase_request, core_mgmt_reboot_request, core_mgmt_allocator_debug_request,
  core_mgmt_flash_request, core_mgmt_flash_add_data_request, core_mgmt_drop_link_ack,
  core_mgmt_drop_link, core_mgmt_get_log_reply, core_mgmt_config_read_reply, core_mgmt_reply,
  cxp_error, cxp_wait_reply, cxp_read_request, cxp_read_reply, cxp_write32_request,
  cxp_write32_reply, cxp_roi_viewer_setup_request, cxp_roi_viewer_setup_reply,
  cxp_roi_viewer_data_request, cxp_roi_viewer_pixel_data_reply, cxp_roi_viewer_frame_data_reply,
}

module _ ⦃e : ByteOrder⦄ where
  unfoldable pub read_cxp : ℕ → Option (Reader Packet)
  read_cxp ty =
      if ty == 0xe0
      then some (do
        len ← read_u16
        message ← read_payload cxp_payload_max_size len
        pure (cxp_error len message))
      else if ty == 0xe1
      then some (pure cxp_wait_reply)
      else if ty == 0xe2
      then some (do
        destination ← read_u8
        address ← read_u32
        len ← read_u16
        pure (cxp_read_request destination address len))
      else if ty == 0xe3
      then some (do
        len ← read_u16
        payload ← read_payload cxp_payload_max_size len
        pure (cxp_read_reply len payload))
      else if ty == 0xe4
      then some (do
        destination ← read_u8
        address ← read_u32
        value ← read_u32
        pure (cxp_write32_request destination address value))
      else if ty == 0xe5
      then some (pure cxp_write32_reply)
      else if ty == 0xe6
      then some (do
        destination ← read_u8
        x0 ← read_u16
        y0 ← read_u16
        x1 ← read_u16
        y1 ← read_u16
        pure (cxp_roi_viewer_setup_request destination x0 y0 x1 y1))
      else if ty == 0xe7
      then some (pure cxp_roi_viewer_setup_reply)
      else if ty == 0xe8
      then some (do destination ← read_u8; pure (cxp_roi_viewer_data_request destination))
      else if ty == 0xe9
      then some (do
        len ← read_u16
        payload ← read_pixels cxp_payload_max_size_u64 len
        pure (cxp_roi_viewer_pixel_data_reply len payload))
      else if ty == 0xea
      then some (do
        width ← read_u16
        height ← read_u16
        pixel_code ← read_u16
        pure (cxp_roi_viewer_frame_data_reply width height pixel_code))
      else none

  unfoldable pub read_core_mgmt : ℕ → Option (Reader Packet)
  unfolding read_cxp
  read_core_mgmt ty =
      if ty == 0xd0
      then some (do
        destination ← read_u8
        clear ← read_bool
        pure (core_mgmt_get_log_request destination clear))
      else if ty == 0xd1
      then some (do destination ← read_u8; pure (core_mgmt_clear_log_request destination))
      else if ty == 0xd2
      then some (do
        destination ← read_u8
        len ← read_u16
        key ← read_payload master_payload_max_size len
        pure (core_mgmt_config_read_request destination len key))
      else if ty == 0xd3
      then some (do destination ← read_u8; pure (core_mgmt_config_read_continue destination))
      else if ty == 0xd4
      then some (do
        destination ← read_u8
        last ← read_bool
        len ← read_u16
        payload ← read_payload master_payload_max_size len
        pure (core_mgmt_config_write_request destination last len payload))
      else if ty == 0xd5
      then some (do
        destination ← read_u8
        len ← read_u16
        key ← read_payload master_payload_max_size len
        pure (core_mgmt_config_remove_request destination len key))
      else if ty == 0xd6
      then some (do destination ← read_u8; pure (core_mgmt_config_erase_request destination))
      else if ty == 0xd7
      then some (do destination ← read_u8; pure (core_mgmt_reboot_request destination))
      else if ty == 0xd8
      then some (do destination ← read_u8; pure (core_mgmt_allocator_debug_request destination))
      else if ty == 0xd9
      then some (do
        destination ← read_u8
        payload_length ← read_u32
        pure (core_mgmt_flash_request destination payload_length))
      else if ty == 0xda
      then some (do
        destination ← read_u8
        last ← read_bool
        len ← read_u16
        payload ← read_payload master_payload_max_size len
        pure (core_mgmt_flash_add_data_request destination last len payload))
      else if ty == 0xdb
      then some (do destination ← read_u8; pure (core_mgmt_drop_link_ack destination))
      else if ty == 0xdc
      then some (pure core_mgmt_drop_link)
      else if ty == 0xdd
      then some (do
        last ← read_bool
        len ← read_u16
        payload ← read_payload sat_payload_max_size len
        pure (core_mgmt_get_log_reply last len payload))
      else if ty == 0xde
      then some (do
        last ← read_bool
        len ← read_u16
        value ← read_payload sat_payload_max_size len
        pure (core_mgmt_config_read_reply last len value))
      else if ty == 0xdf
      then some (do succeeded ← read_bool; pure (core_mgmt_reply succeeded))
      else read_cxp ty
