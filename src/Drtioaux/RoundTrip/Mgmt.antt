-- ===== src/Drtioaux/RoundTrip/Mgmt.antt =====
-- src/libboard_artiq/src/drtioaux_proto.rs: the round trip of each packet of these groups: core_mgmt, cxp.
use madmax_artiq_zynq.Base.{ℕ, Bool, List, refl}
use madmax_artiq_zynq.Io.Proto.{ByteOrder}
use madmax_artiq_zynq.Io.Proto.Trip.{seq, final, u8, u16, u32, bool, pure_lem}
use madmax_artiq_zynq.Drtioaux.Packet.{
  core_mgmt_get_log_request, core_mgmt_clear_log_request, core_mgmt_config_read_request,
  core_mgmt_config_read_continue, core_mgmt_config_write_request, core_mgmt_config_remove_request,
  core_mgmt_config_erase_request, core_mgmt_reboot_request, core_mgmt_allocator_debug_request,
  core_mgmt_flash_request, core_mgmt_flash_add_data_request, core_mgmt_drop_link_ack,
  core_mgmt_drop_link, core_mgmt_get_log_reply, core_mgmt_config_read_reply, core_mgmt_reply,
  cxp_error, cxp_wait_reply, cxp_read_request, cxp_read_reply, cxp_write32_request,
  cxp_write32_reply, cxp_roi_viewer_setup_request, cxp_roi_viewer_setup_reply,
  cxp_roi_viewer_data_request, cxp_roi_viewer_pixel_data_reply, cxp_roi_viewer_frame_data_reply,
}
use madmax_artiq_zynq.Drtioaux.Valid.{IsValid, on_wire}
use madmax_artiq_zynq.Drtioaux.Read.Board.{read_link}
use madmax_artiq_zynq.Drtioaux.Write.{write_to}
use madmax_artiq_zynq.Drtioaux.RoundTrip.Fields.{
  Encodes, arm, bare, payload as payload_trip, pixels as pixels_trip,
}

module _ ⦃e : ByteOrder⦄ where
  pub core_mgmt_get_log_request_lem :
      (destination : ℕ) (clear : Bool) → Encodes (core_mgmt_get_log_request destination clear)
  unfolding read_link write_to on_wire
  core_mgmt_get_log_request_lem destination clear =
      arm 0xd0 refl refl (seq _ (u8 destination) (final _ (bool clear) (pure_lem _))) refl

  pub core_mgmt_clear_log_request_lem :
      (destination : ℕ) → Encodes (core_mgmt_clear_log_request destination)
  unfolding read_link write_to on_wire
  core_mgmt_clear_log_request_lem destination =
      arm 0xd1 refl refl (final _ (u8 destination) (pure_lem _)) refl

  pub core_mgmt_config_read_request_lem :
      (destination len : ℕ) (key : List ℕ)
      → IsValid (core_mgmt_config_read_request destination len key)
      → Encodes (core_mgmt_config_read_request destination len key)
  unfolding read_link write_to on_wire
  core_mgmt_config_read_request_lem destination len key h =
      arm 0xd2 refl refl
        (seq _ (u8 destination)
          (seq _ (u16 len h.0) (final _ (payload_trip _ len key h.1) (pure_lem _))))
        refl

  pub core_mgmt_config_read_continue_lem :
      (destination : ℕ) → Encodes (core_mgmt_config_read_continue destination)
  unfolding read_link write_to on_wire
  core_mgmt_config_read_continue_lem destination =
      arm 0xd3 refl refl (final _ (u8 destination) (pure_lem _)) refl

  pub core_mgmt_config_write_request_lem :
      (destination : ℕ) (last : Bool) (len : ℕ) (payload : List ℕ)
      → IsValid (core_mgmt_config_write_request destination last len payload)
      → Encodes (core_mgmt_config_write_request destination last len payload)
  unfolding read_link write_to on_wire
  core_mgmt_config_write_request_lem destination last len payload h =
      arm 0xd4 refl refl
        (seq _ (u8 destination) (
          seq _ (bool last)
            (seq _ (u16 len h.0) (final _ (payload_trip _ len payload h.1) (pure_lem _)))))
        refl

  pub core_mgmt_config_remove_request_lem :
      (destination len : ℕ) (key : List ℕ)
      → IsValid (core_mgmt_config_remove_request destination len key)
      → Encodes (core_mgmt_config_remove_request destination len key)
  unfolding read_link write_to on_wire
  core_mgmt_config_remove_request_lem destination len key h =
      arm 0xd5 refl refl
        (seq _ (u8 destination)
          (seq _ (u16 len h.0) (final _ (payload_trip _ len key h.1) (pure_lem _))))
        refl

  pub core_mgmt_config_erase_request_lem :
      (destination : ℕ) → Encodes (core_mgmt_config_erase_request destination)
  unfolding read_link write_to on_wire
  core_mgmt_config_erase_request_lem destination =
      arm 0xd6 refl refl (final _ (u8 destination) (pure_lem _)) refl

  pub core_mgmt_reboot_request_lem :
      (destination : ℕ) → Encodes (core_mgmt_reboot_request destination)
  unfolding read_link write_to on_wire
  core_mgmt_reboot_request_lem destination =
      arm 0xd7 refl refl (final _ (u8 destination) (pure_lem _)) refl

  pub core_mgmt_allocator_debug_request_lem :
      (destination : ℕ) → Encodes (core_mgmt_allocator_debug_request destination)
  unfolding read_link write_to on_wire
  core_mgmt_allocator_debug_request_lem destination =
      arm 0xd8 refl refl (final _ (u8 destination) (pure_lem _)) refl

  pub core_mgmt_flash_request_lem :
      (destination payload_length : ℕ)
      → IsValid (core_mgmt_flash_request destination payload_length)
      → Encodes (core_mgmt_flash_request destination payload_length)
  unfolding read_link write_to on_wire
  core_mgmt_flash_request_lem destination payload_length h =
      arm 0xd9 refl refl (seq _ (u8 destination) (final _ (u32 payload_length h) (pure_lem _))) refl

  pub core_mgmt_flash_add_data_request_lem :
      (destination : ℕ) (last : Bool) (len : ℕ) (payload : List ℕ)
      → IsValid (core_mgmt_flash_add_data_request destination last len payload)
      → Encodes (core_mgmt_flash_add_data_request destination last len payload)
  unfolding read_link write_to on_wire
  core_mgmt_flash_add_data_request_lem destination last len payload h =
      arm 0xda refl refl
        (seq _ (u8 destination) (
          seq _ (bool last)
            (seq _ (u16 len h.0) (final _ (payload_trip _ len payload h.1) (pure_lem _)))))
        refl

  pub core_mgmt_drop_link_ack_lem :
      (destination : ℕ) → Encodes (core_mgmt_drop_link_ack destination)
  unfolding read_link write_to on_wire
  core_mgmt_drop_link_ack_lem destination =
      arm 0xdb refl refl (final _ (u8 destination) (pure_lem _)) refl

  pub core_mgmt_drop_link_lem : Encodes core_mgmt_drop_link
  unfolding read_link write_to on_wire
  core_mgmt_drop_link_lem = bare 0xdc refl refl refl

  pub core_mgmt_get_log_reply_lem :
      (last : Bool) (len : ℕ) (payload : List ℕ)
      → IsValid (core_mgmt_get_log_reply last len payload)
      → Encodes (core_mgmt_get_log_reply last len payload)
  unfolding read_link write_to on_wire
  core_mgmt_get_log_reply_lem last len payload h =
      arm 0xdd refl refl
        (seq _ (bool last)
          (seq _ (u16 len h.0) (final _ (payload_trip _ len payload h.1) (pure_lem _))))
        refl

  pub core_mgmt_config_read_reply_lem :
      (last : Bool) (len : ℕ) (value : List ℕ)
      → IsValid (core_mgmt_config_read_reply last len value)
      → Encodes (core_mgmt_config_read_reply last len value)
  unfolding read_link write_to on_wire
  core_mgmt_config_read_reply_lem last len value h =
      arm 0xde refl refl
        (seq _ (bool last)
          (seq _ (u16 len h.0) (final _ (payload_trip _ len value h.1) (pure_lem _))))
        refl

  pub core_mgmt_reply_lem : (succeeded : Bool) → Encodes (core_mgmt_reply succeeded)
  unfolding read_link write_to on_wire
  core_mgmt_reply_lem succeeded = arm 0xdf refl refl (final _ (bool succeeded) (pure_lem _)) refl

  pub cxp_error_lem :
      (len : ℕ) (message : List ℕ)
      → IsValid (cxp_error len message)
      → Encodes (cxp_error len message)
  unfolding read_link write_to on_wire
  cxp_error_lem len message h =
      arm 0xe0 refl refl
        (seq _ (u16 len h.0) (final _ (payload_trip _ len message h.1) (pure_lem _))) refl

  pub cxp_wait_reply_lem : Encodes cxp_wait_reply
  unfolding read_link write_to on_wire
  cxp_wait_reply_lem = bare 0xe1 refl refl refl

  pub cxp_read_request_lem :
      (destination address len : ℕ)
      → IsValid (cxp_read_request destination address len)
      → Encodes (cxp_read_request destination address len)
  unfolding read_link write_to on_wire
  cxp_read_request_lem destination address len h =
      arm 0xe2 refl refl
        (seq _ (u8 destination) (seq _ (u32 address h.0) (final _ (u16 len h.1) (pure_lem _)))) refl

  pub cxp_read_reply_lem :
      (len : ℕ) (payload : List ℕ)
      → IsValid (cxp_read_reply len payload)
      → Encodes (cxp_read_reply len payload)
  unfolding read_link write_to on_wire
  cxp_read_reply_lem len payload h =
      arm 0xe3 refl refl
        (seq _ (u16 len h.0) (final _ (payload_trip _ len payload h.1) (pure_lem _))) refl

  pub cxp_write32_request_lem :
      (destination address value : ℕ)
      → IsValid (cxp_write32_request destination address value)
      → Encodes (cxp_write32_request destination address value)
  unfolding read_link write_to on_wire
  cxp_write32_request_lem destination address value h =
      arm 0xe4 refl refl
        (seq _ (u8 destination) (seq _ (u32 address h.0) (final _ (u32 value h.1) (pure_lem _))))
        refl

  pub cxp_write32_reply_lem : Encodes cxp_write32_reply
  unfolding read_link write_to on_wire
  cxp_write32_reply_lem = bare 0xe5 refl refl refl

  pub cxp_roi_viewer_setup_request_lem :
      (destination x0 y0 x1 y1 : ℕ)
      → IsValid (cxp_roi_viewer_setup_request destination x0 y0 x1 y1)
      → Encodes (cxp_roi_viewer_setup_request destination x0 y0 x1 y1)
  unfolding read_link write_to on_wire
  cxp_roi_viewer_setup_request_lem destination x0 y0 x1 y1 h =
      arm 0xe6 refl refl
        (seq _ (u8 destination) (
          seq _ (u16 x0 h.0)
            (seq _ (u16 y0 h.1) (seq _ (u16 x1 h.2) (final _ (u16 y1 h.3) (pure_lem _))))))
        refl

  pub cxp_roi_viewer_setup_reply_lem : Encodes cxp_roi_viewer_setup_reply
  unfolding read_link write_to on_wire
  cxp_roi_viewer_setup_reply_lem = bare 0xe7 refl refl refl

  pub cxp_roi_viewer_data_request_lem :
      (destination : ℕ) → Encodes (cxp_roi_viewer_data_request destination)
  unfolding read_link write_to on_wire
  cxp_roi_viewer_data_request_lem destination =
      arm 0xe8 refl refl (final _ (u8 destination) (pure_lem _)) refl

  pub cxp_roi_viewer_pixel_data_reply_lem :
      (len : ℕ) (payload : List ℕ)
      → IsValid (cxp_roi_viewer_pixel_data_reply len payload)
      → Encodes (cxp_roi_viewer_pixel_data_reply len payload)
  unfolding read_link write_to on_wire
  cxp_roi_viewer_pixel_data_reply_lem len payload h =
      arm 0xe9 refl refl
        (seq _ (u16 len h.0) (final _ (pixels_trip len payload h.1 h.2) (pure_lem _))) refl

  pub cxp_roi_viewer_frame_data_reply_lem :
      (width height pixel_code : ℕ)
      → IsValid (cxp_roi_viewer_frame_data_reply width height pixel_code)
      → Encodes (cxp_roi_viewer_frame_data_reply width height pixel_code)
  unfolding read_link write_to on_wire
  cxp_roi_viewer_frame_data_reply_lem width height pixel_code h =
      arm 0xea refl refl
        (seq _ (u16 width h.0) (seq _ (u16 height h.1) (final _ (u16 pixel_code h.2) (pure_lem _))))
        refl
