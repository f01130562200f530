-- ===== src/Drtioaux/RoundTrip/Subkernel.antt =====
-- src/libboard_artiq/src/drtioaux_proto.rs: the round trip of each packet of these groups: subkernel.
use madmax_artiq_zynq.Base.{ℕ, Bool, List, refl}
use madmax_artiq_zynq.Io.Proto.{ByteOrder}
use madmax_artiq_zynq.Io.Proto.Trip.{seq, final, u8, u16, u32, u64, bool, pure_lem}
use madmax_artiq_zynq.Drtioaux.Payload.{PayloadStatus}
use madmax_artiq_zynq.Drtioaux.Packet.{
  subkernel_add_data_request, subkernel_add_data_reply, subkernel_load_run_request,
  subkernel_load_run_reply, subkernel_finished, subkernel_exception_request, subkernel_exception,
  subkernel_message, subkernel_message_ack,
}
use madmax_artiq_zynq.Drtioaux.Valid.{IsValid, on_wire}
use madmax_artiq_zynq.Drtioaux.Read.Board.{read_link}
use madmax_artiq_zynq.Drtioaux.Write.{write_to}
use madmax_artiq_zynq.Drtioaux.RoundTrip.Fields.{
  Encodes, arm, decoded, status_byte, status as status_trip, payload as payload_trip,
}

module _ ⦃e : ByteOrder⦄ where
  pub subkernel_add_data_request_lem :
      (destination id : ℕ) (status : PayloadStatus) (len : ℕ) (payload : List ℕ)
      → IsValid (subkernel_add_data_request destination id status len payload)
      → Encodes (subkernel_add_data_request destination id status len payload)
  unfolding read_link write_to on_wire
  subkernel_add_data_request_lem destination id status len payload h =
      arm 0xc0 refl refl
        (seq _ (u8 destination) (
          seq _ (u32 id h.0) (
            seq _ (status_trip status)
              (seq _ (u16 len h.1) (final _ (payload_trip _ len payload h.2) (pure_lem _))))))
        refl

  pub subkernel_add_data_reply_lem :
      (succeeded : Bool) → Encodes (subkernel_add_data_reply succeeded)
  unfolding read_link write_to on_wire
  subkernel_add_data_reply_lem succeeded =
      arm 0xc1 refl refl (final _ (bool succeeded) (pure_lem _)) refl

  pub subkernel_load_run_request_lem :
      (source destination id : ℕ) (run : Bool) (timestamp : ℕ)
      → IsValid (subkernel_load_run_request source destination id run timestamp)
      → Encodes (subkernel_load_run_request source destination id run timestamp)
  unfolding read_link write_to on_wire
  subkernel_load_run_request_lem source destination id run timestamp h =
      arm 0xc4 refl refl
        (seq _ (u8 source) (
          seq _ (u8 destination)
            (seq _ (u32 id h.0) (seq _ (bool run) (final _ (u64 timestamp h.1) (pure_lem _))))))
        refl

  pub subkernel_load_run_reply_lem :
      (destination : ℕ) (succeeded : Bool)
      → Encodes (subkernel_load_run_reply destination succeeded)
  unfolding read_link write_to on_wire
  subkernel_load_run_reply_lem destination succeeded =
      arm 0xc5 refl refl (seq _ (u8 destination) (final _ (bool succeeded) (pure_lem _))) refl

  pub subkernel_finished_lem :
      (destination id : ℕ) (with_exception : Bool) (exception_src : ℕ)
      → IsValid (subkernel_finished destination id with_exception exception_src)
      → Encodes (subkernel_finished destination id with_exception exception_src)
  unfolding read_link write_to on_wire
  subkernel_finished_lem destination id with_exception exception_src h =
      arm 0xc8 refl refl
        (seq _ (u8 destination) (
          seq _ (u32 id h) (seq _ (bool with_exception) (final _ (u8 exception_src) (pure_lem _)))))
        refl

  pub subkernel_exception_request_lem :
      (source destination : ℕ) → Encodes (subkernel_exception_request source destination)
  unfolding read_link write_to on_wire
  subkernel_exception_request_lem source destination =
      arm 0xc9 refl refl (seq _ (u8 source) (final _ (u8 destination) (pure_lem _))) refl

  pub subkernel_exception_lem :
      (destination : ℕ) (last : Bool) (len : ℕ) (payload : List ℕ)
      → IsValid (subkernel_exception destination last len payload)
      → Encodes (subkernel_exception destination last len payload)
  unfolding read_link write_to on_wire
  subkernel_exception_lem destination last len payload h =
      arm 0xca refl refl
        (seq _ (u8 destination) (
          seq _ (bool last)
            (seq _ (u16 len h.0) (final _ (payload_trip _ len payload h.1) (pure_lem _)))))
        refl

  pub subkernel_message_lem :
      (source destination id : ℕ) (status : PayloadStatus) (len : ℕ) (payload : List ℕ)
      → IsValid (subkernel_message source destination id status len payload)
      → Encodes (subkernel_message source destination id status len payload)
  unfolding read_link write_to on_wire
  subkernel_message_lem source destination id status len payload h =
      arm 0xcb refl refl
        (seq _ (u8 source) (
          seq _ (u8 destination) (
            seq _ (u32 id h.0) (
              seq _ (status_byte status) (
                seq _ (u16 len h.1)
                  (final _ (payload_trip _ len payload h.2) (decoded status _)))))))
        refl

  pub subkernel_message_ack_lem : (destination : ℕ) → Encodes (subkernel_message_ack destination)
  unfolding read_link write_to on_wire
  subkernel_message_ack_lem destination =
      arm 0xcc refl refl (final _ (u8 destination) (pure_lem _)) refl
