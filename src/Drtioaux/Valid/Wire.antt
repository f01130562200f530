-- ===== src/Drtioaux/Valid/Wire.antt =====
-- src/libboard_artiq/src/drtioaux_proto.rs: a packet that came off the wire can be sent on, and a second
-- hop changes nothing.
use madmax_artiq_zynq.Base.{
  ℕ, zero, suc, ◌-◌, ◌≡◌, refl, ap, List, [], ◌∷◌, ◌++◌, All, take, replicate, arith, length-append,
  length-take, length-replicate, take-append,
}
use madmax_artiq_zynq.Drtioaux.Packet.{
  Packet, analyzer_data, dma_add_trace_request, subkernel_add_data_request, subkernel_exception,
  subkernel_message, core_mgmt_config_read_request, core_mgmt_config_write_request,
  core_mgmt_config_remove_request, core_mgmt_flash_add_data_request, core_mgmt_get_log_reply,
  core_mgmt_config_read_reply, cxp_error, cxp_read_reply, cxp_roi_viewer_pixel_data_reply,
}
use madmax_artiq_zynq.Drtioaux.Payload.{
  sat_payload_max_size, master_payload_max_size, cxp_payload_max_size, cxp_payload_max_size_u64,
}
use madmax_artiq_zynq.Drtioaux.Valid.{IsU64, IsPayload, IsValid, settle, on_wire}

All-append : {A : Type 0} (P : A → Type 0) (xs ys : List A) → All P xs → All P ys → All P (xs ++ ys)
All-append P [] ys hx hy = hy
All-append P (x ∷ xs) ys hx hy = (hx.0, All-append P xs ys hx.1 hy)

All-take : {A : Type 0} (P : A → Type 0) (n : ℕ) (xs : List A) → All P xs → All P (take n xs)
unfolding take
All-take P zero xs h = tt
All-take P (suc n) [] h = tt
All-take P (suc n) (x ∷ xs) h = (h.0, All-take P n xs h.1)

All-replicate : {A : Type 0} (P : A → Type 0) (n : ℕ) (a : A) → P a → All P (replicate n a)
unfolding replicate
All-replicate P zero a h = tt
All-replicate P (suc n) a h = (h, All-replicate P n a h)

settle-settle :
    (size len : ℕ) (xs : List ℕ)
    → IsPayload size len xs
    → settle size len (settle size len xs) ≡ settle size len xs
unfolding settle
settle-settle size len xs (sized, fits) =
    ap (λ ys. ys ++ replicate (size - len) 0)
      (take-append len (take len xs) (replicate (size - len) 0) (omega (arith, length-take len xs)))

settle-IsPayload :
    (size len : ℕ) (xs : List ℕ) → IsPayload size len xs → IsPayload size len (settle size len xs)
unfolding settle
settle-IsPayload size len xs (sized, fits) = (
  omega (
    arith,
    length-append (take len xs) (replicate (size - len) 0),
    length-take len xs,
    length-replicate {A = ℕ} (size - len) 0,
  ),
  fits,
)

settle-IsU64 : (size len : ℕ) (xs : List ℕ) → All IsU64 xs → All IsU64 (settle size len xs)
unfolding settle
settle-IsU64 size len xs h =
    All-append IsU64 (take len xs) (replicate (size - len) 0) (All-take IsU64 len xs h)
      (All-replicate IsU64 (size - len) 0 (omega arith))

pub on_wire-IsValid : (p : Packet) → IsValid p → IsValid (on_wire p)
unfolding on_wire
on_wire-IsValid (analyzer_data last len payload) h =
    (h.0, settle-IsPayload sat_payload_max_size len payload h.1)
on_wire-IsValid (dma_add_trace_request source destination id status len trace) h =
    (h.0, h.1, settle-IsPayload master_payload_max_size len trace h.2)
on_wire-IsValid (subkernel_add_data_request destination id status len payload) h =
    (h.0, h.1, settle-IsPayload master_payload_max_size len payload h.2)
on_wire-IsValid (subkernel_exception destination last len payload) h =
    (h.0, settle-IsPayload master_payload_max_size len payload h.1)
on_wire-IsValid (subkernel_message source destination id status len payload) h =
    (h.0, h.1, settle-IsPayload master_payload_max_size len payload h.2)
on_wire-IsValid (core_mgmt_config_read_request destination len key) h =
    (h.0, settle-IsPayload master_payload_max_size len key h.1)
on_wire-IsValid (core_mgmt_config_write_request destination last len payload) h =
    (h.0, settle-IsPayload master_payload_max_size len payload h.1)
on_wire-IsValid (core_mgmt_config_remove_request destination len key) h =
    (h.0, settle-IsPayload master_payload_max_size len key h.1)
on_wire-IsValid (core_mgmt_flash_add_data_request destination last len payload) h =
    (h.0, settle-IsPayload master_payload_max_size len payload h.1)
on_wire-IsValid (core_mgmt_get_log_reply last len payload) h =
    (h.0, settle-IsPayload sat_payload_max_size len payload h.1)
on_wire-IsValid (core_mgmt_config_read_reply last len value) h =
    (h.0, settle-IsPayload sat_payload_max_size len value h.1)
on_wire-IsValid (cxp_error len message) h =
    (h.0, settle-IsPayload cxp_payload_max_size len message h.1)
on_wire-IsValid (cxp_read_reply len payload) h =
    (h.0, settle-IsPayload cxp_payload_max_size len payload h.1)
on_wire-IsValid (cxp_roi_viewer_pixel_data_reply len payload) h = (
  h.0,
  settle-IsPayload cxp_payload_max_size_u64 len payload h.1,
  settle-IsU64 cxp_payload_max_size_u64 len payload h.2,
)
on_wire-IsValid _ h = h

-- On a valid packet a second passage over a link changes nothing.
pub on_wire-on_wire : (p : Packet) → IsValid p → on_wire (on_wire p) ≡ on_wire p
unfolding on_wire
on_wire-on_wire (analyzer_data last len payload) h =
    ap (λ xs. analyzer_data last len xs) (settle-settle sat_payload_max_size len payload h.1)
on_wire-on_wire (dma_add_trace_request source destination id status len trace) h =
    ap (λ xs. dma_add_trace_request source destination id status len xs)
      (settle-settle master_payload_max_size len trace h.2)
on_wire-on_wire (subkernel_add_data_request destination id status len payload) h =
    ap (λ xs. subkernel_add_data_request destination id status len xs)
      (settle-settle master_payload_max_size len payload h.2)
on_wire-on_wire (subkernel_exception destination last len payload) h =
    ap (λ xs. subkernel_exception destination last len xs)
      (settle-settle master_payload_max_size len payload h.1)
on_wire-on_wire (subkernel_message source destination id status len payload) h =
    ap (λ xs. subkernel_message source destination id status len xs)
      (settle-settle master_payload_max_size len payload h.2)
on_wire-on_wire (core_mgmt_config_read_request destination len key) h =
    ap (λ xs. core_mgmt_config_read_request destination len xs)
      (settle-settle master_payload_max_size len key h.1)
on_wire-on_wire (core_mgmt_config_write_request destination last len payload) h =
    ap (λ xs. core_mgmt_config_write_request destination last len xs)
      (settle-settle master_payload_max_size len payload h.1)
on_wire-on_wire (core_mgmt_config_remove_request destination len key) h =
    ap (λ xs. core_mgmt_config_remove_request destination len xs)
      (settle-settle master_payload_max_size len key h.1)
on_wire-on_wire (core_mgmt_flash_add_data_request destination last len payload) h =
    ap (λ xs. core_mgmt_flash_add_data_request destination last len xs)
      (settle-settle master_payload_max_size len payload h.1)
on_wire-on_wire (core_mgmt_get_log_reply last len payload) h =
    ap (λ xs. core_mgmt_get_log_reply last len xs)
      (settle-settle sat_payload_max_size len payload h.1)
on_wire-on_wire (core_mgmt_config_read_reply last len value) h =
    ap (λ xs. core_mgmt_config_read_reply last len xs)
      (settle-settle sat_payload_max_size len value h.1)
on_wire-on_wire (cxp_error len message) h =
    ap (λ xs. cxp_error len xs) (settle-settle cxp_payload_max_size len message h.1)
on_wire-on_wire (cxp_read_reply len payload) h =
    ap (λ xs. cxp_read_reply len xs) (settle-settle cxp_payload_max_size len payload h.1)
on_wire-on_wire (cxp_roi_viewer_pixel_data_reply len payload) h =
    ap (λ xs. cxp_roi_viewer_pixel_data_reply len xs)
      (settle-settle cxp_payload_max_size_u64 len payload h.1)
on_wire-on_wire _ h = refl
