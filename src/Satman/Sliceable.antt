-- ===== src/Satman/Sliceable.antt =====
-- src/satman/src/routing.rs: data that is sent in slices of at most one payload.
pub mod Slices
use madmax_artiq_zynq.Base.{
  ℕ, zero, suc, ◌+◌, ◌-◌, ◌%◌, ◌^◌, min, Bool, List, [], ◌∷◌, ◌++◌, ◌==◌, length, take, drop,
}
use madmax_artiq_zynq.Drtioaux.Payload.{
  PayloadStatus, from_status, master_payload_max_size, sat_payload_max_size,
}

pub record SliceMeta : Type 0 where
  pub destination : ℕ
  pub len : ℕ
  pub status : PayloadStatus

pub record Sliceable : Type 0 where
  pub it : ℕ
  pub content : List ℕ
  pub destination : ℕ

unfoldable pub new : ℕ → List ℕ → Sliceable
new destination content = record { it = 0; content = content; destination = destination }

unfoldable pub at_end : Sliceable → Bool
at_end s = s.it == length s.content

unfoldable pub extend : Sliceable → List ℕ → Sliceable
extend s bytes = record s { content = s.content ++ bytes }

-- The function that `get_slice_fn!` makes for an array of `size` bytes: the slice's description, the
-- array and the sliceable after. Its position never passes the end of the data (Slices.IsWithin), where
-- the source's subtraction would wrap.
unfoldable pub get_slice : ℕ → Sliceable → List ℕ → SliceMeta × List ℕ × Sliceable
get_slice size s data_slice =
    let first = s.it == 0 in
    let len = min size (length s.content - s.it) in
    let last = s.it + len == length s.content in
    (
      record { destination = s.destination; len = len % 2 ^ 16; status = from_status first last },
      take len (drop s.it s.content) ++ drop len data_slice,
      record s { it = s.it + len },
    )

unfoldable pub get_slice_master : Sliceable → List ℕ → SliceMeta × List ℕ × Sliceable
get_slice_master = get_slice master_payload_max_size

unfoldable pub get_slice_satellite : Sliceable → List ℕ → SliceMeta × List ℕ × Sliceable
get_slice_satellite = get_slice sat_payload_max_size
