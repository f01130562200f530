-- ===== src/Satman/Dma/Manager.antt =====
-- src/satman/src/dma.rs, Manager: the DMA traces of this satellite by source and id, and their playback.
-- `extended` and `reserved` are the addresses that the allocator gives a vector when it grows.
use madmax_artiq_zynq.Base.{
  ℕ, zero, suc, ◌%◌, ◌^◌, Bool, true, false, not, ◌||◌, Option, none, some, List, [], ◌∷◌, ◌++◌,
  ltb, ◌==◌, if◌then◌else◌, length, get_elem?, take, drop,
}
use madmax_artiq_zynq.Outcome.{Outcome, ok, err, panic, ◌>>=◌, ◌>>◌, guard}
use madmax_artiq_zynq.TreeMap.{get, insert, remove, numbers, pairs, names}
use madmax_artiq_zynq.Drtioaux.Payload.{PayloadStatus, is_first, is_last}
use madmax_artiq_zynq.Drtioaux.RoutingTable.{Result}
use madmax_artiq_zynq.Satman.Messages.{front}
use madmax_artiq_zynq.Satman.Sliceable.{Sliceable, extend}
use madmax_artiq_zynq.Satman.Sliceable
use madmax_artiq_zynq.Satman.Dma.Entry.{Entry, empty, realign, start, id_of, from_vec}
use madmax_artiq_zynq.Satman.Dma.Remote.{RemoteTraces, has_remote_traces}
use madmax_artiq_zynq.Satman.Dma.Remote

pub data ManagerState : Type 0 where
  idle playing : ManagerState

pub data Error : Type 0 where
  id_not_found playback_in_progress entry_not_complete master_dma_found upload_fail : Error

pub record RtioStatus : Type 0 where
  pub source : ℕ
  pub id : ℕ
  pub error : ℕ
  pub channel : ℕ
  pub timestamp : ℕ

-- A write to the registers of the DMA core and of the CRI switch.
pub data DmaWrite : Type 0 where
  base_address time_offset selected enable error_clear : ℕ → DmaWrite

pub record Manager : Type 0 where
  pub entries : List ((ℕ × ℕ) × Entry)
  pub state : ManagerState
  pub current_id : ℕ
  pub current_source : ℕ
  pub remote_entries : List (ℕ × RemoteTraces)
  pub name_map : List (List ℕ × ℕ)

-- After the wait for the end of a playback.
unfoldable pub new : Manager
new = record {
  entries = [];
  state = idle;
  current_id = 0;
  current_source = 0;
  remote_entries = [];
  name_map = [];
}

-- The entry that a slice is added to.
unfoldable pub open_entry : Option Entry → PayloadStatus → Entry
open_entry none status = empty
open_entry (some entry) status = if entry.complete || is_first status then empty else entry

unfoldable pub add :
    (extended reserved source id : ℕ) → PayloadStatus → List ℕ → ℕ → Manager → Result Manager
unfolding open_entry
add extended reserved source id status trace trace_len m = do
  used ← front trace trace_len
  let entry = open_entry (get (source, id) m.entries) status
  let longer = record entry { trace = entry.trace ++ used; address = extended }
  stored ← (if is_last status then realign reserved longer else ok longer)
  ok (record m { entries = insert (source, id) stored m.entries })

unfoldable pub erase : ℕ → ℕ → Manager → Outcome Error Manager
erase source id m = elim (get (source, id) m.entries) [
  | none ↦ err id_not_found
  | some entry ↦ ok (record m { entries = remove (source, id) m.entries })
]

-- An event put into the bucket of its destination.
unfoldable pub put_remote : ℕ → List ℕ → List (ℕ × Sliceable) → List (ℕ × Sliceable)
put_remote destination event remote = elim (get destination remote) [
  | none ↦ insert destination (Sliceable.new destination event) remote
  | some trace ↦ insert destination (extend trace event) remote
]

-- The loop of put_record on `buffer[ptr..]`. Every event has a byte, so the length is fuel enough.
unfoldable pub record_loop :
    ℕ → List ℕ → ℕ → List ℕ → List (ℕ × Sliceable) → Outcome Error (List ℕ × List (ℕ × Sliceable))
record_loop zero buffer self_destination local remote = panic
record_loop (suc fuel) buffer self_destination local remote = elim (get_elem? buffer 0) [
  | none ↦ panic
  | some zero ↦ ok (local, remote)
  | some (suc n) ↦ (elim (get_elem? buffer 3) [
    | none ↦ panic
    | some destination ↦
        (if destination == 0
          then err master_dma_found
          else if ltb (length buffer) (suc n)
          then panic
          else (if destination == self_destination
              then record_loop fuel (drop (suc n) buffer) self_destination
                  (local ++ take (suc n) buffer) remote
              else record_loop fuel (drop (suc n) buffer) self_destination local
                  (put_remote destination (take (suc n) buffer) remote)))
  ])
]

unfoldable pub of_panic : {A : Type 0} → Result A → Outcome Error A
of_panic (ok a) = ok a
of_panic (err e) = elim e [ ]
of_panic panic = panic

-- The recorder's buffer, name and duration. `buffer.push(0)` ends the events.
unfoldable pub put_record :
    (address : ℕ) (buffer name : List ℕ) (duration self_destination : ℕ)
    → Manager
    → Outcome Error (ℕ × Manager)
unfolding record_loop of_panic
put_record address buffer name duration self_destination m = do
  (local, remote) ← record_loop (suc (length buffer)) (buffer ++ (0 ∷ [])) self_destination [] []
  entry ← of_panic (from_vec address local duration)
  key ← of_panic (id_of entry)
  ok (
    key,
    record m {
      entries = insert (self_destination, key) entry m.entries;
      remote_entries = insert key (Remote.new remote) m.remote_entries;
      name_map = insert name key m.name_map;
    },
  )

unfoldable pub is_idle : ManagerState → Bool
is_idle idle = true
is_idle playing = false

-- The manager after, and the register writes in their order.
unfoldable pub playback : ℕ → ℕ → ℕ → Manager → Outcome Error (Manager × List DmaWrite)
unfolding is_idle of_panic
playback source id timestamp m = do
  guard (is_idle m.state) playback_in_progress
  entry ← (elim (get (source, id) m.entries) [ none ↦ err id_not_found | some entry ↦ ok entry ])
  guard entry.complete entry_not_complete
  address ← of_panic (start entry)
  if address % 2 ^ 32 % 64 == 0
      then ok (
        record m { state = playing; current_id = id; current_source = source },
        base_address (address % 2 ^ 32) ∷ time_offset timestamp ∷ selected 1 ∷ enable 1 ∷ [],
      )
      else panic

-- The arguments are the registers: enable, error, error_channel and error_timestamp.
unfoldable pub check_state :
    (enabled error channel timestamp : ℕ) → Manager → Option RtioStatus × Manager × List DmaWrite
unfolding is_idle
check_state enabled error channel timestamp m =
    if is_idle m.state then (none, m, []) else if not (enabled == 0) then (none, m, []) else (
      some (record {
        source = m.current_source;
        id = m.current_id;
        error = error;
        channel = channel;
        timestamp = timestamp;
      }),
      record m { state = idle },
      selected 0 ∷ (if error == 0 then [] else error_clear 1 ∷ []),
    )

unfoldable pub running : Manager → Bool
unfolding is_idle
running m = not (is_idle m.state)

unfoldable pub has_remote : ℕ → Manager → Bool
has_remote id m = elim (get id m.remote_entries) [
  | none ↦ false
  | some traces ↦ has_remote_traces traces
]

-- The cast of the id to i32 is left out.
unfoldable pub retrieve : ℕ → List ℕ → Manager → Option (ℕ × ℕ × Bool)
unfolding has_remote
retrieve self_destination name m = elim (get name m.name_map) [
  | none ↦ none
  | some id ↦ (elim (get (self_destination, id) m.entries) [
    | none ↦ none
    | some entry ↦ some (id, entry.duration, has_remote id m)
  ])
]
