-- ===== src/Tests/Dma.antt =====
-- The DMA manager of the satellite at concrete inputs.
use madmax_artiq_zynq.Base.{
  ℕ, ◌+◌, ◌<◌, ◌≡◌, ◌≢◌, refl, true, false, some, List, [], ◌∷◌, ◌++◌, length, take, drop, set,
  replicate, arith, All,
}
use madmax_artiq_zynq.Outcome.{ok}
use madmax_artiq_zynq.TreeMap.{get, insert, pairs, numbers, names}
use madmax_artiq_zynq.Drtioaux.Payload.{master_payload_max_size, first_and_last, is_first, is_last}
use madmax_artiq_zynq.Satman.Messages.{front}
use madmax_artiq_zynq.Satman.Sliceable.{Sliceable}
use madmax_artiq_zynq.Satman.Sliceable
use madmax_artiq_zynq.Satman.Sliceable.Slices.{slices}
use madmax_artiq_zynq.Satman.Dma.Entry.{Entry, alignment, realign, empty, padding_for, shift_loop}
use madmax_artiq_zynq.Satman.Dma.Realign.{Plays, realign_lem}
use madmax_artiq_zynq.Satman.Dma.Remote
use madmax_artiq_zynq.Satman.Dma.Manager.{Manager, add, open_entry, playback, put_record, is_idle}
use madmax_artiq_zynq.Satman.Dma.Manager
use madmax_artiq_zynq.Satman.Dma.Upload.{Holds, add_all, add_all-Splits, add_all-slices}
use madmax_artiq_zynq.Satman.Dma.Reachable.{Reachable, initial, later, added}
use madmax_artiq_zynq.Satman.Dma.Playback.{promised, playback-promised}
use madmax_artiq_zynq.Satman.Dma.Record.{joined, only, bytes_of, IsEvent, put_record-only}
use madmax_artiq_zynq.Tests.Satman.{two_slices, two_slices-Splits}

-- A trace of three bytes.
abbrev three : Entry
three = record {
  trace = 1 ∷ 2 ∷ 3 ∷ [];
  address = 1000;
  padding_len = 0;
  complete = false;
  duration = 0;
}

realign_lem_example :
    (realigned : Entry) × (realign 1000 three ≡ ok realigned)
    × Plays realigned (three.trace ++ (0 ∷ []))
    × (realigned.padding_len < alignment)
    × (length realigned.trace ≡ length three.trace + 1 + realigned.padding_len)
    × (realigned.duration ≡ three.duration)
realign_lem_example = realign_lem 1000 three

add_all-Splits_example :
    (m' : Manager) × (stored : Entry) × (add_all 2 6 (λ n. n) (λ n. n + 77) 0 two_slices Manager.new
      ≡ ok m')
    × Holds (2, 6) stored Manager.new m'
    × Plays stored (7 ∷ 8 ∷ 9 ∷ 0 ∷ [])
add_all-Splits_example =
    add_all-Splits 2 6 (λ n. n) (λ n. n + 77) (7 ∷ 8 ∷ 9 ∷ []) two_slices Manager.new
      two_slices-Splits

-- A manager with one trace, of the byte 9, moved up by two places.
abbrev one_trace : Manager
one_trace = record {
  entries =
      (
        (1, 5),
        record {
          trace = 9 ∷ 0 ∷ 9 ∷ 0 ∷ [];
          address = 254;
          padding_len = 2;
          complete = true;
          duration = 0;
        },
      )
      ∷ [];
  state = Manager.idle;
  current_id = 0;
  current_source = 0;
  remote_entries = [];
  name_map = [];
}

add-one_trace : add 30 254 1 5 first_and_last (9 ∷ []) 1 Manager.new ≡ ok one_trace
unfolding add open_entry front realign shift_loop padding_for insert get Manager.new empty is_first
    is_last take drop set replicate
add-one_trace = refl

one_trace-Reachable : Reachable one_trace
one_trace-Reachable = later initial (added 30 254 1 5 first_and_last (9 ∷ []) 1 add-one_trace)

playback-promised_example :
    playback 1 5 4000 one_trace
    ≡ promised 1 5 4000 (is_idle one_trace.state) (get (1, 5) one_trace.entries) one_trace
playback-promised_example = playback-promised 1 5 4000 one_trace one_trace-Reachable

-- An event for satellite 3, one for satellite 1 and another for satellite 3.
abbrev events : List (ℕ × List ℕ)
events = (3, 5 ∷ 1 ∷ 2 ∷ 3 ∷ 9 ∷ []) ∷ (1, 4 ∷ 7 ∷ 7 ∷ 1 ∷ []) ∷ (3, 4 ∷ 6 ∷ 6 ∷ 3 ∷ []) ∷ []

events_valid : All IsEvent events
events_valid =
    ((refl, refl, omega arith), ((refl, refl, omega arith), ((refl, refl, omega arith), tt)))

put_record-only_example :
    (id : ℕ) × (m' : Manager) × (entry : Entry) × (remote : List (ℕ × Sliceable)) × (put_record 300
        (joined events)
        (97 ∷ [])
        8
        1
        Manager.new
      ≡ ok (id, m'))
    × (get (1, id) m'.entries ≡ some entry)
    × Plays entry (only 1 events ++ (0 ∷ []))
    × (get id m'.remote_entries ≡ some (Remote.new remote))
    × ((d : ℕ) → d ≢ 1 → bytes_of (get d remote) ≡ only d events)
    × (get (97 ∷ []) m'.name_map ≡ some id)
put_record-only_example = put_record-only 300 events (97 ∷ []) 8 1 Manager.new events_valid

add_all-slices_example :
    (m' : Manager) × (stored : Entry) × (add_all 2 6
        (λ n. n)
        (λ n. n + 77)
        0
        (slices master_payload_max_size
          (length {A = ℕ} (4 ∷ 5 ∷ []) + 1)
          (Sliceable.new 3 (4 ∷ 5 ∷ [])))
        one_trace
      ≡ ok m')
    × Holds (2, 6) stored one_trace m'
    × Plays stored (4 ∷ 5 ∷ 0 ∷ [])
add_all-slices_example = add_all-slices 2 6 (λ n. n) (λ n. n + 77) 3 (4 ∷ 5 ∷ []) one_trace
