-- ===== src/Tests/Recorder.antt =====
-- A recording at concrete calls.
use madmax_artiq_zynq.Base.{ℕ, ◌≡◌, ◌≢◌, ◌++◌, some, List, [], ◌∷◌, All, map, arith}
use madmax_artiq_zynq.Outcome.{ok}
use madmax_artiq_zynq.TreeMap.{get, pairs, numbers}
use madmax_artiq_zynq.Satman.Sliceable.{Sliceable}
use madmax_artiq_zynq.Satman.Dma.Entry.{Entry}
use madmax_artiq_zynq.Satman.Dma.Realign.{Plays}
use madmax_artiq_zynq.Satman.Dma.Remote
use madmax_artiq_zynq.Satman.Dma.Manager.{Manager, put_record}
use madmax_artiq_zynq.Satman.Dma.Manager
use madmax_artiq_zynq.Satman.Dma.Record.{only, bytes_of}
use madmax_artiq_zynq.Recorder.{byte}
use madmax_artiq_zynq.Recorder.Events.{
  Output, narrow, wide, outputs, event_of, IsSatelliteOutput, put_record-outputs,
}

-- A call for satellite 1 and one for satellite 3.
abbrev calls : List Output
calls = narrow 1000 0x01000203 7 ∷ wide 2000 0x03000105 (8 ∷ 9 ∷ []) ∷ []

calls_valid : All IsSatelliteOutput calls
unfolding byte
calls_valid = (omega arith, ((omega arith, omega arith), tt))

put_record-outputs_example :
    (buffer : List ℕ) × (id : ℕ) × (m' : Manager) × (entry : Entry) × (remote : List
      (ℕ × Sliceable))
    × (outputs calls [] ≡ ok buffer)
    × (put_record 500 buffer (97 ∷ []) 30 1 Manager.new ≡ ok (id, m'))
    × (get (1, id) m'.entries ≡ some entry)
    × Plays entry (only 1 (map event_of calls) ++ (0 ∷ []))
    × (get id m'.remote_entries ≡ some (Remote.new remote))
    × ((d : ℕ) → d ≢ 1 → bytes_of (get d remote) ≡ only d (map event_of calls))
put_record-outputs_example = put_record-outputs calls 500 (97 ∷ []) 30 1 Manager.new calls_valid
