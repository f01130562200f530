-- ===== src/Satman/Analyzer.antt =====
-- src/satman/src/analyzer.rs: the buffer of the analyzer, a ring that the gateware fills, read out in
-- slices. The buffer's contents and its address are arguments; register writes are returned in their
-- order.
pub mod Ring
pub mod Drain
use madmax_artiq_zynq.Base.{
  ℕ, ◌+◌, ◌-◌, ◌*◌, ◌%◌, ◌^◌, min, Bool, true, false, not, ◌||◌, ◌&&◌, List, [], ◌∷◌, ◌++◌, ltb,
  leb, ◌==◌, if◌then◌else◌, length, take, drop,
}
use madmax_artiq_zynq.Outcome.{Outcome, ok, err, panic, ◌>>=◌}
use madmax_artiq_zynq.Drtioaux.Payload.{sat_payload_max_size}
use madmax_artiq_zynq.Drtioaux.RoutingTable.{Result}

abbrev pub buffer_size : ℕ
buffer_size = 512 * 1024

pub data AnalyzerWrite : Type 0 where
  dma_base_address overflow_reset dma_last_address dma_reset enable : ℕ → AnalyzerWrite

unfoldable pub arm : ℕ → List AnalyzerWrite
arm address =
    dma_base_address (address % 2 ^ 32)
    ∷ overflow_reset 1
    ∷ dma_last_address ((address + buffer_size - 1) % 2 ^ 32)
    ∷ dma_reset 1
    ∷ enable 1
    ∷ []

-- After the wait for the gateware; the cache flush changes no data.
unfoldable pub disarm : List AnalyzerWrite
disarm = enable 0 ∷ []

pub record Analyzer : Type 0 where
  pub data_len : ℕ
  pub sent_bytes : ℕ
  pub data_pointer : ℕ

pub record Header : Type 0 where
  pub total_byte_count : ℕ
  pub sent_bytes : ℕ
  pub error : Bool

pub record AnalyzerSliceMeta : Type 0 where
  pub len : ℕ
  pub last : Bool

unfoldable pub new : ℕ → Analyzer × List AnalyzerWrite
unfolding arm
new address = (record { data_len = 0; sent_bytes = 0; data_pointer = 0 }, arm address)

-- The arguments are what the registers hold: overflow, bus error and byte count. The analyzer before goes.
unfoldable pub get_header :
    (overflow bus_err total_byte_count : ℕ) → Header × Analyzer × List AnalyzerWrite
unfolding disarm
get_header overflow bus_err total_byte_count =
    let wraparound = leb buffer_size total_byte_count in
    let data_len = if wraparound then buffer_size else total_byte_count in
    (
      record {
        total_byte_count = total_byte_count;
        sent_bytes = data_len % 2 ^ 32;
        error = not (overflow == 0) || not (bus_err == 0);
      },
      record {
        data_len = data_len;
        sent_bytes = 0;
        data_pointer = if wraparound then total_byte_count % buffer_size else 0;
      },
      disarm,
    )

-- `bytes[from..to]`
unfoldable pub range : List ℕ → ℕ → ℕ → Result (List ℕ)
range bytes from to =
    if leb from to && leb to (length bytes) then ok (take (to - from) (drop from bytes)) else panic

-- `bytes[from..to].clone_from_slice(source)`
unfoldable pub clone_from_slice : List ℕ → ℕ → ℕ → List ℕ → Result (List ℕ)
clone_from_slice bytes from to source =
    if (leb from to && leb to (length bytes)) && (to - from == length source)
    then ok (take from bytes ++ (source ++ drop to bytes))
    else panic

-- The copy of `get_data` from position `i` of the ring.
unfoldable pub copy_ring : List ℕ → ℕ → ℕ → List ℕ → Result (List ℕ)
copy_ring buffer i len data_slice =
    if leb buffer_size (i + len)
    then (do
      end ← range buffer i buffer_size
      first ← clone_from_slice data_slice 0 (buffer_size - i) end
      start ← range buffer 0 ((i + len) % buffer_size)
      clone_from_slice first (buffer_size - i) len start)
    else (do middle ← range buffer i (i + len); clone_from_slice data_slice 0 len middle)

-- The sent bytes never exceed the length, where the source's subtraction would wrap.
unfoldable pub get_data :
    (address : ℕ) (buffer : List ℕ)
    → Analyzer
    → List ℕ
    → Result (AnalyzerSliceMeta × List ℕ × Analyzer × List AnalyzerWrite)
unfolding copy_ring arm
get_data address buffer a data_slice = do
  let i = (a.data_pointer + a.sent_bytes) % buffer_size
  let len = min sat_payload_max_size (a.data_len - a.sent_bytes)
  let last = a.sent_bytes + len == a.data_len
  copied ← copy_ring buffer i len data_slice
  ok (
    record { len = len % 2 ^ 16; last = last },
    copied,
    record a { sent_bytes = a.sent_bytes + len },
    if last then arm address else [],
  )
