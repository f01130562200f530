-- ===== src/Satman/Dma/Entry.antt =====
-- src/satman/src/dma.rs, Entry: a DMA trace in memory, moved up to an address that the gateware can read
-- from. The address of the vector is the allocator's choice, and so an argument wherever it can change.
use madmax_artiq_zynq.Base.{
  ℕ, zero, suc, ◌+◌, ◌-◌, ◌%◌, ◌^◌, Bool, true, false, List, [], ◌∷◌, ◌++◌, ltb, ◌==◌,
  if◌then◌else◌, length, get_elem?, set, replicate,
}
use madmax_artiq_zynq.Outcome.{ok, panic, ◌>>=◌}
use madmax_artiq_zynq.Drtioaux.RoutingTable.{Result, or_panic}

abbrev pub alignment : ℕ
alignment = 64

-- `address` is `trace.as_ptr()`.
pub record Entry : Type 0 where
  pub trace : List ℕ
  pub address : ℕ
  pub padding_len : ℕ
  pub complete : Bool
  pub duration : ℕ

-- `Vec::new()` points to no memory, but at the alignment of its elements.
unfoldable pub empty : Entry
empty = record { trace = []; address = 1; padding_len = 0; complete = false; duration = 0 }

unfoldable pub padding_for : ℕ → ℕ
padding_for address =
    let padding = alignment - address % alignment in if padding == alignment then 0 else padding

-- `for i in i..i + rounds { trace[data_len + padding - i] = trace[data_len - i] }`
unfoldable pub shift_loop : ℕ → ℕ → ℕ → ℕ → List ℕ → Result (List ℕ)
shift_loop data_len padding zero i trace = ok trace
shift_loop data_len padding (suc rounds) i trace = do
  byte ← or_panic (get_elem? trace (data_len - i))
  shifted ←
      (if ltb (data_len + padding - i) (length trace)
        then ok (set trace (data_len + padding - i) byte)
        else panic)
  shift_loop data_len padding rounds (i + 1) shifted

-- `address` is that of the vector after `reserve`. The cache flush at the end changes no data.
unfoldable pub realign : ℕ → Entry → Result Entry
realign address entry = do
  let trace = entry.trace ++ (0 ∷ [])
  let data_len = length trace
  let padding = padding_for address
  shifted ← shift_loop data_len padding data_len 1 (trace ++ replicate padding 0)
  ok (record entry { trace = shifted; address = address; complete = true; padding_len = padding })

unfoldable pub from_vec : ℕ → List ℕ → ℕ → Result Entry
unfolding realign
from_vec address bytes duration = realign address (record {
  trace = bytes;
  address = address;
  padding_len = 0;
  complete = true;
  duration = duration;
})

-- Where the trace proper starts.
unfoldable pub pointer : Entry → ℕ
pointer entry = entry.address + entry.padding_len

-- `trace[padding_len..].as_ptr()`
unfoldable pub start : Entry → Result ℕ
unfolding pointer
start entry = if ltb (length entry.trace) entry.padding_len then panic else ok (pointer entry)

-- `id()`
unfoldable pub id_of : Entry → Result ℕ
unfolding start
id_of entry = do address ← start entry; ok (address % 2 ^ 32)
