-- ===== src/Drtioaux/RoutingTable.antt =====
-- src/libboard_artiq/src/drtio_routing.rs, with the feature has_drtio_routing: the table of hops, a row
-- for each destination and a column for each rank.
pub mod Hops
pub mod Defaults
use madmax_artiq_zynq.Base.{
  ℕ, zero, suc, ◌+◌, ◌*◌, ◌%◌, Option, none, some, List, [], ◌∷◌, ltb, ◌==◌, if◌then◌else◌, length,
  get_elem?, set, replicate,
}
use madmax_artiq_zynq.Outcome.{Outcome, ok, err, panic, ◌>>=◌}

abbrev pub dest_count : ℕ
dest_count = 256

abbrev pub max_hops : ℕ
max_hops = 32

abbrev pub invalid_hop : ℕ
invalid_hop = 0xff

abbrev pub RoutingTable : Type 0
RoutingTable = List (List ℕ)

-- Nothing here returns an error, but an index out of range panics.
abbrev pub Result : Type 0 → Type 0
Result = Outcome ⊥

abbrev pub or_panic : {A : Type 0} → Option A → Result A
or_panic none = panic
or_panic (some a) = ok a

-- `table.0[destination][rank]`
unfoldable pub hop : RoutingTable → ℕ → ℕ → Result ℕ
hop table destination rank = do
  row ← or_panic (get_elem? table destination)
  or_panic (get_elem? row rank)

-- `table.0[destination][rank] = value`
unfoldable pub set_hop : RoutingTable → ℕ → ℕ → ℕ → Result RoutingTable
set_hop table destination rank value = do
  row ← or_panic (get_elem? table destination)
  if ltb rank (length row) then ok (set table destination (set row rank value)) else panic

unfoldable pub default_empty : RoutingTable
default_empty = replicate dest_count (replicate max_hops invalid_hop)

-- `for i in i..i + rounds { ret.0[i][0] = i as u8; }`
unfoldable pub local_loop : ℕ → ℕ → RoutingTable → Result RoutingTable
local_loop zero i table = ok table
local_loop (suc rounds) i table = do
  table' ← set_hop table i 0 (i % 256)
  local_loop rounds (i + 1) table'

-- `for i in i..i + rounds { ret.0[i][1] = 0x00; }`
unfoldable pub remote_loop : ℕ → ℕ → RoutingTable → Result RoutingTable
remote_loop zero i table = ok table
remote_loop (suc rounds) i table = do
  table' ← set_hop table i 1 0
  remote_loop rounds (i + 1) table'

unfoldable pub default_master : ℕ → Result RoutingTable
default_master default_n_links = do
  table ← local_loop (default_n_links + 1) 0 default_empty
  remote_loop default_n_links 1 table

-- `for j in j..j + rounds { ret.0[i][j] = data[i * MAX_HOPS + j]; }`
unfoldable pub row_loop : List ℕ → ℕ → ℕ → ℕ → RoutingTable → Result RoutingTable
row_loop bytes i zero j table = ok table
row_loop bytes i (suc rounds) j table = do
  value ← or_panic (get_elem? bytes (i * max_hops + j))
  table' ← set_hop table i j value
  row_loop bytes i rounds (j + 1) table'

unfoldable pub table_loop : List ℕ → ℕ → ℕ → RoutingTable → Result RoutingTable
table_loop bytes zero i table = ok table
table_loop bytes (suc rounds) i table = do
  table' ← row_loop bytes i max_hops 0 table
  table_loop bytes rounds (i + 1) table'

-- The argument is what the configuration holds under "routing_table", if it can be read.
unfoldable pub config_routing_table : Option (List ℕ) → ℕ → Result RoutingTable
config_routing_table none default_n_links = default_master default_n_links
config_routing_table (some bytes) default_n_links = do
  table ← default_master default_n_links
  if length bytes == dest_count * max_hops then table_loop bytes dest_count 0 table else ok table

-- The writes to the gateware's routing table: a destination and its hop, newest first.
unfoldable pub interconnect_enable : RoutingTable → ℕ → ℕ → List (ℕ × ℕ) → Result (List (ℕ × ℕ))
interconnect_enable table rank destination writes = do
  value ← hop table destination rank
  ok ((destination, value) ∷ writes)

unfoldable pub interconnect_disable : ℕ → List (ℕ × ℕ) → List (ℕ × ℕ)
interconnect_disable destination writes = (destination, invalid_hop) ∷ writes

unfoldable pub enable_loop : RoutingTable → ℕ → ℕ → ℕ → List (ℕ × ℕ) → Result (List (ℕ × ℕ))
enable_loop table rank zero i writes = ok writes
enable_loop table rank (suc rounds) i writes = do
  writes' ← interconnect_enable table rank (i % 256) writes
  enable_loop table rank rounds (i + 1) writes'

unfoldable pub interconnect_enable_all : RoutingTable → ℕ → List (ℕ × ℕ) → Result (List (ℕ × ℕ))
interconnect_enable_all table rank writes = enable_loop table rank dest_count 0 writes

unfoldable pub disable_loop : ℕ → ℕ → List (ℕ × ℕ) → List (ℕ × ℕ)
disable_loop zero i writes = writes
disable_loop (suc rounds) i writes =
    disable_loop rounds (i + 1) (interconnect_disable (i % 256) writes)

unfoldable pub interconnect_disable_all : List (ℕ × ℕ) → List (ℕ × ℕ)
interconnect_disable_all writes = disable_loop dest_count 0 writes
