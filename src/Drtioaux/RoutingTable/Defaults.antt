-- ===== src/Drtioaux/RoutingTable/Defaults.antt =====
-- src/libboard_artiq/src/drtio_routing.rs: the default table of the master, and the configured one.
use madmax_artiq_zynq.Base.{
  ℕ, zero, suc, ◌+◌, ◌*◌, ◌%◌, ◌≤◌, ◌<◌, ◌≡◌, refl, ◌&&◌, some, List, ltb, leb, ◌==◌, if◌then◌else◌,
  length, get_elem?, replicate, arith, get_elem?-replicate, get_elem?-some, inl, inr, Bool-cases,
  ==_iff,
}
use madmax_artiq_zynq.Outcome.{ok}
use madmax_artiq_zynq.Drtioaux.RoutingTable.{
  RoutingTable, Result, or_panic, dest_count, max_hops, invalid_hop, hop, default_empty, local_loop,
  remote_loop, default_master, row_loop, table_loop, config_routing_table,
}
use madmax_artiq_zynq.Drtioaux.RoutingTable.Hops.{IsTable, default_empty-IsTable, set_hop_lem}

-- The call succeeds with a table whose hops are these.
abbrev Gives : Result RoutingTable → (ℕ → ℕ → Result ℕ) → Type 0
Gives r hops =
    (table : RoutingTable) × (r ≡ ok table) × IsTable table × ((a b : ℕ) → hop table a b ≡ hops a b)

local_loop_lem :
    (rounds i : ℕ) (table : RoutingTable)
    → IsTable table
    → i + rounds ≤ dest_count
    → Gives
        (local_loop rounds i table)
        (λ a b. if (leb i a && ltb a (i + rounds)) && (b == 0) then ok a else hop table a b)
unfolding local_loop
local_loop_lem zero i table t fits = (table, refl, t, λ a b. ground arith)
local_loop_lem (suc rounds) i table t fits =
    let (table1, e1, t1, h1) = set_hop_lem table i 0 (i % 256) t (omega arith) (omega arith) in
    let (table2, e2, t2, h2) = local_loop_lem rounds (i + 1) table1 t1 (omega arith) in
    (table2, rw e1 e2, t2, λ a b. ground (arith, h1 a b, h2 a b))

remote_loop_lem :
    (rounds i : ℕ) (table : RoutingTable)
    → IsTable table
    → i + rounds ≤ dest_count
    → Gives
        (remote_loop rounds i table)
        (λ a b. if (leb i a && ltb a (i + rounds)) && (b == 1) then ok 0 else hop table a b)
unfolding remote_loop
remote_loop_lem zero i table t fits = (table, refl, t, λ a b. ground arith)
remote_loop_lem (suc rounds) i table t fits =
    let (table1, e1, t1, h1) = set_hop_lem table i 1 0 t (omega arith) (omega arith) in
    let (table2, e2, t2, h2) = remote_loop_lem rounds (i + 1) table1 t1 (omega arith) in
    (table2, rw e1 e2, t2, λ a b. ground (arith, h1 a b, h2 a b))

module _ (bytes : List ℕ) (sized : length bytes ≡ dest_count * max_hops) where
  row_loop_lem :
      (i rounds j : ℕ) (table : RoutingTable)
      → IsTable table
      → i < dest_count
      → j + rounds ≤ max_hops
      → Gives (row_loop bytes i rounds j table) (λ a b.
        if (i == a) && (leb j b && ltb b (j + rounds))
        then or_panic (get_elem? bytes (a * max_hops + b))
        else hop table a b)
  unfolding row_loop
  row_loop_lem i zero j table t hi fits = (table, refl, t, λ a b. ground arith)
  row_loop_lem i (suc rounds) j table t hi fits =
      let (value, e0) = get_elem?-some bytes (i * max_hops + j) (omega (arith, sized)) in
      let (table1, e1, t1, h1) = set_hop_lem table i j value t hi (omega arith) in
      let (table2, e2, t2, h2) = row_loop_lem i rounds (j + 1) table1 t1 hi (omega arith) in
      (table2, rw (e0, e1) e2, t2, λ a b. ground (arith, h1 a b, h2 a b, e0))

  table_loop_lem :
      (rounds i : ℕ) (table : RoutingTable)
      → IsTable table
      → i + rounds ≤ dest_count
      → Gives (table_loop bytes rounds i table) (λ a b.
        if (leb i a && ltb a (i + rounds)) && ltb b max_hops
        then or_panic (get_elem? bytes (a * max_hops + b))
        else hop table a b)
  unfolding table_loop
  table_loop_lem zero i table t fits = (table, refl, t, λ a b. ground arith)
  table_loop_lem (suc rounds) i table t fits =
      let (table1, e1, t1, h1) = row_loop_lem i max_hops 0 table t (omega arith) (omega arith) in
      let (table2, e2, t2, h2) = table_loop_lem rounds (i + 1) table1 t1 (omega arith) in
      (table2, rw e1 e2, t2, λ a b. ground (arith, h1 a b, h2 a b))

hop-default_empty :
    (a b : ℕ) → a < dest_count → b < max_hops → hop default_empty a b ≡ ok invalid_hop
unfolding hop default_empty
hop-default_empty a b ha hb =
    rw
      (
        get_elem?-replicate dest_count a (replicate max_hops invalid_hop) ha,
        get_elem?-replicate max_hops b invalid_hop hb,
      )
      refl

-- The hop of the star topology: destination a is reached from the master over its link a, and is itself
-- at rank 1; the rest is invalid.
abbrev pub star_hop : ℕ → ℕ → ℕ → ℕ
star_hop n_links a b =
    if (b == 0) && leb a n_links
    then a
    else if (b == 1) && (leb 1 a && leb a n_links)
    then 0
    else invalid_hop

default_master_lem :
    (n : ℕ)
    → n < dest_count
    → Gives (default_master n) (λ a b.
      if (leb 1 a && ltb a (1 + n)) && (b == 1)
      then ok 0
      else if (leb 0 a && ltb a (0 + (n + 1))) && (b == 0)
      then ok a
      else hop default_empty a b)
unfolding default_master
default_master_lem n h =
    let (table1, e1, t1, h1) =
      local_loop_lem (n + 1) 0 default_empty default_empty-IsTable (omega arith) in
    let (table2, e2, t2, h2) = remote_loop_lem n 1 table1 t1 (omega arith) in
    (table2, rw e1 e2, t2, λ a b. ground (arith, h1 a b, h2 a b))

-- With fewer than 256 links the default table of the master is built, and it is that of a star: the
-- master reaches destination a over link a, a satellite of rank 1 is the destination itself, and every
-- other hop is invalid.
pub default_master_star :
    (n a b : ℕ)
    → n < dest_count
    → a < dest_count
    → b < max_hops
    → (table : RoutingTable) × (default_master n ≡ ok table) × (hop table a b ≡ ok (star_hop n a b))
default_master_star n a b h ha hb =
    let (table, e, t, hops) = default_master_lem n h in
    (table, e, ground (arith, hops a b, hop-default_empty a b ha hb))

-- A configured table of the right length replaces the default entry by entry, and one of any other
-- length leaves the default.
pub config_routing_table_hops :
    (bytes : List ℕ) (n a b : ℕ)
    → n < dest_count
    → a < dest_count
    → b < max_hops
    → (table : RoutingTable) × (config_routing_table (some bytes) n ≡ ok table)
      × (hop table a b ≡ (
          if length bytes == dest_count * max_hops
          then or_panic (get_elem? bytes (a * max_hops + b))
          else ok (star_hop n a b)))
unfolding config_routing_table
config_routing_table_hops bytes n a b h ha hb =
    let (table, e, t, hops) = default_master_lem n h in
    elim (Bool-cases (length bytes == dest_count * max_hops)) [
      | inl same ↦
          let (table', e', t', hops') =
            table_loop_lem bytes ((==_iff _ _).0 same) dest_count 0 table t (omega arith) in
          (table', rw (e, same) e', rw same (ground (arith, hops' a b)))
      | inr other ↦ (
        table,
        rw (e, other) refl,
        rw other (ground (arith, hops a b, hop-default_empty a b ha hb)),
      )
    ]
