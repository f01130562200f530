-- ===== src/Drtioaux/RoutingTable/Hops.antt =====
-- src/libboard_artiq/src/drtio_routing.rs: what the hops of the tables are.
use madmax_artiq_zynq.Base.{
  ℕ, ◌<◌, ◌≡◌, refl, ◌∙◌, ◌&&◌, some, List, ◌==◌, if◌then◌else◌, length, get_elem?, set, replicate,
  arith, length-set, get_elem?-set, get_elem?-replicate, inl, inr, Bool-cases, length-replicate,
}
use madmax_artiq_zynq.Outcome.{ok}
use madmax_artiq_zynq.Drtioaux.RoutingTable.{
  RoutingTable, dest_count, max_hops, invalid_hop, hop, set_hop, default_empty,
}

-- The table has a row of max_hops entries for each destination.
pub record IsTable (table : RoutingTable) : Type 0 where
  pub rows : length table ≡ dest_count
  pub row :
      (i : ℕ) → i < dest_count → (r : List ℕ) × (get_elem? table i ≡ some r) × (length r ≡ max_hops)

pub default_empty-IsTable : IsTable default_empty
unfolding default_empty
default_empty-IsTable = record {
  rows = length-replicate dest_count (replicate max_hops invalid_hop);
  row = λ i h. (
    replicate max_hops invalid_hop,
    get_elem?-replicate dest_count i (replicate max_hops invalid_hop) h,
    length-replicate {A = ℕ} max_hops invalid_hop,
  );
}

module _ (table : RoutingTable) (i j v : ℕ) (r : List ℕ) (t : IsTable table) (hi : i < dest_count)
    (hj : j < max_hops) (e : get_elem? table i ≡ some r) (len : length r ≡ max_hops) where
  written : RoutingTable
  written = set table i (set r j v)

  write_ok : set_hop table i j v ≡ ok written
  unfolding set_hop written
  write_ok = rw e (ground arith)

  row_written :
      (a : ℕ) → get_elem? written a ≡ (if i == a then some (set r j v) else get_elem? table a)
  unfolding written
  row_written a = get_elem?-set table i a (set r j v) (omega (arith, t.rows))

  write_IsTable : IsTable written
  write_IsTable = record {
    rows = unfold written in length-set table i (set r j v) ∙ t.rows;
    row = λ a ha. elim (Bool-cases (i == a)) [
      | inl same ↦ (set r j v, row_written a ∙ rw same refl, length-set r j v ∙ len)
      | inr other ↦ ((t.row a ha).0, row_written a ∙ rw other ((t.row a ha).1), (t.row a ha).2)
    ];
  }

  write_hop : (a b : ℕ) → hop written a b ≡ (if (i == a) && (j == b) then ok v else hop table a b)
  unfolding hop
  write_hop a b = elim (Bool-cases (i == a)) [
    | inl same ↦
        rw (row_written a, same, get_elem?-set r j b v (omega (arith, len))) (ground (arith, e))
    | inr other ↦ rw (row_written a, other) refl
  ]

-- A write inside the table gives a table, in which that hop alone is changed.
pub set_hop_lem :
    (table : RoutingTable) (i j v : ℕ)
    → IsTable table
    → i < dest_count
    → j < max_hops
    → (table' : RoutingTable) × (set_hop table i j v ≡ ok table')
      × IsTable table'
      × ((a b : ℕ) → hop table' a b ≡ (if (i == a) && (j == b) then ok v else hop table a b))
set_hop_lem table i j v t hi hj =
    let (r, e, len) = t.row i hi in
    (
      written table i j v r t hi hj e len,
      write_ok table i j v r t hi hj e len,
      write_IsTable table i j v r t hi hj e len,
      write_hop table i j v r t hi hj e len,
    )
