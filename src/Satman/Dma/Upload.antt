-- ===== src/Satman/Dma/Upload.antt =====
-- src/satman/src/dma.rs: the slices of a trace, added one after the other.
use madmax_artiq_zynq.Base.{
  ℕ, ◌+◌, ◌≤◌, ◌≡◌, refl, ap, ◌∙◌, inl, inr, Bool, true, false, Option, none, some, List, [], ◌∷◌,
  ◌++◌, length, take, drop, append_assoc, arith,
}
use madmax_artiq_zynq.Outcome.{ok, ◌>>=◌}
use madmax_artiq_zynq.TreeMap.{get, insert, pairs, get-insert, get-insert_other}
use madmax_artiq_zynq.Drtioaux.Payload.{
  PayloadStatus, from_status, is_first, is_last, master_payload_max_size,
}
use madmax_artiq_zynq.Drtioaux.RoutingTable.{Result}
use madmax_artiq_zynq.Satman.Messages.Incoming.{front_ok}
use madmax_artiq_zynq.Satman.Sliceable.Slices.{
  is_last-from_status, Slice, Splits, slices, slices-Splits,
}
use madmax_artiq_zynq.Satman.Sliceable
use madmax_artiq_zynq.Satman.Dma.Entry.{Entry, empty}
use madmax_artiq_zynq.Satman.Dma.Realign.{Plays, realign_lem}
use madmax_artiq_zynq.Satman.Dma.Manager.{Manager, open_entry, add}

-- The map holds this entry under the key, and what it held under every other.
pub record Holds (key : ℕ × ℕ) (entry : Entry) (m m' : Manager) : Type 0 where
  pub held : get key m'.entries ≡ some entry
  pub others :
      (other : ℕ × ℕ) → pairs.same other key ≡ false → get other m'.entries ≡ get other m.entries
  pub same_state : m'.state ≡ m.state

module _ (source id : ℕ) (extended reserved : ℕ → ℕ) where
  -- The packets of a trace, added in order; round n gets the addresses of n.
  unfoldable pub add_all : ℕ → List Slice → Manager → Result Manager
  add_all n [] m = ok m
  add_all n ((meta, bytes) ∷ slices) m = do
    m' ← add (extended n) (reserved n) source id meta.status bytes meta.len m
    add_all (n + 1) slices m'

  -- The entry with the bytes of a slice.
  abbrev grown : ℕ → List ℕ → Entry → Entry
  grown n used entry = record entry { trace = entry.trace ++ used; address = extended n }

  add_more :
      (n : ℕ) (status : PayloadStatus) (bytes : List ℕ) (len : ℕ) (m : Manager) (entry : Entry)
      → len ≤ length bytes
      → is_last status ≡ false
      → open_entry (get (source, id) m.entries) status ≡ entry
      → add (extended n) (reserved n) source id status bytes len m
        ≡ ok (record m { entries = insert (source, id) (grown n (take len bytes) entry) m.entries })
  unfolding add
  add_more n status bytes len m entry fits more opens =
      rw (front_ok bytes len fits, more, opens) refl

  add_last :
      (n : ℕ) (status : PayloadStatus) (bytes : List ℕ) (len : ℕ) (m : Manager) (entry : Entry)
      → len ≤ length bytes
      → is_last status ≡ true
      → open_entry (get (source, id) m.entries) status ≡ entry
      → (stored : Entry) × (add (extended n) (reserved n) source id status bytes len m
          ≡ ok (record m { entries = insert (source, id) stored m.entries }))
        × Plays stored ((entry.trace ++ take len bytes) ++ (0 ∷ []))
  unfolding add
  add_last n status bytes len m entry fits last opens =
      let (stored, e, plays, padding, len_eq, duration) =
        realign_lem (reserved n) (grown n (take len bytes) entry) in
      (stored, rw (front_ok bytes len fits, last, opens, e) refl, plays)

  stored_Holds :
      (entry : Entry) (m : Manager)
      → Holds (source, id) entry m (record m { entries = insert (source, id) entry m.entries })
  stored_Holds entry m = record {
    held = get-insert (source, id) entry m.entries;
    others = λ other ne. get-insert_other other (source, id) entry m.entries ne;
    same_state = refl;
  }

  -- An incomplete entry takes the slices that are not marked first.
  goes_on :
      (entry : Entry) (last : Bool)
      → entry.complete ≡ false
      → open_entry (some entry) (from_status false last) ≡ entry
  unfolding open_entry is_first from_status
  goes_on entry true e = rw e refl
  goes_on entry false e = rw e refl

  add_all_lem :
      (n : ℕ) (first : Bool) (content : List ℕ) (slices : List Slice) (m : Manager) (entry : Entry)
      → Splits master_payload_max_size first content slices
      → ((last : Bool) → open_entry (get (source, id) m.entries) (from_status first last) ≡ entry)
      → entry.complete ≡ false
      → (m' : Manager) × (stored : Entry) × (add_all n slices m ≡ ok m')
        × Holds (source, id) stored m m'
        × Plays stored ((entry.trace ++ content) ++ (0 ∷ []))
  unfolding add_all
  add_all_lem n first content [] m entry split opens unended = absurd split
  add_all_lem n first content ((meta, bytes) ∷ slices) m entry
        (short, sized, inl (status, ended, used)) opens unended =
      let (stored, e, plays) =
        add_last n meta.status bytes meta.len m entry (omega arith)
          (ap is_last status ∙ is_last-from_status first true)
          (ap (open_entry (get (source, id) m.entries)) status ∙ opens true) in
      (
        record m { entries = insert (source, id) stored m.entries },
        stored,
        rw (e, ended) refl,
        stored_Holds stored m,
        rw (← used) plays,
      )
  add_all_lem n first content ((meta, bytes) ∷ slices) m entry
        (short, sized, inr (rest, status, pos, joined, split)) opens unended =
      let next = grown n (take meta.len bytes) entry in
      let m1 = record m { entries = insert (source, id) next m.entries } in
      let (m', stored, e, holds, plays) =
        add_all_lem (n + 1) false rest slices m1 next split
          (λ last.
            ap (λ o. open_entry o (from_status false last)) (get-insert (source, id) next m.entries)
            ∙ goes_on next last unended)
          unended in
      (
        m',
        stored,
        rw
            (add_more n meta.status bytes meta.len m entry (omega arith)
              (ap is_last status ∙ is_last-from_status first false)
              (ap (open_entry (get (source, id) m.entries)) status ∙ opens false))
            e,
        record {
          held = holds.held;
          others = λ other ne.
              holds.others other ne ∙ get-insert_other other (source, id) next m.entries ne;
          same_state = holds.same_state;
        },
        rw (joined, ← append_assoc entry.trace (take meta.len bytes) rest) plays,
      )

  starts_empty : (o : Option Entry) (last : Bool) → open_entry o (from_status true last) ≡ empty
  unfolding open_entry is_first from_status
  starts_empty none last = refl
  starts_empty (some entry) true = ground arith
  starts_empty (some entry) false = ground arith

  -- The slices of a trace, added in order, whatever was held under its source and id and wherever the
  -- allocator puts the bytes: the calls succeed, the manager holds a complete entry whose aligned trace is
  -- the data followed by a zero byte, and every other entry is as it was.
  pub add_all-Splits :
      (content : List ℕ) (slices : List Slice) (m : Manager)
      → Splits master_payload_max_size true content slices
      → (m' : Manager) × (stored : Entry) × (add_all 0 slices m ≡ ok m')
        × Holds (source, id) stored m m'
        × Plays stored (content ++ (0 ∷ []))
  unfolding empty
  add_all-Splits content slices m split =
      add_all_lem 0 true content slices m empty split (starts_empty (get (source, id) m.entries))
        refl

  -- A trace that is sent slice by slice and added in that order on the other side: whatever was held there
  -- under its source and id, there is a complete entry whose aligned trace is the data that was sent, followed
  -- by a zero byte, and every other entry is as it was.
  pub add_all-slices :
      (destination : ℕ) (content : List ℕ) (m : Manager)
      → (m' : Manager) × (stored : Entry) × (add_all 0
            (slices master_payload_max_size
              (length content + 1)
              (Sliceable.new destination content))
            m
          ≡ ok m')
        × Holds (source, id) stored m m'
        × Plays stored (content ++ (0 ∷ []))
  unfolding Sliceable.new drop
  add_all-slices destination content m = add_all-Splits content _ m (
      slices-Splits master_payload_max_size (length content + 1) (Sliceable.new destination content)
        (omega arith) (omega arith) (omega arith) (omega arith))
