-- ===== src/Satman/Dma/Playback.antt =====
-- src/satman/src/dma.rs: the answer to a request for playback.
use madmax_artiq_zynq.Base.{
  ℕ, ◌%◌, ◌^◌, ◌≡◌, refl, inl, inr, Bool, true, false, Option, none, some, List, [], ◌∷◌,
  if◌then◌else◌, length, Bool-cases, Option-cases, arith, ==_iff, le→ltb_false,
}
use madmax_artiq_zynq.Outcome.{Outcome, ok, err}
use madmax_artiq_zynq.TreeMap.{get, pairs}
use madmax_artiq_zynq.Satman.Dma.Entry.{Entry, pointer, start}
use madmax_artiq_zynq.Satman.Dma.Manager.{
  Manager, playing, is_idle, Error, playback_in_progress, id_not_found, entry_not_complete,
  DmaWrite, base_address, time_offset, selected, enable, of_panic, playback,
}
use madmax_artiq_zynq.Satman.Dma.Reachable.{Reachable, Reachable-IsWellFormed}

-- The outcome of a request for playback: one at a time, of a complete entry of that source and id.
unfoldable pub promised :
    ℕ → ℕ → ℕ → Bool → Option Entry → Manager → Outcome Error (Manager × List DmaWrite)
promised source id timestamp false held m = err playback_in_progress
promised source id timestamp true none m = err id_not_found
promised source id timestamp true (some entry) m =
    if entry.complete
    then ok (
      record m { state = playing; current_id = id; current_source = source },
      base_address (pointer entry % 2 ^ 32) ∷ time_offset timestamp ∷ selected 1 ∷ enable 1 ∷ [],
    )
    else err entry_not_complete

-- A manager that the operations make, in any order and however often, answers a request for playback as
-- promised: it refuses one while another runs, one for an unknown id and one for an incomplete entry, and
-- otherwise hands the gateware the entry's address. It never panics: the address is aligned.
pub playback-promised :
    (source id timestamp : ℕ) (m : Manager)
    → Reachable m
    → playback source id timestamp m
      ≡ promised source id timestamp (is_idle m.state) (get (source, id) m.entries) m
unfolding playback promised start of_panic
playback-promised source id timestamp m reachable = elim (Bool-cases (is_idle m.state)) [
  | inr busy ↦ rw busy refl
  | inl ready ↦ elim (Option-cases (get (source, id) m.entries)) [
    | inl h ↦ rw (ready, h) refl
    | inr (entry, h) ↦ elim (Bool-cases entry.complete) [
      | inr part ↦ rw (ready, h, part) refl
      | inl whole ↦
          (let (fits, aligned) = Reachable-IsWellFormed m reachable (source, id) entry h whole in
            rw
              (
                ready,
                h,
                whole,
                le→ltb_false entry.padding_len (length entry.trace) fits,
                (==_iff (pointer entry % 2 ^ 32 % 64) 0).1 (omega (arith, aligned)),
              )
              refl)
    ]
  ]
]
