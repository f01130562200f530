-- ===== src/Satman/Dma/Record.antt =====
-- src/satman/src/dma.rs: a recorded trace, split by the destinations of its events.
use madmax_artiq_zynq.Base.{
  ℕ, zero, suc, ◌%◌, ◌^◌, ◌≤◌, ◌<◌, ◌≡◌, ◌≢◌, refl, sym, ap, subst, ◌∙◌, inl, inr, true, false,
  ◌==◌, Option, none, some, List, [], ◌∷◌, ◌++◌, All, if◌then◌else◌, length, get_elem?, append-nil,
  append_assoc, Bool-cases, arith, ==_iff, ==_ne, ==_refl, length-append, take-append, drop-append,
  get_elem?-append, get_elem?-bound, le→ltb_false, Option-cases,
}
use madmax_artiq_zynq.Outcome.{ok}
use madmax_artiq_zynq.TreeMap.{get, insert, numbers, pairs, names, get-insert, get-insert_other}
use madmax_artiq_zynq.Satman.Sliceable.{Sliceable, extend}
use madmax_artiq_zynq.Satman.Sliceable
use madmax_artiq_zynq.Satman.Dma.Entry.{Entry, from_vec, pointer, start, id_of}
use madmax_artiq_zynq.Satman.Dma.Realign.{Plays, realign_lem}
use madmax_artiq_zynq.Satman.Dma.Remote
use madmax_artiq_zynq.Satman.Dma.Manager.{Manager, put_remote, record_loop, of_panic, put_record}

-- An event of the recorder: its length first, and its destination in the fourth byte, which is not 0.
abbrev pub IsEvent : ℕ × List ℕ → Type 0
IsEvent (destination, event) =
    (get_elem? event 0 ≡ some (length event))
    × (get_elem? event 3 ≡ some destination)
    × (destination ≢ 0)

-- The buffer of the events.
abbrev pub joined : List (ℕ × List ℕ) → List ℕ
joined [] = []
joined ((destination, event) ∷ events) = event ++ joined events

-- The bytes of the events for one destination.
abbrev pub only : ℕ → List (ℕ × List ℕ) → List ℕ
only d [] = []
only d ((destination, event) ∷ events) =
    if d == destination then event ++ only d events else only d events

abbrev pub bytes_of : Option Sliceable → List ℕ
bytes_of none = []
bytes_of (some trace) = trace.content

put_remote_lem :
    (d destination : ℕ) (event : List ℕ) (remote : List (ℕ × Sliceable))
    → bytes_of (get d (put_remote destination event remote))
      ≡ (if d == destination then bytes_of (get d remote) ++ event else bytes_of (get d remote))
unfolding put_remote Sliceable.new extend
put_remote_lem d destination event remote = elim (Bool-cases (d == destination)) [
  | inl same ↦
      subst
        (λ x. bytes_of (get x (put_remote destination event remote)) ≡ (
          if x == destination then bytes_of (get x remote) ++ event else bytes_of (get x remote)))
        (sym ((==_iff d destination).0 same))
        (rw (==_refl destination) (elim (Option-cases (get destination remote)) [
          | inl h ↦
              rw (put_remote, h, get-insert destination (Sliceable.new destination event) remote)
                refl
          | inr (trace, h) ↦
              rw (put_remote, h, get-insert destination (extend trace event) remote) refl
        ]))
  | inr other ↦ rw other (elim (Option-cases (get destination remote)) [
    | inl h ↦
        rw
          (
            put_remote,
            h,
            get-insert_other d destination (Sliceable.new destination event) remote other,
          )
          refl
    | inr (trace, h) ↦
        rw (put_remote, h, get-insert_other d destination (extend trace event) remote other) refl
  ])
]

-- The loop on a buffer that begins with an event.
record_event :
    (fuel self_destination destination : ℕ) (event rest local : List ℕ)
    (remote : List (ℕ × Sliceable))
    → IsEvent (destination, event)
    → record_loop (suc fuel) (event ++ rest) self_destination local remote ≡ (
        if destination == self_destination
        then record_loop fuel rest self_destination (local ++ event) remote
        else record_loop fuel rest self_destination local (put_remote destination event remote))
unfolding record_loop
record_event fuel self_destination destination [] rest local remote (first, fourth, nonzero) =
    absurd (cc first)
record_event fuel self_destination destination (zero ∷ event) rest local remote
      (first, fourth, nonzero) =
    absurd (omega (arith, the_length))
  where
    the_length : 0 ≡ suc (length event)
    the_length = cc first
record_event fuel self_destination destination (suc n ∷ event) rest local remote
      (first, fourth, nonzero) =
    rw
      (
        record_loop,
        there,
        ==_ne destination 0 nonzero,
        le→ltb_false (suc n) (suc (length (event ++ rest)))
            (omega (arith, the_length, length-append event rest)),
        take-append (suc n) (suc n ∷ event) rest (sym the_length),
        drop-append (suc n) (suc n ∷ event) rest (sym the_length),
      )
      refl
  where
    the_length : suc n ≡ suc (length event)
    the_length = cc first

    there : get_elem? (event ++ rest) 2 ≡ some destination
    there = ground (arith, get_elem?-append event rest 2, get_elem?-bound event 2 fourth, fourth)

-- The loop on the events and the zero byte that ends them.
record_loop-joined :
    (fuel self_destination : ℕ) (events : List (ℕ × List ℕ)) (local : List ℕ)
    (remote : List (ℕ × Sliceable))
    → All IsEvent events
    → length events < fuel
    → (remote' : List (ℕ × Sliceable)) × (record_loop fuel
          (joined events ++ (0 ∷ []))
          self_destination
          local
          remote
        ≡ ok (local ++ only self_destination events, remote'))
      × ((d : ℕ)
          → d ≢ self_destination
          → bytes_of (get d remote') ≡ bytes_of (get d remote) ++ only d events)
unfolding record_loop
record_loop-joined zero self_destination events local remote valid enough = absurd (omega arith)
record_loop-joined (suc fuel) self_destination [] local remote valid enough =
    (remote, rw (append-nil local) refl, λ d other. sym (append-nil _))
record_loop-joined (suc fuel) self_destination ((destination, event) ∷ events) local remote
      (valid, valids) enough =
    elim (Bool-cases (destination == self_destination)) [
      | inl own ↦
          (let (remote', e, buckets) =
              record_loop-joined fuel self_destination events (local ++ event) remote valids
                (omega arith) in
            (
              remote',
              rw (append_assoc event (joined events) (0 ∷ [])) (
                  record_event fuel self_destination destination event (joined events ++ (0 ∷ []))
                    local remote valid
                  ∙ rw own e
                  ∙ ap (λ x. ok (x, remote'))
                      (append_assoc local event (only self_destination events)
                        ∙ ap (◌++◌ local) (mine own))),
              λ d other.
                  buckets d other
                  ∙ ap (◌++◌ (bytes_of (get d remote))) (sym (not_for d (passed d own other))),
            ))
      | inr away ↦
          (let (remote', e, buckets) =
              record_loop-joined fuel self_destination events local
                (put_remote destination event remote) valids (omega arith) in
            (
              remote',
              rw (append_assoc event (joined events) (0 ∷ [])) (
                  record_event fuel self_destination destination event (joined events ++ (0 ∷ []))
                    local remote valid
                  ∙ rw away e
                  ∙ ap (λ x. ok (local ++ x, remote'))
                      (sym (not_for self_destination (ground arith)))),
              λ d other. buckets d other ∙ bucket d,
            ))
    ]
  where
    not_for :
        (d : ℕ)
        → (d == destination) ≡ false
        → only d ((destination, event) ∷ events) ≡ only d events
    not_for d e = rw e refl

    passed :
        (d : ℕ)
        → (destination == self_destination) ≡ true
        → d ≢ self_destination
        → (d == destination) ≡ false
    passed d own other =
        ==_ne d destination (λ e. other (e ∙ (==_iff destination self_destination).0 own))

    mine :
        (destination == self_destination) ≡ true
        → event ++ only self_destination events
          ≡ only self_destination ((destination, event) ∷ events)
    mine own = ground arith

    bucket :
        (d : ℕ)
        → bytes_of (get d (put_remote destination event remote)) ++ only d events
          ≡ bytes_of (get d remote) ++ only d ((destination, event) ∷ events)
    bucket d = elim (Bool-cases (d == destination)) [
      | inl same ↦
          rw (put_remote_lem d destination event remote, same)
            (append_assoc (bytes_of (get d remote)) event (only d events))
      | inr apart ↦ rw (put_remote_lem d destination event remote, apart) refl
    ]

short : (events : List (ℕ × List ℕ)) → All IsEvent events → length events ≤ length (joined events)
short [] valid = omega arith
short ((destination, event) ∷ events) ((first, fourth, nonzero), valids) = omega (
  arith,
  length-append event (joined events),
  short events valids,
  get_elem?-bound event 3 fourth,
)

-- Recording any events succeeds, wherever the allocator puts the local ones: under this satellite and the
-- id that is returned the manager holds a trace of the events for this satellite, in their order, which
-- can be played back; under the id it holds the traces for the other destinations, each of the events for
-- that destination in their order, none lost and none added; and the name stands for the id.
pub put_record-only :
    (address : ℕ) (events : List (ℕ × List ℕ)) (name : List ℕ) (duration self_destination : ℕ)
    (m : Manager)
    → All IsEvent events
    → (id : ℕ) × (m' : Manager) × (entry : Entry) × (remote : List (ℕ × Sliceable)) × (put_record
          address
          (joined events)
          name
          duration
          self_destination
          m
        ≡ ok (id, m'))
      × (get (self_destination, id) m'.entries ≡ some entry)
      × Plays entry (only self_destination events ++ (0 ∷ []))
      × (get id m'.remote_entries ≡ some (Remote.new remote))
      × ((d : ℕ) → d ≢ self_destination → bytes_of (get d remote) ≡ only d events)
      × (get name m'.name_map ≡ some id)
unfolding put_record of_panic from_vec id_of start get
put_record-only address events name duration self_destination m valid =
    let (remote, e, buckets) =
      record_loop-joined (suc (length (joined events))) self_destination events [] [] valid
        (omega (arith, short events valid)) in
    let (entry, e', plays, padding, len, same) =
      realign_lem address (fresh (only self_destination events)) in
    (
      pointer entry % 2 ^ 32,
      record m {
        entries = insert (self_destination, pointer entry % 2 ^ 32) entry m.entries;
        remote_entries = insert (pointer entry % 2 ^ 32) (Remote.new remote) m.remote_entries;
        name_map = insert name (pointer entry % 2 ^ 32) m.name_map;
      },
      entry,
      remote,
      rw (e, e', le→ltb_false entry.padding_len (length entry.trace) (omega (arith, len))) refl,
      get-insert (self_destination, pointer entry % 2 ^ 32) entry m.entries,
      plays,
      get-insert (pointer entry % 2 ^ 32) (Remote.new remote) m.remote_entries,
      buckets,
      get-insert name (pointer entry % 2 ^ 32) m.name_map,
    )
  where
    fresh : List ℕ → Entry
    fresh bytes = record {
      trace = bytes;
      address = address;
      padding_len = 0;
      complete = true;
      duration = duration;
    }
