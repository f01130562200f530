-- ===== src/Satman/Dma/Playable.antt =====
-- src/satman/src/dma.rs: complete entries can be played back, whatever operation made them.
use madmax_artiq_zynq.Base.{
  ℕ, suc, ◌%◌, ◌^◌, ◌≤◌, ◌≡◌, refl, subst, sym, ap, ◌∙◌, inl, inr, Bool, true, false, ◌||◌, ◌==◌,
  Option, none, some, List, [], ◌∷◌, ◌++◌, ltb, if◌then◌else◌, length, Bool-cases, Option-cases,
  arith,
}
use madmax_artiq_zynq.Outcome.{Outcome, ok, err, panic, ok_inv, ok_injective}
use madmax_artiq_zynq.TreeMap.{get, insert, remove, pairs, get-insert, get-insert_other, get-remove}
use madmax_artiq_zynq.Drtioaux.Payload.{PayloadStatus, is_first, is_last}
use madmax_artiq_zynq.Drtioaux.RoutingTable.{Result}
use madmax_artiq_zynq.Satman.Messages.{front}
use madmax_artiq_zynq.Satman.Dma.Entry.{
  Entry, alignment, empty, realign, from_vec, pointer, start, id_of,
}
use madmax_artiq_zynq.Satman.Dma.Realign.{realign_lem}
use madmax_artiq_zynq.Satman.Dma.Manager.{
  Manager, is_idle, Error, DmaWrite, of_panic, open_entry, record_loop, add, erase, put_record,
  playback, check_state,
}

-- The gateware can read a complete entry where it starts.
abbrev pub IsPlayable : Entry → Type 0
IsPlayable entry =
    entry.complete ≡ true
    → (entry.padding_len ≤ length entry.trace) × (pointer entry % alignment ≡ 0)

abbrev pub IsWellFormed : Manager → Type 0
IsWellFormed m = (key : ℕ × ℕ) (entry : Entry) → get key m.entries ≡ some entry → IsPlayable entry

pub insert_lem :
    (key : ℕ × ℕ) (entry : Entry) (m : Manager)
    → IsPlayable entry
    → IsWellFormed m
    → (other : ℕ × ℕ) (e : Entry) → get other (insert key entry m.entries) ≡ some e
    → IsPlayable e
insert_lem key entry m playable wf other e h = elim (Bool-cases (pairs.same other key)) [
  | inl same ↦ subst IsPlayable (cc (same_entry same, h)) playable
  | inr ne ↦ wf other e (sym (get-insert_other other key entry m.entries ne) ∙ h)
]
  where
    same_entry : pairs.same other key ≡ true → get other (insert key entry m.entries) ≡ some entry
    same_entry same =
        ap (λ k. get k (insert key entry m.entries)) ((pairs.same_iff other key).0 same)
        ∙ get-insert key entry m.entries

realign-IsPlayable :
    (address : ℕ) (entry realigned : Entry)
    → realign address entry ≡ ok realigned
    → IsPlayable realigned
realign-IsPlayable address entry realigned e =
    let (r, e', plays, padding, len, duration) = realign_lem address entry in
    subst IsPlayable (cc (e', e)) (λ complete. (omega (arith, len), plays.aligned))

from_vec-IsPlayable :
    (address : ℕ) (bytes : List ℕ) (duration : ℕ) (entry : Entry)
    → from_vec address bytes duration ≡ ok entry
    → IsPlayable entry
unfolding from_vec
from_vec-IsPlayable address bytes duration entry e =
    realign-IsPlayable address
      (record {
        trace = bytes;
        address = address;
        padding_len = 0;
        complete = true;
        duration = duration;
      })
      entry e

open_entry_lem :
    (o : Option Entry) (status : PayloadStatus) → (open_entry o status).complete ≡ false
unfolding open_entry empty
open_entry_lem none status = refl
open_entry_lem (some entry) status = elim (Bool-cases (entry.complete || is_first status)) [
  | inl e ↦ rw e refl
  | inr e ↦ rw e (left_false entry.complete e)
]
  where
    left_false : (b : Bool) → (b || is_first status) ≡ false → b ≡ false
    left_false true e = absurd (cc e)
    left_false false e = refl

-- What `add` stores is playable.
stored_IsPlayable :
    (reserved : ℕ) (last : Bool) (entry stored : Entry)
    → entry.complete ≡ false
    → (if last then realign reserved entry else ok entry) ≡ ok stored
    → IsPlayable stored
stored_IsPlayable reserved true entry stored unended e = realign-IsPlayable reserved entry stored e
stored_IsPlayable reserved false entry stored unended e =
    subst IsPlayable (ok_injective e) (λ complete. absurd (cc (unended, complete)))

pub add-IsWellFormed :
    (extended reserved source id : ℕ) (status : PayloadStatus) (bytes : List ℕ) (len : ℕ)
    (m m' : Manager)
    → add extended reserved source id status bytes len m ≡ ok m'
    → IsWellFormed m
    → IsWellFormed m'
unfolding add
add-IsWellFormed extended reserved source id status bytes len m m' e wf =
    let opened = open_entry (get (source, id) m.entries) status in
    let (used, e1, e2) = ok_inv (front bytes len) _ m' e in
    let longer = record opened { trace = opened.trace ++ used; address = extended } in
    let (stored, e3, e4) =
      ok_inv (if is_last status then realign reserved longer else ok longer)
        (λ x. ok (record m { entries = insert (source, id) x m.entries })) m' e2 in
    subst IsWellFormed (ok_injective e4) (
      insert_lem (source, id) stored m
        (stored_IsPlayable reserved (is_last status) longer stored
          (open_entry_lem (get (source, id) m.entries) status) e3)
        wf)

pub remove_lem :
    (key : ℕ × ℕ) (m : Manager)
    → IsWellFormed m
    → (other : ℕ × ℕ) (e : Entry) → get other (remove key m.entries) ≡ some e
    → IsPlayable e
remove_lem key m wf other e held =
    wf other e (kept_lem (sym (get-remove other key m.entries) ∙ held))
  where
    kept_lem :
        (if pairs.same other key then none else get other m.entries) ≡ some e
        → get other m.entries ≡ some e
    kept_lem h = elim (Bool-cases (pairs.same other key)) [
      | inl same ↦ absurd (cc (rw same at h))
      | inr ne ↦ (rw ne at h)
    ]

pub erase-IsWellFormed :
    (source id : ℕ) (m m' : Manager) → erase source id m ≡ ok m' → IsWellFormed m → IsWellFormed m'
unfolding erase
erase-IsWellFormed source id m m' e wf = elim (Option-cases (get (source, id) m.entries)) [
  | inl h ↦ absurd (cc (rw (erase, h) at e))
  | inr (entry, h) ↦
      subst IsWellFormed (ok_injective (rw (erase, h) at e)) (remove_lem (source, id) m wf)
]

of_panic_inv : {A : Type 0} (o : Result A) (a : A) → of_panic o ≡ ok a → o ≡ ok a
unfolding of_panic
of_panic_inv (ok b) a e = cc e
of_panic_inv (err x) a e = elim x [ ]
of_panic_inv panic a e = absurd (cc e)

pub put_record-IsWellFormed :
    (address : ℕ) (buffer name : List ℕ) (duration self_destination key : ℕ) (m m' : Manager)
    → put_record address buffer name duration self_destination m ≡ ok (key, m')
    → IsWellFormed m
    → IsWellFormed m'
unfolding put_record
put_record-IsWellFormed address buffer name duration self_destination key m m' e wf =
    let (buckets, e1, e2) =
      ok_inv (record_loop (suc (length buffer)) (buffer ++ (0 ∷ [])) self_destination [] []) _
        (key, m') e in
    let (entry, e3, e4) = ok_inv (of_panic (from_vec address buckets.0 duration)) _ (key, m') e2 in
    let (key', e5, e6) = ok_inv (of_panic (id_of entry)) _ (key, m') e4 in
    subst IsWellFormed (ap (λ x. x.1) (ok_injective e6)) (
      insert_lem (self_destination, key') entry m
        (from_vec-IsPlayable address buckets.0 duration entry
          (of_panic_inv (from_vec address buckets.0 duration) entry e3))
        wf)

abbrev pub Keeps : Manager → Outcome Error (Manager × List DmaWrite) → Type 0
Keeps m (ok (m', writes)) = m'.entries ≡ m.entries
Keeps m (err e) = Unit {0}
Keeps m panic = Unit {0}

-- Playback and polling change no entry.
pub playback-Keeps :
    (source id timestamp : ℕ) (m : Manager) → Keeps m (playback source id timestamp m)
unfolding playback start of_panic
playback-Keeps source id timestamp m = elim (Bool-cases (is_idle m.state)) [
  | inr busy ↦ rw busy tt
  | inl ready ↦ elim (Option-cases (get (source, id) m.entries)) [
    | inl h ↦ rw (ready, h) tt
    | inr (entry, h) ↦ elim (Bool-cases entry.complete) [
      | inr part ↦ rw (ready, h, part) tt
      | inl whole ↦ elim (Bool-cases (ltb (length entry.trace) entry.padding_len)) [
        | inl over ↦ rw (ready, h, whole, over) tt
        | inr fits ↦ elim (Bool-cases (pointer entry % 2 ^ 32 % 64 == 0)) [
          | inl aligned ↦ rw (ready, h, whole, fits, aligned) refl
          | inr off ↦ rw (ready, h, whole, fits, off) tt
        ]
      ]
    ]
  ]
]

pub check_state_keeps :
    (enabled error channel timestamp : ℕ) (m : Manager)
    → ((check_state enabled error channel timestamp m).1).entries ≡ m.entries
unfolding check_state
check_state_keeps enabled error channel timestamp m = elim (Bool-cases (is_idle m.state)) [
  | inl e ↦ rw e refl
  | inr e ↦ elim (Bool-cases (enabled == 0)) [ inl h ↦ rw (e, h) refl | inr h ↦ rw (e, h) refl ]
]

pub same_entries : (m m' : Manager) → m'.entries ≡ m.entries → IsWellFormed m → IsWellFormed m'
same_entries m m' e wf key entry h = wf key entry (ap (get key) (sym e) ∙ h)
