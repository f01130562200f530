-- ===== src/Recorder/Events.antt =====
-- src/libksupport/src/kernel/dma.rs: what a kernel records is events as the satellite's manager reads them
-- (put_record in src/satman/src/dma.rs).
use madmax_artiq_zynq.Base.{
  ℕ, ◌+◌, ◌*◌, ◌≤◌, ◌≡◌, ◌≢◌, refl, sym, ap, ◌∙◌, List, [], ◌∷◌, ◌++◌, All, map, length, get_elem?,
  some, append-nil, append_assoc, le→leb, length-append, arith,
}
use madmax_artiq_zynq.Outcome.{ok, ◌>>=◌}
use madmax_artiq_zynq.TreeMap.{get, pairs, numbers, names}
use madmax_artiq_zynq.Drtioaux.RoutingTable.{Result}
use madmax_artiq_zynq.Satman.Sliceable.{Sliceable}
use madmax_artiq_zynq.Satman.Dma.Entry.{Entry}
use madmax_artiq_zynq.Satman.Dma.Realign.{Plays}
use madmax_artiq_zynq.Satman.Dma.Remote
use madmax_artiq_zynq.Satman.Dma.Manager.{Manager, put_record}
use madmax_artiq_zynq.Satman.Dma.Record.{IsEvent, joined, only, bytes_of, put_record-only}
use madmax_artiq_zynq.Recorder.{
  byte, dma_record_output_prepare, word_bytes, dma_record_output, words_loop,
  dma_record_output_wide,
}

-- A call of the kernel, at a time.
pub data Output : Type 0 where
  narrow : (timestamp target word : ℕ) → Output
  wide : (timestamp target : ℕ) (words : List ℕ) → Output

-- The calls of a kernel, one after the other, on the recorder's buffer.
unfoldable pub outputs : List Output → List ℕ → Result (List ℕ)
outputs [] buffer = ok buffer
outputs (narrow timestamp target word ∷ rest) buffer =
    outputs rest (dma_record_output timestamp target word buffer)
outputs (wide timestamp target words ∷ rest) buffer = do
  buffer' ← dma_record_output_wide timestamp target words buffer
  outputs rest buffer'

-- The event of a call, with its destination: the highest byte of the target.
unfoldable pub event_of : Output → ℕ × List ℕ
event_of (narrow timestamp target word) =
    (byte target 24, dma_record_output timestamp target word [])
event_of (wide timestamp target words) = (
  byte target 24,
  words_loop words (dma_record_output_prepare timestamp target (length words) []),
)

-- The call is not for the master, and has at most 16 words.
abbrev pub IsSatelliteOutput : Output → Type 0
IsSatelliteOutput (narrow timestamp target word) = byte target 24 ≢ 0
IsSatelliteOutput (wide timestamp target words) = (byte target 24 ≢ 0) × (length words ≤ 16)

words_loop-append :
    (words buffer bytes : List ℕ)
    → words_loop words (buffer ++ bytes) ≡ buffer ++ words_loop words bytes
unfolding words_loop
words_loop-append [] buffer bytes = refl
words_loop-append (word ∷ words) buffer bytes =
    ap (words_loop words) (append_assoc buffer bytes (word_bytes word))
    ∙ words_loop-append words buffer (bytes ++ word_bytes word)

length-words_loop :
    (words buffer : List ℕ) → length (words_loop words buffer) ≡ length buffer + length words * 4
unfolding words_loop word_bytes
length-words_loop [] buffer = omega arith
length-words_loop (word ∷ words) buffer = omega (
  arith,
  length-words_loop words (buffer ++ word_bytes word),
  length-append buffer (word_bytes word),
)

event_of-IsEvent : (o : Output) → IsSatelliteOutput o → IsEvent (event_of o)
unfolding event_of dma_record_output dma_record_output_prepare word_bytes byte
event_of-IsEvent (narrow timestamp target word) other = (refl, refl, other)
event_of-IsEvent (wide timestamp target words) (other, few) = (
  ap (λ event. get_elem? event 0) split
      ∙ ap some (omega (arith, few, length-words_loop words header)),
  ap (λ event. get_elem? event 3) split,
  other,
)
  where
    header : List ℕ
    header = dma_record_output_prepare timestamp target (length words) []

    split : words_loop words header ≡ header ++ words_loop words []
    split = words_loop-append words header []

-- The calls append their events.
outputs_lem :
    (calls : List Output) (buffer : List ℕ)
    → All IsSatelliteOutput calls
    → (outputs calls buffer ≡ ok (buffer ++ joined (map event_of calls)))
      × All IsEvent (map event_of calls)
unfolding outputs event_of dma_record_output dma_record_output_wide dma_record_output_prepare
    word_bytes
outputs_lem [] buffer valid = (ap ok (sym (append-nil buffer)), tt)
outputs_lem (narrow timestamp target word ∷ calls) buffer (valid, valids) =
    let (e, events) = outputs_lem calls (dma_record_output timestamp target word buffer) valids in
    (
      e
          ∙ ap (λ x. ok x)
              (append_assoc (buffer ++ dma_record_output_prepare timestamp target 1 [])
                  (word_bytes word) (joined (map event_of calls))
                ∙ append_assoc buffer (dma_record_output_prepare timestamp target 1 [])
                    (word_bytes word ++ joined (map event_of calls))),
      (event_of-IsEvent (narrow timestamp target word) valid, events),
    )
outputs_lem (wide timestamp target words ∷ calls) buffer ((other, few), valids) =
    let (e, events) =
      outputs_lem calls
        (words_loop words (dma_record_output_prepare timestamp target (length words) buffer))
        valids in
    (
      rw (le→leb (length words) 16 few) (
          e
          ∙ ap (λ x. ok x)
              (ap (λ y. y ++ joined (map event_of calls))
                  (words_loop-append words buffer
                    (dma_record_output_prepare timestamp target (length words) []))
                ∙ append_assoc buffer
                    (words_loop words
                      (dma_record_output_prepare timestamp target (length words) []))
                    (joined (map event_of calls)))),
      (event_of-IsEvent (wide timestamp target words) (other, few), events),
    )

-- A kernel's calls for satellites, each of at most 16 words, are recorded, and the manager takes the
-- recording, wherever the allocator puts it: under this satellite and the id that is returned there is a
-- trace of the events of the calls for this satellite, in their order, which can be played back, and under
-- the id the traces for the other destinations, each of the events of the calls for that destination in
-- their order.
pub put_record-outputs :
    (calls : List Output) (address : ℕ) (name : List ℕ) (duration self_destination : ℕ)
    (m : Manager)
    → All IsSatelliteOutput calls
    → (buffer : List ℕ) × (id : ℕ) × (m' : Manager) × (entry : Entry) × (remote : List
        (ℕ × Sliceable))
      × (outputs calls [] ≡ ok buffer)
      × (put_record address buffer name duration self_destination m ≡ ok (id, m'))
      × (get (self_destination, id) m'.entries ≡ some entry)
      × Plays entry (only self_destination (map event_of calls) ++ (0 ∷ []))
      × (get id m'.remote_entries ≡ some (Remote.new remote))
      × ((d : ℕ) → d ≢ self_destination → bytes_of (get d remote) ≡ only d (map event_of calls))
put_record-outputs calls address name duration self_destination m valid =
    let (recorded, events) = outputs_lem calls [] valid in
    let (id, m', entry, remote, put, held, plays, kept, buckets, named) =
      put_record-only address (map event_of calls) name duration self_destination m events in
    (joined (map event_of calls), id, m', entry, remote, recorded, put, held, plays, kept, buckets)
