-- ===== src/Satman/Library/Received.antt =====
-- src/satman/src/subkernel.rs: a kernel library that is sent slice by slice is received whole.
use madmax_artiq_zynq.Base.{
  ℕ, ◌+◌, ◌≤◌, ◌≡◌, refl, ap, ◌∙◌, inl, inr, Bool, true, false, Option, none, some, List, [], ◌∷◌,
  ◌++◌, length, take, drop, append_assoc, arith,
}
use madmax_artiq_zynq.Outcome.{ok, ◌>>=◌}
use madmax_artiq_zynq.TreeMap.{get, insert, numbers, get-insert, get-insert_other}
use madmax_artiq_zynq.Drtioaux.Payload.{
  PayloadStatus, from_status, is_first, is_last, master_payload_max_size,
}
use madmax_artiq_zynq.Drtioaux.RoutingTable.{Result}
use madmax_artiq_zynq.Satman.Messages.Incoming.{front_ok}
use madmax_artiq_zynq.Satman.Sliceable.{Sliceable}
use madmax_artiq_zynq.Satman.Sliceable
use madmax_artiq_zynq.Satman.Sliceable.Slices.{
  is_last-from_status, Slice, Splits, slices, slices-Splits,
}
use madmax_artiq_zynq.Satman.Library.{KernelLibrary, Kernels, no_library, open_library, add_kernel}

-- The packets of a library, added in order.
unfoldable pub receive_all : ℕ → List Slice → Kernels → Result Kernels
receive_all id [] kernels = ok kernels
receive_all id ((meta, bytes) ∷ slices) kernels = do
  kernels' ← add_kernel id meta.status bytes meta.len kernels
  receive_all id slices kernels'

-- The kernels hold this library, complete, and the others as before.
abbrev pub Holds : ℕ → List ℕ → Kernels → Kernels → Type 0
Holds id content kernels kernels' =
    (get id kernels' ≡ some (record { library = content; complete = true }))
    × ((other : ℕ) → numbers.same other id ≡ false → get other kernels' ≡ get other kernels)

abbrev partial : List ℕ → KernelLibrary
partial library = record { library = library; complete = false }

module _ (id : ℕ) where
  add_kernel_lem :
      (status : PayloadStatus) (bytes : List ℕ) (len : ℕ) (last : Bool) (kernels : Kernels)
      (kernel : KernelLibrary)
      → len ≤ length bytes
      → is_last status ≡ last
      → open_library (get id kernels) status ≡ kernel
      → add_kernel id status bytes len kernels
        ≡ ok (
            insert id
              (record { library = kernel.library ++ take len bytes; complete = last })
              kernels)
  unfolding add_kernel
  add_kernel_lem status bytes len last kernels kernel fits is opens =
      rw (front_ok bytes len fits, is, opens) refl

  goes_on :
      (library : List ℕ) (last : Bool)
      → open_library
          (some (record { library = library; complete = false }))
          (from_status false last)
        ≡ record { library = library; complete = false }
  unfolding open_library is_first from_status
  goes_on library true = refl
  goes_on library false = refl

  starts_empty :
      (o : Option KernelLibrary) (last : Bool) → open_library o (from_status true last) ≡ no_library
  unfolding open_library is_first from_status
  starts_empty none last = refl
  starts_empty (some kernel) true = ground arith
  starts_empty (some kernel) false = ground arith

  receive_all_lem :
      (begun : Bool) (content : List ℕ) (slices : List Slice) (kernels : Kernels) (library : List ℕ)
      → Splits master_payload_max_size begun content slices
      → ((last : Bool)
          → open_library (get id kernels) (from_status begun last)
            ≡ record { library = library; complete = false })
      → (kernels' : Kernels) × (receive_all id slices kernels ≡ ok kernels')
        × Holds id (library ++ content) kernels kernels'
  unfolding receive_all
  receive_all_lem begun content [] kernels library split opens = absurd split
  receive_all_lem begun content ((meta, bytes) ∷ slices) kernels library
        (short, sized, inl (status, ended, used)) opens =
      (
        insert id (record { library = library ++ take meta.len bytes; complete = true }) kernels,
        rw
            (
              add_kernel_lem meta.status bytes meta.len true kernels
                  (record { library = library; complete = false }) (omega arith)
                  (ap is_last status ∙ is_last-from_status begun true)
                  (ap (open_library (get id kernels)) status ∙ opens true),
              ended,
            )
            refl,
        (
          rw (← used) (
              get-insert id (record { library = library ++ take meta.len bytes; complete = true })
                kernels),
          λ other ne.
              get-insert_other other id
                (record { library = library ++ take meta.len bytes; complete = true }) kernels ne,
        ),
      )
  receive_all_lem begun content ((meta, bytes) ∷ slices) kernels library
        (short, sized, inr (rest, status, pos, joined, split)) opens =
      let next = partial (library ++ take meta.len bytes) in
      let (kernels', e, (held, others)) =
        receive_all_lem false rest slices (insert id next kernels) (library ++ take meta.len bytes)
          split
          (λ last.
            ap (λ o. open_library o (from_status false last)) (get-insert id next kernels)
            ∙ goes_on (library ++ take meta.len bytes) last) in
      (
        kernels',
        rw
            (add_kernel_lem meta.status bytes meta.len false kernels
              (record { library = library; complete = false }) (omega arith)
              (ap is_last status ∙ is_last-from_status begun false)
              (ap (open_library (get id kernels)) status ∙ opens false))
            e,
        (
          rw (joined, ← append_assoc library (take meta.len bytes) rest) held,
          λ other ne. others other ne ∙ get-insert_other other id next kernels ne,
        ),
      )

  -- A library that is sent slice by slice and added in that order, whatever was held under its id: it is
  -- held whole and complete, and every other library is as it was.
  pub receive_all-slices :
      (destination : ℕ) (content : List ℕ) (kernels : Kernels)
      → (kernels' : Kernels) × (receive_all id
            (slices master_payload_max_size
              (length content + 1)
              (Sliceable.new destination content))
            kernels
          ≡ ok kernels')
        × Holds id content kernels kernels'
  unfolding Sliceable.new drop
  receive_all-slices destination content kernels =
      receive_all_lem true content _ kernels []
        (slices-Splits master_payload_max_size (length content + 1)
          (Sliceable.new destination content) (omega arith) (omega arith) (omega arith)
          (omega arith))
        (starts_empty (get id kernels))
