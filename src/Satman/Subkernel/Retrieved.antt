-- ===== src/Satman/Subkernel/Retrieved.antt =====
-- src/satman/src/subkernel.rs: an exception that is sent slice by slice comes to the kernel whole.
use madmax_artiq_zynq.Base.{
  ℕ, zero, suc, ◌+◌, ◌≡◌, refl, Bool, true, false, inl, inr, Option, none, some, List, [], ◌∷◌,
  ◌++◌, ◌==◌, if◌then◌else◌, ◌-◌,
}
use madmax_artiq_zynq.Outcome.{ok}
use madmax_artiq_zynq.Io.Proto.{ByteOrder, Writer}
use madmax_artiq_zynq.Drtioaux.RoutingTable.{RoutingTable}
use madmax_artiq_zynq.Satman.Sliceable.{Sliceable}
use madmax_artiq_zynq.Satman.Subkernel.{Manager, Exception, StackPointerBacktrace, Error}
use madmax_artiq_zynq.Satman.Subkernel.Step.{answer, Step, ◌>>=◌, ◌>>◌, pure, update, send_packet}
use madmax_artiq_zynq.TreeMap.{names}
use madmax_artiq_zynq.Satman.Router.{Router}
use madmax_artiq_zynq.Satman.Sliceable
use madmax_artiq_zynq.Satman.Dma.Manager.{put_record, retrieve}
use madmax_artiq_zynq.Satman.Dma.Manager as DmaManager
use madmax_artiq_zynq.Drtioaux.Payload.{is_last, master_payload_max_size}
use madmax_artiq_zynq.Drtioaux.Packet.{subkernel_exception_request}
use madmax_artiq_zynq.Satman.Router.{route}
use madmax_artiq_zynq.Satman.Messages.{blank}
use madmax_artiq_zynq.Satman.Sliceable.{Sliceable, SliceMeta, at_end, get_slice, get_slice_master}
use madmax_artiq_zynq.Satman.Sliceable.Slices.{
  is_last-from_status, Slice, Splits, slices, slices-Splits,
}
use madmax_artiq_zynq.Satman.Subkernel.{
  running, subkernel_error, exception, subkernel_retrieving_exception,
}
use madmax_artiq_zynq.Satman.Subkernel.State.{exception_get_slice}
use madmax_artiq_zynq.Satman.Subkernel.Requests.{received_exception}
use madmax_artiq_zynq.Base.{◌+◌, ◌-◌, min, length, take, drop, ◌++◌, append_assoc, arith}
use madmax_artiq_zynq.Outcome.{IsOk}

-- A session with this exception to be fetched.
abbrev pub raised : Sliceable → Manager → Manager
raised s m = record m { session = record m.session { last_exception = some s } }

-- The slices that the requests fetch, up to the last.
unfoldable pub fetch : (fuel : ℕ) → Manager → List Slice
unfolding exception_get_slice
fetch zero m = []
fetch (suc fuel) m =
    let (meta, slice, m') = exception_get_slice blank m in
    let more = fetch fuel m' in (meta, slice) ∷ (if is_last meta.status then [] else more)

fetch-slices :
    (fuel : ℕ) (s : Sliceable) (m : Manager)
    → fetch fuel (raised s m) ≡ slices master_payload_max_size fuel s
unfolding fetch slices get_slice get_slice_master at_end
fetch-slices zero s m = refl
fetch-slices (suc fuel) s m =
    rw
      (
        is_last-from_status (s.it == 0)
            (s.it + min master_payload_max_size (length s.content - s.it) == length s.content),
        fetch-slices fuel
            (record s { it = s.it + min master_payload_max_size (length s.content - s.it) }) m,
      )
      refl

-- A kernel that waits for an exception, of which so much has come, and one that was told of it.
abbrev pub retrieving : (destination : ℕ) (so_far : List ℕ) → Manager → Manager
retrieving destination so_far m = record m {
  session = record m.session {
    kernel_state = subkernel_retrieving_exception destination;
    external_exception = some so_far;
  };
}

abbrev pub told : (bytes : List ℕ) → Manager → Manager
told bytes m = record m {
  session = record m.session { kernel_state = running; external_exception = none };
  control = record m.control { tx = subkernel_error (exception bytes) ∷ m.control.tx };
}

module _ ⦃e : ByteOrder⦄
    (report : List (Option Exception) → List StackPointerBacktrace → List (ℕ × ℕ) → Writer)
    (describe : ℕ → Error → List ℕ) (polls now address n_repeaters : ℕ) (table : RoutingTable)
    (rank self_destination : ℕ) where
  unfoldable pub receive_all : List Slice → Step (Unit {0})
  unfolding received_exception
  receive_all [] = pure tt
  receive_all ((meta, bytes) ∷ slices) = do
    received_exception report describe polls now address n_repeaters table rank self_destination
        (take meta.len bytes) (is_last meta.status)
    receive_all slices

  receive_last :
      (destination : ℕ) (so_far bytes : List ℕ) (m : Manager) (router : Router)
      (dma : DmaManager.Manager)
      → received_exception report describe polls now address n_repeaters table rank self_destination
          bytes true
          (record { manager = retrieving destination so_far m; router = router; dma = dma })
        ≡ ok (answer tt, record { manager = told (so_far ++ bytes) m; router = router; dma = dma })
  unfolding received_exception ◌>>=◌ update
  receive_last destination so_far bytes m router dma = refl

  receive_middle :
      (destination : ℕ) (so_far bytes : List ℕ) (m : Manager) (router : Router)
      (dma : DmaManager.Manager) (router' : Router)
      → route n_repeaters
          (subkernel_exception_request self_destination destination)
          table
          rank
          self_destination
          router
        ≡ ok router'
      → received_exception report describe polls now address n_repeaters table rank self_destination
          bytes false
          (record { manager = retrieving destination so_far m; router = router; dma = dma })
        ≡ ok (
          answer tt,
          record {
            manager = retrieving destination (so_far ++ bytes) m;
            router = router';
            dma = dma;
          },
        )
  unfolding received_exception ◌>>=◌ update send_packet
  receive_middle destination so_far bytes m router dma router' routed = rw routed refl

  receive_all_lem :
      (destination : ℕ) (begun : Bool) (content : List ℕ) (slices : List Slice) (so_far : List ℕ)
      (m : Manager) (router : Router) (dma : DmaManager.Manager)
      → Splits master_payload_max_size begun content slices
      → ((r : Router)
          → IsOk (
              route n_repeaters
                (subkernel_exception_request self_destination destination)
                table
                rank
                self_destination
                r))
      → (router' : Router) × (receive_all slices
            (record { manager = retrieving destination so_far m; router = router; dma = dma })
          ≡ ok (
            answer tt,
            record { manager = told (so_far ++ content) m; router = router'; dma = dma },
          ))
  unfolding receive_all ◌>>=◌ pure
  receive_all_lem destination begun content [] so_far m router dma split routes = absurd split
  receive_all_lem destination begun content ((meta, bytes) ∷ slices) so_far m router dma
        (short, sized, inl (status, ended, used)) routes =
      (
        router,
        rw
            (
              status,
              is_last-from_status begun true,
              receive_last destination so_far (take meta.len bytes) m router dma,
              ended,
              used,
            )
            refl,
      )
  receive_all_lem destination begun content ((meta, bytes) ∷ slices) so_far m router dma
        (short, sized, inr (rest, status, pos, joined, split)) routes =
      let (router', e') =
        receive_all_lem destination false rest slices (so_far ++ take meta.len bytes) m
          (routes router).0 dma split routes in
      (
        router',
        rw
            (
              status,
              is_last-from_status begun false,
              receive_middle destination so_far (take meta.len bytes) m router dma (routes router).0
                  (routes router).1,
              joined,
              ← append_assoc so_far (take meta.len bytes) rest,
            )
            e',
      )

  -- One satellite has raised an exception and another fetches it slice by slice, where its requests can be
  -- routed: its kernel is told of the whole exception, once, and runs on.
  pub receive_all-fetch :
      (destination : ℕ) (content : List ℕ) (sender m : Manager) (router : Router)
      (dma : DmaManager.Manager)
      → ((r : Router)
          → IsOk (
              route n_repeaters
                (subkernel_exception_request self_destination destination)
                table
                rank
                self_destination
                r))
      → (router' : Router) × (receive_all
            (fetch (length content + 1) (raised (Sliceable.new 0 content) sender))
            (record { manager = retrieving destination [] m; router = router; dma = dma })
          ≡ ok (answer tt, record { manager = told content m; router = router'; dma = dma }))
  unfolding Sliceable.new drop
  receive_all-fetch destination content sender m router dma routes =
      rw (fetch-slices (length content + 1) (Sliceable.new 0 content) sender) (
        receive_all_lem destination true content _ [] m router dma
          (slices-Splits master_payload_max_size (length content + 1) (Sliceable.new 0 content)
            (omega arith) (omega arith) (omega arith) (omega arith))
          routes)
