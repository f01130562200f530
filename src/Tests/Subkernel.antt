-- ===== src/Tests/Subkernel.antt =====
-- The manager of kernels of a satellite at concrete inputs.
use madmax_artiq_zynq.Base.{
  ℕ, ◌+◌, ◌≡◌, refl, subst, true, false, Option, none, some, List, [], ◌∷◌, length,
}
use madmax_artiq_zynq.Outcome.{ok, IsOk}
use madmax_artiq_zynq.Outcome
use madmax_artiq_zynq.TreeMap.{get, numbers}
use madmax_artiq_zynq.Io.Proto.{Writer}
use madmax_artiq_zynq.Drtioaux.Packet.{subkernel_exception_request}
use madmax_artiq_zynq.Drtioaux.Packet
use madmax_artiq_zynq.Drtioaux.Packet.Routable.{routable_destination}
use madmax_artiq_zynq.Drtioaux.RoutingTable.{hop}
use madmax_artiq_zynq.Satman.Router.{Router, route, place}
use madmax_artiq_zynq.Satman.Router
use madmax_artiq_zynq.Satman.Sliceable
use madmax_artiq_zynq.Satman.Messages.{get_incoming}
use madmax_artiq_zynq.Satman.Messages
use madmax_artiq_zynq.Satman.Library.{KernelLibrary}
use madmax_artiq_zynq.Satman.Dma.Manager.{upload_fail}
use madmax_artiq_zynq.Satman.Dma.Manager as DmaManager
use madmax_artiq_zynq.Satman.Dma.Subkernel.{cleanup}
use madmax_artiq_zynq.Satman.Subkernel.{
  Control, Exception, StackPointerBacktrace, Error, Manager, Message, Session, SubkernelFinished,
  absent, running, dma_uploading, dma_error, awaiting_message, start_request, load_request,
  load_completed, KernelState, subkernel_retrieving_exception,
}
use madmax_artiq_zynq.Satman.Subkernel
use madmax_artiq_zynq.Satman.Subkernel.State.{
  is_running, set_state, load, run, ddma_remote_uploaded, remote_subkernel_finished,
}
use madmax_artiq_zynq.Satman.Subkernel.Report.{write_exception}
use madmax_artiq_zynq.Satman.Subkernel.Step.{Parts, answer, ◌>>=◌, ask, pure, update, send_packet}
use madmax_artiq_zynq.Satman.Subkernel.Requests.{
  find_finished, deadline, is_late, received_exception,
}
use madmax_artiq_zynq.Satman.Subkernel.Turn.{process_kern_requests, handle_error, message_id}
use madmax_artiq_zynq.Satman.Subkernel.Keeps.{IsSound}
use madmax_artiq_zynq.Satman.Subkernel.Sound.Calls.{Call, apply}
use madmax_artiq_zynq.Satman.Subkernel.Sound.Calls
use madmax_artiq_zynq.Satman.Subkernel.Reachable.{
  Reachable, started, called, changed, turned, Reachable-IsSound, received_exception-IsOk,
}
use madmax_artiq_zynq.Satman.Subkernel.Loads.{load-run}
use madmax_artiq_zynq.Satman.Subkernel.Finished.{
  busy, turns, kernel_finished-reported, upload_failed-silent,
}
use madmax_artiq_zynq.Satman.Subkernel.Retrieved.{
  raised, fetch, retrieving, told, receive_all, receive_all-fetch,
}
use madmax_artiq_zynq.Satman.Subkernel.Awaits.{waiting_for, let_on, await_message-finished}
use madmax_artiq_zynq.Tests.LittleEndian.{little_endian}
use madmax_artiq_zynq.Tests.RoutingTable.{behind_two}

-- The host's strings stay as they are.
abbrev pub report : List (Option Exception) → List StackPointerBacktrace → List (ℕ × ℕ) → Writer
report = write_exception (λ text. true) (λ channel text. text)

abbrev pub describe : ℕ → Error → List ℕ
describe id error = id ∷ []

abbrev quiet : Control
quiet = record { rx = []; turns = []; tx = [] }

abbrev first : Parts
first = record { manager = Subkernel.new quiet 0 0; router = Router.new; dma = DmaManager.new }

abbrev pub library : KernelLibrary
library = record { library = 1 ∷ 2 ∷ []; complete = true }

-- After a library has come.
abbrev pub second : Parts
second = record first { manager = record first.manager { kernels = (7, library) ∷ [] } }

first-Reachable : Reachable report describe 3 behind_two 0 1 first
first-Reachable = started quiet 0 0 Router.new DmaManager.new

second-Reachable : Reachable report describe 3 behind_two 0 1 second
unfolding Subkernel.new
second-Reachable = changed ((7, library) ∷ []) quiet Router.new DmaManager.new first first-Reachable

Reachable-IsSound_example :
    IsSound (apply describe (Calls.running load_completed 0 7 100) second.manager).session
Reachable-IsSound_example =
    Reachable-IsSound report describe 3 behind_two 0 1 _
      (called (Calls.running load_completed 0 7 100) second second-Reachable)

load-run_example :
    (run load_completed 0 7 100 (load load_completed 7 second.manager).1).1.control.tx
    ≡ start_request ∷ load_request (1 ∷ 2 ∷ []) ∷ load_request (1 ∷ 2 ∷ []) ∷ []
unfolding get Subkernel.new
load-run_example =
    load-run report describe 3 behind_two 0 1 second library 0 7 100 second-Reachable refl refl

-- Kernel 7 runs for destination 0.
abbrev third : Parts
third = record second {
  manager = apply describe (Calls.running load_completed 0 7 100) second.manager;
}

-- Its traces are being uploaded.
abbrev uploading : Parts
uploading = record third { manager = set_state dma_uploading third.manager }

upload_failed-silent_example :
    let (start, m) = ddma_remote_uploaded describe false uploading.manager in
    (start ≡ none)
    × (m.session.kernel_state ≡ absent)
    × (m.session.last_exception ≡ some (Sliceable.new 0 (7 ∷ [])))
    × (turns report describe 3 behind_two 0 1
          ((5, 1000, 0) ∷ (5, 1001, 0) ∷ [])
          (record uploading { manager = m })
        ≡ ok (record uploading { manager = m }))
    × (handle_error report describe 5 1000 0 3 behind_two 0 1 (dma_error upload_fail) uploading
        ≡ ok (
          answer tt,
          record uploading {
            manager = record m {
              last_finished =
                  some (record { id = 7; with_exception = true; exception_source = 1; source = 0 });
            };
          },
        ))
unfolding Subkernel.new apply get
upload_failed-silent_example =
    upload_failed-silent report describe 3 behind_two 0 1 uploading
      ((5, 1000, 0) ∷ (5, 1001, 0) ∷ []) 5 1000 0 refl

cleanup_none : cleanup 3 behind_two 0 1 DmaManager.new Router.new ≡ ok (DmaManager.new, Router.new)
unfolding cleanup DmaManager.new
cleanup_none = refl

kernel_finished-reported_example :
    (p' : Parts) × (process_kern_requests report describe 5 1000 0 3 behind_two 0 1
        (record first { manager = busy Message.kernel_finished [] first.manager })
      ≡ ok (answer tt, p'))
    × (p'.manager.session.kernel_state ≡ absent)
    × (process_kern_requests report describe 5 1000 0 3 behind_two 0 1 p'
        ≡ Outcome.◌>>=◌
            (route 3
              (Packet.subkernel_finished first.manager.session.source first.manager.session.id false
                0)
              behind_two
              0
              1
              Router.new)
            (λ router'. ok (
              answer tt,
              record p' { manager = record p'.manager { last_finished = none }; router = router' },
            )))
kernel_finished-reported_example =
    kernel_finished-reported report describe 5 1000 0 3 behind_two 0 1 first [] DmaManager.new
      Router.new cleanup_none

routes_to_two : (r : Router) → IsOk (route 3 (subkernel_exception_request 1 2) behind_two 0 1 r)
unfolding route routable_destination hop
routes_to_two r = (_, refl)

receive_all-fetch_example :
    (router' : Router) × (receive_all report describe 5 1000 0 3 behind_two 0 1
        (fetch
          (length {A = ℕ} (5 ∷ 6 ∷ []) + 1)
          (raised (Sliceable.new 0 (5 ∷ 6 ∷ [])) second.manager))
        (record {
          manager = retrieving 2 [] first.manager;
          router = Router.new;
          dma = DmaManager.new;
        })
      ≡ ok (
        answer tt,
        record {
          manager = told (5 ∷ 6 ∷ []) first.manager;
          router = router';
          dma = DmaManager.new;
        },
      ))
receive_all-fetch_example =
    receive_all-fetch report describe 5 1000 0 3 behind_two 0 1 2 (5 ∷ 6 ∷ []) second.manager
      first.manager Router.new DmaManager.new routes_to_two

await_message-finished_example :
    (process_kern_requests report describe 5 1000 0 3 behind_two 0 1 (record third {
      manager = busy (Message.subkernel_msg_recv_request 9 50 (105 ∷ [])) [] third.manager;
    })
      ≡ ok (
        answer tt,
        record third { manager = waiting_for (some 1050) 9 (105 ∷ []) [] third.manager },
      ))
    × (process_kern_requests report describe 5 1040 0 3 behind_two 0 1 (record third {
      manager =
          remote_subkernel_finished 9 false 0
            (waiting_for (some 1050) 9 (105 ∷ []) [] third.manager);
    })
        ≡ ok (
          answer tt,
          record third { manager = let_on Message.subkernel_await_finish_reply [] third.manager },
        ))
unfolding get_incoming find_finished is_late deadline message_id Subkernel.new Messages.new apply
    get
await_message-finished_example =
    await_message-finished report describe 5 0 3 behind_two 0 1 third 9 50 1000 1040 0 (105 ∷ []) []
      refl refl refl

-- Kernel 7 waits for kernel 9, which has finished with an exception of destination 2.
abbrev waiting : Parts
waiting = record third {
  manager = record third.manager {
    control = record third.manager.control { rx = Message.subkernel_await_finish_request 9 0 ∷ [] };
  };
}

abbrev asked : Parts
asked = record third {
  manager = record third.manager {
    session = record third.manager.session {
      kernel_state = KernelState.subkernel_await_finish none 9;
    };
    control = record third.manager.control { rx = [] };
  };
}

abbrev informed : Parts
informed = record asked {
  manager = apply describe (Calls.subkernel_finished 9 true 2) asked.manager;
}

abbrev fetching : Parts
fetching = record informed {
  manager = record informed.manager {
    session = record informed.manager.session {
      kernel_state = subkernel_retrieving_exception 2;
      external_exception = some [];
    };
  };
  router = record Router.new { downstream_queue = (1, subkernel_exception_request 1 2) ∷ [] };
}

asked-turned :
    process_kern_requests report describe 5 1000 0 3 behind_two 0 1 waiting ≡ ok (answer tt, asked)
unfolding process_kern_requests apply Subkernel.new ◌>>=◌ ask get pure is_running update
asked-turned = refl

fetching-turned :
    process_kern_requests report describe 5 1000 0 3 behind_two 0 1 informed
    ≡ ok (answer tt, fetching)
unfolding process_kern_requests apply Subkernel.new ◌>>=◌ ask get pure is_running update send_packet
    route routable_destination hop place Router.push_downstream Router.new
fetching-turned = refl

fetching-Reachable : Reachable report describe 3 behind_two 0 1 fetching
unfolding apply Router.new DmaManager.new Subkernel.new get
fetching-Reachable = turned 5 1000 0 informed (answer tt) fetching fetching-turned (
    called (Calls.subkernel_finished 9 true 2) asked (
      turned 5 1000 0 waiting (answer tt) asked asked-turned (
        changed ((7, library) ∷ []) _ Router.new DmaManager.new third
          (called (Calls.running load_completed 0 7 100) second second-Reachable))))

destination_of :
    (destination : ℕ)
    → subkernel_retrieving_exception 2 ≡ subkernel_retrieving_exception destination
    → 2 ≡ destination
destination_of destination e = cc e

received_exception-IsOk_example :
    IsOk (received_exception report describe 5 1000 0 3 behind_two 0 1 (1 ∷ []) false fetching)
unfolding apply get
received_exception-IsOk_example =
    received_exception-IsOk report describe 3 behind_two 0 1 5 1000 0 fetching (1 ∷ []) false
      fetching-Reachable
      λ destination e.
        subst
          (λ there.
            IsOk (route 3 (subkernel_exception_request 1 there) behind_two 0 1 fetching.router))
          (destination_of destination e) (routes_to_two fetching.router)
