-- ===== src/Tests/Handlers.antt =====
-- The packet handlers of a satellite at concrete inputs.
use madmax_artiq_zynq.Base.{◌≡◌, refl, true, false, [], ◌∷◌}
use madmax_artiq_zynq.TreeMap.{get, numbers}
use madmax_artiq_zynq.Drtioaux.Packet.{subkernel_load_run_reply}
use madmax_artiq_zynq.Satman.Dma.Manager as DmaManager
use madmax_artiq_zynq.Satman.Subkernel.{Error, Message, load_completed, load_request}
use madmax_artiq_zynq.Satman.Subkernel
use madmax_artiq_zynq.Satman.Subkernel.State.{is_running, load_reply}
use madmax_artiq_zynq.Satman.Subkernel.Loads.{with_kernel}
use madmax_artiq_zynq.Satman.Handlers.{Satellite, load_run, reply, with_manager}
use madmax_artiq_zynq.Satman.Handlers.LoadRun.{load_run-failed}
use madmax_artiq_zynq.Tests.LittleEndian.{little_endian}
use madmax_artiq_zynq.Tests.RoutingTable.{behind_two}
use madmax_artiq_zynq.Tests.Subkernel.{report, describe, second, library}

abbrev satellite : Satellite
satellite = record { parts = second; self_destination = 1; uplink = []; dma_writes = [] }

abbrev loaded_twice : Satellite
loaded_twice =
    with_manager (with_kernel (1 ∷ 2 ∷ []) 7 (with_kernel (1 ∷ 2 ∷ []) 7 second.manager)) satellite

load_run-failed_example :
    (load_run report describe 5 1000 0 3 behind_two 0 8 0 load_completed Message.other 0 7 true 100
        satellite
      ≡ reply report describe 5 1000 0 3 behind_two 0 8 0 load_completed Message.other
          (subkernel_load_run_reply 0 true)
          loaded_twice)
    × (is_running loaded_twice.parts.manager.session ≡ false)
unfolding Subkernel.new DmaManager.new load_reply get DmaManager.running
load_run-failed_example =
    load_run-failed report describe 5 1000 0 3 behind_two 0 8 0 Message.other 0 7 100 satellite
      library tt refl refl refl refl
