-- ===== src/Satman/Library.antt =====
-- src/satman/src/subkernel.rs, the kernels of Manager: libraries that are received in slices.
pub mod Received
use madmax_artiq_zynq.Base.{
  ℕ, Bool, true, false, ◌||◌, Option, none, some, List, [], ◌∷◌, ◌++◌, if◌then◌else◌,
}
use madmax_artiq_zynq.Outcome.{Outcome, ok, err, panic, ◌>>=◌}
use madmax_artiq_zynq.TreeMap.{get, insert, numbers}
use madmax_artiq_zynq.Drtioaux.Payload.{PayloadStatus, is_first, is_last}
use madmax_artiq_zynq.Drtioaux.RoutingTable.{Result}
use madmax_artiq_zynq.Satman.Messages.{front}

pub record KernelLibrary : Type 0 where
  pub library : List ℕ
  pub complete : Bool

-- The field `kernels` of Manager.
abbrev pub Kernels : Type 0
Kernels = List (ℕ × KernelLibrary)

abbrev pub no_library : KernelLibrary
no_library = record { library = []; complete = false }

-- The library that a slice is added to.
unfoldable pub open_library : Option KernelLibrary → PayloadStatus → KernelLibrary
open_library none status = no_library
open_library (some kernel) status =
    if kernel.complete || is_first status then no_library else kernel

-- `Manager::add`, which changes nothing else.
unfoldable pub add_kernel : ℕ → PayloadStatus → List ℕ → ℕ → Kernels → Result Kernels
unfolding open_library
add_kernel id status bytes data_len kernels = do
  used ← front bytes data_len
  let kernel = open_library (get id kernels) status
  ok (insert id (record { library = kernel.library ++ used; complete = is_last status }) kernels)
