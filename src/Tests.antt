-- ===== src/Tests.antt =====
-- Runs of the model at concrete inputs, and the theorems at inputs that meet their hypotheses.
pub mod LittleEndian
pub mod Io
pub mod Drtioaux
pub mod RoutingTable
pub mod Satman
pub mod Dma
pub mod Analyzer
pub mod Recorder
pub mod Rpc
pub mod Subkernel
pub mod Handlers
pub mod Repeater
