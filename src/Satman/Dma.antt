-- ===== src/Satman/Dma.antt =====
-- src/satman/src/dma.rs: the DMA traces of a satellite.
pub mod Entry
pub mod Realign
pub mod Remote
pub mod Manager
pub mod Upload
pub mod Subkernel
pub mod Playable
pub mod Kept
pub mod Reachable
pub mod Playback
pub mod Record
