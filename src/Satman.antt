-- ===== src/Satman.antt =====
-- The firmware of a satellite: slicing of long data, routing of packets, messages between kernels and
-- distributed DMA.
pub mod Sliceable
pub mod Router
pub mod Messages
pub mod Dma
pub mod Analyzer
pub mod Library
pub mod Subkernel
pub mod Handlers
pub mod Repeater
