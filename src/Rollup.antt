-- ===== src/Rollup.antt =====
-- internal/rollup: the usage rollups.
pub mod Histogram
pub mod Window
pub mod Record
pub mod Opened
pub mod Network
pub mod Accumulator
