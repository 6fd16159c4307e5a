-- ===== src/Examples.antt =====
-- The theorems at concrete inputs.
pub mod Sinks
pub mod Shipping
pub mod Rollups
pub mod Journals
pub mod Events
pub mod Recoveries
pub mod Collecting
pub mod Polling
