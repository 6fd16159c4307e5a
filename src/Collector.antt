-- ===== src/Collector.antt =====
-- internal/collector: what is read of the cluster.
pub mod Filter
pub mod Admission
pub mod Restarts
pub mod Usage
pub mod Network
pub mod Poll
