-- ===== src/Sink.antt =====
-- internal/sink: the local spool that payloads are written to.
pub mod Registry
pub mod Cadence
pub mod Names
pub mod Spool
pub mod Sweep
pub mod Windows
pub mod Payloads
pub mod Files
pub mod Recover
