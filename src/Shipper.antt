-- ===== src/Shipper.antt =====
-- internal/shipper: delivery of the spool's payloads to one backend. Its parts are in the modules
-- below: the state and the listing, one delivery, the rounds, the delay between rounds, and the
-- name that the agent gives itself.
pub mod State
pub mod Pending
pub mod Deliver
pub mod Round
pub mod Delay
pub mod Agent
