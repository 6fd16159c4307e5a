-- ===== src/Journal.antt =====
-- internal/journal: what the cluster's own history says, reduced into windows aligned to the wall
-- clock.
pub mod Windows
pub mod Events
pub mod Restarts
pub mod Goroutines
pub mod Disruptions
pub mod JobRuns
pub mod NodeEvents
pub mod States
pub mod Counters
