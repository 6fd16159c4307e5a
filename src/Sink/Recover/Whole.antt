-- ===== src/Sink/Recover/Whole.antt =====
-- internal/sink/recover.go: what the whole startup read returns.
use runtime_agent.Prelude.{ℕ, ◌≡◌, false, All}
use runtime_agent.Rollup.Record.{Record}
use runtime_agent.Sink.Payloads.{
  closed_name, usage_window_of, restarts, disruptions, node_lifecycle, job_runs, goroutine_counts,
  agent_states, agent_counters,
}
use runtime_agent.Sink.Recover.Open.{IsOpen, AllOpen}
use runtime_agent.Sink.Recover.{Volume, Recovery, is_there}

-- The record's window has not ended, and no closed file of it is there.
abbrev pub IsUnclosed : Volume → ℕ → Record → Type 0
IsUnclosed v now r =
    IsOpen now (usage_window_of r) × (is_there v (closed_name (usage_window_of r)) ≡ false)

-- All that is recovered is of windows still open, and of usage, of windows that were not closed.
abbrev pub StillOpen : Volume → ℕ → Recovery → Type 0
StillOpen v now rec =
    All (IsUnclosed v now) rec.records
    × AllOpen restarts.window_of now rec.restarts
    × AllOpen disruptions.window_of now rec.disruptions
    × AllOpen node_lifecycle.window_of now rec.node_events
    × AllOpen job_runs.window_of now rec.job_runs
    × AllOpen goroutine_counts.window_of now rec.goroutine_counts
    × AllOpen agent_states.window_of now rec.agent_states
    × AllOpen agent_counters.window_of now rec.agent_counters
