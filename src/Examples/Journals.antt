-- ===== src/Examples/Journals.antt =====
-- The journals' theorems at concrete inputs.
use runtime_agent.Prelude.Int.{pos}
use runtime_agent.Prelude.{
  ◌+◌, ◌-◌, ◌≡◌, List, [], ◌∷◌, none, some, codes, arith, All, sum_of, ltb, length, ◌*◌, ◌&&◌, true,
  false,
}
use runtime_agent.Journal.Restarts.{ContainerRestart, Restarts}
use runtime_agent.Journal.Restarts.Totals as RestartTotals
use runtime_agent.Journal.Goroutines.{GoroutineCount, Goroutines}
use runtime_agent.Journal.Goroutines.Cap as Cap
use runtime_agent.Journal.States as States
use runtime_agent.Journal.Counters as Counters
use runtime_agent.Journal.Counters.{Counters, Readings}
use runtime_agent.Journal.Counters.Rises as Rises
use runtime_agent.Journal.States.{AgentState, StateRecord, LastSeen, States}
use runtime_agent.Journal.States.Occupancy as Occupancy
use runtime_agent.Journal.States.Accrual as Accrual

abbrev crash : ContainerRestart
crash = record {
  namespace = codes "ns";
  pod = codes "api-1";
  container = codes "app";
  workload = record { kind = codes "Deployment"; name = codes "api" };
  observed_at = 7;
  restarts = pos 3;
  reason = codes "OOMKilled";
  exit_code = some (pos 137);
}

abbrev no_restarts : Restarts
no_restarts = record { window_length = 10; open_records = [] }

abbrev restart_calls : List RestartTotals.Call
restart_calls =
    RestartTotals.observed crash
    ∷ RestartTotals.closed 12
    ∷ RestartTotals.observed (record crash { observed_at = 13 })
    ∷ []

restarts_run-IsCounted_example :
    All RestartTotals.IsCounted (RestartTotals.run no_restarts restart_calls).0
    × All
        (λ x. RestartTotals.IsCounted x.1)
        (RestartTotals.run no_restarts restart_calls).1.open_records
restarts_run-IsCounted_example =
    RestartTotals.run-IsCounted no_restarts restart_calls tt (tt, (tt, (tt, tt)))

run-total_example :
    sum_of (λ r. r.restarts) (RestartTotals.run no_restarts restart_calls).0
      + RestartTotals.total (RestartTotals.run no_restarts restart_calls).1
    ≡ 0 + 6
run-total_example = RestartTotals.run-total no_restarts restart_calls (tt, (tt, (tt, tt)))

abbrev reading : GoroutineCount
reading = record {
  namespace = codes "ns";
  pod = codes "api-1";
  container = codes "app";
  workload = record { kind = codes "Deployment"; name = codes "api" };
  image_digest = codes "sha256:0";
  observed_at = 7;
  goroutines = pos 40;
}

abbrev no_goroutines : Goroutines
no_goroutines = record { window_length = 10; open_records = [] }

abbrev reading_calls : List Cap.Call
reading_calls =
    Cap.observed reading ∷ Cap.closed 12 ∷ Cap.observed (record reading { goroutines = pos 0 }) ∷ []

run-IsCapped_example :
    All Cap.IsCapped (Cap.run no_goroutines reading_calls).0
    × All (λ x. Cap.IsCapped x.1) (Cap.run no_goroutines reading_calls).1.open_records
run-IsCapped_example = Cap.run-IsCapped no_goroutines reading_calls tt

run-readings_example :
    sum_of Cap.readings (Cap.run no_goroutines reading_calls).0
      + Cap.total (Cap.run no_goroutines reading_calls).1
    ≡ 0 + 1
run-readings_example = Cap.run-readings no_goroutines reading_calls (tt, (tt, (tt, tt)))

abbrev failing : AgentState
failing = record { state = codes "failing"; subject = codes "pods"; since = some 5 }

abbrev no_states : States
no_states = record { window_length = 10; open_records = []; seen = λ k. none }

abbrev state_calls : List Occupancy.Call
state_calls =
    Occupancy.observed 6 (failing ∷ [])
    ∷ Occupancy.observed 17 (failing ∷ [])
    ∷ Occupancy.closed 12
    ∷ []

run-IsWatched_example :
    All Occupancy.IsWatched (Occupancy.run no_states state_calls).0
    × Occupancy.AllWatched (Occupancy.run no_states state_calls).1
run-IsWatched_example = Occupancy.run-IsWatched no_states state_calls tt (tt, (tt, (tt, tt)))

abbrev seen_before : LastSeen
seen_before = record { accrued_to = 6; since = some 5 }

accrue-watched_example :
    Accrual.watched (States.accrue no_states failing seen_before 27) ≡ 0 + (27 - 6)
accrue-watched_example = Accrual.accrue-watched no_states failing seen_before 27 (omega arith)

abbrev counting : Counters
counting = record {
  window_length = 10;
  open_records = [];
  prev = (codes "a", 4) ∷ [];
  prev_since = 3;
  prev_at = 6;
}

abbrev pass : Readings
pass = (codes "a", 9) ∷ (codes "b", 2) ∷ []

observe-rises_example :
    let c' = Counters.observe counting 17 3 pass in
    ((Counters.same_base counting 3 && ltb 6 17 ≡ true)
      → (Rises.over (λ r. r.delta) c' ≡ 0 + Rises.rises counting.prev pass)
        × (Rises.over (λ r. r.observed_nanos) c' ≡ 0 + length pass * (17 - 6)))
    × ((Counters.same_base counting 3 && ltb 6 17 ≡ false)
        → (Rises.over (λ r. r.delta) c' ≡ 0) × (Rises.over (λ r. r.observed_nanos) c' ≡ 0))
observe-rises_example = Rises.observe-rises counting 17 3 pass (omega arith)
