-- ===== src/Examples/Rollups.antt =====
-- The rollups' and the publisher's theorems at concrete inputs.
use runtime_agent.Prelude.Keys.{insert, lookup, text_key, nat_key, pair_key}
use runtime_agent.Prelude.Int.{pos, negsuc}
use runtime_agent.Prelude.{
  ℕ, ◌+◌, ◌-◌, ◌/◌, ◌%◌, ◌≤◌, ◌<◌, ◌≡◌, refl, false, [], ◌∷◌, ◌++◌, none, some, codes, arith, List,
  All, sum_of, text_eq,
}
use runtime_agent.Rollup.Histogram.{empty_histogram, index, lower_bound, upper_bound, merge}
use runtime_agent.Rollup.Histogram.Grid.{index-Contains}
use runtime_agent.Rollup.Histogram.Merging.{observe_all, merge-observe_all}
use runtime_agent.Rollup.Window.{split}
use runtime_agent.Rollup.Window.Split.{split-sum}
use runtime_agent.Rollup.Record.{Key, Record, new_record}
use runtime_agent.Targeting.{Publisher, new_publisher, publish, snapshot}
use runtime_agent.Targeting.Ranking.{TopRanked, publish-TopRanked}
use runtime_agent.Rollup.Network.{NetworkKey, NetworkDelta}
use runtime_agent.Rollup.Accumulator as Accumulator
use runtime_agent.Rollup.Accumulator.{fresh, observe_cpu_delta, seed, SeedError}
use runtime_agent.Rollup.Accumulator.Totals.{over, observe_cpu_delta-total}
use runtime_agent.Rollup.Accumulator.Seeding.{seed-counted}
use runtime_agent.Rollup.Record.Counted.{Totals, plus, counted}
use runtime_agent.Journal.Windows.{second}

index-Contains_example :
    (lower_bound 20 (index 20 (pos 5000000)) ≤ 5000000)
    × (5000000 < upper_bound 20 (index 20 (pos 5000000)))
index-Contains_example = index-Contains 20 5000000 (omega arith) (omega arith)

merge-observe_all_example :
    merge
      (observe_all (empty_histogram 0) (pos 3 ∷ negsuc 0 ∷ []))
      (observe_all (empty_histogram 0) (pos 900 ∷ []))
    ≡ some (observe_all (empty_histogram 0) ((pos 3 ∷ negsuc 0 ∷ []) ++ pos 900 ∷ []))
merge-observe_all_example = merge-observe_all 0 (pos 3 ∷ negsuc 0 ∷ []) (pos 900 ∷ [])

-- An interval over three windows of length 10.
split-sum_example :
    (sum_of (λ p. p.share) (split 10 7 31 (pos 100)) ≡ 100)
    × All (λ p. (p.start % 10 ≡ 0) × (p.start < 31) × (7 < p.start + 10)) (split 10 7 31 (pos 100))
split-sum_example = split-sum 10 7 31 100 (omega arith) (omega arith) (omega arith)

abbrev container : Key
container = (codes "ns", (codes "Deployment", (codes "api", codes "app")))

abbrev window : Record
window = new_record container 20 (10 / second)

observe_cpu_delta-total_example :
    (over (λ r. r.cpu.core_nanoseconds) (observe_cpu_delta 10 [] container 7 31 (pos 100))
      ≡ 0 + 100)
    × (over (λ r. r.cpu.covered_nanoseconds) (observe_cpu_delta 10 [] container 7 31 (pos 100))
        ≡ 0 + (31 - 7))
    × (over (λ r. r.cpu.samples) (observe_cpu_delta 10 [] container 7 31 (pos 100)) ≡ 0 + 1)
observe_cpu_delta-total_example =
    observe_cpu_delta-total 10 7 31 100 container [] (omega arith) (omega arith) (omega arith)
      (omega arith)

abbrev windows : Accumulator.Open
windows = observe_cpu_delta 10 [] container 7 31 (pos 100)

-- Seven nanoseconds of CPU over eight, one period of three throttled, and a stall of memory.
abbrev totals : Totals
totals = record {
  core = 7;
  covered = 8;
  throttled = 1;
  periods = 3;
  throttling_samples = 1;
  cpu_stall = 0;
  cpu_stalls = 0;
  memory_stall = 4;
  memory_stalls = 1;
}

abbrev in_window : Totals → List ℕ → List ℕ → Record
in_window = counted (new_record container 20 (10 / second))

seed-counted_example :
    seed 10
      (((container, 20), in_window totals (3 ∷ []) []) ∷ [])
      (in_window totals (5 ∷ []) (7 ∷ []))
      false
    ≡ (
      insert
          (container, 20)
          (in_window (plus totals totals) ((3 ∷ []) ++ 5 ∷ []) ([] ++ 7 ∷ []))
          (((container, 20), in_window totals (3 ∷ []) []) ∷ []),
      none,
    )
unfolding lookup insert pair_key text_eq
seed-counted_example =
    seed-counted 10 20 container (((container, 20), in_window totals (3 ∷ []) []) ∷ []) totals
      totals (5 ∷ []) (7 ∷ []) (3 ∷ []) [] (omega arith) refl

abbrev workload : NetworkKey
workload = (codes "ns", (codes "Deployment", codes "api"))

abbrev movement : NetworkDelta
movement = record {
  rx_bytes = pos 100;
  tx_bytes = negsuc 0;
  rx_errors = pos 1;
  tx_errors = pos 0;
  interfaces = 2;
}

abbrev publisher : Publisher
publisher = new_publisher (pos 1)

abbrev consumers : List Record
consumers =
    record window { cpu = record window.cpu { core_nanoseconds = 5 } }
    ∷ record window {
      key = (codes "ns", (codes "Deployment", (codes "web", codes "app")));
      cpu = record window.cpu { core_nanoseconds = 9 };
    }
    ∷ []

publish-TopRanked_example :
    TopRanked
      (λ t. false)
      publisher.top_n
      consumers
      (snapshot (publish (λ t. false) publisher consumers))
publish-TopRanked_example = publish-TopRanked (λ t. false) publisher consumers
