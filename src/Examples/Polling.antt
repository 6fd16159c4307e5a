-- ===== src/Examples/Polling.antt =====
-- The theorems on a pod's network counters at concrete inputs.
use runtime_agent.Collector.Network.{NetworkStats, Sums, sums_of}
use runtime_agent.Collector.Network.Deltas.{Poll, Rising, feed, last, readings, feed-gained}
use runtime_agent.Prelude.Keys.{lookup}
use runtime_agent.Prelude.{ℕ, ◌+◌, ◌≡◌, refl, false, List, [], ◌∷◌, none, some, Text, codes, arith}
use runtime_agent.Rollup.Network.{NetworkKey}
use runtime_agent.Rollup.Network.Totals.{over}

abbrev key : NetworkKey
key = (codes "shop", (codes "Deployment", codes "cart"))

-- A pod with its default interface only, which reports no receive errors.
abbrev stats : ℕ → ℕ → ℕ → NetworkStats
stats time rx tx = record {
  time = time;
  default = record { rx_bytes = some rx; tx_bytes = some tx; rx_errors = none; tx_errors = some 1 };
  interfaces = [];
}

-- A poll that misses the pod, a counter that stands still, and an interval across a window's end.
abbrev polls : List Poll
polls = (3580, none) ∷ (3600, some (stats 3590 900 50)) ∷ (3640, some (stats 3630 1500 50)) ∷ []

abbrev pod : Text
pod = codes "u1"

feed-gained_example :
    let acc' = (feed 3600 pod key false ([], []) ((3570, some (stats 3560 700 40)) ∷ polls)).1 in
    let start : ℕ × Sums = (3560, sums_of (stats 3560 700 40)) in
    (over (λ r. r.rx_bytes) acc' + start.1.rx ≡ over (λ r. r.rx_bytes) [] + (last start polls).1.rx)
    × (over (λ r. r.tx_bytes) acc' + start.1.tx
        ≡ over (λ r. r.tx_bytes) [] + (last start polls).1.tx)
    × (over (λ r. r.covered_nanoseconds) acc' + start.0
        ≡ over (λ r. r.covered_nanoseconds) [] + (last start polls).0)
    × (over (λ r. r.samples) acc' ≡ over (λ r. r.samples) [] + readings polls)
unfolding Rising sums_of lookup
feed-gained_example =
    feed-gained 3600 pod key false 3570 (stats 3560 700 40) [] [] polls (omega arith) (omega arith)
      (omega arith) refl
      (
        omega arith,
        (
          omega arith,
          omega arith,
          (
            omega arith,
            omega arith,
            omega arith,
            omega arith,
            omega arith,
            omega arith,
            omega arith,
            omega arith,
          ),
          omega arith,
          (
            omega arith,
            omega arith,
            (
              omega arith,
              omega arith,
              omega arith,
              omega arith,
              omega arith,
              omega arith,
              omega arith,
              omega arith,
            ),
            omega arith,
            tt,
          ),
        ),
      )
