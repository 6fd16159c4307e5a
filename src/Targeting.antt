-- ===== src/Targeting.antt =====
-- internal/targeting/targeting.go: the publisher of the workloads to profile. A map's entries stand
-- in one order.
pub mod Ranking
pub mod Summing
use runtime_agent.Prelude.Int.{ℤ, pos, negsuc}
use runtime_agent.Prelude.Keys.{Eq, text_key, pair_key, lookup, insert}
use runtime_agent.Prelude.Sort.{sort_slice}
use runtime_agent.Prelude.{
  ℕ, zero, suc, ◌+◌, Bool, true, false, not, List, [], ◌∷◌, Option, none, some, min, ltb, ◌==◌,
  if◌then◌else◌, Text, text_eq, text_lt, from_option, map, take, length,
}
use runtime_agent.Rollup.Record.{Record}

-- `Target`, as (namespace, (workload kind, workload name)).
abbrev pub Target : Type 0
Target = Text × (Text × Text)

pub record Publisher : Type 0 where
  pub top_n : ℕ
  pub current : Option (List Target)

-- `NewPublisher`
unfoldable pub new_publisher : ℤ → Publisher
new_publisher (pos zero) = record { top_n = 1; current = none }
new_publisher (pos (suc n)) = record { top_n = suc n; current = none }
new_publisher (negsuc n) = record { top_n = 1; current = none }

abbrev pub target_of : Record → Target
target_of r = (r.key.0, (r.key.1.0, r.key.1.1.0))

-- The loop that sums the consumption by workload, without the excluded ones.
pub sum_by_target : (Target → Bool) → List Record → List (Target × ℕ) → List (Target × ℕ)
sum_by_target excluded [] m = m
sum_by_target excluded (r ∷ rs) m =
    let t = target_of r in
    let added =
      sum_by_target excluded rs
        (insert t (from_option 0 (lookup t m) + r.cpu.core_nanoseconds) m) in
    let skipped = sum_by_target excluded rs m in if excluded t then skipped else added

-- `less` of the ranking.
pub ranks_before : Target × ℕ → Target × ℕ → Bool
ranks_before a b =
    if not (a.1 == b.1)
    then ltb b.1 a.1
    else if not (text_eq a.0.0 b.0.0)
    then text_lt a.0.0 b.0.0
    else text_lt a.0.1.1 b.0.1.1

-- The ranked workloads with their consumption.
unfoldable pub ranked : (Target → Bool) → List Record → List (Target × ℕ)
unfolding sum_by_target ranks_before
ranked excluded rs = sort_slice ranks_before (sum_by_target excluded rs [])

-- `Publish`; what `optedOut` returns is a test, true of no target where it is nil.
unfoldable pub publish : (Target → Bool) → Publisher → List Record → Publisher
unfolding ranked
publish excluded p rs =
    let all = ranked excluded rs in
    record p { current = some (map (λ x. x.0) (take (min p.top_n (length all)) all)) }

-- `Snapshot`
unfoldable pub snapshot : Publisher → List Target
snapshot p = from_option [] p.current
