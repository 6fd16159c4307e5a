-- ===== src/Collector/Restarts.antt =====
-- internal/collector/restarts.go: the restarts that a pod's statuses report. The kubelet's counters
-- are not negative.
pub mod Reported
use runtime_agent.Journal.Restarts.{WorkloadRef, ContainerRestart}
use runtime_agent.Prelude.Int.{ℤ, pos}
use runtime_agent.Prelude.Keys.{text_key, lookup, insert}
use runtime_agent.Prelude.{
  ℕ, ◌-◌, Bool, List, [], ◌∷◌, ◌++◌, Option, none, some, ltb, ◌==◌, ◌||◌, not, if◌then◌else◌, Text,
  codes, has_prefix,
}

-- `corev1.ContainerStateTerminated`, as far as it is read.
pub record Terminated : Type 0 where
  pub reason : Text
  pub exit_code : ℤ

-- `corev1.ContainerStatus`, as far as it is read.
pub record ContainerStatus : Type 0 where
  pub name : Text
  pub restart_count : ℕ
  pub last_terminated : Option Terminated
  pub terminated : Option Terminated

pub record Pod : Type 0 where
  pub namespace : Text
  pub name : Text
  pub workload : WorkloadRef
  pub init_statuses : List ContainerStatus
  pub statuses : List ContainerStatus

-- `restartBaseline`
pub record Baseline : Type 0 where
  pub last : ℕ
  pub at_first_sight : ℕ
  pub first_seen : ℕ

abbrev pub Baselines : Type 0
Baselines = List (Text × Baseline)

abbrev pub restart_key : Text → Text → Text → Text
restart_key namespace pod container = namespace ++ b'/' ∷ pod ++ b'/' ∷ container

unfoldable pub last_termination_state : ContainerStatus → Option Terminated
last_termination_state s = elim s.last_terminated [ some t ↦ some t | none ↦ s.terminated ]

-- `lastTermination`
unfoldable pub last_termination : ContainerStatus → Text × Option ℤ
unfolding last_termination_state
last_termination s = elim (last_termination_state s) [
  | none ↦ ([], none)
  | some t ↦ (t.reason, some t.exit_code)
]

abbrev pub restart_of : Pod → ContainerStatus → ℕ → ℕ → ContainerRestart
restart_of pod s at previous = record {
  namespace = pod.namespace;
  pod = pod.name;
  container = s.name;
  workload = pod.workload;
  observed_at = at;
  restarts = pos (s.restart_count - previous);
  reason = (last_termination s).0;
  exit_code = (last_termination s).1;
}

abbrev pub baselined : ℕ → ℕ → Baseline
baselined count at = record { last = count; at_first_sight = count; first_seen = at }

-- A container that was seen before.
report_seen : Pod → ContainerStatus → ℕ → Baselines → Baseline → Baselines × List ContainerRestart
unfolding last_termination
report_seen pod s at m base =
    let key = restart_key pod.namespace pod.name s.name in
    if ltb s.restart_count base.last then (insert key (baselined s.restart_count at) m, []) else (
      insert key (record base { last = s.restart_count }) m,
      if s.restart_count == base.last then [] else restart_of pod s at base.last ∷ [],
    )

-- The body of the loop of `reportRestarts`: the baselines, and what `onRestart` is called with.
unfoldable pub report_status :
    Pod → ℕ → Baselines → ContainerStatus → Baselines × List ContainerRestart
unfolding report_seen
report_status pod at m s = elim (lookup (restart_key pod.namespace pod.name s.name) m) [
  | none ↦ (insert (restart_key pod.namespace pod.name s.name) (baselined s.restart_count at) m, [])
  | some base ↦ report_seen pod s at m base
]

unfoldable pub report_loop :
    Pod → ℕ → Baselines → List ContainerStatus → Baselines × List ContainerRestart
unfolding report_status
report_loop pod at m [] = (m, [])
report_loop pod at m (s ∷ ss) =
    let (m', here) = report_status pod at m s in
    let (m'', later) = report_loop pod at m' ss in (m'', here ++ later)

-- `reportRestarts` with an `onRestart`
unfoldable pub report_restarts : Pod → ℕ → Baselines → Baselines × List ContainerRestart
unfolding report_loop
report_restarts pod at m = report_loop pod at m (pod.init_statuses ++ pod.statuses)

-- `forgetRestarts`
unfoldable pub forget_restarts : Text → Text → Baselines → Baselines
forget_restarts namespace pod [] = []
forget_restarts namespace pod ((k, b) ∷ m) =
    let rest = forget_restarts namespace pod m in
    if has_prefix k (namespace ++ b'/' ∷ pod ++ b'/' ∷ []) then rest else (k, b) ∷ rest
