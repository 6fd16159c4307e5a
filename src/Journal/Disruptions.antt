-- ===== src/Journal/Disruptions.antt =====
-- internal/journal/disruptions.go: the pods that the cluster removed, on the conventions of the restart journal.
use runtime_agent.Journal.Events as Events
use runtime_agent.Journal.Restarts.{WorkloadRef}
use runtime_agent.Journal.Windows.{second, then_by, closing, remaining}
use runtime_agent.Prelude.Keys.{text_key, nat_key, pair_key, insert, values}
use runtime_agent.Prelude.Sort.{sort_slice}
use runtime_agent.Prelude.{ℕ, ◌+◌, ◌/◌, Bool, List, ltb, leb, ◌==◌, if◌then◌else◌, Text, text_lt}
use runtime_agent.Rollup.Window.{start_of}

-- `model.PodDisruption`
pub record PodDisruption : Type 0 where
  pub namespace : Text
  pub pod : Text
  pub workload : WorkloadRef
  pub node : Text
  pub reason : Text
  pub disrupted_at : ℕ

pub record DisruptionRecord : Type 0 where
  pub namespace : Text
  pub pod : Text
  pub workload : WorkloadRef
  pub node : Text
  pub reason : Text
  pub disrupted_at : ℕ
  pub window_start : ℕ
  pub window_seconds : ℕ

-- `disruptionKey`, as ((namespace, pod), start)`
abbrev pub Key : Type 0
Key = (Text × Text) × ℕ

abbrev pub key_of : DisruptionRecord → Key
key_of r = ((r.namespace, r.pod), r.window_start)

-- The open records of a `Disruptions`.
abbrev pub Open : Type 0
Open = List (Key × DisruptionRecord)

-- `Observe`, on windows of length `w`.
unfoldable pub observe : ℕ → Open → PodDisruption → Open
observe w m e =
    let r : DisruptionRecord = record {
      namespace = e.namespace;
      pod = e.pod;
      workload = e.workload;
      node = e.node;
      reason = e.reason;
      disrupted_at = e.disrupted_at;
      window_start = start_of w e.disrupted_at;
      window_seconds = w / second;
    } in
    if e.disrupted_at == 0 then m else insert ((e.namespace, e.pod), start_of w e.disrupted_at) r m

-- `less` in the sort.
unfoldable pub earlier : DisruptionRecord → DisruptionRecord → Bool
earlier a b =
    if a.window_start == b.window_start
    then then_by a.namespace b.namespace (text_lt a.pod b.pod)
    else ltb a.window_start b.window_start

-- `Snapshots`
unfoldable pub snapshots : Open → List DisruptionRecord
unfolding earlier
snapshots m = sort_slice earlier (values m)

-- `Resume`: the open records, and how many were seeded.
abbrev pub resume : Open → List DisruptionRecord → Open × ℕ
resume m rs = Events.resume key_of m rs

abbrev pub has_ended : ℕ → ℕ → DisruptionRecord → Bool
has_ended w now r = leb (r.window_start + w) now

-- `CloseBefore`: what is returned, and what is left open.
unfoldable pub close_before : ℕ → Open → ℕ → List DisruptionRecord × Open
unfolding earlier
close_before w m now =
    (sort_slice earlier (closing (has_ended w now) m), remaining (has_ended w now) m)
