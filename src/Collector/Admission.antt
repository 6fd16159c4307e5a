-- ===== src/Collector/Admission.antt =====
-- internal/collector/pods.go: the decisions on a pod as it appears, changes and goes, and their
-- counts. Of the index, the record is kept that a pod is in it, and whether it may be profiled; the
-- annotations of the namespace and of the workload come with the event.
pub mod Counts
use runtime_agent.Prelude.Keys.{update}
use runtime_agent.Prelude.{
  ℕ, Bool, true, false, ◌&&◌, ◌||◌, not, List, [], ◌∷◌, Option, none, some, if◌then◌else◌, Text,
  from_option,
}
use runtime_agent.Collector.Filter.{
  Filter, Pod, Annotations, WorkloadLookup, UnresolvedWorkload, ExclusionReason, admit_pod,
  admit_profiling, count_observed, count_excluded, count_excluded_profiling,
  count_unresolved_workload,
}

-- `admission`
pub record Admission : Type 0 where
  pub collect : Bool
  pub profile : Bool
  pub reason : Option ExclusionReason

-- The part of a `PodWatcher` that decisions read and write.
pub record Watcher : Type 0 where
  pub filter : Filter
  pub index : Text → Option Bool

-- A pod in an event, with what is looked up for it.
pub record Seen : Type 0 where
  pub uid : Text
  pub pod : Pod
  pub namespace_annotations : Annotations
  pub workload : WorkloadLookup

decision : Option ExclusionReason → Bool → Admission
decision none p = record { collect = true; profile = p; reason = none }
decision (some r) p = record { collect = false; profile = false; reason = some r }

-- What `admit` returns.
unfoldable pub decide : Filter → Seen → Admission
unfolding decision admit_pod admit_profiling
decide f e =
    decision (admit_pod f e.pod e.namespace_annotations e.workload)
      (admit_profiling e.pod e.namespace_annotations e.workload)

unfoldable pub count_reason : Filter → Option ExclusionReason → Filter
unfolding count_excluded
count_reason f none = f
count_reason f (some r) = count_excluded f r

unfoldable pub count_unresolved : Filter → Option UnresolvedWorkload → Filter
unfolding count_unresolved_workload
count_unresolved f none = f
count_unresolved f (some u) = count_unresolved_workload f u

-- An admission, counted.
unfoldable pub count_collected : Filter → Bool → Filter
unfolding count_observed count_excluded_profiling
count_collected f profile =
    if profile then count_observed f else count_excluded_profiling (count_observed f)

-- What `admit` counts of a pod that appears.
unfoldable pub count_admission : Filter → Admission → Option UnresolvedWorkload → Filter
unfolding count_reason count_collected count_unresolved
count_admission f d u =
    count_unresolved (if d.collect then count_collected f d.profile else count_reason f d.reason) u

-- `decisionFor`
unfoldable pub decision_for : Watcher → Text → Option Admission
decision_for w uid = elim (w.index uid) [
  | none ↦ none
  | some p ↦ some (record { collect = true; profile = p; reason = none })
]

-- `countTransition`; the earlier decision is none where it is not known.
unfoldable pub count_transition : Filter → Option Admission → Admission → Filter
unfolding count_reason count_collected
count_transition f none now = if now.collect then count_collected f now.profile else f
count_transition f (some was) now =
    if now.collect
    then (if was.profile && not now.profile then count_excluded_profiling f else f)
    else count_reason f now.reason

-- `indexPod` or `dropPod`
unfoldable pub indexed : (Text → Option Bool) → Text → Admission → Text → Option Bool
indexed index uid d = update index uid (if d.collect then some d.profile else none)

-- `AddFunc`, which leaves the index where the pod is not collected.
unfoldable pub on_add : Watcher → Seen → Watcher
unfolding decide count_admission indexed
on_add w e =
    let d = decide w.filter e in
    record {
      filter = count_admission w.filter d e.workload.unresolved;
      index = if d.collect then indexed w.index e.uid d else w.index;
    }

-- `UpdateFunc`
unfoldable pub on_update : Watcher → Seen → Watcher
unfolding decide decision_for count_transition indexed
on_update w e =
    let d = decide w.filter e in
    record {
      filter = count_transition w.filter (decision_for w e.uid) d;
      index = indexed w.index e.uid d;
    }

-- `DeleteFunc`
unfoldable pub on_delete : Watcher → Text → Watcher
on_delete w uid = record w { index = update w.index uid none }
