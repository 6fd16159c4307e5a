-- ===== src/Collector/Filter.antt =====
-- internal/collector/filter.go: which pods, namespaces and Jobs are collected. Counters do not wrap,
-- and an annotation that is not there reads as the empty string.
pub mod Globs
pub mod Search
pub mod OptOut
use runtime_agent.Prelude.Keys.{text_key, lookup}
use runtime_agent.Prelude.{
  ℕ, zero, suc, ◌+◌, Bool, true, false, ◌&&◌, ◌||◌, not, List, [], ◌∷◌, Option, none, some, ◌==◌,
  leb, length, if◌then◌else◌, Text, codes, text_eq, has_prefix, has_suffix, from_option,
}

abbrev pub star : ℕ
star = b'*'

-- `s[n:]`
unfoldable pub drop : ℕ → Text → Text
drop zero s = s
drop (suc n) [] = []
drop (suc n) (c ∷ s) = drop n s

-- A byte before the first part.
pub extend : ℕ → List Text → List Text
extend c [] = []
extend c (q ∷ qs) = (c ∷ q) ∷ qs

-- `strings.Split(pattern, "*")`
unfoldable pub split_star : Text → List Text
unfolding extend
split_star [] = [] ∷ []
split_star (c ∷ p) = if c == star then [] ∷ split_star p else extend c (split_star p)

-- `strings.Index`, none for -1.
unfoldable pub index : Text → Text → Option ℕ
index [] part = if has_prefix [] part then some 0 else none
index (c ∷ s) part =
    let rest = index s part in
    if has_prefix (c ∷ s) part then some 0 else elim rest [ none ↦ none | some i ↦ some (suc i) ]

-- The loop over the parts between the first and the last, and the test of the last.
unfoldable pub search : Text → List Text → Text → Bool
unfolding index drop
search last [] s = has_suffix s last && leb (length last) (length s)
search part (q ∷ qs) s = elim (index s part) [
  | none ↦ false
  | some i ↦ search q qs (drop (i + length part) s)
]

unfoldable pub match_parts : Text → Text → List Text → Bool
unfolding search drop
match_parts pattern s [] = text_eq pattern s
match_parts pattern s (q ∷ []) = text_eq pattern s
match_parts pattern s (q ∷ p ∷ ps) =
    if has_prefix s q then search p ps (drop (length q) s) else false

-- `matchGlob`
unfoldable pub match_glob : Text → Text → Bool
unfolding match_parts split_star
match_glob pattern s = match_parts pattern s (split_star pattern)

-- `matchAny`
unfoldable pub match_any : List Text → Text → Bool
unfolding match_glob
match_any [] s = false
match_any (p ∷ ps) s = match_glob p s || match_any ps s

abbrev pub Annotations : Type 0
Annotations = List (Text × Text)

unfoldable pub annotation : Annotations → Text → Text
annotation m k = from_option [] (lookup k m)

abbrev pub collect_annotation : Text
collect_annotation = codes "rebuildstack.co/collect"

abbrev pub profile_annotation : Text
profile_annotation = codes "rebuildstack.co/profile"

-- Whether the annotation says "false".
unfoldable pub opts_out : Annotations → Text → Bool
unfolding annotation
opts_out m k = text_eq (annotation m k) (codes "false")

pub data ExclusionReason : Type 0 where
  namespace_filter namespace_annotation workload_annotation pod_annotation object_annotation :
      ExclusionReason

pub data UnresolvedWorkload : Type 0 where
  unknown_kind not_cached : UnresolvedWorkload

pub record WorkloadLookup : Type 0 where
  pub annotations : Annotations
  pub unresolved : Option UnresolvedWorkload

-- The counters of `Filter`, as `Snapshot` returns them.
pub record Coverage : Type 0 where
  pub pods_observed : ℕ
  pub excluded_namespace_filter : ℕ
  pub excluded_namespace_annotation : ℕ
  pub excluded_workload_annotation : ℕ
  pub excluded_pod_annotation : ℕ
  pub excluded_profiling_annotation : ℕ
  pub workload_unknown_kind : ℕ
  pub workload_not_cached : ℕ
  pub jobs_observed : ℕ
  pub jobs_excluded_namespace_filter : ℕ
  pub jobs_excluded_namespace_annotation : ℕ
  pub jobs_excluded_workload_annotation : ℕ
  pub jobs_excluded_annotation : ℕ

pub record Filter : Type 0 where
  pub allow : List Text
  pub deny : List Text
  pub counts : Coverage

unfoldable pub namespace_allowed : Filter → Text → Bool
unfolding match_any
namespace_allowed f ns =
    if not (length f.allow == 0) && not (match_any f.allow ns)
    then false
    else not (match_any f.deny ns)

-- What the filter reads of a pod, a namespace or a Job.
pub record Pod : Type 0 where
  pub namespace : Text
  pub annotations : Annotations

pub record Namespace : Type 0 where
  pub name : Text
  pub annotations : Annotations

pub record Job : Type 0 where
  pub namespace : Text
  pub annotations : Annotations
  pub template_annotations : Annotations

-- `AdmitPod`, none where the pod is admitted.
unfoldable pub admit_pod : Filter → Pod → Annotations → WorkloadLookup → Option ExclusionReason
unfolding namespace_allowed opts_out
admit_pod f pod ns w =
    if not (namespace_allowed f pod.namespace)
    then some namespace_filter
    else if opts_out ns collect_annotation
    then some namespace_annotation
    else if opts_out w.annotations collect_annotation
    then some workload_annotation
    else if opts_out pod.annotations collect_annotation
    then some pod_annotation
    else none

-- `AdmitNamespace`
unfoldable pub admit_namespace : Filter → Namespace → Option ExclusionReason
unfolding namespace_allowed opts_out
admit_namespace f ns =
    if not (namespace_allowed f ns.name)
    then some namespace_filter
    else if opts_out ns.annotations collect_annotation
    then some namespace_annotation
    else none

-- `AdmitProfiling`
unfoldable pub admit_profiling : Pod → Annotations → WorkloadLookup → Bool
unfolding opts_out
admit_profiling pod ns w =
    not (opts_out ns profile_annotation)
    && not (opts_out w.annotations profile_annotation)
    && not (opts_out pod.annotations profile_annotation)

-- `AdmitJob`
unfoldable pub admit_job : Filter → Job → Annotations → WorkloadLookup → Option ExclusionReason
unfolding namespace_allowed opts_out
admit_job f job ns w =
    if not (namespace_allowed f job.namespace)
    then some namespace_filter
    else if opts_out ns collect_annotation
    then some namespace_annotation
    else if opts_out w.annotations collect_annotation
    then some workload_annotation
    else if opts_out job.annotations collect_annotation
        || opts_out job.template_annotations collect_annotation
    then some object_annotation
    else none

abbrev pub counted : Filter → Coverage → Filter
counted f c = record f { counts = c }

unfoldable pub count_observed : Filter → Filter
count_observed f = counted f (record f.counts { pods_observed = f.counts.pods_observed + 1 })

unfoldable pub count_excluded : Filter → ExclusionReason → Filter
count_excluded f namespace_filter =
    counted f
      (record f.counts { excluded_namespace_filter = f.counts.excluded_namespace_filter + 1 })
count_excluded f namespace_annotation =
    counted f (record f.counts {
      excluded_namespace_annotation = f.counts.excluded_namespace_annotation + 1;
    })
count_excluded f workload_annotation =
    counted f
      (record f.counts { excluded_workload_annotation = f.counts.excluded_workload_annotation + 1 })
count_excluded f pod_annotation =
    counted f (record f.counts { excluded_pod_annotation = f.counts.excluded_pod_annotation + 1 })
count_excluded f object_annotation = f

unfoldable pub count_excluded_profiling : Filter → Filter
count_excluded_profiling f =
    counted f (record f.counts {
      excluded_profiling_annotation = f.counts.excluded_profiling_annotation + 1;
    })

unfoldable pub count_job_observed : Filter → Filter
count_job_observed f = counted f (record f.counts { jobs_observed = f.counts.jobs_observed + 1 })

unfoldable pub count_job_excluded : Filter → ExclusionReason → Filter
count_job_excluded f namespace_filter = counted f (record f.counts {
  jobs_excluded_namespace_filter = f.counts.jobs_excluded_namespace_filter + 1;
})
count_job_excluded f namespace_annotation = counted f (record f.counts {
  jobs_excluded_namespace_annotation = f.counts.jobs_excluded_namespace_annotation + 1;
})
count_job_excluded f workload_annotation = counted f (record f.counts {
  jobs_excluded_workload_annotation = f.counts.jobs_excluded_workload_annotation + 1;
})
count_job_excluded f pod_annotation = f
count_job_excluded f object_annotation =
    counted f (record f.counts { jobs_excluded_annotation = f.counts.jobs_excluded_annotation + 1 })

unfoldable pub count_unresolved_workload : Filter → UnresolvedWorkload → Filter
count_unresolved_workload f unknown_kind =
    counted f (record f.counts { workload_unknown_kind = f.counts.workload_unknown_kind + 1 })
count_unresolved_workload f not_cached =
    counted f (record f.counts { workload_not_cached = f.counts.workload_not_cached + 1 })
