-- ===== src/Collector/Filter/OptOut.antt =====
-- internal/collector/filter.go: every control on collection is honoured.
use runtime_agent.Prelude.{
  ◌≡◌, ◌↔◌, refl, ap, ◌∙◌, true, false, List, [], ◌∷◌, ◌++◌, none, some, Text, arith,
}
use runtime_agent.Collector.Filter.{
  Filter, Pod, Job, Annotations, WorkloadLookup, namespace_filter, match_glob, match_any,
  namespace_allowed, opts_out, collect_annotation, admit_pod, admit_namespace, admit_job,
}
use runtime_agent.Collector.Filter.Globs.{Matches, match_glob-Matches}

-- A pod is admitted exactly where its namespace is allowed and none of its namespace, its workload
-- and itself has opted out.
pub admit_pod-none :
    (f : Filter) (pod : Pod) (ns : Annotations) (w : WorkloadLookup)
    → (admit_pod f pod ns w ≡ none) ↔ (
        (namespace_allowed f pod.namespace ≡ true)
        × (opts_out ns collect_annotation ≡ false)
        × (opts_out w.annotations collect_annotation ≡ false)
        × (opts_out pod.annotations collect_annotation ≡ false))
unfolding admit_pod
admit_pod-none f pod ns w = ground arith

-- Where the filter admits a Job, it admits the pods of the Job's template, under the same
-- annotations of the namespace and of the owner; so no run is reported of which no pod may be.
pub admit_job-template :
    (f : Filter) (job : Job) (ns : Annotations) (w : WorkloadLookup)
    → admit_job f job ns w ≡ none
    → admit_pod f
        (record { namespace = job.namespace; annotations = job.template_annotations })
        ns
        w
      ≡ none
unfolding admit_job admit_pod
admit_job-template f job ns w h = ground arith

match_any-append :
    (before rest : List Text) (p s : Text)
    → match_glob p s ≡ true
    → match_any (before ++ p ∷ rest) s ≡ true
unfolding match_any
match_any-append [] rest p s h = ground (arith, h)
match_any-append (q ∷ before) rest p s h = ground (arith, match_any-append before rest p s h)

-- A namespace that a pattern of the deny list matches is not collected, whatever the allow list and
-- the annotations say: neither are its pods or its Jobs.
pub admit-denied :
    (f : Filter) (before rest : List Text) (p ns : Text) (own named : Annotations)
    (w : WorkloadLookup) (template : Annotations)
    → f.deny ≡ before ++ p ∷ rest
    → Matches p ns
    → (admit_namespace f (record { name = ns; annotations = named }) ≡ some namespace_filter)
      × (admit_pod f (record { namespace = ns; annotations = own }) named w ≡ some namespace_filter)
      × (admit_job f
            (record { namespace = ns; annotations = own; template_annotations = template })
            named
            w
          ≡ some namespace_filter)
unfolding admit_namespace admit_pod admit_job namespace_allowed
admit-denied f before rest p ns own named w template e m =
    let denied : match_any f.deny ns ≡ true =
      ap (λ l. match_any l ns) e
      ∙ match_any-append before rest p ns ((match_glob-Matches p ns).1 m) in
    let closed : namespace_allowed f ns ≡ false = ground (arith, denied) in
    rw (closed) (refl, refl, refl)
