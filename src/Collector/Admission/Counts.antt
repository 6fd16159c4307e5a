-- ===== src/Collector/Admission/Counts.antt =====
-- internal/collector/pods.go: what the counters say of the decisions.
use runtime_agent.Prelude.{
  ℕ, ◌+◌, ◌≡◌, ◌≢◌, refl, sym, subst, ap, ap₂, ◌∙◌, Bool, true, false, ◌&&◌, not, Option, none,
  some, Option-cases, inl, inr, if◌then◌else◌, Text, text_eq_refl, arith,
}
use runtime_agent.Collector.Filter.{
  Filter, ExclusionReason, namespace_filter, namespace_annotation, workload_annotation,
  pod_annotation, object_annotation, namespace_allowed, admit_pod, admit_profiling, count_observed,
  count_excluded, count_excluded_profiling,
}
use runtime_agent.Collector.Admission.{
  Admission, Watcher, Seen, decision, decide, count_reason, count_collected, decision_for,
  count_transition, indexed, on_update,
}

-- The decisions that were counted.
abbrev pub decided : Filter → ℕ
decided f =
    f.counts.pods_observed + f.counts.excluded_namespace_filter
    + f.counts.excluded_namespace_annotation + f.counts.excluded_workload_annotation
    + f.counts.excluded_pod_annotation

reason_of : Filter → Seen → Option ExclusionReason
reason_of f e = admit_pod f e.pod e.namespace_annotations e.workload

-- A pod is refused for no reason that is not counted of a pod.
reason_of-counted : (f : Filter) (e : Seen) → reason_of f e ≢ some object_annotation
unfolding reason_of admit_pod
reason_of-counted f e h = ground arith

count_excluded-decided :
    (f : Filter) (r : ExclusionReason)
    → r ≢ object_annotation
    → decided (count_excluded f r) ≡ decided f + 1
unfolding count_excluded
count_excluded-decided f namespace_filter h = omega arith
count_excluded-decided f namespace_annotation h = omega arith
count_excluded-decided f workload_annotation h = omega arith
count_excluded-decided f pod_annotation h = omega arith
count_excluded-decided f object_annotation h = absurd (h refl)

count_collected-decided : (f : Filter) (p : Bool) → decided (count_collected f p) ≡ decided f + 1
unfolding count_collected count_observed count_excluded_profiling
count_collected-decided f true = omega arith
count_collected-decided f false = omega arith

-- Whether a decision differs from what the index holds, as a number.
abbrev pub moved : Option Bool → Bool → ℕ
moved none collect = if collect then 1 else 0
moved (some p) collect = if collect then 0 else 1

-- The decision that the index holds.
known : Option Bool → Option Admission
known none = none
known (some p) = some (record { collect = true; profile = p; reason = none })

transition-decided :
    (f : Filter) (held : Option Bool) (o : Option ExclusionReason) (q : Bool)
    → o ≢ some object_annotation
    → decided (count_transition f (known held) (decision o q))
      ≡ decided f + moved held (decision o q).collect
unfolding known decision count_transition count_reason count_excluded_profiling
transition-decided f none none q h = count_collected-decided f q
transition-decided f none (some r) q h = omega arith
transition-decided f (some p) none q h = ground arith
transition-decided f (some p) (some r) q h = count_excluded-decided f r (λ e. h (ap some e))

decision_for-known : (w : Watcher) (uid : Text) → decision_for w uid ≡ known (w.index uid)
unfolding decision_for known
decision_for-known w uid = elim (Option-cases (w.index uid)) [
  | inl e ↦ rw (decision_for, e) refl
  | inr (p, e) ↦ rw (decision_for, e) refl
]

-- An update counts a decision exactly where the pod enters or leaves the collected set, and leaves
-- the pod in the index exactly where it is collected, under whether it may be profiled.
pub on_update-decided :
    (w : Watcher) (e : Seen)
    → (decided (on_update w e).filter
        ≡ decided w.filter + moved (w.index e.uid) (decide w.filter e).collect)
      × ((on_update w e).index e.uid
          ≡ (if (decide w.filter e).collect then some (decide w.filter e).profile else none))
unfolding on_update indexed decide reason_of
on_update-decided w e =
    let o = reason_of w.filter e in
    let q = admit_profiling e.pod e.namespace_annotations e.workload in
    (
      ap (λ k. decided (count_transition w.filter k (decision o q))) (decision_for-known w e.uid)
          ∙ transition-decided w.filter (w.index e.uid) o q (reason_of-counted w.filter e),
      rw (text_eq_refl e.uid) refl,
    )

-- The filter's lists are what decides.
same_decision :
    (f g : Filter) (e : Seen) → g.allow ≡ f.allow → g.deny ≡ f.deny → decide g e ≡ decide f e
unfolding decide admit_pod namespace_allowed
same_decision f g e a d = rw (a, d) refl

abbrev SameLists : Filter → Filter → Type 0
SameLists f g = (g.allow ≡ f.allow) × (g.deny ≡ f.deny)

reason-lists : (f : Filter) (r : ExclusionReason) → SameLists f (count_excluded f r)
unfolding count_excluded
reason-lists f namespace_filter = (refl, refl)
reason-lists f namespace_annotation = (refl, refl)
reason-lists f workload_annotation = (refl, refl)
reason-lists f pod_annotation = (refl, refl)
reason-lists f object_annotation = (refl, refl)

collected-lists : (f : Filter) (p : Bool) → SameLists f (count_collected f p)
unfolding count_collected count_observed count_excluded_profiling
collected-lists f true = (refl, refl)
collected-lists f false = (refl, refl)

profiling-lists :
    (f : Filter) (b : Bool) → SameLists f (if b then count_excluded_profiling f else f)
unfolding count_excluded_profiling
profiling-lists f true = (refl, refl)
profiling-lists f false = (refl, refl)

transition-lists :
    (f : Filter) (held : Option Bool) (o : Option ExclusionReason) (q : Bool)
    → SameLists f (count_transition f (known held) (decision o q))
unfolding known decision count_transition count_reason
transition-lists f none none q = collected-lists f q
transition-lists f none (some r) q = (refl, refl)
transition-lists f (some p) none q = profiling-lists f (p && not q)
transition-lists f (some p) (some r) q = reason-lists f r

-- A decision that the index holds already counts nothing.
settled :
    (f : Filter) (o : Option ExclusionReason) (q : Bool)
    → let d = decision o q in
      count_transition f (known (if d.collect then some d.profile else none)) d ≡ f
unfolding known decision count_transition
settled f none true = refl
settled f none false = refl
settled f (some r) q = refl

-- The same update again counts nothing: the status updates of a pod, which carry the decision that
-- is known, leave every counter as it was.
pub on_update_twice :
    (w : Watcher) (e : Seen) → (on_update (on_update w e) e).filter ≡ (on_update w e).filter
unfolding on_update reason_of decide
on_update_twice w e =
    let o = reason_of w.filter e in
    let q = admit_profiling e.pod e.namespace_annotations e.workload in
    let w' = on_update w e in
    let lists : SameLists w.filter w'.filter =
      subst (λ k. SameLists w.filter (count_transition w.filter k (decision o q)))
        (sym (decision_for-known w e.uid)) (transition-lists w.filter (w.index e.uid) o q) in
    let again : decide w'.filter e ≡ decide w.filter e =
      same_decision w.filter w'.filter e lists.0 lists.1 in
    let held : decision_for w' e.uid
        ≡ known (if (decide w.filter e).collect then some (decide w.filter e).profile else none) =
      decision_for-known w' e.uid ∙ ap known (on_update-decided w e).1 in
    ap₂ (count_transition w'.filter) held again ∙ settled w'.filter o q
