-- ===== src/Journal/Restarts/Totals.antt =====
-- What the restart journal keeps over any sequence of its operations.
use runtime_agent.Journal.Windows.{
  closing, sum_of-closing, All-closing, All-remaining, closing-ended, remaining-open,
}
use runtime_agent.Journal.Restarts.{
  ContainerRestart, RestartRecord, Restarts, increment, fold_advance, open_key, record_of, observe,
  observe_advance, resume_held, resume_one, earlier, has_ended, resume, close_before, bucket,
}
use runtime_agent.Prelude.Int.{ℤ, pos, negsuc}
use runtime_agent.Prelude.Keys.{
  text_key, nat_key, pair_key, lookup, weight, sum_of-insert, All-insert, All-lookup,
}
use runtime_agent.Prelude.Sort.{sort_slice-perm, All-sort_slice}
use runtime_agent.Prelude.{
  ℕ, zero, suc, ◌+◌, ◌≤◌, ◌<◌, ◌≡◌, refl, List, [], ◌∷◌, ◌++◌, Option, none, some, arith, Text,
  text_eq, All, All-map, All-append, sum_of, sum_of-append, sum_of-perm, Bool-cases, Option-cases,
  inl, inr, leb→le,
}

-- One call on the journal.
pub data Call : Type 0 where
  observed : ContainerRestart → Call
  resumed : List RestartRecord → Call
  closed : ℕ → Call

-- The calls in order: what `CloseBefore` returned, and the journal left.
abbrev pub run : Restarts → List Call → List RestartRecord × Restarts
run s [] = ([], s)
run s (observed e ∷ cs) = run (observe s e) cs
run s (resumed rs ∷ cs) = run (resume s rs).0 cs
run s (closed now ∷ cs) =
    let (out, s') = close_before s now in let (later, t) = run s' cs in (out ++ later, t)

-- The reasons seen and the restarts unseen make up the restarts.
abbrev pub IsCounted : RestartRecord → Type 0
IsCounted r = sum_of (λ x. x.1) r.reasons + r.reasons_unobserved ≡ r.restarts

sum-increment :
    (k : Text) (m : List (Text × ℕ)) → sum_of (λ x. x.1) (increment k m) ≡ sum_of (λ x. x.1) m + 1
sum-increment k m = elim (Option-cases (lookup k m)) [
  | inl e ↦ rw e (let h = sum_of-insert (λ x. x) k 1 m in let h' = rw e at h in omega (arith, h'))
  | inr (n, e) ↦
      rw e (let h = sum_of-insert (λ x. x) k (n + 1) m in let h' = rw e at h in omega (arith, h'))
]

fold_advance-IsCounted :
    (e : ContainerRestart) (n : ℕ) (r : RestartRecord)
    → IsCounted r
    → IsCounted (fold_advance e (suc n) r)
unfolding fold_advance
fold_advance-IsCounted e n r h = elim (Bool-cases (text_eq e.reason [])) [
  | inl b ↦ rw b (omega arith)
  | inr b ↦ rw b (omega (arith, sum-increment (bucket e.reason) r.reasons))
]

record_of-IsCounted :
    (s : Restarts) (e : ContainerRestart)
    → All (λ x. IsCounted x.1) s.open_records
    → IsCounted (record_of s e)
record_of-IsCounted s e a =
    let k = open_key s.window_length e in
    elim (Option-cases (lookup k s.open_records)) [
      | inl h ↦ rw h refl
      | inr (r, h) ↦ rw h (All-lookup (λ x. IsCounted x.1) k r s.open_records a h)
    ]

observe-IsCounted :
    (s : Restarts) (e : ContainerRestart) (z : ℤ)
    → All (λ x. IsCounted x.1) s.open_records
    → All (λ x. IsCounted x.1) (observe_advance s e z).open_records
unfolding observe_advance
observe-IsCounted s e (negsuc n) a = a
observe-IsCounted s e (pos zero) a = a
observe-IsCounted s e (pos (suc n)) a =
    All-insert (λ x. IsCounted x.1) _ _ s.open_records a
      (fold_advance-IsCounted e n (record_of s e) (record_of-IsCounted s e a))

resume_held-IsCounted :
    (s : Restarts) (r : RestartRecord) (held : Option RestartRecord)
    → IsCounted r
    → All (λ x. IsCounted x.1) s.open_records
    → All (λ x. IsCounted x.1) (resume_held s r held).0.open_records
resume_held-IsCounted s r (some held) h a = a
resume_held-IsCounted s r none h a =
    All-insert (λ x. IsCounted x.1) (r.key, r.window_start) r s.open_records a h

resume-IsCounted :
    (s : Restarts) (rs : List RestartRecord)
    → All IsCounted rs
    → All (λ x. IsCounted x.1) s.open_records
    → All (λ x. IsCounted x.1) (resume s rs).0.open_records
resume-IsCounted s [] h a = a
resume-IsCounted s (r ∷ rs) (h, hs) a =
    resume-IsCounted (resume_one s r).0 rs hs
      (resume_held-IsCounted s r (lookup (r.key, r.window_start) s.open_records) h a)

abbrev pub ResumesCounted : Call → Type 0
ResumesCounted (observed e) = Unit
ResumesCounted (resumed rs) = All IsCounted rs
ResumesCounted (closed now) = Unit

-- Over any sequence of calls that resumes from records whose reasons and unobserved restarts make
-- up their restarts, every record that is returned or left open is such a record.
pub run-IsCounted :
    (s : Restarts) (cs : List Call)
    → All (λ x. IsCounted x.1) s.open_records
    → All ResumesCounted cs
    → All IsCounted (run s cs).0 × All (λ x. IsCounted x.1) (run s cs).1.open_records
unfolding close_before
run-IsCounted s [] a h = (tt, a)
run-IsCounted s (observed e ∷ cs) a (h, hs) =
    run-IsCounted (observe s e) cs (observe-IsCounted s e e.restarts a) hs
run-IsCounted s (resumed rs ∷ cs) a (h, hs) =
    run-IsCounted (resume s rs).0 cs (resume-IsCounted s rs h a) hs
run-IsCounted s (closed now ∷ cs) a (h, hs) =
    let p = has_ended s.window_length now in
    let (out, left) =
      run-IsCounted (close_before s now).1 cs
        (All-remaining p (λ x. IsCounted x.1) s.open_records a) hs in
    (
      All-append IsCounted _ _
          (All-sort_slice earlier IsCounted _ (All-closing p IsCounted s.open_records a)) out,
      left,
    )

-- The restarts that an advance counts.
abbrev pub counted : ℤ → ℕ
counted (pos n) = n
counted (negsuc n) = 0

abbrev pub advances : Call → ℕ
advances (observed e) = counted e.restarts
advances (resumed rs) = 0
advances (closed now) = 0

abbrev pub ResumesNone : Call → Type 0
ResumesNone (observed e) = Unit
ResumesNone (resumed rs) = rs ≡ []
ResumesNone (closed now) = Unit

abbrev pub total : Restarts → ℕ
total s = sum_of (λ x. x.1.restarts) s.open_records

fold_advance-restarts :
    (e : ContainerRestart) (n : ℕ) (r : RestartRecord)
    → (fold_advance e n r).restarts ≡ r.restarts + n
unfolding fold_advance
fold_advance-restarts e n r = elim (Bool-cases (text_eq e.reason [])) [
  | inl b ↦ rw b refl
  | inr b ↦ rw b refl
]

record_of-restarts :
    (s : Restarts) (e : ContainerRestart)
    → (record_of s e).restarts
      ≡ weight (λ r. r.restarts) (lookup (open_key s.window_length e) s.open_records)
record_of-restarts s e = elim (Option-cases (lookup (open_key s.window_length e) s.open_records)) [
  | inl h ↦ rw h refl
  | inr (r, h) ↦ rw h refl
]

pub total-observe :
    (s : Restarts) (e : ContainerRestart) (z : ℤ)
    → total (observe_advance s e z) ≡ total s + counted z
unfolding observe_advance
total-observe s e (negsuc n) = omega arith
total-observe s e (pos zero) = omega arith
total-observe s e (pos (suc n)) =
    let k = open_key s.window_length e in
    let v = fold_advance e (suc n) (record_of s e) in
    omega (
      arith,
      sum_of-insert (λ r. r.restarts) k v s.open_records,
      fold_advance-restarts e (suc n) (record_of s e),
      record_of-restarts s e,
    )

total-close_before :
    (s : Restarts) (now : ℕ)
    → sum_of (λ r. r.restarts) (close_before s now).0 + total (close_before s now).1 ≡ total s
unfolding close_before
total-close_before s now =
    let p = has_ended s.window_length now in
    omega (
      arith,
      sum_of-closing p (λ r. r.restarts) s.open_records,
      sum_of-perm (λ r. r.restarts) (sort_slice-perm earlier (closing p s.open_records)),
    )

-- Over any sequence of observations and closings no restart is lost and none is counted twice: what
-- was returned and what is still open add up to the advances observed, with what was open before.
pub run-total :
    (s : Restarts) (cs : List Call)
    → All ResumesNone cs
    → sum_of (λ r. r.restarts) (run s cs).0 + total (run s cs).1 ≡ total s + sum_of advances cs
run-total s [] h = omega arith
run-total s (observed e ∷ cs) (h, hs) =
    omega (arith, run-total (observe s e) cs hs, total-observe s e e.restarts)
run-total s (resumed rs ∷ cs) (h, hs) = rw h (omega (arith, run-total s cs hs))
run-total s (closed now ∷ cs) (h, hs) =
    let (out, s') = close_before s now in
    omega (
      arith,
      run-total s' cs hs,
      total-close_before s now,
      sum_of-append (λ r. r.restarts) out (run s' cs).0,
    )

-- Closing returns records of ended windows only, and leaves no record of an ended window open.
pub close_before-ended :
    (s : Restarts) (now : ℕ)
    → All (λ r. r.window_start + s.window_length ≤ now) (close_before s now).0
      × All (λ x. now < x.1.window_start + s.window_length) (close_before s now).1.open_records
unfolding close_before
close_before-ended s now =
    let p = has_ended s.window_length now in
    let Over : RestartRecord → Type 0 = λ r. r.window_start + s.window_length ≤ now in
    (
      All-sort_slice earlier Over _ (All-map (λ r. leb→le _ _) _ (closing-ended p s.open_records)),
      All-map (λ x. ground arith) _ (remaining-open p s.open_records),
    )
