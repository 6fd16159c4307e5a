-- ===== src/Journal/Goroutines/Cap.antt =====
-- The cap on a window's samples, over any sequence of calls.
use runtime_agent.Journal.Goroutines.{
  GoroutineCount, GoroutineSample, GoroutineRecord, Goroutines, max_samples_per_window, add_sample,
  open_key, record_of, observe, observe_count, clone, earlier, capped, resume_held, resume,
  has_ended, close_before,
}
use runtime_agent.Journal.Windows.{closing, sum_of-closing, All-closing, All-remaining}
use runtime_agent.Prelude.Int.{ℤ, pos, negsuc}
use runtime_agent.Prelude.Keys.{
  text_key, nat_key, pair_key, lookup, weight, sum_of-insert, All-insert, All-lookup,
}
use runtime_agent.Prelude.Sort.{sort_slice-perm, All-sort_slice}
use runtime_agent.Prelude.{
  ℕ, zero, suc, ◌+◌, ◌≤◌, ◌≡◌, refl, ap, List, [], ◌∷◌, ◌++◌, map, Option, none, some, arith, ltb,
  length, take, length-append, length-perm, All, All-map, All-append, sum_of, sum_of-append,
  sum_of-perm, All-mapped, Bool-cases, Option-cases, inl, inr,
}

-- One call on the journal.
pub data Call : Type 0 where
  observed : GoroutineCount → Call
  resumed : List GoroutineRecord → Call
  closed : ℕ → Call

-- The calls in order: what `CloseBefore` returned, and the journal left.
abbrev pub run : Goroutines → List Call → List GoroutineRecord × Goroutines
run g [] = ([], g)
run g (observed c ∷ cs) = run (observe g c) cs
run g (resumed rs ∷ cs) = run (resume g rs).0 cs
run g (closed now ∷ cs) =
    let (out, g') = close_before g now in let (later, t) = run g' cs in (out ++ later, t)

abbrev pub IsCapped : GoroutineRecord → Type 0
IsCapped r = length r.samples ≤ max_samples_per_window

-- The readings a record stands for, kept or dropped.
abbrev pub readings : GoroutineRecord → ℕ
readings r = length r.samples + r.samples_dropped

add_sample-IsCapped :
    (c : GoroutineCount) (r : GoroutineRecord) → IsCapped r → IsCapped (add_sample c r)
unfolding add_sample
add_sample-IsCapped c r h =
    ground (
      arith,
      length-append r.samples (record { at = c.observed_at; goroutines = c.goroutines } ∷ []),
    )

readings-add_sample :
    (c : GoroutineCount) (r : GoroutineRecord) → readings (add_sample c r) ≡ readings r + 1
unfolding add_sample
readings-add_sample c r =
    ground (
      arith,
      length-append r.samples (record { at = c.observed_at; goroutines = c.goroutines } ∷ []),
    )

length-clone : (r : GoroutineRecord) → length (clone r).samples ≡ length r.samples
unfolding clone
length-clone r = length-perm (sort_slice-perm (λ a b. ltb a.at b.at) r.samples)

readings-clone : (r : GoroutineRecord) → readings (clone r) ≡ readings r
unfolding clone
readings-clone r = omega (arith, length-clone r)

clone-IsCapped : (r : GoroutineRecord) → IsCapped r → IsCapped (clone r)
clone-IsCapped r h = omega (arith, length-clone r)

length-take : (n : ℕ) (xs : List GoroutineSample) → n ≤ length xs → length (take n xs) ≡ n
unfolding take
length-take zero xs h = refl
length-take (suc n) [] h = omega arith
length-take (suc n) (x ∷ xs) h = ap suc (length-take n xs (omega arith))

capped-facts : (r : GoroutineRecord) → IsCapped (capped r) × (readings (capped r) ≡ readings r)
unfolding capped
capped-facts r =
    let l = length-clone r in
    elim (Bool-cases (ltb max_samples_per_window (length (clone r).samples))) [
      | inr fits ↦ rw fits (ground (arith, l), readings-clone r)
      | inl over ↦
          let t = length-take max_samples_per_window (clone r).samples (ground arith) in
          rw over (omega (arith, t), ground (arith, t, l))
    ]

record_of-IsCapped :
    (g : Goroutines) (c : GoroutineCount)
    → All (λ x. IsCapped x.1) g.open_records
    → IsCapped (record_of g c)
record_of-IsCapped g c a =
    let k = open_key g.window_length c in
    elim (Option-cases (lookup k g.open_records)) [
      | inl h ↦ rw h (omega arith)
      | inr (r, h) ↦ rw h (All-lookup (λ x. IsCapped x.1) k r g.open_records a h)
    ]

observe-IsCapped :
    (g : Goroutines) (c : GoroutineCount) (z : ℤ)
    → All (λ x. IsCapped x.1) g.open_records
    → All (λ x. IsCapped x.1) (observe_count g c z).open_records
unfolding observe_count
observe-IsCapped g c (negsuc n) a = a
observe-IsCapped g c (pos zero) a = a
observe-IsCapped g c (pos (suc n)) a =
    All-insert (λ x. IsCapped x.1) _ _ g.open_records a
      (add_sample-IsCapped c (record_of g c) (record_of-IsCapped g c a))

resume_held-IsCapped :
    (g : Goroutines) (r : GoroutineRecord) (held : Option GoroutineRecord)
    → All (λ x. IsCapped x.1) g.open_records
    → All (λ x. IsCapped x.1) (resume_held g r held).0.open_records
resume_held-IsCapped g r (some held) a = a
resume_held-IsCapped g r none a =
    All-insert (λ x. IsCapped x.1) _ _ g.open_records a (capped-facts r).0

resume-IsCapped :
    (g : Goroutines) (rs : List GoroutineRecord)
    → All (λ x. IsCapped x.1) g.open_records
    → All (λ x. IsCapped x.1) (resume g rs).0.open_records
resume-IsCapped g [] a = a
resume-IsCapped g (r ∷ rs) a =
    let held = lookup (r.key, r.window_start) g.open_records in
    resume-IsCapped (resume_held g r held).0 rs (resume_held-IsCapped g r held a)

-- Over any sequence of calls, whatever records it resumes from, no record that is returned or left
-- open holds more samples than the cap.
pub run-IsCapped :
    (g : Goroutines) (cs : List Call)
    → All (λ x. IsCapped x.1) g.open_records
    → All IsCapped (run g cs).0 × All (λ x. IsCapped x.1) (run g cs).1.open_records
unfolding close_before
run-IsCapped g [] a = (tt, a)
run-IsCapped g (observed c ∷ cs) a =
    run-IsCapped (observe g c) cs (observe-IsCapped g c c.goroutines a)
run-IsCapped g (resumed rs ∷ cs) a = run-IsCapped (resume g rs).0 cs (resume-IsCapped g rs a)
run-IsCapped g (closed now ∷ cs) a =
    let p = has_ended g.window_length now in
    let (out, left) =
      run-IsCapped (close_before g now).1 cs
        (All-remaining p (λ x. IsCapped x.1) g.open_records a) in
    (
      All-append IsCapped _ _
          (All-sort_slice earlier IsCapped _ (
            All-mapped clone IsCapped _
              (All-map clone-IsCapped _ (All-closing p IsCapped g.open_records a))))
          out,
      left,
    )

-- The readings that a call counts.
abbrev pub counted : ℤ → ℕ
counted (pos zero) = 0
counted (pos (suc n)) = 1
counted (negsuc n) = 0

abbrev pub counts : Call → ℕ
counts (observed c) = counted c.goroutines
counts (resumed rs) = 0
counts (closed now) = 0

abbrev pub ResumesNone : Call → Type 0
ResumesNone (observed c) = Unit
ResumesNone (resumed rs) = rs ≡ []
ResumesNone (closed now) = Unit

abbrev pub total : Goroutines → ℕ
total g = sum_of (λ x. readings x.1) g.open_records

record_of-readings :
    (g : Goroutines) (c : GoroutineCount)
    → readings (record_of g c)
      ≡ weight readings (lookup (open_key g.window_length c) g.open_records)
record_of-readings g c = elim (Option-cases (lookup (open_key g.window_length c) g.open_records)) [
  | inl h ↦ rw h refl
  | inr (r, h) ↦ rw h refl
]

total-observe :
    (g : Goroutines) (c : GoroutineCount) (z : ℤ)
    → total (observe_count g c z) ≡ total g + counted z
unfolding observe_count
total-observe g c (negsuc n) = omega arith
total-observe g c (pos zero) = omega arith
total-observe g c (pos (suc n)) =
    let k = open_key g.window_length c in
    let v = add_sample c (record_of g c) in
    omega (
      arith,
      sum_of-insert readings k v g.open_records,
      readings-add_sample c (record_of g c),
      record_of-readings g c,
    )

sum_of-clone : (rs : List GoroutineRecord) → sum_of readings (map clone rs) ≡ sum_of readings rs
sum_of-clone [] = refl
sum_of-clone (r ∷ rs) = omega (arith, readings-clone r, sum_of-clone rs)

total-close_before :
    (g : Goroutines) (now : ℕ)
    → sum_of readings (close_before g now).0 + total (close_before g now).1 ≡ total g
unfolding close_before
total-close_before g now =
    let p = has_ended g.window_length now in
    let out = closing p g.open_records in
    omega (
      arith,
      sum_of-closing p readings g.open_records,
      sum_of-clone out,
      sum_of-perm readings (sort_slice-perm earlier (map clone out)),
    )

-- Over any sequence of observations and closings every reading of a live process is kept as a
-- sample or counted as dropped: those of the records returned and of the records still open add up
-- to the readings observed, with what was open before.
pub run-readings :
    (g : Goroutines) (cs : List Call)
    → All ResumesNone cs
    → sum_of readings (run g cs).0 + total (run g cs).1 ≡ total g + sum_of counts cs
run-readings g [] h = omega arith
run-readings g (observed c ∷ cs) (h, hs) =
    omega (arith, run-readings (observe g c) cs hs, total-observe g c c.goroutines)
run-readings g (resumed rs ∷ cs) (h, hs) = rw h (omega (arith, run-readings g cs hs))
run-readings g (closed now ∷ cs) (h, hs) =
    let (out, g') = close_before g now in
    omega (
      arith,
      run-readings g' cs hs,
      total-close_before g now,
      sum_of-append readings out (run g' cs).0,
    )
