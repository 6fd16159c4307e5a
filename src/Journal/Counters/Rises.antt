-- ===== src/Journal/Counters/Rises.antt =====
-- What a pass adds to the counters' journal.
use runtime_agent.Journal.Counters.{
  CounterRecord, CounterKey, new_record, Readings, Counters, key_at, record_of, write, add_observed,
  add_delta, stamp, observe_span, observe_spans, add_rise, add_rises, accrue, stamp_all, same_base,
  observe,
}
use runtime_agent.Journal.States.{Span, split}
use runtime_agent.Journal.States.Accrual.{length_of, split-IsInside}
use runtime_agent.Prelude.Keys.{text_key, nat_key, pair_key, lookup, weight, sum_of-insert}
use runtime_agent.Prelude.{
  ℕ, ◌+◌, ◌-◌, ◌*◌, ◌<◌, ◌≡◌, refl, ap, ◌∙◌, true, false, ◌&&◌, List, [], ◌∷◌, Option, none, some,
  arith, ltb, Text, length, sum_of, Bool-cases, Option-cases, inl, inr,
}

-- A measure of the records, over all that are open.
abbrev pub over : (CounterRecord → ℕ) → Counters → ℕ
over g c = sum_of (λ x. g x.1) c.open_records

-- What a counter rose by since a previous reading, 0 where there was none or it fell.
abbrev pub rise : Option ℕ → ℕ → ℕ
rise none now = 0
rise (some was) now = now - was

abbrev pub rises : Readings → Readings → ℕ
rises prev rs = sum_of (λ x. rise (lookup x.0 prev) x.1) rs

-- What the spans add to a measure that grows by `d n` where `n` nanoseconds are observed.
abbrev spent : (ℕ → ℕ) → Readings → List Span → ℕ
spent d rs spans = sum_of (λ span. sum_of (λ x. d (length_of span)) rs) spans

spent_all : (rs : Readings) (n : ℕ) → sum_of (λ x. n) rs ≡ length rs * n
spent_all [] n = omega arith
spent_all (x ∷ rs) n = grind (arith, spent_all rs n)

spent_none : (rs : Readings) → sum_of (λ x. 0) rs ≡ 0
spent_none [] = refl
spent_none (x ∷ rs) = omega (arith, spent_none rs)

spent-length :
    (rs : Readings) (spans : List Span)
    → spent (λ n. n) rs spans ≡ length rs * sum_of length_of spans
spent-length rs [] = omega arith
spent-length rs (span ∷ spans) = grind (arith, spent-length rs spans, spent_all rs (length_of span))

spent_nothing : (rs : Readings) (spans : List Span) → spent (λ n. 0) rs spans ≡ 0
spent_nothing rs [] = refl
spent_nothing rs (span ∷ spans) = omega (arith, spent_nothing rs spans, spent_none rs)

module _ (g : CounterRecord → ℕ) (new : (w : ℕ) (k : CounterKey) → g (new_record w k) ≡ 0) where
  record_of-weight :
      (c : Counters) (name : Text) (at : ℕ)
      → g (record_of c name at) ≡ weight g (lookup (key_at c name at) c.open_records)
  record_of-weight c name at = elim (Option-cases (lookup (key_at c name at) c.open_records)) [
    | inl h ↦ rw h (new c.window_length (key_at c name at))
    | inr (r, h) ↦ rw h refl
  ]

  over-write :
      (c : Counters) (name : Text) (at n : ℕ) (f : CounterRecord → CounterRecord)
      → ((r : CounterRecord) → g (f r) ≡ g r + n)
      → over g (write c name at f) ≡ over g c + n
  unfolding write
  over-write c name at n f h = omega (
    arith,
    sum_of-insert g (key_at c name at) (f (record_of c name at)) c.open_records,
    record_of-weight c name at,
    h (record_of c name at),
  )

  module _ (d : ℕ → ℕ) (adds : (r : CounterRecord) (n : ℕ) → g (add_observed n r) ≡ g r + d n) where
    over-observe_span :
        (span : Span) (rs : Readings) (c : Counters)
        → over g (observe_span span rs c) ≡ over g c + sum_of (λ x. d (length_of span)) rs
    unfolding observe_span
    over-observe_span span [] c = omega arith
    over-observe_span span ((name, now) ∷ rs) c =
        let f = add_observed (length_of span) in
        omega (
          arith,
          over-observe_span span rs (write c name span.start f),
          over-write c name span.start (d (length_of span)) f (λ r. adds r (length_of span)),
        )

    over-observe_spans :
        (spans : List Span) (rs : Readings) (c : Counters)
        → over g (observe_spans spans rs c) ≡ over g c + spent d rs spans
    unfolding observe_spans
    over-observe_spans [] rs c = omega arith
    over-observe_spans (span ∷ spans) rs c =
        omega
          (arith, over-observe_spans spans rs (observe_span span rs c), over-observe_span span rs c)

  module _ (d : ℕ → ℕ) (zero_adds : d 0 ≡ 0)
      (adds : (r : CounterRecord) (n : ℕ) → g (add_delta n r) ≡ g r + d n) where
    over-add_rise :
        (c : Counters) (name : Text) (at now : ℕ) (was : Option ℕ)
        → over g (add_rise c name at now was) ≡ over g c + d (rise was now)
    unfolding add_rise
    over-add_rise c name at now none = omega (arith, zero_adds)
    over-add_rise c name at now (some was) = elim (Bool-cases (ltb now was)) [
      | inr grown ↦
          rw grown
            (over-write c name at (d (now - was)) (add_delta (now - was)) (λ r. adds r (now - was)))
      | inl fell ↦
          let none_left : now - was ≡ 0 = ground (arith, fell) in
          rw (fell, none_left) (omega (arith, zero_adds))
    ]

    over-add_rises :
        (prev : Readings) (at : ℕ) (rs : Readings) (c : Counters)
        → over g (add_rises prev at rs c)
          ≡ over g c + sum_of (λ x. d (rise (lookup x.0 prev) x.1)) rs
    unfolding add_rises
    over-add_rises prev at [] c = omega arith
    over-add_rises prev at ((name, now) ∷ rs) c = omega (
      arith,
      over-add_rises prev at rs (add_rise c name at now (lookup name prev)),
      over-add_rise c name at now (lookup name prev),
    )

  over-stamp_all :
      (at : ℕ) (rs : Readings) (c : Counters)
      → ((r : CounterRecord) → g (stamp at r) ≡ g r)
      → over g (stamp_all at rs c) ≡ over g c
  unfolding stamp_all
  over-stamp_all at [] c h = refl
  over-stamp_all at ((name, now) ∷ rs) c h = omega (
    arith,
    over-stamp_all at rs (write c name at (stamp at)) h,
    over-write c name at 0 (stamp at) (λ r. omega (arith, h r)),
  )

accrue_delta :
    (c : Counters) (at : ℕ) (rs : Readings)
    → over (λ r. r.delta) (accrue c at rs) ≡ over (λ r. r.delta) c + rises c.prev rs
unfolding accrue
accrue_delta c at rs =
    let spans = split c.window_length c.prev_at at in
    let g = λ (r : CounterRecord). r.delta in
    omega (
      arith,
      over-add_rises g (λ w k. refl) (λ n. n) refl (λ r n. refl) c.prev at rs
          (observe_spans spans rs c),
      over-observe_spans g (λ w k. refl) (λ n. 0) (λ r n. omega arith) spans rs c,
      spent_nothing rs spans,
    )

accrue_observed :
    (c : Counters) (at : ℕ) (rs : Readings)
    → 0 < c.window_length
    → over (λ r. r.observed_nanos) (accrue c at rs)
      ≡ over (λ r. r.observed_nanos) c + length rs * (at - c.prev_at)
unfolding accrue
accrue_observed c at rs positive =
    let spans = split c.window_length c.prev_at at in
    let g = λ (r : CounterRecord). r.observed_nanos in
    let whole : sum_of length_of spans ≡ at - c.prev_at =
      (split-IsInside c.window_length c.prev_at at positive).0 in
    let all : spent (λ n. n) rs spans ≡ length rs * (at - c.prev_at) =
      spent-length rs spans ∙ ap (λ n. length rs * n) whole in
    omega (
      arith,
      over-add_rises g (λ w k. refl) (λ n. 0) refl (λ r n. omega arith) c.prev at rs
          (observe_spans spans rs c),
      spent_none rs,
      over-observe_spans g (λ w k. refl) (λ n. n) (λ r n. refl) spans rs c,
      all,
    )

-- On windows of a positive length, a pass on the base of the previous one, later than it, adds to the open records each counter's
-- rise since its previous reading (of a counter that was not read then, or that fell, nothing), and
-- for each counter the whole interval to the time observed. Any other pass adds nothing to either.
pub observe-rises :
    (c : Counters) (at since : ℕ) (rs : Readings)
    → 0 < c.window_length
    → let c' = observe c at since rs in
      ((same_base c since && ltb c.prev_at at ≡ true)
        → (over (λ r. r.delta) c' ≡ over (λ r. r.delta) c + rises c.prev rs)
          × (over (λ r. r.observed_nanos) c'
              ≡ over (λ r. r.observed_nanos) c + length rs * (at - c.prev_at)))
      × ((same_base c since && ltb c.prev_at at ≡ false)
          → (over (λ r. r.delta) c' ≡ over (λ r. r.delta) c)
            × (over (λ r. r.observed_nanos) c' ≡ over (λ r. r.observed_nanos) c))
unfolding observe
observe-rises c at since rs positive = (
  λ h. rw h (
    omega (
      arith,
      over-stamp_all (λ r. r.delta) (λ w k. refl) at rs (accrue c at rs) (λ r. refl),
      accrue_delta c at rs,
    ),
    omega (
      arith,
      over-stamp_all (λ r. r.observed_nanos) (λ w k. refl) at rs (accrue c at rs) (λ r. refl),
      accrue_observed c at rs positive,
    ),
  ),
  λ h. rw h (
    over-stamp_all (λ r. r.delta) (λ w k. refl) at rs c (λ r. refl),
    over-stamp_all (λ r. r.observed_nanos) (λ w k. refl) at rs c (λ r. refl),
  ),
)
