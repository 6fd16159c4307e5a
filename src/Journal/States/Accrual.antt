-- ===== src/Journal/States/Accrual.antt =====
-- How an interval is attributed to windows.
use native.Mathlib.Nat.{mod-lt}
use runtime_agent.Journal.States.{
  AgentState, StateRecord, LastSeen, States, Span, split_loop, split, key_at, record_of, write,
  occupied_from, accrue_span, accrue_spans, accrue,
}
use runtime_agent.Prelude.Keys.{text_key, nat_key, pair_key, lookup, weight, sum_of-insert}
use runtime_agent.Prelude.{
  ℕ, zero, suc, ◌+◌, ◌-◌, ◌≤◌, ◌<◌, ◌≡◌, refl, List, [], ◌∷◌, Option, arith, ltb, All, sum_of,
  Bool-cases, Option-cases, inl, inr, ltb→lt,
}
use runtime_agent.Rollup.Window.{start_of}

abbrev pub length_of : Span → ℕ
length_of span = span.end - span.start

-- A span lies in one window of length `w` and in the interval.
abbrev pub IsInside : ℕ → ℕ → ℕ → Span → Type 0
IsInside w from to span =
    (from ≤ span.start)
    × (span.start < span.end)
    × (span.end ≤ to)
    × (span.end ≤ start_of w span.start + w)

module _ (w : ℕ) (positive : 0 < w) where
  window_end : (at : ℕ) → at < start_of w at + w
  window_end at = omega (arith, mod-lt at positive)

  split_loop-lengths :
      (to f from : ℕ) → to - from ≤ f → sum_of length_of (split_loop w to f from) ≡ to - from
  unfolding split_loop
  split_loop-lengths to zero from h = omega arith
  split_loop-lengths to (suc f) from h =
      let e = start_of w from + w in
      let l = window_end from in
      elim (Bool-cases (ltb from to)) [
        | inr over ↦ rw over (ground arith)
        | inl running ↦ rw running (elim (Bool-cases (ltb to e)) [
          | inl last ↦ rw last (ground (arith, split_loop-lengths to f to (omega arith)))
          | inr more ↦ rw more (ground (arith, l, split_loop-lengths to f e (ground (arith, l))))
        ])
      ]

  split_loop-IsInside :
      (to low f from : ℕ) → low ≤ from → All (IsInside w low to) (split_loop w to f from)
  unfolding split_loop
  split_loop-IsInside to low zero from h = tt
  split_loop-IsInside to low (suc f) from h =
      let e = start_of w from + w in
      let l = window_end from in
      elim (Bool-cases (ltb from to)) [
        | inr over ↦ rw over tt
        | inl running ↦ rw running (elim (Bool-cases (ltb to e)) [
          | inl last ↦ rw last (
            (h, ltb→lt from to running, omega arith, ground arith),
            split_loop-IsInside to low f to (ground arith),
          )
          | inr more ↦
              rw more
                ((h, l, ground arith, omega arith), split_loop-IsInside to low f e (omega arith))
        ])
      ]

-- On windows of a positive length, the spans that an interval is cut into lie each in the interval and in one window, and their
-- lengths add up to the interval's. The loop ends within its fuel.
pub split-IsInside :
    (w from to : ℕ)
    → 0 < w
    → (sum_of length_of (split w from to) ≡ to - from) × All (IsInside w from to) (split w from to)
split-IsInside w from to positive = (
  split_loop-lengths w positive to (to - from) from (omega arith),
  split_loop-IsInside w positive to from (to - from) from (omega arith),
)

-- The time watched, over all the open records.
abbrev pub watched : States → ℕ
watched s = sum_of (λ x. x.1.observed_nanos) s.open_records

record_of-observed :
    (s : States) (st : AgentState) (at : ℕ)
    → (record_of s st at).observed_nanos
      ≡ weight (λ r. r.observed_nanos) (lookup (key_at s st at) s.open_records)
record_of-observed s st at = elim (Option-cases (lookup (key_at s st at) s.open_records)) [
  | inl h ↦ rw h refl
  | inr (r, h) ↦ rw h refl
]

accrue_span-observed :
    (since : Option ℕ) (occupied : ℕ) (span : Span) (r : StateRecord)
    → (accrue_span since occupied span r).observed_nanos ≡ r.observed_nanos + length_of span
unfolding accrue_span
accrue_span-observed since occupied span r = ground arith

watched-write :
    (s : States) (st : AgentState) (at n : ℕ) (f : StateRecord → StateRecord)
    → ((r : StateRecord) → (f r).observed_nanos ≡ r.observed_nanos + n)
    → watched (write s st at f) ≡ watched s + n
unfolding write
watched-write s st at n f h = omega (
  arith,
  sum_of-insert (λ r. r.observed_nanos) (key_at s st at) (f (record_of s st at)) s.open_records,
  record_of-observed s st at,
  h (record_of s st at),
)

watched-accrue_spans :
    (st : AgentState) (occupied : ℕ) (spans : List Span) (s : States)
    → watched (accrue_spans st occupied spans s) ≡ watched s + sum_of length_of spans
unfolding accrue_spans
watched-accrue_spans st occupied [] s = omega arith
watched-accrue_spans st occupied (span ∷ spans) s =
    let f = accrue_span st.since occupied span in
    omega (
      arith,
      watched-accrue_spans st occupied spans (write s st span.start f),
      watched-write s st span.start (length_of span) f
          (accrue_span-observed st.since occupied span),
    )

-- On windows of a positive length, accrual adds to the time watched, over all the windows that it spans, exactly the interval since
-- the instant accrued to before.
pub accrue-watched :
    (s : States) (st : AgentState) (prev : LastSeen) (at : ℕ)
    → 0 < s.window_length
    → watched (accrue s st prev at) ≡ watched s + (at - prev.accrued_to)
unfolding accrue
accrue-watched s st prev at positive =
    let spans = split s.window_length prev.accrued_to at in
    omega (
      arith,
      watched-accrue_spans st (occupied_from st.since prev) spans s,
      (split-IsInside s.window_length prev.accrued_to at positive).0,
    )
