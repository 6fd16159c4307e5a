-- ===== src/Journal/States/Occupancy.antt =====
-- What a state's time in a window is worth.
use runtime_agent.Journal.States.{
  AgentState, StateRecord, LastSeen, States, Span, split, key_at, record_of, write, occupied_from,
  accrue_span, accrue_spans, accrue, is_at, since_of, is_none, count_entry, enter, stamp_record,
  seen_key, accrue_known, enter_open, observe_one, observe, earlier, resume_held, resume, has_ended,
  close_before,
}
use runtime_agent.Journal.Windows.{All-closing, All-remaining}
use runtime_agent.Prelude.Keys.{text_key, nat_key, pair_key, lookup, All-insert, All-lookup}
use runtime_agent.Prelude.Sort.{All-sort_slice}
use runtime_agent.Prelude.{
  ℕ, ◌≤◌, ◌&&◌, ◌||◌, List, [], ◌∷◌, ◌++◌, Option, none, some, arith, ltb, text_eq, All, All-append,
  Bool-cases, Option-cases, inl, inr,
}

-- One call on the journal.
pub data Call : Type 0 where
  observed : ℕ → List AgentState → Call
  resumed : List StateRecord → Call
  closed : ℕ → Call

-- The calls in order: what `CloseBefore` returned, and the journal left.
abbrev pub run : States → List Call → List StateRecord × States
run s [] = ([], s)
run s (observed at sts ∷ cs) = run (observe s at sts) cs
run s (resumed rs ∷ cs) = run (resume s rs).0 cs
run s (closed now ∷ cs) =
    let (out, s') = close_before s now in let (later, t) = run s' cs in (out ++ later, t)

-- A record claims no more time in the state than was watched.
abbrev pub IsWatched : StateRecord → Type 0
IsWatched r = r.occupied_nanos ≤ r.observed_nanos

abbrev pub AllWatched : States → Type 0
AllWatched s = All (λ x. IsWatched x.1) s.open_records

accrue_span-IsWatched :
    (since : Option ℕ) (occupied : ℕ) (span : Span) (r : StateRecord)
    → IsWatched r
    → IsWatched (accrue_span since occupied span r)
unfolding accrue_span
accrue_span-IsWatched since occupied span r h = ground arith

record_of-IsWatched :
    (s : States) (st : AgentState) (at : ℕ) → AllWatched s → IsWatched (record_of s st at)
record_of-IsWatched s st at a =
    let k = key_at s st at in
    elim (Option-cases (lookup k s.open_records)) [
      | inl h ↦ rw h (omega arith)
      | inr (r, h) ↦ rw h (All-lookup (λ x. IsWatched x.1) k r s.open_records a h)
    ]

write-AllWatched :
    (s : States) (st : AgentState) (at : ℕ) (f : StateRecord → StateRecord)
    → ((r : StateRecord) → IsWatched r → IsWatched (f r))
    → AllWatched s
    → AllWatched (write s st at f)
unfolding write
write-AllWatched s st at f h a =
    All-insert (λ x. IsWatched x.1) _ _ s.open_records a
      (h (record_of s st at) (record_of-IsWatched s st at a))

accrue_spans-AllWatched :
    (st : AgentState) (occupied : ℕ) (spans : List Span) (s : States)
    → AllWatched s
    → AllWatched (accrue_spans st occupied spans s)
unfolding accrue_spans
accrue_spans-AllWatched st occupied [] s a = a
accrue_spans-AllWatched st occupied (span ∷ spans) s a =
    accrue_spans-AllWatched st occupied spans
      (write s st span.start (accrue_span st.since occupied span))
      (write-AllWatched s st span.start (accrue_span st.since occupied span)
        (accrue_span-IsWatched st.since occupied span) a)

accrue_known-AllWatched :
    (s : States) (st : AgentState) (prev : Option LastSeen) (at : ℕ)
    → AllWatched s
    → AllWatched (accrue_known s st prev at)
unfolding accrue
accrue_known-AllWatched s st none at a = a
accrue_known-AllWatched s st (some prev) at a = elim (Bool-cases (ltb prev.accrued_to at)) [
  | inl later ↦ rw later (
      accrue_spans-AllWatched st (occupied_from st.since prev)
        (split s.window_length prev.accrued_to at) s a)
  | inr same ↦ rw same a
]

enter-AllWatched :
    (s : States) (st : AgentState) (since : ℕ) (prev : Option LastSeen) (at : ℕ)
    → AllWatched s
    → AllWatched (enter s st since prev at)
unfolding enter
enter-AllWatched s st since prev at a = elim (Bool-cases (is_at (since_of prev) since)) [
  | inl running ↦ rw running a
  | inr other ↦
      rw other (elim (Bool-cases (is_none prev && is_at (record_of s st at).open_since since)) [
        | inl counted ↦ rw counted (write-AllWatched s st at (λ r. r) (λ r h. h) a)
        | inr fresh ↦ rw fresh (write-AllWatched s st at count_entry (λ r h. h) a)
      ])
]

enter_open-AllWatched :
    (s : States) (st : AgentState) (since : Option ℕ) (prev : Option LastSeen) (at : ℕ)
    → AllWatched s
    → AllWatched (enter_open s st since prev at)
enter_open-AllWatched s st none prev at a = a
enter_open-AllWatched s st (some since) prev at a = enter-AllWatched s st since prev at a

observe_one-AllWatched :
    (s : States) (at : ℕ) (st : AgentState) → AllWatched s → AllWatched (observe_one s at st)
unfolding observe_one
observe_one-AllWatched s at st a =
    let prev = s.seen (seen_key st) in
    let s1 = accrue_known s st prev at in
    let s2 = enter_open s1 st st.since prev at in
    elim (Bool-cases (text_eq st.state [] || text_eq st.subject [])) [
      | inl skipped ↦ rw skipped a
      | inr named ↦ rw named (
          write-AllWatched s2 st at (stamp_record st at) (λ r h. h)
            (enter_open-AllWatched s1 st st.since prev at (accrue_known-AllWatched s st prev at a)))
    ]

observe-AllWatched :
    (s : States) (at : ℕ) (sts : List AgentState) → AllWatched s → AllWatched (observe s at sts)
observe-AllWatched s at [] a = a
observe-AllWatched s at (st ∷ sts) a =
    observe-AllWatched (observe_one s at st) at sts (observe_one-AllWatched s at st a)

resume_held-AllWatched :
    (s : States) (r : StateRecord) (held : Option StateRecord)
    → IsWatched r
    → AllWatched s
    → AllWatched (resume_held s r held).0
resume_held-AllWatched s r (some held) h a = a
resume_held-AllWatched s r none h a =
    All-insert (λ x. IsWatched x.1) ((r.state, r.subject), r.window_start) r s.open_records a h

resume-AllWatched :
    (s : States) (rs : List StateRecord)
    → All IsWatched rs
    → AllWatched s
    → AllWatched (resume s rs).0
resume-AllWatched s [] h a = a
resume-AllWatched s (r ∷ rs) (h, hs) a =
    let held = lookup ((r.state, r.subject), r.window_start) s.open_records in
    resume-AllWatched (resume_held s r held).0 rs hs (resume_held-AllWatched s r held h a)

abbrev pub ResumesWatched : Call → Type 0
ResumesWatched (observed at sts) = Unit
ResumesWatched (resumed rs) = All IsWatched rs
ResumesWatched (closed now) = Unit

-- Over any sequence of calls, at any instants, that resumes from records claiming no more time in
-- the state than was watched, no record that is returned or left open claims more.
pub run-IsWatched :
    (s : States) (cs : List Call)
    → AllWatched s
    → All ResumesWatched cs
    → All IsWatched (run s cs).0 × AllWatched (run s cs).1
unfolding close_before
run-IsWatched s [] a h = (tt, a)
run-IsWatched s (observed at sts ∷ cs) a (h, hs) =
    run-IsWatched (observe s at sts) cs (observe-AllWatched s at sts a) hs
run-IsWatched s (resumed rs ∷ cs) a (h, hs) =
    run-IsWatched (resume s rs).0 cs (resume-AllWatched s rs h a) hs
run-IsWatched s (closed now ∷ cs) a (h, hs) =
    let p = has_ended s.window_length now in
    let (out, left) =
      run-IsWatched (close_before s now).1 cs
        (All-remaining p (λ x. IsWatched x.1) s.open_records a) hs in
    (
      All-append IsWatched _ _
          (All-sort_slice earlier IsWatched _ (All-closing p IsWatched s.open_records a)) out,
      left,
    )
