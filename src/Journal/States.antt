-- ===== src/Journal/States.antt =====
-- internal/journal/states.go: the journal of the agent's own states, on the conventions of the
-- restart journal. Instant 0 is Go's zero time; a clone is the record itself.
pub mod Occupancy
pub mod Accrual
use runtime_agent.Journal.Windows.{second, then_by, closing, remaining}
use runtime_agent.Prelude.Keys.{Eq, text_key, nat_key, pair_key, update, lookup, insert, values}
use runtime_agent.Prelude.Sort.{sort_slice}
use runtime_agent.Prelude.{
  ℕ, zero, suc, ◌+◌, ◌-◌, ◌/◌, Bool, true, false, ◌||◌, ◌&&◌, List, [], ◌∷◌, ◌++◌, Option, none,
  some, ltb, leb, ◌==◌, if◌then◌else◌, Text, text_eq, text_lt, from_option, max,
}
use runtime_agent.Rollup.Window.{start_of}

pub record AgentState : Type 0 where
  pub state : Text
  pub subject : Text
  pub since : Option ℕ

pub record StateRecord : Type 0 where
  pub state : Text
  pub subject : Text
  pub window_start : ℕ
  pub window_seconds : ℕ
  pub occupied_nanos : ℕ
  pub observed_nanos : ℕ
  pub entries : ℕ
  pub accrued_to : ℕ
  pub open_since : Option ℕ

-- `stateKey`, as ((state, subject), start).
abbrev pub StateKey : Type 0
StateKey = (Text × Text) × ℕ

pub record LastSeen : Type 0 where
  pub accrued_to : ℕ
  pub since : Option ℕ

pub record States : Type 0 where
  pub window_length : ℕ
  pub open_records : List (StateKey × StateRecord)
  pub seen : Text → Option LastSeen

pub record Span : Type 0 where
  pub start : ℕ
  pub end : ℕ

abbrev pub subject_key_sep : ℕ
subject_key_sep = 0

-- The loop of `split`: every round ends a window or the interval, so as many rounds as the interval
-- has nanoseconds are enough.
unfoldable pub split_loop : ℕ → ℕ → ℕ → ℕ → List Span
split_loop w to zero from = []
split_loop w to (suc f) from =
    let window_end = start_of w from + w in
    let end = if ltb to window_end then to else window_end in
    let rest = split_loop w to f end in
    if ltb from to then record { start = from; end = end } ∷ rest else []

-- `split`
abbrev pub split : ℕ → ℕ → ℕ → List Span
split w from to = split_loop w to (to - from) from

abbrev pub key_at : States → AgentState → ℕ → StateKey
key_at s st at = ((st.state, st.subject), start_of s.window_length at)

abbrev pub new_record : ℕ → StateKey → StateRecord
new_record w k = record {
  state = k.0.0;
  subject = k.0.1;
  window_start = k.1;
  window_seconds = w / second;
  occupied_nanos = 0;
  observed_nanos = 0;
  entries = 0;
  accrued_to = 0;
  open_since = none;
}

-- `record`, where it creates nothing yet.
abbrev pub record_of : States → AgentState → ℕ → StateRecord
record_of s st at =
    from_option (new_record s.window_length (key_at s st at))
      (lookup (key_at s st at) s.open_records)

-- A write to the record of the window holding `at`.
unfoldable pub write : States → AgentState → ℕ → (StateRecord → StateRecord) → States
write s st at f = record s {
  open_records = insert (key_at s st at) (f (record_of s st at)) s.open_records;
}

-- The `switch` of `accrue`.
unfoldable pub occupied_from : Option ℕ → LastSeen → ℕ
occupied_from none prev = 0
occupied_from (some since) prev = elim prev.since [
  | some was ↦ prev.accrued_to
  | none ↦ max since prev.accrued_to
]

-- One round of the loop of `accrue`.
unfoldable pub accrue_span : Option ℕ → ℕ → Span → StateRecord → StateRecord
accrue_span since occupied span r =
    let observed = record r {
      observed_nanos = r.observed_nanos + (span.end - span.start);
      accrued_to = span.end;
      open_since = since;
    } in
    let start = max occupied span.start in
    if occupied == 0
    then observed
    else if ltb start span.end
    then record observed { occupied_nanos = r.occupied_nanos + (span.end - start) }
    else observed

unfoldable pub accrue_spans : AgentState → ℕ → List Span → States → States
unfolding write accrue_span
accrue_spans st occupied [] s = s
accrue_spans st occupied (span ∷ spans) s =
    accrue_spans st occupied spans (write s st span.start (accrue_span st.since occupied span))

-- `accrue`
unfoldable pub accrue : States → AgentState → LastSeen → ℕ → States
unfolding accrue_spans split_loop occupied_from
accrue s st prev at =
    accrue_spans st (occupied_from st.since prev) (split s.window_length prev.accrued_to at) s

-- `Equal` of an instant that may be nil to one that is not.
abbrev pub is_at : Option ℕ → ℕ → Bool
is_at none since = false
is_at (some t) since = t == since

abbrev pub since_of : Option LastSeen → Option ℕ
since_of none = none
since_of (some p) = p.since

abbrev pub is_none : Option LastSeen → Bool
is_none none = true
is_none (some p) = false

abbrev pub count_entry : StateRecord → StateRecord
count_entry r = record r { entries = r.entries + 1 }

-- `enter`, of an episode since `since`; `record` makes the record before the second test.
unfoldable pub enter : States → AgentState → ℕ → Option LastSeen → ℕ → States
unfolding write
enter s st since prev at =
    if is_at (since_of prev) since
    then s
    else if is_none prev && is_at (record_of s st at).open_since since
    then write s st at (λ r. r)
    else write s st at count_entry

abbrev pub stamp_record : AgentState → ℕ → StateRecord → StateRecord
stamp_record st at r = record r { accrued_to = at; open_since = st.since }

-- `stamp`
abbrev pub stamp : States → AgentState → ℕ → States
stamp s st at = write s st at (stamp_record st at)

abbrev pub seen_key : AgentState → Text
seen_key st = st.state ++ subject_key_sep ∷ st.subject

-- The first `if` of `Observe`'s loop.
abbrev pub accrue_known : States → AgentState → Option LastSeen → ℕ → States
accrue_known s st none at = s
accrue_known s st (some prev) at = if ltb prev.accrued_to at then accrue s st prev at else s

-- The second.
abbrev pub enter_open : States → AgentState → Option ℕ → Option LastSeen → ℕ → States
enter_open s st none prev at = s
enter_open s st (some since) prev at = enter s st since prev at

-- One round of `Observe`'s loop.
unfoldable pub observe_one : States → ℕ → AgentState → States
unfolding accrue enter write
observe_one s at st =
    let prev = s.seen (seen_key st) in
    let s1 = accrue_known s st prev at in
    let s2 = enter_open s1 st st.since prev at in
    let s3 = stamp s2 st at in
    if text_eq st.state [] || text_eq st.subject [] then s else record s3 {
      seen = update s3.seen (seen_key st) (some (record { accrued_to = at; since = st.since }));
    }

-- `Observe`
abbrev pub observe : States → ℕ → List AgentState → States
observe s at [] = s
observe s at (st ∷ sts) = observe (observe_one s at st) at sts

-- `less` in `sortStateRecords`
unfoldable pub earlier : StateRecord → StateRecord → Bool
earlier a b =
    if a.window_start == b.window_start
    then then_by a.state b.state (text_lt a.subject b.subject)
    else ltb a.window_start b.window_start

-- `Snapshots`
unfoldable pub snapshots : States → List StateRecord
unfolding earlier
snapshots s = sort_slice earlier (values s.open_records)

-- One round of the loop of `Resume`, given what the key holds, and whether it seeded.
abbrev pub resume_held : States → StateRecord → Option StateRecord → States × ℕ
resume_held s r (some held) = (s, 0)
resume_held s r none =
    (record s { open_records = insert ((r.state, r.subject), r.window_start) r s.open_records }, 1)

-- `Resume`: the journal, and how many records were seeded.
abbrev pub resume : States → List StateRecord → States × ℕ
resume s [] = (s, 0)
resume s (r ∷ rs) =
    let held = lookup ((r.state, r.subject), r.window_start) s.open_records in
    let (s', n) = resume_held s r held in let (t, m) = resume s' rs in (t, n + m)

abbrev pub has_ended : ℕ → ℕ → StateRecord → Bool
has_ended w now r = leb (r.window_start + w) now

-- `CloseBefore`: what is returned, and the journal left.
unfoldable pub close_before : States → ℕ → List StateRecord × States
unfolding earlier
close_before s now = (
  sort_slice earlier (closing (has_ended s.window_length now) s.open_records),
  record s { open_records = remaining (has_ended s.window_length now) s.open_records },
)
