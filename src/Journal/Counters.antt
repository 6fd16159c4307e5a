-- ===== src/Journal/Counters.antt =====
-- internal/journal/counters.go: the journal of the agent's own counters, on the conventions of the
-- restart journal. Instant 0 is Go's zero time, and a reading is not negative.
pub mod Rises
use runtime_agent.Journal.States.{Span, split}
use runtime_agent.Journal.Windows.{second, closing, remaining}
use runtime_agent.Prelude.Keys.{Eq, text_key, nat_key, pair_key, lookup, insert, values}
use runtime_agent.Prelude.Sort.{sort_slice}
use runtime_agent.Prelude.{
  ℕ, zero, suc, ◌+◌, ◌-◌, ◌/◌, Bool, true, false, ◌&&◌, not, List, [], ◌∷◌, Option, none, some, ltb,
  leb, ◌==◌, if◌then◌else◌, Text, text_lt, from_option,
}
use runtime_agent.Rollup.Window.{start_of}

pub record CounterRecord : Type 0 where
  pub counter : Text
  pub window_start : ℕ
  pub window_seconds : ℕ
  pub delta : ℕ
  pub observed_nanos : ℕ
  pub accrued_to : ℕ

-- `counterKey`, as (counter, start).
abbrev pub CounterKey : Type 0
CounterKey = Text × ℕ

-- The totals of one pass, by the counters' names.
abbrev pub Readings : Type 0
Readings = List (Text × ℕ)

pub record Counters : Type 0 where
  pub window_length : ℕ
  pub open_records : List (CounterKey × CounterRecord)
  pub prev : Readings
  pub prev_since : ℕ
  pub prev_at : ℕ

-- `NewCounters`, on a positive length.
abbrev pub new_counters : ℕ → Counters
new_counters w = record {
  window_length = w;
  open_records = [];
  prev = [];
  prev_since = 0;
  prev_at = 0;
}

abbrev pub key_at : Counters → Text → ℕ → CounterKey
key_at c name at = (name, start_of c.window_length at)

abbrev pub new_record : ℕ → CounterKey → CounterRecord
new_record w k = record {
  counter = k.0;
  window_start = k.1;
  window_seconds = w / second;
  delta = 0;
  observed_nanos = 0;
  accrued_to = 0;
}

-- `record`, where it creates nothing yet.
abbrev pub record_of : Counters → Text → ℕ → CounterRecord
record_of c name at =
    from_option (new_record c.window_length (key_at c name at))
      (lookup (key_at c name at) c.open_records)

-- A write to the record of the window holding `at`.
unfoldable pub write : Counters → Text → ℕ → (CounterRecord → CounterRecord) → Counters
write c name at f = record c {
  open_records = insert (key_at c name at) (f (record_of c name at)) c.open_records;
}

abbrev pub add_observed : ℕ → CounterRecord → CounterRecord
add_observed n r = record r { observed_nanos = r.observed_nanos + n }

abbrev pub add_delta : ℕ → CounterRecord → CounterRecord
add_delta n r = record r { delta = r.delta + n }

abbrev pub stamp : ℕ → CounterRecord → CounterRecord
stamp at r = record r { accrued_to = at }

-- The inner loop over the readings, in one span.
unfoldable pub observe_span : Span → Readings → Counters → Counters
unfolding write
observe_span span [] c = c
observe_span span ((name, now) ∷ rs) c =
    observe_span span rs (write c name span.start (add_observed (span.end - span.start)))

unfoldable pub observe_spans : List Span → Readings → Counters → Counters
unfolding observe_span
observe_spans [] rs c = c
observe_spans (span ∷ spans) rs c = observe_spans spans rs (observe_span span rs c)

-- One counter's rise, given its previous reading: nothing where it was not known, or fell.
unfoldable pub add_rise : Counters → Text → ℕ → ℕ → Option ℕ → Counters
unfolding write
add_rise c name at now none = c
add_rise c name at now (some was) =
    if ltb now was then c else write c name at (add_delta (now - was))

-- The second loop of `accrue`, with the previous readings.
unfoldable pub add_rises : Readings → ℕ → Readings → Counters → Counters
unfolding add_rise
add_rises prev at [] c = c
add_rises prev at ((name, now) ∷ rs) c =
    add_rises prev at rs (add_rise c name at now (lookup name prev))

-- `accrue`
unfoldable pub accrue : Counters → ℕ → Readings → Counters
unfolding observe_spans add_rises
accrue c at readings =
    add_rises c.prev at readings (observe_spans (split c.window_length c.prev_at at) readings c)

-- The loop of `Observe`.
unfoldable pub stamp_all : ℕ → Readings → Counters → Counters
unfolding write
stamp_all at [] c = c
stamp_all at ((name, now) ∷ rs) c = stamp_all at rs (write c name at (stamp at))

-- `sameBase`
abbrev pub same_base : Counters → ℕ → Bool
same_base c since = not (c.prev_since == 0) && c.prev_since == since

-- `Observe`
unfoldable pub observe : Counters → ℕ → ℕ → Readings → Counters
unfolding accrue stamp_all
observe c at since readings =
    let c1 = if same_base c since && ltb c.prev_at at then accrue c at readings else c in
    record (stamp_all at readings c1) { prev = readings; prev_since = since; prev_at = at }

-- `less` in `sortCounterRecords`
unfoldable pub earlier : CounterRecord → CounterRecord → Bool
earlier a b =
    if a.window_start == b.window_start
    then text_lt a.counter b.counter
    else ltb a.window_start b.window_start

-- `Snapshots`
unfoldable pub snapshots : Counters → List CounterRecord
unfolding earlier
snapshots c = sort_slice earlier (values c.open_records)

-- One round of the loop of `Resume`, given what the key holds, and whether it seeded.
abbrev pub resume_held : Counters → CounterRecord → Option CounterRecord → Counters × ℕ
resume_held c r (some held) = (c, 0)
resume_held c r none =
    (record c { open_records = insert (r.counter, r.window_start) r c.open_records }, 1)

-- `Resume`: the journal, and how many records were seeded.
abbrev pub resume : Counters → List CounterRecord → Counters × ℕ
resume c [] = (c, 0)
resume c (r ∷ rs) =
    let (c', n) = resume_held c r (lookup (r.counter, r.window_start) c.open_records) in
    let (t, m) = resume c' rs in (t, n + m)

abbrev pub has_ended : ℕ → ℕ → CounterRecord → Bool
has_ended w now r = leb (r.window_start + w) now

-- `CloseBefore`: what is returned, and the journal left.
unfoldable pub close_before : Counters → ℕ → List CounterRecord × Counters
unfolding earlier
close_before c now = (
  sort_slice earlier (closing (has_ended c.window_length now) c.open_records),
  record c { open_records = remaining (has_ended c.window_length now) c.open_records },
)
