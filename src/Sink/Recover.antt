-- ===== src/Sink/Recover.antt =====
-- internal/sink/recover.go: the startup read of the spool. The decoding of a payload is a parameter;
-- a null record of a usage payload is none.
pub mod Open
pub mod Whole
pub mod Resumed
use runtime_agent.Journal.Counters.{CounterRecord}
use runtime_agent.Journal.Disruptions.{DisruptionRecord}
use runtime_agent.Journal.Goroutines.{GoroutineRecord}
use runtime_agent.Journal.JobRuns.{JobRunRecord}
use runtime_agent.Journal.NodeEvents.{NodeEventRecord}
use runtime_agent.Journal.Restarts.{RestartRecord}
use runtime_agent.Journal.States.{StateRecord}
use runtime_agent.Prelude.Keys.{nat_key, pair_key}
use runtime_agent.Prelude.{
  ℕ, ◌+◌, ◌*◌, ◌^◌, Bool, true, false, ◌&&◌, ◌||◌, not, List, [], ◌∷◌, ◌++◌, Option, none, some,
  ltb, leb, ◌==◌, if◌then◌else◌, Text, codes, text_eq, has_prefix, has_suffix, length,
}
use runtime_agent.Rollup.Record.{Record}
use runtime_agent.Sink.Payloads.{
  UsagePayload, JournalPayload, Kept, kind_usage_snapshot, closed_name, usage_window_of, restarts,
  disruptions, node_lifecycle, job_runs, goroutine_counts, agent_states, agent_counters,
}
use runtime_agent.Sink.Spool.{Spool, Disk, count_recovery}
use runtime_agent.Sink.Windows.{
  WindowKey, window_end, trim_suffix, parse_window_name, usage_name_prefix, usage_snapshot_suffix,
  json_suffix,
}

abbrev pub max_recovery_bytes : ℕ
max_recovery_bytes = 64 * 2 ^ 20

-- What the read meets: the listing, with whether an entry is a directory, the files, and those for
-- which `Stat` or `ReadFile` fails.
pub record Volume : Type 0 where
  pub entries : List (Text × Bool)
  pub disk : Disk
  pub stat_fails : Text → Bool
  pub read_fails : Text → Bool

pub data Refusal : Type 0 where
  unreadable oversized undecodable other_kind other_window foreign_record : Refusal

-- What a read returns, or why it returns nothing.
pub data Read {ℓ} (A : Type ℓ) : Type ℓ where
  refused : Refusal → Read A
  holds : A → Read A

unfoldable pub and_read {ℓ κ} : {A : Type ℓ} {B : Type κ} → Read A → (A → Read B) → Read B
and_read (refused e) next = refused e
and_read (holds a) next = next a

sized : Bool → Text → Read Text
sized read_fails raw =
    if ltb max_recovery_bytes (length raw)
    then refused oversized
    else if read_fails
    then refused unreadable
    else holds raw

-- `readRecoverable`
unfoldable pub read_recoverable : Volume → Text → Read Text
unfolding sized
read_recoverable v name =
    if v.stat_fails name
    then refused unreadable
    else elim (v.disk name) [ none ↦ refused unreadable | some raw ↦ sized (v.read_fails name) raw ]

unfoldable pub decoded {ℓ} : {A : Type ℓ} → Option A → Read A
decoded none = refused undecodable
decoded (some a) = holds a

abbrev pub same_window : WindowKey → WindowKey → Bool
same_window a b = a.0 == b.0 && a.1 == b.1

-- The loop over the records of a journal's payload.
unfoldable pub all_of {ℓ} : {R : Type ℓ} → (R → WindowKey) → WindowKey → List R → Bool
all_of window_of k [] = true
all_of window_of k (r ∷ rs) = same_window (window_of r) k && all_of window_of k rs

-- The loop over the records of a usage payload.
unfoldable pub present : WindowKey → List (Option Record) → Option (List Record)
present k [] = some []
present k (none ∷ rs) = none
present k (some r ∷ rs) =
    let rest = present k rs in
    if same_window (usage_window_of r) k
    then elim rest [ none ↦ none | some kept ↦ some (r ∷ kept) ]
    else none

-- What stands between the decoding of a payload and its records.
unfoldable pub envelope {ℓ} : {A : Type ℓ} → Text → Text → WindowKey → WindowKey → Option A → Read A
envelope held kind window k records =
    if text_eq held kind
    then (if same_window window k
        then elim records [ none ↦ refused foreign_record | some rs ↦ holds rs ]
        else refused other_window)
    else refused other_kind

-- `readUsageSnapshot`
unfoldable pub read_usage_snapshot :
    Volume → (Text → Option (UsagePayload (Option Record))) → Text → WindowKey → Read (List Record)
unfolding and_read read_recoverable decoded envelope present
read_usage_snapshot v decode name k = and_read (read_recoverable v name) (λ raw.
    and_read (decoded (decode raw)) (λ p.
      envelope p.kind kind_usage_snapshot (p.window_start, p.window_seconds) k
        (present k p.records)))

-- `readJournalWindow`
unfoldable pub read_journal_window {ℓ} :
    {R : Type ℓ}
    → Volume
    → Kept R
    → (Text → Option (JournalPayload R))
    → Text
    → WindowKey
    → Read (List R)
unfolding and_read read_recoverable decoded envelope all_of
read_journal_window v j decode name k = and_read (read_recoverable v name) (λ raw.
    and_read (decoded (decode raw)) (λ p.
      envelope p.kind j.kind (p.window_start, p.window_seconds) k
        (if all_of j.window_of k p.records then some p.records else none)))

-- The window that a file's name is of, where it has not ended at `now`.
unfoldable pub open_window : Text → Text → Text → ℕ → Option WindowKey
unfolding parse_window_name trim_suffix window_end
open_window name suffix prefix now = elim (parse_window_name (trim_suffix name suffix) prefix) [
  | none ↦ none
  | some k ↦ if ltb now (window_end k) then some k else none
]

-- `resumeInto`, which finds nothing, or reads.
unfoldable pub resume_into {ℓ} :
    {R : Type ℓ}
    → Volume
    → Kept R
    → (Text → Option (JournalPayload R))
    → Text
    → ℕ
    → Option (Read (List R))
unfolding open_window read_journal_window
resume_into v j decode name now = elim (open_window name json_suffix j.prefix now) [
  | none ↦ none
  | some k ↦ some (read_journal_window v j decode name k)
]

-- `Recovery`, an error of which is a name and a refusal.
pub record Recovery : Type 0 where
  pub records : List Record
  pub windows : ℕ
  pub skipped : List (Text × Refusal)
  pub restarts : List RestartRecord
  pub disruptions : List DisruptionRecord
  pub node_events : List NodeEventRecord
  pub job_runs : List JobRunRecord
  pub goroutine_counts : List GoroutineRecord
  pub agent_states : List StateRecord
  pub agent_counters : List CounterRecord
  pub journal_windows : ℕ

abbrev pub nothing : Recovery
nothing = record {
  records = [];
  windows = 0;
  skipped = [];
  restarts = [];
  disruptions = [];
  node_events = [];
  job_runs = [];
  goroutine_counts = [];
  agent_states = [];
  agent_counters = [];
  journal_windows = 0;
}

pub record Decoders : Type 0 where
  pub usage : Text → Option (UsagePayload (Option Record))
  pub restart : Text → Option (JournalPayload RestartRecord)
  pub disruption : Text → Option (JournalPayload DisruptionRecord)
  pub node_event : Text → Option (JournalPayload NodeEventRecord)
  pub job_run : Text → Option (JournalPayload JobRunRecord)
  pub goroutine_count : Text → Option (JournalPayload GoroutineRecord)
  pub agent_state : Text → Option (JournalPayload StateRecord)
  pub agent_counter : Text → Option (JournalPayload CounterRecord)

abbrev pub skip : Recovery → Text → Refusal → Recovery
skip rec name e = record rec { skipped = rec.skipped ++ (name, e) ∷ [] }

add_usage : Recovery → Text → Read (List Record) → Recovery
add_usage rec name (refused e) = skip rec name e
add_usage rec name (holds rs) = record rec {
  records = rec.records ++ rs;
  windows = rec.windows + 1;
}

-- Whether `Stat` finds the file.
unfoldable pub is_there : Volume → Text → Bool
is_there v name = not (v.stat_fails name) && elim (v.disk name) [ none ↦ false | some raw ↦ true ]

usage_window : Volume → Decoders → Recovery → Text → Option WindowKey → Recovery
unfolding is_there read_usage_snapshot add_usage
usage_window v d rec name none = rec
usage_window v d rec name (some k) =
    if is_there v (closed_name k)
    then rec
    else add_usage rec name (read_usage_snapshot v d.usage name k)

-- The body of the loop of `RecoverOpenWindows`.
unfoldable pub usage_entry : Volume → Decoders → ℕ → Recovery → Text × Bool → Recovery
unfolding usage_window open_window
usage_entry v d now rec (name, is_dir) =
    if is_dir || not (has_suffix name usage_snapshot_suffix)
    then rec
    else usage_window v d rec name (open_window name usage_snapshot_suffix usage_name_prefix now)

-- What `recoverJournals` makes of what `resumeInto` returned.
found_in {ℓ} :
    {R : Type ℓ}
    → (Recovery → List R → Recovery)
    → Recovery
    → Text
    → Option (Read (List R))
    → Recovery
found_in add rec name none = rec
found_in add rec name (some (refused e)) = skip rec name e
found_in add rec name (some (holds rs)) =
    let r = add rec rs in record r { journal_windows = r.journal_windows + 1 }

abbrev pub add_restarts : Recovery → List RestartRecord → Recovery
add_restarts r rs = record r { restarts = r.restarts ++ rs }

abbrev pub add_disruptions : Recovery → List DisruptionRecord → Recovery
add_disruptions r rs = record r { disruptions = r.disruptions ++ rs }

abbrev pub add_node_events : Recovery → List NodeEventRecord → Recovery
add_node_events r rs = record r { node_events = r.node_events ++ rs }

abbrev pub add_job_runs : Recovery → List JobRunRecord → Recovery
add_job_runs r rs = record r { job_runs = r.job_runs ++ rs }

abbrev pub add_goroutine_counts : Recovery → List GoroutineRecord → Recovery
add_goroutine_counts r rs = record r { goroutine_counts = r.goroutine_counts ++ rs }

abbrev pub add_agent_states : Recovery → List StateRecord → Recovery
add_agent_states r rs = record r { agent_states = r.agent_states ++ rs }

abbrev pub add_agent_counters : Recovery → List CounterRecord → Recovery
add_agent_counters r rs = record r { agent_counters = r.agent_counters ++ rs }

-- The switch of `recoverJournals` on a file's name.
unfoldable pub journal_file : Volume → Decoders → ℕ → Recovery → Text → Recovery
unfolding resume_into found_in
journal_file v d now rec name =
    if has_prefix name restarts.prefix
    then found_in add_restarts rec name (resume_into v restarts d.restart name now)
    else if has_prefix name disruptions.prefix
    then found_in add_disruptions rec name (resume_into v disruptions d.disruption name now)
    else if has_prefix name node_lifecycle.prefix
    then found_in add_node_events rec name (resume_into v node_lifecycle d.node_event name now)
    else if has_prefix name job_runs.prefix
    then found_in add_job_runs rec name (resume_into v job_runs d.job_run name now)
    else if has_prefix name goroutine_counts.prefix
    then found_in add_goroutine_counts rec name
        (resume_into v goroutine_counts d.goroutine_count name now)
    else if has_prefix name agent_states.prefix
    then found_in add_agent_states rec name (resume_into v agent_states d.agent_state name now)
    else if has_prefix name agent_counters.prefix
    then found_in add_agent_counters rec name
        (resume_into v agent_counters d.agent_counter name now)
    else rec

unfoldable pub journal_entry : Volume → Decoders → ℕ → Recovery → Text × Bool → Recovery
unfolding journal_file
journal_entry v d now rec (name, is_dir) =
    if is_dir || not (has_suffix name json_suffix) then rec else journal_file v d now rec name

unfoldable pub over_entries :
    (Recovery → Text × Bool → Recovery) → Recovery → List (Text × Bool) → Recovery
over_entries step rec [] = rec
over_entries step rec (e ∷ es) = over_entries step (step rec e) es

-- `recoverJournals`
unfoldable pub recover_journals : Volume → Decoders → ℕ → Recovery → Recovery
unfolding over_entries journal_entry
recover_journals v d now rec = over_entries (journal_entry v d now) rec v.entries

-- What `RecoverOpenWindows` reads, once the directory is listed.
unfoldable pub recovery_of : Volume → Decoders → ℕ → Recovery
unfolding over_entries usage_entry recover_journals
recovery_of v d now =
    recover_journals v d now (over_entries (usage_entry v d now) nothing v.entries)

-- `RecoverOpenWindows`; the volume is none where the directory cannot be listed.
unfoldable pub recover_open_windows : Spool → Option Volume → Decoders → ℕ → Spool × Option Recovery
unfolding recovery_of count_recovery
recover_open_windows s none d now = (s, none)
recover_open_windows s (some v) d now =
    let rec = recovery_of v d now in
    let journal_records =
      length rec.restarts
      + length rec.disruptions
      + length rec.node_events
      + length rec.job_runs
      + length rec.goroutine_counts
      + length rec.agent_states
      + length rec.agent_counters in
    (
      count_recovery s (length rec.records) rec.windows (length rec.skipped) journal_records
          rec.journal_windows,
      some rec,
    )
