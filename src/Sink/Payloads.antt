-- ===== src/Sink/Payloads.antt =====
-- internal/sink/spool.go: the payloads and their writers. The rendering of a payload is a
-- parameter, and a map is ranged over in the order its keys came in.
pub mod Groups
pub mod Closing
use runtime_agent.Journal.Counters.{CounterRecord}
use runtime_agent.Journal.Disruptions.{DisruptionRecord}
use runtime_agent.Journal.Goroutines.{GoroutineRecord}
use runtime_agent.Journal.JobRuns.{JobRunRecord}
use runtime_agent.Journal.NodeEvents.{NodeEventRecord}
use runtime_agent.Journal.Restarts.{RestartRecord, WorkloadRef}
use runtime_agent.Journal.States.{StateRecord}
use runtime_agent.Prelude.Int.{ℤ}
use runtime_agent.Prelude.Keys.{Eq, nat_key, pair_key, lookup, insert, update}
use runtime_agent.Prelude.{
  ℕ, Bool, true, false, List, [], ◌∷◌, ◌++◌, Option, none, some, ◌&&◌, not, length, ◌==◌,
  if◌then◌else◌, Text, codes, text_eq, from_option,
}
use runtime_agent.Rollup.Network.{NetworkRecord}
use runtime_agent.Rollup.Record.{Record}
use runtime_agent.Sink.Names.{dash, file_token, digest_file_token, short_digest}
use runtime_agent.Sink.Registry.{Source, structural, measured, journal, sampled, agent}
use runtime_agent.Sink.Spool.{
  Spool, Disk, Faults, Encoded, Outcome, unregistered, unencodable, held_back, unpublished, landed,
  Written, write,
}
use runtime_agent.Sink.Windows.{
  WindowKey, unix, format_int, window_name, journal_window_name, window_numbers,
  usage_snapshot_suffix, json_suffix,
}

-- What the writes of one call meet, by the name written: the file system's faults, the two
-- readings of the clock, and whether a file cannot be removed.
pub record World : Type 0 where
  pub hash : Text → Text
  pub faults : Text → Faults
  pub now : Text → ℕ
  pub after : Text → ℕ
  pub removal_fails : Text → Bool

-- `model.Observation`
pub record Observation : Type 0 where
  pub poll_interval_seconds : ℤ
  pub polls_attempted : ℤ
  pub polls_failed : ℤ
  pub signals : List Text

-- `usagePayload`, and `networkPayload` for network records.
pub record UsagePayload {ℓ} (R : Type ℓ) : Type ℓ where
  pub kind : Text
  pub source : Source
  pub window_start : ℕ
  pub window_seconds : ℕ
  pub observation : Observation
  pub records : List R

-- The payload of a journal's window.
pub record JournalPayload {ℓ} (R : Type ℓ) : Type ℓ where
  pub kind : Text
  pub source : Source
  pub captured_at : ℕ
  pub window_start : ℕ
  pub window_seconds : ℕ
  pub records : List R

module _ {ℓ} {R : Type ℓ} (window_of : R → WindowKey) where
  add_to_group : List (WindowKey × List R) → R → List (WindowKey × List R)
  add_to_group grouped r =
      insert (window_of r) (from_option [] (lookup (window_of r) grouped) ++ r ∷ []) grouped

  group_loop : List (WindowKey × List R) → List R → List (WindowKey × List R)
  unfolding add_to_group
  group_loop grouped [] = grouped
  group_loop grouped (r ∷ rs) = group_loop (add_to_group grouped r) rs

  -- `groupByWindow`, and the same loop in the other writers.
  unfoldable pub group_by_window : List R → List (WindowKey × List R)
  unfolding group_loop
  group_by_window rs = group_loop [] rs

-- Whether a call of `write` returns an error.
unfoldable pub is_error : Outcome → Bool
is_error unregistered = true
is_error unencodable = true
is_error held_back = false
is_error unpublished = true
is_error landed = false

-- The spool and its directory behind a writer, and whether it returned no error.
pub record Ran : Type 0 where
  pub spool : Spool
  pub disk : Disk
  pub ok : Bool

unfoldable pub ran : Written → Ran
unfolding is_error
ran w = record { spool = w.spool; disk = w.disk; ok = not (is_error w.outcome) }

-- One call of `write` in a `World`.
unfoldable pub write_in : World → Spool → Disk → Text → Text → Encoded → Ran
unfolding ran write
write_in w s disk kind name rendered =
    ran (write w.hash (w.faults name) s disk kind name rendered (w.now name) (w.after name))

-- What follows a write, where it returned no error.
unfoldable pub and_then : Ran → (Spool → Disk → Ran) → Ran
and_then r next = if r.ok then next r.spool r.disk else r

-- `os.Remove` of a file, for which its absence is no error.
unfoldable pub remove_in : World → Spool → Disk → Text → Ran
remove_in w s disk name =
    if w.removal_fails name
    then record { spool = s; disk = disk; ok = false }
    else record { spool = s; disk = update disk name none; ok = true }

-- A step for each group, up to the first error.
unfoldable pub each_group {ℓ} :
    {R : Type ℓ}
    → (WindowKey × List R → Spool → Disk → Ran)
    → List (WindowKey × List R)
    → Spool
    → Disk
    → Ran
unfolding and_then
each_group step [] s disk = record { spool = s; disk = disk; ok = true }
each_group step (g ∷ gs) s disk = and_then (step g s disk) (λ s' disk'. each_group step gs s' disk')

abbrev pub usage_window_of : Record → WindowKey
usage_window_of r = (r.window_start, r.window_seconds)

abbrev pub network_window_of : NetworkRecord → WindowKey
network_window_of r = (r.window_start, r.window_seconds)

abbrev pub usage_payload {ℓ} :
    {R : Type ℓ} → Text → Observation → WindowKey × List R → UsagePayload R
usage_payload kind obs (k, group) = record {
  kind = kind;
  source = measured;
  window_start = k.0;
  window_seconds = k.1;
  observation = obs;
  records = group;
}

abbrev pub kind_usage_snapshot : Text
kind_usage_snapshot = codes "usage_snapshot"

unfoldable pub snapshot_name : WindowKey → Text
unfolding window_name
snapshot_name k = window_name k ++ usage_snapshot_suffix

unfoldable pub closed_name : WindowKey → Text
unfolding window_name
closed_name k = window_name k ++ json_suffix

-- `WriteUsageSnapshot`
unfoldable pub write_usage_snapshot :
    World → (UsagePayload Record → Encoded) → Spool → Disk → List Record → Observation → Ran
unfolding group_by_window each_group write_in snapshot_name
write_usage_snapshot w encode s disk records obs =
    each_group
      (λ g s' disk'.
        write_in w s' disk' kind_usage_snapshot (snapshot_name g.0)
          (encode (usage_payload kind_usage_snapshot obs g)))
      (group_by_window usage_window_of records) s disk

-- The step of `WriteClosedWindows` on a window.
unfoldable pub close_group :
    World
    → (UsagePayload Record → Encoded)
    → Observation
    → WindowKey × List Record
    → Spool
    → Disk
    → Ran
unfolding and_then write_in remove_in snapshot_name closed_name
close_group w encode obs g s disk =
    and_then
      (write_in w s disk (codes "usage_window") (closed_name g.0)
        (encode (usage_payload (codes "usage_window") obs g)))
      (λ s' disk'. remove_in w s' disk' (snapshot_name g.0))

-- `WriteClosedWindows`
unfoldable pub write_closed_windows :
    World → (UsagePayload Record → Encoded) → Spool → Disk → List Record → Observation → Ran
unfolding group_by_window each_group close_group
write_closed_windows w encode s disk records obs =
    each_group (close_group w encode obs) (group_by_window usage_window_of records) s disk

unfoldable pub network_name : WindowKey → Text
unfolding window_numbers
network_name k = codes "network-" ++ window_numbers k ++ json_suffix

-- `WriteNetworkWindows`
unfoldable pub write_network_windows :
    World
    → (UsagePayload NetworkRecord → Encoded)
    → Spool
    → Disk
    → List NetworkRecord
    → Observation
    → Ran
unfolding group_by_window each_group write_in network_name
write_network_windows w encode s disk records obs =
    each_group
      (λ g s' disk'.
        write_in w s' disk' (codes "network_window") (network_name g.0)
          (encode (usage_payload (codes "network_window") obs g)))
      (group_by_window network_window_of records) s disk

-- A journal in the spool: the kind and source of its payloads, and what their files' names begin with.
pub record Kept {ℓ} (R : Type ℓ) : Type ℓ where
  pub kind : Text
  pub source : Source
  pub prefix : Text
  pub window_of : R → WindowKey

abbrev pub journal_payload {ℓ} : {R : Type ℓ} → Kept R → ℕ → WindowKey × List R → JournalPayload R
journal_payload j captured_at (k, group) = record {
  kind = j.kind;
  source = j.source;
  captured_at = captured_at;
  window_start = k.0;
  window_seconds = k.1;
  records = group;
}

-- The writer of a journal's windows, which seven functions repeat.
unfoldable pub write_journal {ℓ} :
    {R : Type ℓ} → World → Kept R → (JournalPayload R → Encoded) → Spool → Disk → ℕ → List R → Ran
unfolding group_by_window each_group write_in journal_window_name
write_journal w j encode s disk captured_at records =
    each_group
      (λ g s' disk'.
        write_in w s' disk' j.kind (journal_window_name j.prefix g.0)
          (encode (journal_payload j captured_at g)))
      (group_by_window j.window_of records) s disk

-- `WriteContainerRestarts`
abbrev pub restarts : Kept RestartRecord
restarts = record {
  kind = codes "container_restarts";
  source = journal;
  prefix = codes "restarts-";
  window_of = λ r. (r.window_start, r.window_seconds);
}

-- `WritePodDisruptions`
abbrev pub disruptions : Kept DisruptionRecord
disruptions = record {
  kind = codes "pod_disruptions";
  source = journal;
  prefix = codes "disruptions-";
  window_of = λ r. (r.window_start, r.window_seconds);
}

-- `WriteNodeLifecycle`
abbrev pub node_lifecycle : Kept NodeEventRecord
node_lifecycle = record {
  kind = codes "node_lifecycle";
  source = journal;
  prefix = codes "node-lifecycle-";
  window_of = λ r. (r.window_start, r.window_seconds);
}

-- `WriteJobRuns`
abbrev pub job_runs : Kept JobRunRecord
job_runs = record {
  kind = codes "job_runs";
  source = journal;
  prefix = codes "job-runs-";
  window_of = λ r. (r.window_start, r.window_seconds);
}

-- `WriteGoroutineCounts`
abbrev pub goroutine_counts : Kept GoroutineRecord
goroutine_counts = record {
  kind = codes "goroutine_counts";
  source = measured;
  prefix = codes "goroutine-counts-";
  window_of = λ r. (r.window_start, r.window_seconds);
}

-- `WriteAgentStates`
abbrev pub agent_states : Kept StateRecord
agent_states = record {
  kind = codes "agent_states";
  source = agent;
  prefix = codes "agent-states-";
  window_of = λ r. (r.window_start, r.window_seconds);
}

-- `WriteAgentCounters`
abbrev pub agent_counters : Kept CounterRecord
agent_counters = record {
  kind = codes "agent_counters";
  source = agent;
  prefix = codes "agent-counters-";
  window_of = λ r. (r.window_start, r.window_seconds);
}
