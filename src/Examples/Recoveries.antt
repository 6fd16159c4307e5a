-- ===== src/Examples/Recoveries.antt =====
-- The payloads' writers and the startup read at concrete inputs.
use runtime_agent.Sink.Registry.{lookup_kind}
use runtime_agent.Sink.Names.Plain.{all_safe}
use runtime_agent.Journal.Restarts.{RestartRecord}
use runtime_agent.Prelude.Keys.{insert, nat_key, pair_key, lookup}
use runtime_agent.Prelude.Int.{pos}
use runtime_agent.Prelude.{
  ℕ, ◌≡◌, refl, true, false, List, [], ◌∷◌, ◌++◌, Option, none, some, Text, codes, All, select,
  from_option, arith, text_eq,
}
use runtime_agent.Rollup.Record.{Record, new_record}
use runtime_agent.Sink.Cadence.{due}
use runtime_agent.Sink.Files.{OomKill, oom_name}
use runtime_agent.Sink.Files.Plain.{of_oom, BuiltName-plain}
use runtime_agent.Sink.Names.{is_plain_name}
use runtime_agent.Sink.Payloads.{
  World, Observation, JournalPayload, UsagePayload, journal_payload, restarts, usage_window_of,
  snapshot_name, group_by_window, write_closed_windows,
}
use runtime_agent.Sink.Payloads.Closing.{write_closed_windows-leaves}
use runtime_agent.Sink.Payloads.Groups.{is_of, lookup-group_by_window}
use runtime_agent.Sink.Recover.{Volume, holds, Decoders, resume_into}
use runtime_agent.Sink.Recover.Resumed.{resume_into-write}
use runtime_agent.Sink.Spool.{publish, Spool, Disk, Encoded, new_spool, write}
use runtime_agent.Sink.Windows.{
  window_end, WindowKey, from_unix, window_numbers, journal_window_name, parse_window_name,
}
use runtime_agent.Sink.Windows.Inverse.{parse_window_name-window_numbers}

parse_window_name-window_numbers_example :
    parse_window_name
      (codes "restarts-" ++ window_numbers (from_unix 1700000000, 3600))
      (codes "restarts-")
    ≡ some (from_unix 1700000000, 3600)
parse_window_name-window_numbers_example =
    parse_window_name-window_numbers (codes "restarts-") 1700000000 3600 (omega arith) (omega arith)
      (omega arith)

abbrev calm : World
calm = record {
  hash = λ t. t;
  faults = λ n. record { fails = none; rename_fails = false };
  now = λ n. 1000;
  after = λ n. 1001;
  removal_fails = λ n. false;
}

abbrev roomy : Spool
roomy = new_spool (pos 100)

abbrev bare : Disk
bare n = none

-- A window of an hour, and a record of it.
abbrev hour : WindowKey
hour = (from_unix 1700000000, 3600)

abbrev crashed : RestartRecord
crashed = record {
  key = (codes "shop", (codes "cart-1", codes "app"));
  workload = record { kind = codes "Deployment"; name = codes "cart" };
  window_start = hour.0;
  window_seconds = hour.1;
  restarts = 2;
  reasons = (codes "OOMKilled", 1) ∷ [];
  reasons_unobserved = 1;
  last_exit_code = some (pos 137);
}

abbrev raw : Text
raw = codes "{}"

abbrev rendered : JournalPayload RestartRecord → Encoded
rendered p = some raw

abbrev parsed : Text → Option (JournalPayload RestartRecord)
parsed t = some (journal_payload restarts 5 (hour, crashed ∷ []))

abbrev name : Text
name = journal_window_name restarts.prefix hour

-- The directory behind the write.
abbrev volume : Volume
volume = record {
  entries = (name, false) ∷ (codes "lost+found", true) ∷ [];
  disk =
      (write (λ t. t) (record { fails = none; rename_fails = false }) roomy bare restarts.kind name
        (some raw) 1000 1001).disk;
  stat_fails = λ n. false;
  read_fails = λ n. false;
}

resume_into-write_example :
    resume_into volume restarts parsed name (from_unix 1700000000) ≡ some (holds (crashed ∷ []))
unfolding all_safe write lookup_kind text_eq is_plain_name journal_window_name due publish
    window_end
resume_into-write_example =
    resume_into-write restarts rendered parsed 5 1700000000 3600 (crashed ∷ []) calm roomy bare raw
      volume (from_unix 1700000000) refl (omega arith) (omega arith) (omega arith) (refl, tt) refl
      refl (omega arith) (refl, refl) refl refl (omega arith)

abbrev no_decoders : Decoders
no_decoders = record {
  usage = λ t. none;
  restart = parsed;
  disruption = λ t. none;
  node_event = λ t. none;
  job_run = λ t. none;
  goroutine_count = λ t. none;
  agent_state = λ t. none;
  agent_counter = λ t. none;
}

abbrev usage : ℕ → Record
usage start =
    new_record (codes "shop", (codes "Deployment", (codes "cart", codes "app"))) (from_unix start)
      3600

abbrev two_windows : List Record
two_windows = usage 1700000000 ∷ usage 1700003600 ∷ usage 1700000000 ∷ []

abbrev polls : Observation
polls = record {
  poll_interval_seconds = pos 30;
  polls_attempted = pos 2;
  polls_failed = pos 0;
  signals = [];
}

lookup-group_by_window_example :
    from_option [] (lookup hour (group_by_window usage_window_of two_windows))
    ≡ select (is_of usage_window_of hour) two_windows
lookup-group_by_window_example = lookup-group_by_window usage_window_of hour two_windows

abbrev encoded : UsagePayload Record → Encoded
encoded p = some raw

write_closed_windows-leaves_example :
    All
      (λ g.
        (write_closed_windows calm encoded roomy bare two_windows polls).disk (snapshot_name g.0)
        ≡ none)
      (group_by_window usage_window_of two_windows)
unfolding write_closed_windows insert pair_key lookup_kind text_eq is_plain_name due publish
write_closed_windows-leaves_example =
    write_closed_windows-leaves calm encoded roomy bare two_windows polls refl

-- A pod's name that would leave the directory.
abbrev killed : OomKill
killed = record {
  namespace = codes "shop";
  pod = codes "x/../../etc/cron.d/evil";
  container = codes "..";
  workload = record { kind = codes "Pod"; name = codes "x" };
  finished_at = from_unix 1700000000;
  exit_code = pos 137;
  restart_count = pos 3;
  memory_limit_bytes = none;
}

BuiltName-plain_example : is_plain_name (oom_name killed) ≡ true
BuiltName-plain_example = BuiltName-plain (oom_name killed) (of_oom killed)
