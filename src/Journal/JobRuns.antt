-- ===== src/Journal/JobRuns.antt =====
-- internal/journal/jobs.go: the finished runs of Jobs, on the conventions of the restart journal.
use runtime_agent.Journal.Events as Events
use runtime_agent.Journal.Restarts.{WorkloadRef}
use runtime_agent.Journal.Windows.{second, then_by, closing, remaining}
use runtime_agent.Prelude.Int.{ℤ}
use runtime_agent.Prelude.Keys.{text_key, nat_key, pair_key, insert, values}
use runtime_agent.Prelude.Sort.{sort_slice}
use runtime_agent.Prelude.{
  ℕ, ◌+◌, ◌/◌, Bool, List, Option, ltb, leb, ◌==◌, if◌then◌else◌, Text, text_lt,
}
use runtime_agent.Rollup.Window.{start_of}

-- `model.JobRun`
pub record JobRun : Type 0 where
  pub namespace : Text
  pub workload : WorkloadRef
  pub name : Text
  pub started_at : ℕ
  pub finished_at : ℕ
  pub result : Text
  pub fail_reason : Text
  pub succeeded : ℤ
  pub failed : ℤ
  pub parallelism : Option ℤ
  pub completions : Option ℤ
  pub backoff_limit : Option ℤ

pub record JobRunRecord : Type 0 where
  pub namespace : Text
  pub workload : WorkloadRef
  pub name : Text
  pub started_at : ℕ
  pub finished_at : ℕ
  pub result : Text
  pub fail_reason : Text
  pub succeeded : ℤ
  pub failed : ℤ
  pub parallelism : Option ℤ
  pub completions : Option ℤ
  pub backoff_limit : Option ℤ
  pub window_start : ℕ
  pub window_seconds : ℕ

-- `jobRunKey`, as ((namespace, name), start)`
abbrev pub Key : Type 0
Key = (Text × Text) × ℕ

abbrev pub key_of : JobRunRecord → Key
key_of r = ((r.namespace, r.name), r.window_start)

-- The open records of a `JobRuns`.
abbrev pub Open : Type 0
Open = List (Key × JobRunRecord)

-- `Observe`, on windows of length `w`.
unfoldable pub observe : ℕ → Open → JobRun → Open
observe w m run =
    let r : JobRunRecord = record {
      namespace = run.namespace;
      workload = run.workload;
      name = run.name;
      started_at = run.started_at;
      finished_at = run.finished_at;
      result = run.result;
      fail_reason = run.fail_reason;
      succeeded = run.succeeded;
      failed = run.failed;
      parallelism = run.parallelism;
      completions = run.completions;
      backoff_limit = run.backoff_limit;
      window_start = start_of w run.finished_at;
      window_seconds = w / second;
    } in
    if run.finished_at == 0
    then m
    else insert ((run.namespace, run.name), start_of w run.finished_at) r m

-- `less` in the sort.
unfoldable pub earlier : JobRunRecord → JobRunRecord → Bool
earlier a b =
    if a.window_start == b.window_start
    then then_by a.namespace b.namespace (text_lt a.name b.name)
    else ltb a.window_start b.window_start

-- `Snapshots`
unfoldable pub snapshots : Open → List JobRunRecord
unfolding earlier
snapshots m = sort_slice earlier (values m)

-- `Resume`: the open records, and how many were seeded.
abbrev pub resume : Open → List JobRunRecord → Open × ℕ
resume m rs = Events.resume key_of m rs

abbrev pub has_ended : ℕ → ℕ → JobRunRecord → Bool
has_ended w now r = leb (r.window_start + w) now

-- `CloseBefore`: what is returned, and what is left open.
unfoldable pub close_before : ℕ → Open → ℕ → List JobRunRecord × Open
unfolding earlier
close_before w m now =
    (sort_slice earlier (closing (has_ended w now) m), remaining (has_ended w now) m)
