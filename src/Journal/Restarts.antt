-- ===== src/Journal/Restarts.antt =====
-- internal/journal/restarts.go: the restart journal. An instant is its nanoseconds since Go's zero
-- time, counts do not wrap, a nil map is an empty one, and a map's entries stand in one order.
pub mod Totals
use runtime_agent.Journal.Windows.{second, then_by, closing, remaining}
use runtime_agent.Prelude.Int.{ℤ, pos, negsuc}
use runtime_agent.Prelude.Keys.{Eq, text_key, nat_key, pair_key, lookup, insert, values}
use runtime_agent.Prelude.Sort.{sort_slice}
use runtime_agent.Prelude.{
  ℕ, zero, suc, ◌+◌, ◌-◌, ◌/◌, ◌≡◌, refl, ap, Bool, true, false, ◌&&◌, ◌||◌, List, [], ◌∷◌, Option,
  none, some, arith, ltb, leb, ◌==◌, if◌then◌else◌, Text, codes, text_eq, text_eq_iff, text_lt,
  from_option, ◌↔◌,
}
use runtime_agent.Rollup.Window.{start_of}

-- `model.WorkloadRef`
pub record WorkloadRef : Type 0 where
  pub kind : Text
  pub name : Text

-- `model.ContainerRestart`
pub record ContainerRestart : Type 0 where
  pub namespace : Text
  pub pod : Text
  pub container : Text
  pub workload : WorkloadRef
  pub observed_at : ℕ
  pub restarts : ℤ
  pub reason : Text
  pub exit_code : Option ℤ

-- `journal.Key`, as (namespace, (pod, container)).
abbrev pub Key : Type 0
Key = Text × (Text × Text)

-- `journal.openKey`
abbrev pub OpenKey : Type 0
OpenKey = Key × ℕ

pub record RestartRecord : Type 0 where
  pub key : Key
  pub workload : WorkloadRef
  pub window_start : ℕ
  pub window_seconds : ℕ
  pub restarts : ℕ
  pub reasons : List (Text × ℕ)
  pub reasons_unobserved : ℕ
  pub last_exit_code : Option ℤ

pub record Restarts : Type 0 where
  pub window_length : ℕ
  pub open_records : List (OpenKey × RestartRecord)

abbrev pub unknown_reason : Text
unknown_reason = codes "other"

abbrev pub known_reasons : List Text
known_reasons =
    codes "OOMKilled"
    ∷ codes "Error"
    ∷ codes "Completed"
    ∷ codes "ContainerCannotRun"
    ∷ codes "ContainerStatusUnknown"
    ∷ codes "DeadlineExceeded"
    ∷ codes "StartError"
    ∷ codes "Evicted"
    ∷ []

is_member : Text → List Text → Bool
is_member t [] = false
is_member t (u ∷ us) = text_eq t u || is_member t us

unfoldable pub bucket : Text → Text
unfolding is_member
bucket reason = if is_member reason known_reasons then reason else unknown_reason

-- `m[k]++`
abbrev pub increment : Text → List (Text × ℕ) → List (Text × ℕ)
increment k m = insert k (from_option 0 (lookup k m) + 1) m

abbrev pub new_record : OpenKey → WorkloadRef → ℕ → RestartRecord
new_record k w length = record {
  key = k.0;
  workload = w;
  window_start = k.1;
  window_seconds = length / second;
  restarts = 0;
  reasons = [];
  reasons_unobserved = 0;
  last_exit_code = none;
}

-- What `Observe` writes to the record, of an advance by `n`.
unfoldable pub fold_advance : ContainerRestart → ℕ → RestartRecord → RestartRecord
unfolding bucket
fold_advance e n r =
    if text_eq e.reason []
    then record r { restarts = r.restarts + n; reasons_unobserved = r.reasons_unobserved + n }
    else record r {
      restarts = r.restarts + n;
      reasons = increment (bucket e.reason) r.reasons;
      reasons_unobserved = r.reasons_unobserved + (n - 1);
      last_exit_code = elim e.exit_code [ none ↦ r.last_exit_code | some c ↦ some c ];
    }

abbrev pub open_key : ℕ → ContainerRestart → OpenKey
open_key length e = ((e.namespace, (e.pod, e.container)), start_of length e.observed_at)

-- The record of `r.open[key]`, made on first touch.
abbrev pub record_of : Restarts → ContainerRestart → RestartRecord
record_of s e =
    let k = open_key s.window_length e in
    from_option (new_record k e.workload s.window_length) (lookup k s.open_records)

-- `Observe`, once `e.Restarts` is read.
unfoldable pub observe_advance : Restarts → ContainerRestart → ℤ → Restarts
unfolding fold_advance
observe_advance s e (negsuc n) = s
observe_advance s e (pos zero) = s
observe_advance s e (pos (suc n)) = record s {
  open_records =
      insert (open_key s.window_length e) (fold_advance e (suc n) (record_of s e)) s.open_records;
}

-- `Observe`
abbrev pub observe : Restarts → ContainerRestart → Restarts
observe s e = observe_advance s e e.restarts

-- `less` in `sortRecords`
unfoldable pub earlier : RestartRecord → RestartRecord → Bool
earlier a b =
    if a.window_start == b.window_start
    then (then_by a.key.0 b.key.0 (then_by a.key.1.0 b.key.1.0 (text_lt a.key.1.1 b.key.1.1)))
    else ltb a.window_start b.window_start

-- `Snapshots`
unfoldable pub snapshots : Restarts → List RestartRecord
unfolding earlier
snapshots s = sort_slice earlier (values s.open_records)

-- One round of the loop of `Resume`, given what the key holds, and whether it seeded.
abbrev pub resume_held : Restarts → RestartRecord → Option RestartRecord → Restarts × ℕ
resume_held s r (some held) = (s, 0)
resume_held s r none =
    (record s { open_records = insert (r.key, r.window_start) r s.open_records }, 1)

abbrev pub resume_one : Restarts → RestartRecord → Restarts × ℕ
resume_one s r = resume_held s r (lookup (r.key, r.window_start) s.open_records)

-- `Resume`: the journal, and how many records were seeded.
abbrev pub resume : Restarts → List RestartRecord → Restarts × ℕ
resume s [] = (s, 0)
resume s (r ∷ rs) = let (s', n) = resume_one s r in let (t, m) = resume s' rs in (t, n + m)

-- `!rec.WindowStart.Add(r.windowLength).After(now)`
abbrev pub has_ended : ℕ → ℕ → RestartRecord → Bool
has_ended length now r = leb (r.window_start + length) now

-- `CloseBefore`: what is returned, and the journal left.
unfoldable pub close_before : Restarts → ℕ → List RestartRecord × Restarts
unfolding earlier
close_before s now = (
  sort_slice earlier (closing (has_ended s.window_length now) s.open_records),
  record s { open_records = remaining (has_ended s.window_length now) s.open_records },
)
