-- ===== src/Journal/Goroutines.antt =====
-- internal/journal/goroutines.go: the goroutine journal, on the conventions of the restart journal.
pub mod Cap
use runtime_agent.Journal.Restarts.{Key, OpenKey, WorkloadRef}
use runtime_agent.Journal.Windows.{second, then_by, closing, remaining}
use runtime_agent.Prelude.Int.{ℤ, pos, negsuc}
use runtime_agent.Prelude.Keys.{Eq, text_key, nat_key, pair_key, lookup, insert, values}
use runtime_agent.Prelude.Sort.{sort_slice}
use runtime_agent.Prelude.{
  ℕ, zero, suc, ◌+◌, ◌-◌, ◌/◌, Bool, true, false, List, [], ◌∷◌, ◌++◌, map, Option, none, some, ltb,
  leb, ◌==◌, if◌then◌else◌, Text, text_lt, from_option, length, take,
}
use runtime_agent.Rollup.Window.{start_of}

abbrev pub max_samples_per_window : ℕ
max_samples_per_window = 120

-- `model.GoroutineCount`
pub record GoroutineCount : Type 0 where
  pub namespace : Text
  pub pod : Text
  pub container : Text
  pub workload : WorkloadRef
  pub image_digest : Text
  pub observed_at : ℕ
  pub goroutines : ℤ

pub record GoroutineSample : Type 0 where
  pub at : ℕ
  pub goroutines : ℤ

pub record GoroutineRecord : Type 0 where
  pub key : Key
  pub workload : WorkloadRef
  pub image_digest : Text
  pub window_start : ℕ
  pub window_seconds : ℕ
  pub samples : List GoroutineSample
  pub samples_dropped : ℕ

pub record Goroutines : Type 0 where
  pub window_length : ℕ
  pub open_records : List (OpenKey × GoroutineRecord)

abbrev pub open_key : ℕ → GoroutineCount → OpenKey
open_key w c = ((c.namespace, (c.pod, c.container)), start_of w c.observed_at)

abbrev pub new_record : OpenKey → GoroutineCount → ℕ → GoroutineRecord
new_record k c w = record {
  key = k.0;
  workload = c.workload;
  image_digest = c.image_digest;
  window_start = k.1;
  window_seconds = w / second;
  samples = [];
  samples_dropped = 0;
}

abbrev pub record_of : Goroutines → GoroutineCount → GoroutineRecord
record_of g c =
    let k = open_key g.window_length c in
    from_option (new_record k c g.window_length) (lookup k g.open_records)

-- What `Observe` writes to the record.
unfoldable pub add_sample : GoroutineCount → GoroutineRecord → GoroutineRecord
add_sample c r =
    if leb max_samples_per_window (length r.samples)
    then record r { samples_dropped = r.samples_dropped + 1 }
    else record r {
      samples = r.samples ++ record { at = c.observed_at; goroutines = c.goroutines } ∷ [];
    }

-- `Observe`, once `c.Goroutines` is read.
unfoldable pub observe_count : Goroutines → GoroutineCount → ℤ → Goroutines
unfolding add_sample
observe_count g c (negsuc n) = g
observe_count g c (pos zero) = g
observe_count g c (pos (suc n)) = record g {
  open_records = insert (open_key g.window_length c) (add_sample c (record_of g c)) g.open_records;
}

-- `Observe`
abbrev pub observe : Goroutines → GoroutineCount → Goroutines
observe g c = observe_count g c c.goroutines

-- `clone`: the samples, by their instants.
unfoldable pub clone : GoroutineRecord → GoroutineRecord
clone r = record r { samples = sort_slice (λ a b. ltb a.at b.at) r.samples }

-- `less` in `sortGoroutineRecords`
unfoldable pub earlier : GoroutineRecord → GoroutineRecord → Bool
earlier a b =
    if a.window_start == b.window_start
    then (then_by a.key.0 b.key.0 (then_by a.key.1.0 b.key.1.0 (text_lt a.key.1.1 b.key.1.1)))
    else ltb a.window_start b.window_start

-- `Snapshots`
unfoldable pub snapshots : Goroutines → List GoroutineRecord
unfolding earlier clone
snapshots g = sort_slice earlier (map clone (values g.open_records))

-- The record that `Resume` seeds: a clone within the cap.
unfoldable pub capped : GoroutineRecord → GoroutineRecord
unfolding clone
capped r =
    let c = clone r in
    if ltb max_samples_per_window (length c.samples)
    then record c {
      samples_dropped = c.samples_dropped + (length c.samples - max_samples_per_window);
      samples = take max_samples_per_window c.samples;
    }
    else c

-- One round of the loop of `Resume`, given what the key holds, and whether it seeded.
abbrev pub resume_held : Goroutines → GoroutineRecord → Option GoroutineRecord → Goroutines × ℕ
resume_held g r (some held) = (g, 0)
resume_held g r none =
    (record g { open_records = insert (r.key, r.window_start) (capped r) g.open_records }, 1)

-- `Resume`: the journal, and how many records were seeded.
abbrev pub resume : Goroutines → List GoroutineRecord → Goroutines × ℕ
resume g [] = (g, 0)
resume g (r ∷ rs) =
    let (g', n) = resume_held g r (lookup (r.key, r.window_start) g.open_records) in
    let (t, m) = resume g' rs in (t, n + m)

-- `!rec.WindowStart.Add(g.windowLength).After(now)`
abbrev pub has_ended : ℕ → ℕ → GoroutineRecord → Bool
has_ended w now r = leb (r.window_start + w) now

-- `CloseBefore`: what is returned, and the journal left.
unfoldable pub close_before : Goroutines → ℕ → List GoroutineRecord × Goroutines
unfolding earlier clone
close_before g now = (
  sort_slice earlier (map clone (closing (has_ended g.window_length now) g.open_records)),
  record g { open_records = remaining (has_ended g.window_length now) g.open_records },
)
