-- ===== src/Rollup/Accumulator.antt =====
-- internal/rollup/accumulator.go: the usage accumulator, on the conventions of the records.
pub mod Totals
pub mod Seeding
use runtime_agent.Journal.Windows.{second, then_by, closing, remaining}
use runtime_agent.Prelude.Int.{ℤ, pos, negsuc}
use runtime_agent.Prelude.Keys.{Eq, text_key, nat_key, pair_key, insert, values}
use runtime_agent.Prelude.Sort.{sort_slice}
use runtime_agent.Prelude.{
  ℕ, zero, suc, ◌+◌, ◌-◌, ◌/◌, Bool, true, false, ◌&&◌, not, List, [], ◌∷◌, Option, none, some, ltb,
  leb, ◌==◌, if◌then◌else◌, Text, text_lt,
}
use runtime_agent.Rollup.Opened.{record_at, touch, add_parts}
use runtime_agent.Rollup.Record.{
  Key, CpuUsage, MemoryUsage, Record, observe_rate, observe, new_record, MergeError, merge_record,
}
use runtime_agent.Rollup.Window.{start_of, mul_div, split}

-- `open`, by key and window start.
abbrev pub Open : Type 0
Open = List ((Key × ℕ) × Record)

abbrev pub on_cpu : (CpuUsage → CpuUsage) → Record → Record
on_cpu f r = record r { cpu = f r.cpu }

abbrev pub on_memory : (MemoryUsage → MemoryUsage) → Record → Record
on_memory f r = record r { memory = f r.memory }

-- The functions that `addProRata` is given, and the counts of the observations.
abbrev pub add_core : Record → ℕ → Record
add_core r n = on_cpu (λ u. record u { core_nanoseconds = u.core_nanoseconds + n }) r

abbrev pub add_covered : Record → ℕ → Record
add_covered r n = on_cpu (λ u. record u { covered_nanoseconds = u.covered_nanoseconds + n }) r

abbrev pub add_throttled : Record → ℕ → Record
add_throttled r n = on_cpu (λ u. record u { throttled_periods = u.throttled_periods + n }) r

abbrev pub add_periods : Record → ℕ → Record
add_periods r n = on_cpu (λ u. record u { total_periods = u.total_periods + n }) r

abbrev pub add_cpu_stall : Record → ℕ → Record
add_cpu_stall r n = on_cpu (λ u. record u { psi_stall_nanoseconds = u.psi_stall_nanoseconds + n }) r

abbrev pub add_memory_stall : Record → ℕ → Record
add_memory_stall r n =
    on_memory (λ u. record u { psi_stall_nanoseconds = u.psi_stall_nanoseconds + n }) r

abbrev pub count_throttling : Record → Record
count_throttling r = on_cpu (λ u. record u { throttling_samples = u.throttling_samples + 1 }) r

abbrev pub count_cpu_psi : Record → Record
count_cpu_psi r = on_cpu (λ u. record u { psi_samples = u.psi_samples + 1 }) r

abbrev pub count_memory_psi : Record → Record
count_memory_psi r = on_memory (λ u. record u { psi_samples = u.psi_samples + 1 }) r

pub data SeedError : Type 0 where
  foreign_length : SeedError
  off_grid : SeedError
  no_histogram : SeedError
  unmerged : MergeError → SeedError

unfoldable pub seed_error : Option MergeError → Option SeedError
seed_error none = none
seed_error (some e) = some (unmerged e)

module _ (length : ℕ) where
  abbrev pub fresh : Key → ℕ → Record
  fresh k start = new_record k start (length / second)

  -- `addProRata`
  abbrev pub add_pro_rata : (Record → ℕ → Record) → Open → Key → ℕ → ℕ → ℤ → Open
  add_pro_rata f m k from to amount = add_parts fresh f k (split length from to amount) m

  -- A change of the record of the window holding `at`.
  abbrev pub touch_at : Open → Key → ℕ → (Record → Record) → Open
  touch_at m k at f = touch fresh m k (start_of length at) f

  -- `ObserveCPUDelta`, past its guard.
  unfoldable pub observe_cpu_interval : Open → Key → ℕ → ℕ → ℕ → Open
  unfolding observe_rate mul_div
  observe_cpu_interval m k from to core =
      let m1 = add_pro_rata add_core m k from to (pos core) in
      let m2 = add_pro_rata add_covered m1 k from to (pos (to - from)) in
      touch_at m2 k (to - 1)
        (on_cpu λ u. observe_rate u (mul_div (pos core) (pos 1000) (pos (to - from))))

  -- `ObserveCPUDelta`
  unfoldable pub observe_cpu_delta : Open → Key → ℕ → ℕ → ℤ → Open
  unfolding observe_cpu_interval
  observe_cpu_delta m k from to (negsuc n) = m
  observe_cpu_delta m k from to (pos core) =
      if leb to from then m else observe_cpu_interval m k from to core

  -- `ObserveThrottling`
  unfoldable pub observe_throttling : Open → Key → ℕ → ℕ → ℤ → ℤ → Open
  observe_throttling m k from to throttled periods =
      let m1 = add_pro_rata add_throttled m k from to throttled in
      let m2 = add_pro_rata add_periods m1 k from to periods in
      if ltb from to then touch_at m2 k (to - 1) count_throttling else m2

  -- `ObserveCPUPSI`
  unfoldable pub observe_cpu_psi : Open → Key → ℕ → ℕ → ℤ → Open
  observe_cpu_psi m k from to stall =
      let m1 = add_pro_rata add_cpu_stall m k from to stall in
      if ltb from to then touch_at m1 k (to - 1) count_cpu_psi else m1

  -- `ObserveMemoryPSI`
  unfoldable pub observe_memory_psi : Open → Key → ℕ → ℕ → ℤ → Open
  observe_memory_psi m k from to stall =
      let m1 = add_pro_rata add_memory_stall m k from to stall in
      if ltb from to then touch_at m1 k (to - 1) count_memory_psi else m1

  -- `ObserveMemory`
  unfoldable pub observe_memory : Open → Key → ℕ → ℤ → Open
  unfolding observe
  observe_memory m k at (negsuc n) = m
  observe_memory m k at (pos bytes) = touch_at m k at (on_memory λ u. observe u bytes)

  -- `less` in `sortRecords`
  unfoldable pub earlier : Record → Record → Bool
  earlier a b =
      if a.window_start == b.window_start
      then (then_by a.key.0 b.key.0 (
          then_by a.key.1.0 b.key.1.0
            (then_by a.key.1.1.0 b.key.1.1.0 (text_lt a.key.1.1.1 b.key.1.1.1))))
      else ltb a.window_start b.window_start

  abbrev pub has_ended : ℕ → Record → Bool
  has_ended now r = leb (r.window_start + length) now

  -- `CloseBefore`: what is returned, and what is left open.
  unfoldable pub close_before : Open → ℕ → List Record × Open
  unfolding earlier
  close_before m now = (sort_slice earlier (closing (has_ended now) m), remaining (has_ended now) m)

  -- `Snapshots`
  unfoldable pub snapshots : Open → List Record
  unfolding earlier
  snapshots m = sort_slice earlier (values m)

  -- `Seed`: what is left open, and the error. Whether a histogram is nil stands beside the record,
  -- whose own are not.
  unfoldable pub seed : Open → Record → Bool → Open × Option SeedError
  unfolding touch merge_record seed_error
  seed m r hist_is_nil =
      if not (r.window_seconds == length / second)
      then (m, some foreign_length)
      else if not (start_of length r.window_start == r.window_start)
      then (m, some off_grid)
      else if hist_is_nil
      then (m, some no_histogram)
      else (let (merged, e) = merge_record (record_at fresh m r.key r.window_start) r in
          (touch fresh m r.key r.window_start (λ held. merged), seed_error e))
