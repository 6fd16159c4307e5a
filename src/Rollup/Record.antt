-- ===== src/Rollup/Record.antt =====
-- internal/rollup/record.go: the usage records and their merge. The histograms' pointers are never
-- nil here, a record is a value, so that `clone` is the record itself, and counts do not wrap.
-- What a gauge observes is not negative.
pub mod Merging
pub mod Counted
use runtime_agent.Prelude.Int.{ℤ, pos, negsuc}
use runtime_agent.Prelude.Keys.{Eq, text_key, nat_key, pair_key}
use runtime_agent.Prelude.{
  ℕ, zero, suc, ◌+◌, Bool, true, false, ◌&&◌, ◌||◌, List, [], ◌∷◌, Option, none, some, ltb, ◌==◌,
  if◌then◌else◌, Text,
}
use runtime_agent.Rollup.Histogram as Histogram
use runtime_agent.Rollup.Histogram.{
  Histogram, empty_histogram, cpu_anchor_shift, memory_anchor_shift, merge,
}

-- `Key`, as (namespace, (workload kind, (workload name, container))).
abbrev pub Key : Type 0
Key = Text × (Text × (Text × Text))

pub record CpuUsage : Type 0 where
  pub core_nanoseconds : ℕ
  pub covered_nanoseconds : ℕ
  pub throttled_periods : ℕ
  pub total_periods : ℕ
  pub throttling_samples : ℕ
  pub psi_stall_nanoseconds : ℕ
  pub psi_samples : ℕ
  pub samples : ℕ
  pub min_milli : ℕ
  pub max_milli : ℕ
  pub hist : Histogram

pub record MemoryUsage : Type 0 where
  pub samples : ℕ
  pub min_bytes : ℕ
  pub max_bytes : ℕ
  pub sum_bytes : ℕ
  pub psi_stall_nanoseconds : ℕ
  pub psi_samples : ℕ
  pub hist : Histogram

pub record Record : Type 0 where
  pub key : Key
  pub window_start : ℕ
  pub window_seconds : ℕ
  pub cpu : CpuUsage
  pub memory : MemoryUsage

-- `if samples == 0 || v < low { low = v }`
abbrev pub lowest : ℕ → ℕ → ℕ → ℕ
lowest samples low v = if samples == 0 || ltb v low then v else low

-- `if samples == 0 || v > high { high = v }`
abbrev pub highest : ℕ → ℕ → ℕ → ℕ
highest samples high v = if samples == 0 || ltb high v then v else high

-- `observeRate`
unfoldable pub observe_rate : CpuUsage → ℕ → CpuUsage
observe_rate u milli = record u {
  min_milli = lowest u.samples u.min_milli milli;
  max_milli = highest u.samples u.max_milli milli;
  samples = u.samples + 1;
  hist = Histogram.observe u.hist (pos milli);
}

-- `observe`
unfoldable pub observe : MemoryUsage → ℕ → MemoryUsage
observe u bytes = record u {
  min_bytes = lowest u.samples u.min_bytes bytes;
  max_bytes = highest u.samples u.max_bytes bytes;
  samples = u.samples + 1;
  sum_bytes = u.sum_bytes + bytes;
  hist = Histogram.observe u.hist (pos bytes);
}

abbrev pub new_cpu : CpuUsage
new_cpu = record {
  core_nanoseconds = 0;
  covered_nanoseconds = 0;
  throttled_periods = 0;
  total_periods = 0;
  throttling_samples = 0;
  psi_stall_nanoseconds = 0;
  psi_samples = 0;
  samples = 0;
  min_milli = 0;
  max_milli = 0;
  hist = empty_histogram cpu_anchor_shift;
}

abbrev pub new_memory : MemoryUsage
new_memory = record {
  samples = 0;
  min_bytes = 0;
  max_bytes = 0;
  sum_bytes = 0;
  psi_stall_nanoseconds = 0;
  psi_samples = 0;
  hist = empty_histogram memory_anchor_shift;
}

abbrev pub new_record : Key → ℕ → ℕ → Record
new_record k start seconds = record {
  key = k;
  window_start = start;
  window_seconds = seconds;
  cpu = new_cpu;
  memory = new_memory;
}

-- The CPU side of `Merge`, with the histogram that it leaves.
unfoldable pub add_cpu : CpuUsage → CpuUsage → Histogram → CpuUsage
add_cpu u o h = record {
  core_nanoseconds = u.core_nanoseconds + o.core_nanoseconds;
  covered_nanoseconds = u.covered_nanoseconds + o.covered_nanoseconds;
  throttled_periods = u.throttled_periods + o.throttled_periods;
  total_periods = u.total_periods + o.total_periods;
  throttling_samples = u.throttling_samples + o.throttling_samples;
  psi_stall_nanoseconds = u.psi_stall_nanoseconds + o.psi_stall_nanoseconds;
  psi_samples = u.psi_samples + o.psi_samples;
  samples = if ltb 0 o.samples then u.samples + o.samples else u.samples;
  min_milli = if ltb 0 o.samples then lowest u.samples u.min_milli o.min_milli else u.min_milli;
  max_milli = if ltb 0 o.samples then highest u.samples u.max_milli o.max_milli else u.max_milli;
  hist = h;
}

-- The memory side of `Merge`, with the histogram that it leaves.
unfoldable pub add_memory : MemoryUsage → MemoryUsage → Histogram → MemoryUsage
add_memory u o h = record {
  samples = if ltb 0 o.samples then u.samples + o.samples else u.samples;
  min_bytes = if ltb 0 o.samples then lowest u.samples u.min_bytes o.min_bytes else u.min_bytes;
  max_bytes = if ltb 0 o.samples then highest u.samples u.max_bytes o.max_bytes else u.max_bytes;
  sum_bytes = if ltb 0 o.samples then u.sum_bytes + o.sum_bytes else u.sum_bytes;
  psi_stall_nanoseconds = u.psi_stall_nanoseconds + o.psi_stall_nanoseconds;
  psi_samples = u.psi_samples + o.psi_samples;
  hist = h;
}

pub data MergeError : Type 0 where
  other_identity : MergeError
  other_grid : MergeError

unfoldable pub key_eq : Key → Key → Bool
key_eq = pair_key.beq

abbrev pub same_identity : Record → Record → Bool
same_identity r o =
    key_eq r.key o.key && r.window_start == o.window_start && r.window_seconds == o.window_seconds

-- The end of `Merge`, given the memory histograms' merge.
abbrev pub merge_memory : Record → Record → Option Histogram → Record × Option MergeError
merge_memory r o none =
    (record r { memory = add_memory r.memory o.memory r.memory.hist }, some other_grid)
merge_memory r o (some h) = (record r { memory = add_memory r.memory o.memory h }, none)

-- `Merge` past the identities, given the CPU histograms' merge.
abbrev pub merge_cpu : Record → Record → Option Histogram → Record × Option MergeError
merge_cpu r o none = (record r { cpu = add_cpu r.cpu o.cpu r.cpu.hist }, some other_grid)
merge_cpu r o (some h) =
    merge_memory (record r { cpu = add_cpu r.cpu o.cpu h }) o
      (Histogram.merge r.memory.hist o.memory.hist)

-- `Merge`: the receiver as it is left, and the error.
unfoldable pub merge_record : Record → Record → Record × Option MergeError
merge_record r o =
    if same_identity r o
    then merge_cpu r o (Histogram.merge r.cpu.hist o.cpu.hist)
    else (r, some other_identity)
