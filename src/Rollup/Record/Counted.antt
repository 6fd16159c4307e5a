-- ===== src/Rollup/Record/Counted.antt =====
-- internal/rollup/record.go: merging records that hold counters beside what they observed.
use runtime_agent.Prelude.Keys.{text_key, nat_key, pair_key}
use runtime_agent.Prelude.{ℕ, ◌+◌, ◌≡◌, refl, true, List, ◌++◌, map, none, arith, ==_iff}
use runtime_agent.Prelude.Int.{pos}
use runtime_agent.Rollup.Histogram.{Histogram}
use runtime_agent.Rollup.Histogram.Merging.{observe_all}
use runtime_agent.Rollup.Record.{
  Key, CpuUsage, MemoryUsage, Record, new_cpu, new_memory, new_record, add_cpu, add_memory,
  same_identity, merge_record,
}
use runtime_agent.Rollup.Record.Merging.{
  rates, sizes, observed, key_eq_iff, merge-rates, merge-sizes, both_rates, both_sizes,
}

-- The counters of a record, which only add up.
pub record Totals : Type 0 where
  pub core : ℕ
  pub covered : ℕ
  pub throttled : ℕ
  pub periods : ℕ
  pub throttling_samples : ℕ
  pub cpu_stall : ℕ
  pub cpu_stalls : ℕ
  pub memory_stall : ℕ
  pub memory_stalls : ℕ

abbrev pub plus : Totals → Totals → Totals
plus t u = record {
  core = t.core + u.core;
  covered = t.covered + u.covered;
  throttled = t.throttled + u.throttled;
  periods = t.periods + u.periods;
  throttling_samples = t.throttling_samples + u.throttling_samples;
  cpu_stall = t.cpu_stall + u.cpu_stall;
  cpu_stalls = t.cpu_stalls + u.cpu_stalls;
  memory_stall = t.memory_stall + u.memory_stall;
  memory_stalls = t.memory_stalls + u.memory_stalls;
}

-- What observed the gauges only, with the counters at these totals.
abbrev pub cpu_at : Totals → CpuUsage → CpuUsage
cpu_at t u = record u {
  core_nanoseconds = t.core;
  covered_nanoseconds = t.covered;
  throttled_periods = t.throttled;
  total_periods = t.periods;
  throttling_samples = t.throttling_samples;
  psi_stall_nanoseconds = t.cpu_stall;
  psi_samples = t.cpu_stalls;
}

abbrev pub memory_at : Totals → MemoryUsage → MemoryUsage
memory_at t u = record u { psi_stall_nanoseconds = t.memory_stall; psi_samples = t.memory_stalls }

-- A record with these counters that observed these rates and sizes.
abbrev pub counted : Record → Totals → List ℕ → List ℕ → Record
counted r t vs bs =
    let o = observed r vs bs in record o { cpu = cpu_at t o.cpu; memory = memory_at t o.memory }

add_cpu-at :
    (t u : Totals) (a b : CpuUsage) (h : Histogram)
    → add_cpu (cpu_at t a) (cpu_at u b) h ≡ cpu_at (plus t u) (add_cpu a b h)
unfolding add_cpu
add_cpu-at t u a b h = refl

add_memory-at :
    (t u : Totals) (a b : MemoryUsage) (h : Histogram)
    → add_memory (memory_at t a) (memory_at u b) h ≡ memory_at (plus t u) (add_memory a b h)
unfolding add_memory
add_memory-at t u a b h = refl

itself :
    (k : Key) (start seconds : ℕ) (t u : Totals) (vs bs ws cs : List ℕ)
    → same_identity
        (counted (new_record k start seconds) t vs bs)
        (counted (new_record k start seconds) u ws cs)
      ≡ true
itself k start seconds t u vs bs ws cs =
    rw ((key_eq_iff k k).1 refl) (ground (arith, ==_iff start start, ==_iff seconds seconds))

-- Records of one container and window merge, without an error, into the record that observed the
-- rates and sizes of both and whose counters are the sums of theirs.
pub merge_record-counted :
    (k : Key) (start seconds : ℕ) (t u : Totals) (vs bs ws cs : List ℕ)
    → merge_record
        (counted (new_record k start seconds) t vs bs)
        (counted (new_record k start seconds) u ws cs)
      ≡ (counted (new_record k start seconds) (plus t u) (vs ++ ws) (bs ++ cs), none)
unfolding merge_record
merge_record-counted k start seconds t u vs bs ws cs =
    rw
      (
        itself k start seconds t u vs bs ws cs,
        merge-rates vs ws,
        merge-sizes bs cs,
        add_cpu-at t u (rates new_cpu vs) (rates new_cpu ws)
            (observe_all (rates new_cpu vs).hist (map pos ws)),
        add_memory-at t u (sizes new_memory bs) (sizes new_memory cs)
            (observe_all (sizes new_memory bs).hist (map pos cs)),
        both_rates vs ws,
        both_sizes bs cs,
      )
      refl
