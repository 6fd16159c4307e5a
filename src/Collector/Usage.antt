-- ===== src/Collector/Usage.antt =====
-- internal/collector/usage.go: how one container's stats become usage, on the conventions of the
-- accumulator. A counter is a number below 2^64, and an instant 0 is the zero time. The requests to
-- the kubelets are not modelled, nor the metrics of cadvisor.
pub mod Attribution
use runtime_agent.Journal.Windows.{second}
use runtime_agent.Prelude.Int.{ℤ, pos}
use runtime_agent.Prelude.Keys.{Eq, text_key, pair_key, lookup, insert}
use runtime_agent.Prelude.{
  ℕ, ◌+◌, ◌-◌, ◌*◌, ◌^◌, min, Bool, true, false, ◌&&◌, ◌||◌, not, List, [], ◌∷◌, ◌++◌, Option, none,
  some, ltb, leb, ◌==◌, length, if◌then◌else◌, Text, codes, text_eq, from_option, select,
}
use runtime_agent.Rollup.Accumulator as Accumulator
use runtime_agent.Rollup.Accumulator.{
  SeedError, observe_cpu_delta, observe_memory, observe_memory_psi, seed, close_before, snapshots,
}
use runtime_agent.Rollup.Record.{Key, Record}

abbrev pub stale_tracker_after : ℕ
stale_tracker_after = 300 * second

-- What is read of the kubelet's stats; `psi` is `PSI.Some.Total`.
pub record CpuStats : Type 0 where
  pub time : ℕ
  pub usage : Option ℕ
  pub psi : Option ℕ

pub record MemoryStats : Type 0 where
  pub time : ℕ
  pub working_set : Option ℕ
  pub psi : Option ℕ

pub record ContainerStats : Type 0 where
  pub start_time : ℕ
  pub cpu : Option CpuStats
  pub memory : Option MemoryStats

pub record CounterState : Type 0 where
  pub cpu_time : ℕ
  pub cpu_counter : ℕ
  pub cpu_psi : ℕ
  pub mem_time : ℕ
  pub mem_psi : ℕ
  pub last_seen : ℕ

abbrev pub zero_state : CounterState
zero_state = record {
  cpu_time = 0;
  cpu_counter = 0;
  cpu_psi = 0;
  mem_time = 0;
  mem_psi = 0;
  last_seen = 0;
}

-- `trackerKey`, as (pod, container).
abbrev pub TrackerKey : Type 0
TrackerKey = Text × Text

-- The part of a `UsagePoller` that usage goes through.
pub record Poller : Type 0 where
  pub acc : Accumulator.Open
  pub tracker : List (TrackerKey × CounterState)
  pub resumed_keys : List Key
  pub resumed_until : ℕ
  pub signals : Text → Bool

-- What `ingest` passes of a container: its tracker's key, its record's key and its stats.
abbrev pub Read : Type 0
Read = TrackerKey × Key × ContainerStats

-- Whether what was last seen then is dropped by a sweep now.
abbrev pub is_stale : ℕ → ℕ → Bool
is_stale now seen = ltb seen (now - stale_tracker_after)

unfoldable pub clamp_to_int64 : ℕ → ℤ
clamp_to_int64 v = if ltb (2 ^ 63 - 1) v then pos (2 ^ 63 - 1) else pos v

unfoldable pub mark_signal : Text → Poller → Poller
mark_signal name p = record p { signals = λ n. if text_eq n name then true else p.signals n }

has_key : List Key → Key → Bool
has_key [] k = false
has_key (j ∷ js) k = pair_key.beq j k || has_key js k

-- `attributableFromStart`
unfoldable pub attributable_from_start : Poller → Key → Bool
unfolding has_key
attributable_from_start p k = not (has_key p.resumed_keys k)

module _ (w : ℕ) where
  -- `observeCPU`
  unfoldable pub observe_cpu : Accumulator.Open → Key → ℕ → ℕ → ℕ → Accumulator.Open
  unfolding clamp_to_int64
  observe_cpu acc k from to core =
      if ltb from to then observe_cpu_delta w acc k from to (clamp_to_int64 core) else acc

  -- `observeCPUPSI`
  unfoldable pub observe_cpu_psi : Option ℕ → Accumulator.Open → Key → ℕ → ℕ → ℕ → Accumulator.Open
  unfolding clamp_to_int64
  observe_cpu_psi none acc k from to stall = acc
  observe_cpu_psi (some psi) acc k from to stall =
      if ltb from to
      then Accumulator.observe_cpu_psi w acc k from to (clamp_to_int64 stall)
      else acc

  abbrev pub observe_both : Option ℕ → Accumulator.Open → Key → ℕ → ℕ → ℕ → ℕ → Accumulator.Open
  observe_both psi acc k from to core stall =
      observe_cpu_psi psi (observe_cpu acc k from to core) k from to stall

  abbrev pub cpu_read : CounterState → CpuStats → ℕ → CounterState
  cpu_read st c counter = record st {
    cpu_time = c.time;
    cpu_counter = counter;
    cpu_psi = from_option 0 c.psi;
  }

  -- The part of `ingestContainer` on the CPU, once the counter is there.
  unfoldable pub ingest_cpu :
      Bool
      → Key
      → ℕ
      → CpuStats
      → ℕ
      → CounterState × Accumulator.Open
      → CounterState × Accumulator.Open
  unfolding observe_cpu observe_cpu_psi
  ingest_cpu attributable k start c counter (st, acc) =
      let psi = from_option 0 c.psi in
      if st.cpu_time == 0
      then (
        cpu_read st c counter,
        if attributable then observe_both c.psi acc k start c.time counter psi else acc,
      )
      else if leb c.time st.cpu_time
      then (st, acc)
      else if ltb counter st.cpu_counter || ltb psi st.cpu_psi
      then (cpu_read st c counter, acc)
      else (
        cpu_read st c counter,
        observe_both c.psi acc k st.cpu_time c.time (counter - st.cpu_counter) (psi - st.cpu_psi),
      )

  -- The stall of memory, from the container's start at its first reading.
  unfoldable pub ingest_memory_psi :
      Bool → Key → ℕ → MemoryStats → CounterState → Accumulator.Open → Accumulator.Open
  unfolding clamp_to_int64
  ingest_memory_psi attributable k start m st acc = elim m.psi [
    | none ↦ acc
    | some psi ↦
        let first = st.mem_time == 0 in
        let from = if first then start else st.mem_time in
        let delta = if first then psi else psi - st.mem_psi in
        if leb st.mem_psi psi && (not first || attributable) && ltb from m.time
        then observe_memory_psi w acc k from m.time (clamp_to_int64 delta)
        else acc
  ]

  -- The part of `ingestContainer` on memory, once the gauge is there.
  unfoldable pub ingest_memory :
      Bool
      → Key
      → ℕ
      → MemoryStats
      → ℕ
      → CounterState × Accumulator.Open
      → CounterState × Accumulator.Open
  unfolding ingest_memory_psi clamp_to_int64
  ingest_memory attributable k start m bytes (st, acc) =
      if ltb st.mem_time m.time
      then (
        record st { mem_time = m.time; mem_psi = from_option 0 m.psi },
        ingest_memory_psi attributable k start m st
            (observe_memory w acc k m.time (clamp_to_int64 bytes)),
      )
      else (st, acc)

  cpu_part :
      Bool
      → Key
      → ℕ
      → Option CpuStats
      → CounterState × Accumulator.Open
      → CounterState × Accumulator.Open
  unfolding ingest_cpu
  cpu_part a k start none s = s
  cpu_part a k start (some c) s = elim c.usage [
    | none ↦ s
    | some counter ↦ ingest_cpu a k start c counter s
  ]

  memory_part :
      Bool
      → Key
      → ℕ
      → Option MemoryStats
      → CounterState × Accumulator.Open
      → CounterState × Accumulator.Open
  unfolding ingest_memory
  memory_part a k start none s = s
  memory_part a k start (some m) s = elim m.working_set [
    | none ↦ s
    | some bytes ↦ ingest_memory a k start m bytes s
  ]

  -- The signals that a container's stats show.
  mark_psi : Option ℕ → Poller → Poller
  unfolding mark_signal
  mark_psi none p = p
  mark_psi (some psi) p = mark_signal (codes "psi") p

  mark_part : Text → Option ℕ → Option ℕ → Poller → Poller
  unfolding mark_psi
  mark_part name none psi p = p
  mark_part name (some v) psi p = mark_psi psi (mark_signal name p)

  unfoldable pub mark_signals : ContainerStats → Poller → Poller
  unfolding mark_part
  mark_signals c p =
      let cpu : Poller = elim c.cpu [
        | none ↦ p
        | some s ↦ mark_part (codes "cpu") s.usage s.psi p
      ] in
      elim c.memory [ none ↦ cpu | some s ↦ mark_part (codes "memory") s.working_set s.psi cpu ]

  -- `ingestContainer`: its state and the accumulator.
  unfoldable pub ingest_stats :
      Bool
      → Key
      → ContainerStats
      → ℕ
      → CounterState × Accumulator.Open
      → CounterState × Accumulator.Open
  unfolding cpu_part memory_part
  ingest_stats a k c now (st, acc) =
      memory_part a k c.start_time c.memory
        (cpu_part a k c.start_time c.cpu (record st { last_seen = now }, acc))

  -- `ingestContainer`
  unfoldable pub ingest_container : Poller → TrackerKey → Key → ContainerStats → ℕ → Poller
  unfolding ingest_stats attributable_from_start mark_signals
  ingest_container p tk k c now =
      let st = from_option zero_state (lookup tk p.tracker) in
      let (st', acc') = ingest_stats (attributable_from_start p k) k c now (st, p.acc) in
      record (mark_signals c p) { acc = acc'; tracker = insert tk st' p.tracker }

  seed_held : Poller → Record → Accumulator.Open × Option SeedError → Poller × List SeedError
  seed_held p r (acc, some e) = (record p { acc = acc }, e ∷ [])
  seed_held p r (acc, none) =
      let end = r.window_start + r.window_seconds * second in
      (
        record p {
          acc = acc;
          resumed_keys = r.key ∷ p.resumed_keys;
          resumed_until = if ltb p.resumed_until end then end else p.resumed_until;
        },
        [],
      )

  -- `Seed`; a recovered record has its histograms.
  unfoldable pub seed_poller : Poller → List Record → Poller × List SeedError
  unfolding seed_held
  seed_poller p [] = (p, [])
  seed_poller p (r ∷ rs) =
      let (p', e) = seed_held p r (seed w p.acc r false) in
      let (p'', es) = seed_poller p' rs in (p'', e ++ es)

  -- The part of `sweep` on usage.
  unfoldable pub sweep_poller : Poller → ℕ → Poller
  sweep_poller p now = record p {
    tracker = select (λ x. not (is_stale now x.1.last_seen)) p.tracker;
    resumed_keys = if leb p.resumed_until now then [] else p.resumed_keys;
  }

  -- The containers of `ingest`, each as it is resolved.
  unfoldable pub ingest_all : Poller → List Read → ℕ → Poller
  unfolding ingest_container
  ingest_all p [] now = p
  ingest_all p ((tk, k, c) ∷ rs) now = ingest_all (ingest_container p tk k c now) rs now

  -- The part of `pollOnce` on usage, from what the kubelets' summaries hold.
  unfoldable pub poll_usage : Poller → List Read → ℕ → Poller
  unfolding ingest_all sweep_poller
  poll_usage p rs now = sweep_poller (ingest_all p rs now) now

  -- The part of `flush` on usage: what is emitted as closed and as still open, where there is any.
  unfoldable pub flush_usage : Poller → ℕ → Poller × (List Record × List Record)
  flush_usage p now =
      let (closed, acc') = close_before w p.acc now in
      (record p { acc = acc' }, (closed, snapshots w acc'))
