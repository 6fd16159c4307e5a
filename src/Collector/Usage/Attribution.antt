-- ===== src/Collector/Usage/Attribution.antt =====
-- internal/collector/usage.go, with internal/rollup/accumulator.go behind it: what of a container's
-- CPU counter reaches the records.
use runtime_agent.Prelude.Int.{ℤ, pos, negsuc}
use runtime_agent.Prelude.Keys.{text_key, nat_key, pair_key, lookup, lookup-insert, lookup-select}
use runtime_agent.Prelude.{
  ℕ, ◌+◌, ◌-◌, ◌^◌, ◌<◌, ◌≤◌, ◌≡◌, refl, ◌∙◌, Bool, true, false, ◌&&◌, ◌||◌, not, List, [], ◌∷◌,
  Option, none, some, ltb, leb, ◌==◌, Bool-cases, Option-cases, inl, inr, if◌then◌else◌,
  from_option, arith,
}
use runtime_agent.Rollup.Accumulator as Accumulator
use runtime_agent.Rollup.Accumulator.{
  Open, fresh, add_cpu_stall, add_memory_stall, count_cpu_psi, count_memory_psi, on_memory,
  observe_cpu_delta, observe_memory, observe_memory_psi,
}
use runtime_agent.Rollup.Accumulator.Totals.{over, observe_cpu_delta-total}
use runtime_agent.Rollup.Opened.{add_parts, total-touch, total-add_parts_other}
use runtime_agent.Rollup.Record.{Key, Record, observe}
use runtime_agent.Rollup.Window.{Part, start_of, split}
use runtime_agent.Collector.Usage.{
  CpuStats, MemoryStats, ContainerStats, CounterState, zero_state, clamp_to_int64, observe_cpu,
  observe_cpu_psi, ingest_cpu, ingest_memory, ingest_memory_psi, cpu_part, memory_part,
  ingest_stats, Poller, TrackerKey, Read, stale_tracker_after, is_stale, sweep_poller, poll_usage,
  ingest_all, ingest_container, attributable_from_start,
}

-- The CPU time of the open records.
abbrev pub core : Open → ℕ
core m = over (λ r. r.cpu.core_nanoseconds) m

core-touch_at :
    (w : ℕ) (m : Open) (k : Key) (at : ℕ) (f : Record → Record)
    → ((r : Record) → (f r).cpu.core_nanoseconds ≡ r.cpu.core_nanoseconds)
    → core (Accumulator.touch_at w m k at f) ≡ core m
core-touch_at w m k at f h = omega (
  arith,
  total-touch (fresh w) (λ r. r.cpu.core_nanoseconds) (λ j s. refl) m k (start_of w at) 0 f
      (λ r. omega (arith, h r)),
)

core-stall :
    (w : ℕ) (m : Open) (k : Key) (f : Record → ℕ → Record) (ps : List Part)
    → ((r : Record) (n : ℕ) → (f r n).cpu.core_nanoseconds ≡ r.cpu.core_nanoseconds)
    → core (add_parts (fresh w) f k ps m) ≡ core m
core-stall w m k f ps h =
    total-add_parts_other (fresh w) (λ r. r.cpu.core_nanoseconds) (λ j s. refl) f k ps m h

core-observe_cpu_psi :
    (w : ℕ) (psi : Option ℕ) (m : Open) (k : Key) (from to n : ℕ)
    → core (observe_cpu_psi w psi m k from to n) ≡ core m
unfolding observe_cpu_psi Accumulator.observe_cpu_psi
core-observe_cpu_psi w none m k from to n = refl
core-observe_cpu_psi w (some psi) m k from to n =
    let parts = split w from to (clamp_to_int64 n) in
    let m1 = add_parts (fresh w) add_cpu_stall k parts m in
    let stalled = core-stall w m k add_cpu_stall parts (λ r j. refl) in
    elim (Bool-cases (ltb from to)) [
      | inl h ↦ rw h (core-touch_at w m1 k (to - 1) count_cpu_psi (λ r. refl) ∙ stalled)
      | inr h ↦ rw h refl
    ]

core-observe_memory_psi :
    (w : ℕ) (m : Open) (k : Key) (from to : ℕ) (z : ℤ)
    → core (observe_memory_psi w m k from to z) ≡ core m
unfolding observe_memory_psi
core-observe_memory_psi w m k from to z =
    let parts = split w from to z in
    let m1 = add_parts (fresh w) add_memory_stall k parts m in
    let stalled = core-stall w m k add_memory_stall parts (λ r j. refl) in
    elim (Bool-cases (ltb from to)) [
      | inl h ↦ rw h (core-touch_at w m1 k (to - 1) count_memory_psi (λ r. refl) ∙ stalled)
      | inr h ↦ rw h stalled
    ]

core-observe_memory :
    (w : ℕ) (m : Open) (k : Key) (at : ℕ) (z : ℤ) → core (observe_memory w m k at z) ≡ core m
unfolding observe_memory
core-observe_memory w m k at (negsuc n) = refl
core-observe_memory w m k at (pos n) =
    core-touch_at w m k at (on_memory (λ u. observe u n)) (λ r. refl)

core-observe_cpu :
    (w : ℕ) (m : Open) (k : Key) (from to n : ℕ)
    → 0 < w
    → from < to
    → to - from < 2 ^ 63
    → n < 2 ^ 63
    → core (observe_cpu w m k from to n) ≡ core m + n
unfolding observe_cpu clamp_to_int64
core-observe_cpu w m k from to n hw h fit small =
    let after : ltb from to ≡ true = ground arith in
    let whole : ltb (2 ^ 63 - 1) n ≡ false = ground arith in
    rw (after, whole) ((observe_cpu_delta-total w from to n k m hw h fit small).0)

-- What the baseline of the CPU is.
record Based (st : CounterState) (t n s : ℕ) : Type 0 where
  time : st.cpu_time ≡ t
  counter : st.cpu_counter ≡ n
  psi : st.cpu_psi ≡ s

either : (b : Bool) (x y : Open) → core x ≡ core y → core (if b then x else y) ≡ core y
either true x y h = h
either false x y h = refl

core-ingest_memory_psi :
    (w : ℕ) (a : Bool) (k : Key) (start : ℕ) (m : MemoryStats) (st : CounterState) (acc : Open)
    → core (ingest_memory_psi w a k start m st acc) ≡ core acc
unfolding ingest_memory_psi
core-ingest_memory_psi w a k start m st acc = elim (Option-cases m.psi) [
  | inl e ↦ rw (ingest_memory_psi, e) refl
  | inr (psi, e) ↦
      let first = st.mem_time == 0 in
      let from = if first then start else st.mem_time in
      let delta = if first then psi else psi - st.mem_psi in
      rw (ingest_memory_psi, e)
        (either (leb st.mem_psi psi && (not first || a) && ltb from m.time)
          (observe_memory_psi w acc k from m.time (clamp_to_int64 delta)) acc
          (core-observe_memory_psi w acc k from m.time (clamp_to_int64 delta)))
]

-- Memory leaves the CPU's records and its baseline.
memory_part-kept :
    (w : ℕ) (a : Bool) (k : Key) (start : ℕ) (m : Option MemoryStats) (st : CounterState)
    (acc : Open) (t n s : ℕ)
    → Based st t n s
    → Based (memory_part w a k start m (st, acc)).0 t n s
      × (core (memory_part w a k start m (st, acc)).1 ≡ core acc)
unfolding memory_part ingest_memory
memory_part-kept w a k start none st acc t n s b = (b, refl)
memory_part-kept w a k start (some m) st acc t n s b = elim (Option-cases m.working_set) [
  | inl e ↦ rw (memory_part, e) (b, refl)
  | inr (bytes, e) ↦ elim (Bool-cases (ltb st.mem_time m.time)) [
    | inl h ↦
        rw (memory_part, e, ingest_memory, h)
          (
            record { time = b.time; counter = b.counter; psi = b.psi },
            core-ingest_memory_psi w a k start m st
                  (observe_memory w acc k m.time (clamp_to_int64 bytes))
                ∙ core-observe_memory w acc k m.time (clamp_to_int64 bytes),
          )
    | inr h ↦ rw (memory_part, e, ingest_memory, h) (b, refl)
  ]
]

-- One reading of a container: the CPU's counter with its instant and stall, and what of memory.
pub record Reading : Type 0 where
  pub time : ℕ
  pub counter : ℕ
  pub psi : Option ℕ
  pub memory : Option MemoryStats

abbrev pub cpu_of : Reading → CpuStats
cpu_of r = record { time = r.time; usage = some r.counter; psi = r.psi }

abbrev pub stats_of : ℕ → Reading → ContainerStats
stats_of start r = record { start_time = start; cpu = some (cpu_of r); memory = r.memory }

-- A poll: its instant, and the container's reading where a kubelet reported it.
abbrev pub Poll : Type 0
Poll = ℕ × Option Reading

-- What a poll reads.
abbrev pub reads_of : TrackerKey → Key → ℕ → Option Reading → List Read
reads_of tk k start none = []
reads_of tk k start (some r) = (tk, k, stats_of start r) ∷ []

-- Polls in order, with what they read of one container.
pub feed : ℕ → TrackerKey → Key → ℕ → Poller → List Poll → Poller
feed w tk k start p [] = p
feed w tk k start p ((now, o) ∷ ps) =
    feed w tk k start (poll_usage w p (reads_of tk k start o) now) ps

-- Each reading is later than the one before, and neither its counter nor its stall falls; a poll
-- without a reading is no more than the sweep's 300 seconds behind the last poll that had one.
unfoldable pub Rising : ℕ → ℕ → ℕ → ℕ → List Poll → Type 0
Rising seen t n s [] = Unit
Rising seen t n s ((now, none) ∷ ps) = (now ≤ seen + stale_tracker_after) × Rising seen t n s ps
Rising seen t n s ((now, some r) ∷ ps) =
    (t < r.time)
    × (r.time - t < 2 ^ 63)
    × (n ≤ r.counter)
    × (r.counter < 2 ^ 63)
    × (s ≤ from_option 0 r.psi)
    × Rising now r.time r.counter (from_option 0 r.psi) ps

-- The counter of the last reading.
unfoldable pub final : ℕ → List Poll → ℕ
final n [] = n
final n ((now, none) ∷ ps) = final n ps
final n ((now, some r) ∷ ps) = final r.counter ps

-- A reading behind another.
next_reading :
    (w : ℕ) (a : Bool) (k : Key) (start : ℕ) (r : Reading) (st : CounterState) (acc : Open)
    (t n s : ℕ)
    → 0 < w
    → 0 < t
    → Based st t n s
    → t < r.time
    → r.time - t < 2 ^ 63
    → n ≤ r.counter
    → r.counter < 2 ^ 63
    → s ≤ from_option 0 r.psi
    → Based
        (ingest_cpu w a k start (cpu_of r) r.counter (st, acc)).0
        r.time
        r.counter
        (from_option 0 r.psi)
      × (core (ingest_cpu w a k start (cpu_of r) r.counter (st, acc)).1 + n ≡ core acc + r.counter)
unfolding ingest_cpu
next_reading w a k start r st acc t n s hw ht b later fit up small stall =
    let seen : (st.cpu_time == 0) ≡ false = ground (arith, b.time) in
    let fresh_ : leb r.time st.cpu_time ≡ false = ground (arith, b.time) in
    let grown : ltb r.counter st.cpu_counter ≡ false = ground (arith, b.counter) in
    let stalled : ltb (from_option 0 r.psi) st.cpu_psi ≡ false = ground (arith, b.psi) in
    let m1 = observe_cpu w acc k st.cpu_time r.time (r.counter - st.cpu_counter) in
    rw (seen, fresh_, grown, stalled)
      (
        record { time = refl; counter = refl; psi = refl },
        omega (
          arith,
          core-observe_cpu_psi w r.psi m1 k st.cpu_time r.time (from_option 0 r.psi - st.cpu_psi),
          core-observe_cpu w acc k st.cpu_time r.time (r.counter - st.cpu_counter) hw
              (omega (arith, b.time)) (omega (arith, b.time)) (omega (arith, b.counter)),
          b.counter,
        ),
      )

-- The first reading, which counts from the container's start.
first_reading :
    (w : ℕ) (k : Key) (start now : ℕ) (r : Reading) (acc : Open)
    → 0 < w
    → start < r.time
    → r.time - start < 2 ^ 63
    → r.counter < 2 ^ 63
    → let s =
        ingest_cpu w true k start
          (cpu_of r)
          r.counter
          (record zero_state { last_seen = now }, acc) in
      Based s.0 r.time r.counter (from_option 0 r.psi) × (core s.1 ≡ core acc + r.counter)
unfolding ingest_cpu
first_reading w k start now r acc hw later fit small =
    let m1 = observe_cpu w acc k start r.time r.counter in
    (
      record { time = refl; counter = refl; psi = refl },
      core-observe_cpu_psi w r.psi m1 k start r.time (from_option 0 r.psi)
          ∙ core-observe_cpu w acc k start r.time r.counter hw later fit small,
    )

-- What the poller holds of a container.
record Tracked (p : Poller) (tk : TrackerKey) (seen t n s : ℕ) : Type 0 where
  held : CounterState
  found : lookup tk p.tracker ≡ some held
  last : held.last_seen ≡ seen
  based : Based held t n s

-- The sweep at the end of a poll keeps a tracker that is not stale.
sweep-Tracked :
    (w : ℕ) (p : Poller) (tk : TrackerKey) (now seen t n s : ℕ)
    → Tracked p tk seen t n s
    → now ≤ seen + stale_tracker_after
    → Tracked (sweep_poller w p now) tk seen t n s
unfolding sweep_poller
sweep-Tracked w p tk now seen t n s h near = record {
  held = h.held;
  found =
      lookup-select (λ st. not (is_stale now st.last_seen)) tk h.held p.tracker h.found
        (ground (arith, h.last));
  last = h.last;
  based = h.based;
}

seen-ingest_cpu :
    (w : ℕ) (a : Bool) (k : Key) (start : ℕ) (c : CpuStats) (counter : ℕ) (st : CounterState)
    (acc : Open)
    → (ingest_cpu w a k start c counter (st, acc)).0.last_seen ≡ st.last_seen
unfolding ingest_cpu
seen-ingest_cpu w a k start c counter st acc = ground arith

seen-memory_part :
    (w : ℕ) (a : Bool) (k : Key) (start : ℕ) (m : Option MemoryStats) (st : CounterState)
    (acc : Open)
    → (memory_part w a k start m (st, acc)).0.last_seen ≡ st.last_seen
unfolding memory_part ingest_memory
seen-memory_part w a k start none st acc = refl
seen-memory_part w a k start (some m) st acc = ground arith

seen-ingest_stats :
    (w : ℕ) (a : Bool) (k : Key) (start now : ℕ) (r : Reading) (st : CounterState) (acc : Open)
    → (ingest_stats w a k (stats_of start r) now (st, acc)).0.last_seen ≡ now
unfolding ingest_stats cpu_part
seen-ingest_stats w a k start now r st acc =
    let here = ingest_cpu w a k start (cpu_of r) r.counter (record st { last_seen = now }, acc) in
    seen-memory_part w a k start r.memory here.0 here.1
    ∙ seen-ingest_cpu w a k start (cpu_of r) r.counter (record st { last_seen = now }) acc

-- Ingesting a reading leaves the tracker that its state is.
ingest_container-Tracked :
    (w : ℕ) (p : Poller) (tk : TrackerKey) (k : Key) (start now t n s : ℕ) (r : Reading)
    → let st = from_option zero_state (lookup tk p.tracker) in
      Based
        (ingest_stats w (attributable_from_start p k) k (stats_of start r) now (st, p.acc)).0
        t
        n
        s
      → Tracked (ingest_container w p tk k (stats_of start r) now) tk now t n s
unfolding ingest_container
ingest_container-Tracked w p tk k start now t n s r b =
    let a = attributable_from_start p k in
    let st = from_option zero_state (lookup tk p.tracker) in
    let next = ingest_stats w a k (stats_of start r) now (st, p.acc) in
    record {
      held = next.0;
      found = lookup-insert tk tk next.0 p.tracker ∙ rw ((pair_key.beq_iff tk tk).1 refl) refl;
      last = seen-ingest_stats w a k start now r st p.acc;
      based = b;
    }

-- What a reading makes of the state, once the CPU's part is known.
stats_after_cpu :
    (w : ℕ) (a : Bool) (k : Key) (start now t n s x : ℕ) (r : Reading) (st : CounterState)
    (acc : Open)
    → let here = ingest_cpu w a k start (cpu_of r) r.counter (record st { last_seen = now }, acc) in
      Based here.0 t n s
      → core here.1 + x ≡ core acc + r.counter
      → Based (ingest_stats w a k (stats_of start r) now (st, acc)).0 t n s
        × (core (ingest_stats w a k (stats_of start r) now (st, acc)).1 + x ≡ core acc + r.counter)
unfolding ingest_stats cpu_part
stats_after_cpu w a k start now t n s x r st acc based grown =
    let here = ingest_cpu w a k start (cpu_of r) r.counter (record st { last_seen = now }, acc) in
    let (kept, same) = memory_part-kept w a k start r.memory here.0 here.1 t n s based in
    (kept, omega (arith, grown, same))

-- A poll that does not read the container.
poll_without :
    (w : ℕ) (p : Poller) (tk : TrackerKey) (now seen t n s : ℕ)
    → Tracked p tk seen t n s
    → now ≤ seen + stale_tracker_after
    → Tracked (poll_usage w p [] now) tk seen t n s
unfolding poll_usage ingest_all
poll_without w p tk now seen t n s h near = sweep-Tracked w p tk now seen t n s h near

-- A poll that has a reading of a tracked container.
poll_next :
    (w : ℕ) (p : Poller) (tk : TrackerKey) (k : Key) (start now seen t n s : ℕ) (r : Reading)
    → 0 < w
    → 0 < t
    → Tracked p tk seen t n s
    → t < r.time
    → r.time - t < 2 ^ 63
    → n ≤ r.counter
    → r.counter < 2 ^ 63
    → s ≤ from_option 0 r.psi
    → let p' = poll_usage w p (reads_of tk k start (some r)) now in
      Tracked p' tk now r.time r.counter (from_option 0 r.psi)
      × (core p'.acc + n ≡ core p.acc + r.counter)
unfolding poll_usage ingest_all ingest_container sweep_poller
poll_next w p tk k start now seen t n s r hw ht tracked later fit up small stall =
    let a = attributable_from_start p k in
    let st' : CounterState = record (tracked.held) { last_seen = now } in
    let b : Based st' t n s = record {
      time = tracked.based.time;
      counter = tracked.based.counter;
      psi = tracked.based.psi;
    } in
    let (based, grown) =
      next_reading w a k start r st' p.acc t n s hw ht b later fit up small stall in
    let (stated, total) =
      stats_after_cpu w a k start now r.time r.counter (from_option 0 r.psi) n r tracked.held p.acc
        based grown in
    let found = tracked.found in
    let p1 = ingest_container w p tk k (stats_of start r) now in
    (
      sweep-Tracked w p1 tk now now r.time r.counter (from_option 0 r.psi)
          (ingest_container-Tracked w p tk k start now r.time r.counter (from_option 0 r.psi) r
            (rw found stated))
          (omega arith),
      rw found total,
    )

-- A poll that has the first reading of a container.
poll_first :
    (w : ℕ) (p : Poller) (tk : TrackerKey) (k : Key) (start now : ℕ) (r : Reading)
    → 0 < w
    → lookup tk p.tracker ≡ none
    → attributable_from_start p k ≡ true
    → start < r.time
    → r.time - start < 2 ^ 63
    → r.counter < 2 ^ 63
    → let p' = poll_usage w p (reads_of tk k start (some r)) now in
      Tracked p' tk now r.time r.counter (from_option 0 r.psi)
      × (core p'.acc ≡ core p.acc + r.counter)
unfolding poll_usage ingest_all ingest_container sweep_poller
poll_first w p tk k start now r hw new_ whole later fit small =
    let (based, grown) = first_reading w k start now r p.acc hw later fit small in
    let (stated, total) =
      stats_after_cpu w true k start now r.time r.counter (from_option 0 r.psi) 0 r zero_state p.acc
        based (omega (arith, grown)) in
    let p1 = ingest_container w p tk k (stats_of start r) now in
    (
      sweep-Tracked w p1 tk now now r.time r.counter (from_option 0 r.psi)
          (ingest_container-Tracked w p tk k start now r.time r.counter (from_option 0 r.psi) r
            (rw (new_, whole) stated))
          (omega arith),
      rw (new_, whole) (omega (arith, total)),
    )

feed-next :
    (w : ℕ) (tk : TrackerKey) (k : Key) (start seen t n s : ℕ) (p : Poller) (ps : List Poll)
    → 0 < w
    → 0 < t
    → Tracked p tk seen t n s
    → Rising seen t n s ps
    → core (feed w tk k start p ps).acc + n ≡ core p.acc + final n ps
unfolding feed Rising final poll_usage
feed-next w tk k start seen t n s p [] hw ht tracked h = refl
feed-next w tk k start seen t n s p ((now, none) ∷ ps) hw ht tracked (near, rest) =
    feed-next w tk k start seen t n s (poll_usage w p [] now) ps hw ht
      (poll_without w p tk now seen t n s tracked near) rest
feed-next w tk k start seen t n s p ((now, some r) ∷ ps) hw ht tracked
      (later, fit, up, small, stall, rest) =
    let (tracked', grown) =
      poll_next w p tk k start now seen t n s r hw ht tracked later fit up small stall in
    omega (
      arith,
      grown,
      feed-next w tk k start now r.time r.counter (from_option 0 r.psi)
          (poll_usage w p (reads_of tk k start (some r)) now) ps hw (omega (arith, later)) tracked'
          rest,
    )

-- Over the polls of a container that is new to the poller, and whose record was not resumed, the
-- open records gain exactly the CPU time of its counter, from its start to the last reading: no
-- poll is counted twice, and what was used before the first is not lost. The first poll reads the
-- container, and any later one may miss it, no more than 300 seconds after the last that read it;
-- each poll ends with the sweep. The readings come each later than the one before and than the
-- start, under 2^63 ns, and neither the counter, below 2^63, nor the stall falls. What is read of
-- memory may be anything.
pub feed-counted :
    (w : ℕ) (tk : TrackerKey) (k : Key) (start now : ℕ) (p : Poller) (r : Reading) (ps : List Poll)
    → 0 < w
    → lookup tk p.tracker ≡ none
    → attributable_from_start p k ≡ true
    → Rising now start 0 0 ((now, some r) ∷ ps)
    → core (feed w tk k start p ((now, some r) ∷ ps)).acc
      ≡ core p.acc + final 0 ((now, some r) ∷ ps)
unfolding feed Rising final
feed-counted w tk k start now p r ps hw new_ whole (later, fit, up, small, stall, rest) =
    let (tracked, grown) = poll_first w p tk k start now r hw new_ whole later fit small in
    omega (
      arith,
      grown,
      feed-next w tk k start now r.time r.counter (from_option 0 r.psi)
          (poll_usage w p (reads_of tk k start (some r)) now) ps hw (omega (arith, later)) tracked
          rest,
    )
