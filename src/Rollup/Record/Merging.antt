-- ===== src/Rollup/Record/Merging.antt =====
-- Merging records is observing everything in one.
use runtime_agent.Prelude.Int.{ℤ, pos}
use runtime_agent.Prelude.Keys.{text_key, nat_key, pair_key}
use runtime_agent.Prelude.{
  ℕ, ◌+◌, ◌≡◌, refl, ap, sym, ◌∙◌, true, false, List, [], ◌∷◌, ◌++◌, map, some, arith, ltb,
  if◌then◌else◌, inl, inr, ◌≢◌, ◌⊎◌, ◌↔◌,
}
use runtime_agent.Rollup.Histogram as Histogram
use runtime_agent.Rollup.Histogram.{
  Histogram, empty_histogram, cpu_anchor_shift, memory_anchor_shift,
}
use runtime_agent.Rollup.Histogram.Merging.{observe_all, merge-observe_all}
use runtime_agent.Rollup.Record.{
  Key, CpuUsage, MemoryUsage, Record, lowest, highest, observe_rate, observe, new_cpu, new_memory,
  add_cpu, add_memory, other_identity, key_eq, same_identity, merge_record,
}

abbrev pub rates : CpuUsage → List ℕ → CpuUsage
rates u [] = u
rates u (v ∷ vs) = rates (observe_rate u v) vs

abbrev pub sizes : MemoryUsage → List ℕ → MemoryUsage
sizes u [] = u
sizes u (v ∷ vs) = sizes (observe u v) vs

count_later :
    (n m : ℕ) → (if ltb 0 (m + 1) then n + (m + 1) else n) ≡ (if ltb 0 m then n + m else n) + 1
count_later n m = ground arith

lowest_later :
    (n m a b v : ℕ)
    → (if ltb 0 (m + 1) then lowest n a (lowest m b v) else a)
      ≡ lowest (if ltb 0 m then n + m else n) (if ltb 0 m then lowest n a b else a) v
lowest_later n m a b v = ground arith

highest_later :
    (n m a b v : ℕ)
    → (if ltb 0 (m + 1) then highest n a (highest m b v) else a)
      ≡ highest (if ltb 0 m then n + m else n) (if ltb 0 m then highest n a b else a) v
highest_later n m a b v = ground arith

sum_later :
    (m a b v : ℕ)
    → (m ≡ 0 → b ≡ 0)
    → (if ltb 0 (m + 1) then a + (b + v) else a) ≡ (if ltb 0 m then a + b else a) + v
sum_later m a b v z = ground (arith, z)

add_cpu-observe_rate :
    (u o : CpuUsage) (h : Histogram) (v : ℕ)
    → add_cpu u (observe_rate o v) (Histogram.observe h (pos v)) ≡ observe_rate (add_cpu u o h) v
unfolding add_cpu observe_rate
add_cpu-observe_rate u o h v = λ j. record {
  core_nanoseconds = u.core_nanoseconds + o.core_nanoseconds;
  covered_nanoseconds = u.covered_nanoseconds + o.covered_nanoseconds;
  throttled_periods = u.throttled_periods + o.throttled_periods;
  total_periods = u.total_periods + o.total_periods;
  throttling_samples = u.throttling_samples + o.throttling_samples;
  psi_stall_nanoseconds = u.psi_stall_nanoseconds + o.psi_stall_nanoseconds;
  psi_samples = u.psi_samples + o.psi_samples;
  samples = count_later u.samples o.samples j;
  min_milli = lowest_later u.samples o.samples u.min_milli o.min_milli v j;
  max_milli = highest_later u.samples o.samples u.max_milli o.max_milli v j;
  hist = Histogram.observe h (pos v);
}

add_memory-observe :
    (u o : MemoryUsage) (h : Histogram) (v : ℕ)
    → (o.samples ≡ 0 → o.sum_bytes ≡ 0)
    → add_memory u (observe o v) (Histogram.observe h (pos v)) ≡ observe (add_memory u o h) v
unfolding add_memory observe
add_memory-observe u o h v z = λ j. record {
  samples = count_later u.samples o.samples j;
  min_bytes = lowest_later u.samples o.samples u.min_bytes o.min_bytes v j;
  max_bytes = highest_later u.samples o.samples u.max_bytes o.max_bytes v j;
  sum_bytes = sum_later o.samples u.sum_bytes o.sum_bytes v z j;
  psi_stall_nanoseconds = u.psi_stall_nanoseconds + o.psi_stall_nanoseconds;
  psi_samples = u.psi_samples + o.psi_samples;
  hist = Histogram.observe h (pos v);
}

add_cpu-rates :
    (u o : CpuUsage) (h : Histogram) (vs : List ℕ)
    → add_cpu u (rates o vs) (observe_all h (map pos vs)) ≡ rates (add_cpu u o h) vs
add_cpu-rates u o h [] = refl
add_cpu-rates u o h (v ∷ vs) =
    add_cpu-rates u (observe_rate o v) (Histogram.observe h (pos v)) vs
    ∙ ap (λ w. rates w vs) (add_cpu-observe_rate u o h v)

observe_sums : (o : MemoryUsage) (v : ℕ) → (observe o v).samples ≡ 0 → (observe o v).sum_bytes ≡ 0
unfolding observe
observe_sums o v h = absurd (omega arith)

add_memory-sizes :
    (u o : MemoryUsage) (h : Histogram) (vs : List ℕ)
    → (o.samples ≡ 0 → o.sum_bytes ≡ 0)
    → add_memory u (sizes o vs) (observe_all h (map pos vs)) ≡ sizes (add_memory u o h) vs
add_memory-sizes u o h [] z = refl
add_memory-sizes u o h (v ∷ vs) z =
    add_memory-sizes u (observe o v) (Histogram.observe h (pos v)) vs (observe_sums o v)
    ∙ ap (λ w. sizes w vs) (add_memory-observe u o h v z)

hist-rates : (u : CpuUsage) (vs : List ℕ) → (rates u vs).hist ≡ observe_all u.hist (map pos vs)
unfolding observe_rate
hist-rates u [] = refl
hist-rates u (v ∷ vs) = hist-rates (observe_rate u v) vs

hist-sizes : (u : MemoryUsage) (vs : List ℕ) → (sizes u vs).hist ≡ observe_all u.hist (map pos vs)
unfolding observe
hist-sizes u [] = refl
hist-sizes u (v ∷ vs) = hist-sizes (observe u v) vs

rates-append : (u : CpuUsage) (vs ws : List ℕ) → rates u (vs ++ ws) ≡ rates (rates u vs) ws
rates-append u [] ws = refl
rates-append u (v ∷ vs) ws = rates-append (observe_rate u v) vs ws

sizes-append : (u : MemoryUsage) (vs ws : List ℕ) → sizes u (vs ++ ws) ≡ sizes (sizes u vs) ws
sizes-append u [] ws = refl
sizes-append u (v ∷ vs) ws = sizes-append (observe u v) vs ws

no_more : (n : ℕ) → n + 0 ≡ n
no_more n = omega arith

-- An empty side adds nothing.
add_cpu-new : (u : CpuUsage) → add_cpu u new_cpu u.hist ≡ u
unfolding add_cpu
add_cpu-new u = λ j. record u {
  core_nanoseconds = no_more u.core_nanoseconds j;
  covered_nanoseconds = no_more u.covered_nanoseconds j;
  throttled_periods = no_more u.throttled_periods j;
  total_periods = no_more u.total_periods j;
  throttling_samples = no_more u.throttling_samples j;
  psi_stall_nanoseconds = no_more u.psi_stall_nanoseconds j;
  psi_samples = no_more u.psi_samples j;
}

add_memory-new : (u : MemoryUsage) → add_memory u new_memory u.hist ≡ u
unfolding add_memory
add_memory-new u = λ j. record u {
  psi_stall_nanoseconds = no_more u.psi_stall_nanoseconds j;
  psi_samples = no_more u.psi_samples j;
}

observe_all-append :
    (h : Histogram) (vs ws : List ℤ) → observe_all h (vs ++ ws) ≡ observe_all (observe_all h vs) ws
observe_all-append h [] ws = refl
observe_all-append h (v ∷ vs) ws = observe_all-append (Histogram.observe h v) vs ws

merge-apart :
    (a : ℕ) (vs ws : List ℤ)
    → Histogram.merge (observe_all (empty_histogram a) vs) (observe_all (empty_histogram a) ws)
      ≡ some (observe_all (observe_all (empty_histogram a) vs) ws)
merge-apart a vs ws =
    merge-observe_all a vs ws ∙ ap some (observe_all-append (empty_histogram a) vs ws)

pub merge-rates :
    (vs ws : List ℕ)
    → Histogram.merge (rates new_cpu vs).hist (rates new_cpu ws).hist
      ≡ some (observe_all (rates new_cpu vs).hist (map pos ws))
merge-rates vs ws =
    rw (hist-rates new_cpu vs, hist-rates new_cpu ws)
      (merge-apart cpu_anchor_shift (map pos vs) (map pos ws))

pub merge-sizes :
    (bs cs : List ℕ)
    → Histogram.merge (sizes new_memory bs).hist (sizes new_memory cs).hist
      ≡ some (observe_all (sizes new_memory bs).hist (map pos cs))
merge-sizes bs cs =
    rw (hist-sizes new_memory bs, hist-sizes new_memory cs)
      (merge-apart memory_anchor_shift (map pos bs) (map pos cs))

pub both_rates :
    (vs ws : List ℕ)
    → add_cpu
        (rates new_cpu vs)
        (rates new_cpu ws)
        (observe_all (rates new_cpu vs).hist (map pos ws))
      ≡ rates new_cpu (vs ++ ws)
both_rates vs ws =
    let u = rates new_cpu vs in
    add_cpu-rates u new_cpu u.hist ws
    ∙ ap (λ w. rates w ws) (add_cpu-new u)
    ∙ sym (rates-append new_cpu vs ws)

pub both_sizes :
    (bs cs : List ℕ)
    → add_memory
        (sizes new_memory bs)
        (sizes new_memory cs)
        (observe_all (sizes new_memory bs).hist (map pos cs))
      ≡ sizes new_memory (bs ++ cs)
both_sizes bs cs =
    let u = sizes new_memory bs in
    add_memory-sizes u new_memory u.hist cs (λ z. refl)
    ∙ ap (λ w. sizes w cs) (add_memory-new u)
    ∙ sym (sizes-append new_memory bs cs)

-- A record, after the rates and the sizes are observed.
abbrev pub observed : Record → List ℕ → List ℕ → Record
observed r vs bs = record r { cpu = rates r.cpu vs; memory = sizes r.memory bs }

pub key_eq_iff : (a b : Key) → (key_eq a b ≡ true) ↔ (a ≡ b)
unfolding key_eq
key_eq_iff = pair_key.beq_iff

foreign :
    (r o : Record)
    → (r.key ≢ o.key) ⊎ ((r.window_start ≢ o.window_start) ⊎ (r.window_seconds ≢ o.window_seconds))
    → same_identity r o ≡ false
foreign r o (inl d) = ground (arith, key_eq_iff r.key o.key, d)
foreign r o (inr (inl d)) = ground (arith, d)
foreign r o (inr (inr d)) = ground (arith, d)

-- A record of another container, another window or another window length is refused, and the
-- receiver keeps its value.
pub merge_record_foreign :
    (r o : Record)
    → (r.key ≢ o.key) ⊎ ((r.window_start ≢ o.window_start) ⊎ (r.window_seconds ≢ o.window_seconds))
    → merge_record r o ≡ (r, some other_identity)
unfolding merge_record
merge_record_foreign r o h = rw (foreign r o h) refl
