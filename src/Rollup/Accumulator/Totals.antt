-- ===== src/Rollup/Accumulator/Totals.antt =====
-- What the usage accumulator counts.
use runtime_agent.Journal.Windows.{closing, sum_of-closing, closing-ended, remaining-open}
use runtime_agent.Prelude.Int.{pos}
use runtime_agent.Prelude.Keys.{text_key, nat_key, pair_key}
use runtime_agent.Prelude.Sort.{sort_slice-perm, All-sort_slice}
use runtime_agent.Prelude.{
  ℕ, ◌+◌, ◌-◌, ◌^◌, ◌<◌, ◌≤◌, ◌≡◌, refl, false, arith, leb, sum_of, sum_of-perm, All, All-map,
  leb→le,
}
use runtime_agent.Rollup.Accumulator.{
  Open, add_core, add_covered, on_cpu, fresh, observe_cpu_delta, earlier, has_ended, close_before,
}
use runtime_agent.Rollup.Opened.{add_parts, total-touch, total-add_parts, total-add_parts_other}
use runtime_agent.Rollup.Record.{Key, Record, observe_rate}
use runtime_agent.Rollup.Window.{start_of, mul_div, split}
use runtime_agent.Rollup.Window.Split.{split-counted}

-- The total of a field over the open records.
abbrev pub over : (Record → ℕ) → Open → ℕ
over g m = sum_of (λ x. g x.1) m

rate_counts :
    (r : Record) (v : ℕ)
    → ((on_cpu (λ u. observe_rate u v) r).cpu.samples ≡ r.cpu.samples + 1)
      × ((on_cpu (λ u. observe_rate u v) r).cpu.core_nanoseconds ≡ r.cpu.core_nanoseconds)
      × ((on_cpu (λ u. observe_rate u v) r).cpu.covered_nanoseconds ≡ r.cpu.covered_nanoseconds)
unfolding observe_rate
rate_counts r v = (refl, refl, refl)

-- On windows of a positive length, one observation of CPU time over an interval that is not empty,
-- both within an int64, adds to the totals over all the open records the whole CPU time, the
-- interval's whole length to the time covered, and one sample, however many windows it spans.
pub observe_cpu_delta-total :
    (length from to core : ℕ) (k : Key) (m : Open)
    → 0 < length
    → from < to
    → to - from < 2 ^ 63
    → core < 2 ^ 63
    → (over (λ r. r.cpu.core_nanoseconds) (observe_cpu_delta length m k from to (pos core))
        ≡ over (λ r. r.cpu.core_nanoseconds) m + core)
      × (over (λ r. r.cpu.covered_nanoseconds) (observe_cpu_delta length m k from to (pos core))
          ≡ over (λ r. r.cpu.covered_nanoseconds) m + (to - from))
      × (over (λ r. r.cpu.samples) (observe_cpu_delta length m k from to (pos core))
          ≡ over (λ r. r.cpu.samples) m + 1)
unfolding observe_cpu_delta
observe_cpu_delta-total length from to core k m positive before fit small =
    let running : leb to from ≡ false = ground arith in
    let new = fresh length in
    let parts = split length from to (pos core) in
    let spans = split length from to (pos (to - from)) in
    let m1 = add_parts new add_core k parts m in
    let m2 = add_parts new add_covered k spans m1 in
    let rate = mul_div (pos core) (pos 1000) (pos (to - from)) in
    let at = start_of length (to - 1) in
    let rated = on_cpu (λ u. observe_rate u rate) in
    let g = λ (r : Record). r.cpu.core_nanoseconds in
    let c = λ (r : Record). r.cpu.covered_nanoseconds in
    let s = λ (r : Record). r.cpu.samples in
    rw running (
      omega (
        arith,
        total-add_parts new g (λ j w. refl) add_core k parts m (λ r n. refl),
        total-add_parts_other new g (λ j w. refl) add_covered k spans m1 (λ r n. refl),
        total-touch new g (λ j w. refl) m2 k at 0 rated (λ r. omega (arith, rate_counts r rate)),
        split-counted length from to (pos core) positive small before,
      ),
      omega (
        arith,
        total-add_parts_other new c (λ j w. refl) add_core k parts m (λ r n. refl),
        total-add_parts new c (λ j w. refl) add_covered k spans m1 (λ r n. refl),
        total-touch new c (λ j w. refl) m2 k at 0 rated (λ r. omega (arith, rate_counts r rate)),
        split-counted length from to (pos (to - from)) positive fit before,
      ),
      omega (
        arith,
        total-add_parts_other new s (λ j w. refl) add_core k parts m (λ r n. refl),
        total-add_parts_other new s (λ j w. refl) add_covered k spans m1 (λ r n. refl),
        total-touch new s (λ j w. refl) m2 k at 1 rated (λ r. omega (arith, rate_counts r rate)),
      ),
    )

-- Closing loses nothing: any measure of the records comes out the same over what is returned and
-- what is left open, what is returned has ended, and what is left has not.
pub close_before-total :
    (length now : ℕ) (g : Record → ℕ) (m : Open)
    → (sum_of g (close_before length m now).0 + over g (close_before length m now).1 ≡ over g m)
      × All (λ r. r.window_start + length ≤ now) (close_before length m now).0
      × All (λ x. now < x.1.window_start + length) (close_before length m now).1
unfolding close_before
close_before-total length now g m =
    let p = has_ended length now in
    let Over : Record → Type 0 = λ r. r.window_start + length ≤ now in
    (
      omega (
        arith,
        sum_of-closing p g m,
        sum_of-perm g (sort_slice-perm (earlier length) (closing p m)),
      ),
      All-sort_slice (earlier length) Over _ (All-map (λ r. leb→le _ _) _ (closing-ended p m)),
      All-map (λ x. ground arith) _ (remaining-open p m),
    )
