-- ===== src/Rollup/Accumulator/Seeding.antt =====
-- What `Seed` accepts.
use runtime_agent.Prelude.Keys.{text_key, nat_key, pair_key, insert}
use runtime_agent.Prelude.{
  ℕ, ◌/◌, ◌≡◌, ◌≢◌, ◌⊎◌, inl, inr, refl, true, false, Bool, List, ◌++◌, none, arith, ◌==◌, ==_iff,
  Bool-cases,
}
use runtime_agent.Rollup.Accumulator.{Open, fresh, seed, seed_error}
use runtime_agent.Rollup.Opened.{record_at, touch}
use runtime_agent.Rollup.Record.{Key, Record, new_record}
use runtime_agent.Rollup.Record.Counted.{Totals, plus, counted, merge_record-counted}
use runtime_agent.Rollup.Window.{start_of}
use runtime_agent.Journal.Windows.{second}

-- A record of this window length, on the grid, is folded without an error into the open record of
-- its window, or into a new one, and no other changes. The record left observed the rates and sizes
-- of both, and each of its counters is the sum of theirs: the time used and covered, the throttled
-- and total periods with their samples, the stalls of the CPU and of memory with theirs.
pub seed-counted :
    (length start : ℕ) (k : Key) (m : Open) (t u : Totals) (vs bs ws cs : List ℕ)
    → start_of length start ≡ start
    → record_at (fresh length) m k start ≡ counted (new_record k start (length / second)) t ws cs
    → seed length m (counted (new_record k start (length / second)) u vs bs) false ≡ (
      insert
          (k, start)
          (counted (new_record k start (length / second)) (plus t u) (ws ++ vs) (cs ++ bs))
          m,
      none,
    )
unfolding seed touch seed_error
seed-counted length start k m t u vs bs ws cs aligned held =
    rw
      (
        (==_iff (length / second) (length / second)).1 refl,
        (==_iff (start_of length start) start).1 aligned,
        held,
        merge_record-counted k start (length / second) t u ws cs vs bs,
      )
      refl

seed_guards :
    (length : ℕ) (r : Record) (hist_is_nil : Bool)
    → (r.window_seconds == length / second) ≡ true
    → (start_of length r.window_start == r.window_start) ≡ true
    → hist_is_nil ≡ false
    → ¬ (
        (r.window_seconds ≢ length / second)
        ⊎ ((start_of length r.window_start ≢ r.window_start) ⊎ (hist_is_nil ≡ true)))
seed_guards length r b same on held (inl d) = d ((==_iff _ _).0 same)
seed_guards length r b same on held (inr (inl d)) = d ((==_iff _ _).0 on)
seed_guards length r b same on held (inr (inr d)) = ground (arith, held, d)

-- A record of another window length, off the grid, or without a histogram is refused, and nothing
-- changes.
pub seed_refused :
    (length : ℕ) (m : Open) (r : Record) (hist_is_nil : Bool)
    → (r.window_seconds ≢ length / second)
      ⊎ ((start_of length r.window_start ≢ r.window_start) ⊎ (hist_is_nil ≡ true))
    → ((seed length m r hist_is_nil).0 ≡ m) × ((seed length m r hist_is_nil).1 ≢ none)
unfolding seed
seed_refused length m r hist_is_nil h = elim (Bool-cases (r.window_seconds == length / second)) [
  | inr other ↦ rw other (refl, λ e. cc e)
  | inl same ↦ rw same (elim (Bool-cases (start_of length r.window_start == r.window_start)) [
    | inr off ↦ rw off (refl, λ e. cc e)
    | inl on ↦ rw on (elim (Bool-cases hist_is_nil) [
      | inl nil ↦ rw nil (refl, λ e. cc e)
      | inr held ↦ absurd (seed_guards length r hist_is_nil same on held h)
    ])
  ])
]
