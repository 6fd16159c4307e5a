-- ===== src/Rollup/Opened.antt =====
-- What the two accumulators of internal/rollup share: a map of open records by key and window, a
-- record made on first touch, and a divided delta added to the records of its windows.
use runtime_agent.Prelude.Keys.{Eq, nat_key, pair_key, lookup, insert, weight, sum_of-insert}
use runtime_agent.Prelude.{
  ℕ, ◌+◌, ◌≡◌, refl, List, [], ◌∷◌, arith, from_option, sum_of, Option-cases, inl, inr,
}
use runtime_agent.Rollup.Window.{Part}

module _ {K V : Type 0} ⦃e : Eq K⦄ (fresh : K → ℕ → V) where
  -- `recordAt`: the open record, or a new one.
  abbrev pub record_at : List ((K × ℕ) × V) → K → ℕ → V
  record_at m k start = from_option (fresh k start) (lookup (k, start) m)

  -- A change of the record of a window.
  unfoldable pub touch : List ((K × ℕ) × V) → K → ℕ → (V → V) → List ((K × ℕ) × V)
  touch m k start f = insert (k, start) (f (record_at m k start)) m

  -- The parts of a delta, each added to the record of its window.
  unfoldable pub add_parts : (V → ℕ → V) → K → List Part → List ((K × ℕ) × V) → List ((K × ℕ) × V)
  unfolding touch
  add_parts f k [] m = m
  add_parts f k (p ∷ ps) m = add_parts f k ps (touch m k p.start (λ r. f r p.share))

  -- What the open records measure in all.
  abbrev pub total : (V → ℕ) → List ((K × ℕ) × V) → ℕ
  total g m = sum_of (λ x. g x.1) m

  module _ (g : V → ℕ) (new : (k : K) (start : ℕ) → g (fresh k start) ≡ 0) where
    record_at-weight :
        (m : List ((K × ℕ) × V)) (k : K) (start : ℕ)
        → g (record_at m k start) ≡ weight g (lookup (k, start) m)
    record_at-weight m k start = elim (Option-cases (lookup (k, start) m)) [
      | inl h ↦ rw h (new k start)
      | inr (r, h) ↦ rw h refl
    ]

    pub total-touch :
        (m : List ((K × ℕ) × V)) (k : K) (start n : ℕ) (f : V → V)
        → ((r : V) → g (f r) ≡ g r + n)
        → total g (touch m k start f) ≡ total g m + n
    unfolding touch
    total-touch m k start n f h = omega (
      arith,
      sum_of-insert g (k, start) (f (record_at m k start)) m,
      record_at-weight m k start,
      h (record_at m k start),
    )

    -- A delta divided without loss is added without loss.
    pub total-add_parts :
        (f : V → ℕ → V) (k : K) (ps : List Part) (m : List ((K × ℕ) × V))
        → ((r : V) (n : ℕ) → g (f r n) ≡ g r + n)
        → total g (add_parts f k ps m) ≡ total g m + sum_of (λ p. p.share) ps
    unfolding add_parts
    total-add_parts f k [] m h = omega arith
    total-add_parts f k (p ∷ ps) m h =
        let touched = touch m k p.start (λ r. f r p.share) in
        omega (
          arith,
          total-add_parts f k ps touched h,
          total-touch m k p.start p.share (λ r. f r p.share) (λ r. h r p.share),
        )

    -- A delta of another field changes nothing.
    pub total-add_parts_other :
        (f : V → ℕ → V) (k : K) (ps : List Part) (m : List ((K × ℕ) × V))
        → ((r : V) (n : ℕ) → g (f r n) ≡ g r)
        → total g (add_parts f k ps m) ≡ total g m
    unfolding add_parts
    total-add_parts_other f k [] m h = refl
    total-add_parts_other f k (p ∷ ps) m h =
        let touched = touch m k p.start (λ r. f r p.share) in
        omega (
          arith,
          total-add_parts_other f k ps touched h,
          total-touch m k p.start 0 (λ r. f r p.share) (λ r. omega (arith, h r p.share)),
        )
