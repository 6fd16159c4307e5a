-- ===== src/Rollup/Network/Totals.antt =====
-- What the network accumulator counts.
use runtime_agent.Prelude.Int.{ℤ, pos}
use runtime_agent.Prelude.Keys.{text_key, nat_key, pair_key}
use runtime_agent.Prelude.{
  ℕ, ◌+◌, ◌-◌, ◌^◌, ◌<◌, ◌≡◌, refl, true, false, Bool, arith, if◌then◌else◌, sum_of, lt→ltb,
}
use runtime_agent.Rollup.Network.{
  NetworkKey, NetworkRecord, Open, NetworkDelta, new_record, add_rx_bytes, add_tx_bytes,
  add_rx_errors, add_tx_errors, cover, count_sample, observe,
}
use runtime_agent.Rollup.Opened.{
  add_parts, total, total-touch, total-add_parts, total-add_parts_other,
}
use runtime_agent.Rollup.Window.{start_of, split}
use runtime_agent.Rollup.Window.Split.{counted, Fits, split-counted}

-- Whether a change adds its share to a measure, or leaves it.
abbrev Adds : (NetworkRecord → ℕ) → (NetworkRecord → ℕ → NetworkRecord) → Bool → Type 0
Adds g f c = (r : NetworkRecord) (n : ℕ) → g (f r n) ≡ g r + (if c then n else 0)

module _ (length from to : ℕ) (positive : 0 < length) (before : from < to) (g : NetworkRecord → ℕ)
    (new : (k : NetworkKey) (start : ℕ) → g (new_record length k start) ≡ 0) where
  abbrev grown : Open → ℕ
  grown m = total (new_record length) g m

  add_share :
      (f : NetworkRecord → ℕ → NetworkRecord) (c : Bool)
      → Adds g f c
      → (k : NetworkKey) (z : ℤ) (m : Open) → Fits z
      → grown (add_parts (new_record length) f k (split length from to z) m)
        ≡ grown m + (if c then counted z else 0)
  add_share f true h k z m fits = omega (
    arith,
    total-add_parts (new_record length) g new f k (split length from to z) m h,
    split-counted length from to z positive fits before,
  )
  add_share f false h k z m fits = omega (
    arith,
    total-add_parts_other (new_record length) g new f k (split length from to z) m
        λ r n. omega (arith, h r n),
  )

  -- What a measure grows by, over all the calls of `split` and the sample.
  interval-total :
      (rb tb re te cv : Bool) (s : ℕ) (k : NetworkKey) (d : NetworkDelta) (host : Bool) (m : Open)
      → Adds g add_rx_bytes rb
      → Adds g add_tx_bytes tb
      → Adds g add_rx_errors re
      → Adds g add_tx_errors te
      → Adds g (cover d.interfaces host) cv
      → ((r : NetworkRecord) → g (count_sample r) ≡ g r + s)
      → Fits d.rx_bytes
      → Fits d.tx_bytes
      → Fits d.rx_errors
      → Fits d.tx_errors
      → to - from < 2 ^ 63
      → grown (observe length m k from to d host)
        ≡ grown m
          + (if rb then counted d.rx_bytes else 0)
          + (if tb then counted d.tx_bytes else 0)
          + (if re then counted d.rx_errors else 0)
          + (if te then counted d.tx_errors else 0)
          + (if cv then to - from else 0)
          + s
  unfolding observe
  interval-total rb tb re te cv s k d host m arb atb are ate acv one frb ftb fre fte fit =
      let fresh = new_record length in
      let m1 = add_parts fresh add_rx_bytes k (split length from to d.rx_bytes) m in
      let m2 = add_parts fresh add_tx_bytes k (split length from to d.tx_bytes) m1 in
      let m3 = add_parts fresh add_rx_errors k (split length from to d.rx_errors) m2 in
      let m4 = add_parts fresh add_tx_errors k (split length from to d.tx_errors) m3 in
      let m5 =
        add_parts fresh (cover d.interfaces host) k (split length from to (pos (to - from))) m4 in
      rw (lt→ltb from to before) (
        omega (
          arith,
          add_share add_rx_bytes rb arb k d.rx_bytes m frb,
          add_share add_tx_bytes tb atb k d.tx_bytes m1 ftb,
          add_share add_rx_errors re are k d.rx_errors m2 fre,
          add_share add_tx_errors te ate k d.tx_errors m3 fte,
          add_share (cover d.interfaces host) cv acv k (pos (to - from)) m4 fit,
          total-touch fresh g new m5 k (start_of length to) s count_sample one,
        ))

-- The total of a field over the open records.
abbrev pub over : (NetworkRecord → ℕ) → Open → ℕ
over g m = sum_of (λ x. g x.1) m

-- The totals before and after an observation.
abbrev pub Grows : Open → Open → NetworkDelta → ℕ → Type 0
Grows m m' d elapsed =
    (over (λ r. r.rx_bytes) m' ≡ over (λ r. r.rx_bytes) m + counted d.rx_bytes)
    × (over (λ r. r.tx_bytes) m' ≡ over (λ r. r.tx_bytes) m + counted d.tx_bytes)
    × (over (λ r. r.rx_errors) m' ≡ over (λ r. r.rx_errors) m + counted d.rx_errors)
    × (over (λ r. r.tx_errors) m' ≡ over (λ r. r.tx_errors) m + counted d.tx_errors)
    × (over (λ r. r.covered_nanoseconds) m' ≡ over (λ r. r.covered_nanoseconds) m + elapsed)
    × (over (λ r. r.samples) m' ≡ over (λ r. r.samples) m + 1)

-- On windows of a positive length, one observation over an interval that is not empty, the interval
-- and the deltas within an int64, adds to the totals over all the open records, however many
-- windows it spans, each delta whole (a negative one nothing), the interval's whole length to the time
-- covered, and one sample.
pub observe-Grows :
    (length from to : ℕ) (k : NetworkKey) (d : NetworkDelta) (host : Bool) (m : Open)
    → 0 < length
    → from < to
    → to - from < 2 ^ 63
    → Fits d.rx_bytes
    → Fits d.tx_bytes
    → Fits d.rx_errors
    → Fits d.tx_errors
    → Grows m (observe length m k from to d host) d (to - from)
observe-Grows length from to k d host m positive before fit frb ftb fre fte =
    let by : (g : NetworkRecord → ℕ)
        → ((j : NetworkKey) (start : ℕ) → g (new_record length j start) ≡ 0)
        → (rb tb re te cv : Bool) (s : ℕ) → Adds g add_rx_bytes rb
        → Adds g add_tx_bytes tb
        → Adds g add_rx_errors re
        → Adds g add_tx_errors te
        → Adds g (cover d.interfaces host) cv
        → ((r : NetworkRecord) → g (count_sample r) ≡ g r + s)
        → over g (observe length m k from to d host)
          ≡ over g m
            + (if rb then counted d.rx_bytes else 0)
            + (if tb then counted d.tx_bytes else 0)
            + (if re then counted d.rx_errors else 0)
            + (if te then counted d.tx_errors else 0)
            + (if cv then to - from else 0)
            + s =
      λ g new rb tb re te cv s a b c e f h.
        interval-total length from to positive before g new rb tb re te cv s k d host m a b c e f h
          frb ftb fre fte fit in
    let leaves : (a : ℕ) → a ≡ a + 0 = λ a. omega arith in
    (
      omega (
        arith,
        by (λ r. r.rx_bytes) (λ j w. refl) true false false false false 0 (λ r n. refl)
            (λ r n. leaves _) (λ r n. leaves _) (λ r n. leaves _) (λ r n. leaves _) (λ r. leaves _),
      ),
      omega (
        arith,
        by (λ r. r.tx_bytes) (λ j w. refl) false true false false false 0 (λ r n. leaves _)
            (λ r n. refl) (λ r n. leaves _) (λ r n. leaves _) (λ r n. leaves _) (λ r. leaves _),
      ),
      omega (
        arith,
        by (λ r. r.rx_errors) (λ j w. refl) false false true false false 0 (λ r n. leaves _)
            (λ r n. leaves _) (λ r n. refl) (λ r n. leaves _) (λ r n. leaves _) (λ r. leaves _),
      ),
      omega (
        arith,
        by (λ r. r.tx_errors) (λ j w. refl) false false false true false 0 (λ r n. leaves _)
            (λ r n. leaves _) (λ r n. leaves _) (λ r n. refl) (λ r n. leaves _) (λ r. leaves _),
      ),
      omega (
        arith,
        by (λ r. r.covered_nanoseconds) (λ j w. refl) false false false false true 0
            (λ r n. leaves _) (λ r n. leaves _) (λ r n. leaves _) (λ r n. leaves _) (λ r n. refl)
            λ r. leaves _,
      ),
      omega (
        arith,
        by (λ r. r.samples) (λ j w. refl) false false false false false 1 (λ r n. leaves _)
            (λ r n. leaves _) (λ r n. leaves _) (λ r n. leaves _) (λ r n. leaves _) (λ r. refl),
      ),
    )
