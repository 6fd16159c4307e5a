-- ===== src/Rollup/Histogram/Merging.antt =====
-- Merging is observing the union.
use mathlib.Core.Path.{fun_ext}
use runtime_agent.Prelude.Int.{ℤ}
use runtime_agent.Prelude.{
  ℕ, ◌+◌, ◌≡◌, ◌≢◌, ◌∙◌, ap, refl, sym, true, List, [], ◌∷◌, ◌++◌, none, some, arith, ◌==◌,
  if◌then◌else◌,
}
use runtime_agent.Rollup.Histogram.{Histogram, empty_histogram, index, observe, merge}

abbrev pub observe_all : Histogram → List ℤ → Histogram
observe_all h [] = h
observe_all h (v ∷ vs) = observe_all (observe h v) vs

-- How often a bucket is hit by the values.
hits : ℕ → ℕ → List ℤ → ℕ
hits a i [] = 0
hits a i (v ∷ vs) = if index a v == i then hits a i vs + 1 else hits a i vs

anchor_observe_all :
    (h : Histogram) (vs : List ℤ) → (observe_all h vs).anchor_shift ≡ h.anchor_shift
unfolding observe
anchor_observe_all h [] = refl
anchor_observe_all h (v ∷ vs) = anchor_observe_all (observe h v) vs

counts_observe_all :
    (h : Histogram) (vs : List ℤ) (i : ℕ)
    → (observe_all h vs).counts i ≡ h.counts i + hits h.anchor_shift i vs
unfolding observe hits
counts_observe_all h [] i = omega arith
counts_observe_all h (v ∷ vs) i = ground (arith, counts_observe_all (observe h v) vs i)

hits-append : (a i : ℕ) (vs ws : List ℤ) → hits a i (vs ++ ws) ≡ hits a i vs + hits a i ws
unfolding hits
hits-append a i [] ws = omega arith
hits-append a i (v ∷ vs) ws = ground (arith, hits-append a i vs ws)

Histogram-eq :
    (h o : Histogram)
    → h.anchor_shift ≡ o.anchor_shift
    → ((i : ℕ) → h.counts i ≡ o.counts i)
    → h ≡ o
Histogram-eq h o a c = λ j. record { anchor_shift = a j; counts = fun_ext c j }

-- Merging the histograms of two runs of values gives the histogram of both runs together.
pub merge-observe_all :
    (a : ℕ) (vs ws : List ℤ)
    → merge (observe_all (empty_histogram a) vs) (observe_all (empty_histogram a) ws)
      ≡ some (observe_all (empty_histogram a) (vs ++ ws))
unfolding merge
merge-observe_all a vs ws =
    let e = empty_histogram a in
    let av = anchor_observe_all e vs in
    let aw = anchor_observe_all e ws in
    let same : (observe_all e vs).anchor_shift == (observe_all e ws).anchor_shift ≡ true =
      ground (arith, av, aw) in
    rw same (
      ap some (
        Histogram-eq _ _ (av ∙ sym (anchor_observe_all e (vs ++ ws))) λ i. omega (
          arith,
          counts_observe_all e vs i,
          counts_observe_all e ws i,
          counts_observe_all e (vs ++ ws) i,
          hits-append a i vs ws,
        )))

-- Histograms on different grids are not merged.
pub merge-none : (h o : Histogram) → h.anchor_shift ≢ o.anchor_shift → merge h o ≡ none
unfolding merge
merge-none h o d = ground arith
