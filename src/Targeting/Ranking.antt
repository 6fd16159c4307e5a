-- ===== src/Targeting/Ranking.antt =====
-- What the publisher publishes.
use runtime_agent.Prelude.Keys.{text_key, pair_key, lookup, All-insert}
use runtime_agent.Prelude.Sort.{sort_slice-perm, sort_slice-IsSorted, All-sort_slice, IsSorted}
use runtime_agent.Prelude.{
  ℕ, zero, suc, ◌+◌, ◌≤◌, ◌≡◌, ◌⊎◌, inl, inr, refl, ap, sym, ◌∙◌, ◌<◌, text_lt, Bool, true, false,
  List, [], ◌∷◌, ◌++◌, arith, min, map, take, length, ltb, if◌then◌else◌, from_option, All, All-map,
  subst, sum_of-perm, Bool-cases, text_eq_iff, text_lt_irrefl, text_lt_total, text_lt_trans,
  text_lt_neg_trans,
}
use runtime_agent.Rollup.Record.{Record}
use runtime_agent.Targeting.Summing.{
  consumption, entries_of, sum-measured, sum-single, sum_complete,
}
use runtime_agent.Targeting.{
  Target, Publisher, target_of, sum_by_target, ranks_before, ranked, publish, snapshot,
}

abbrev pub drop : ℕ → List (Target × ℕ) → List (Target × ℕ)
drop zero xs = xs
drop (suc n) [] = []
drop (suc n) (x ∷ xs) = drop n xs

ranks_before_irrefl : (a : Target × ℕ) → ranks_before a a ≡ false
unfolding ranks_before
ranks_before_irrefl a = ground (arith, text_lt_irrefl a.0.0, text_lt_irrefl a.0.1.1)

ranks_before_trans :
    (a b c : Target × ℕ)
    → ranks_before a b ≡ true
    → ranks_before b c ≡ true
    → ranks_before a c ≡ true
unfolding ranks_before
ranks_before_trans a b c h k = ground (
  arith,
  text_lt_trans a.0.0 b.0.0 c.0.0,
  text_lt_trans a.0.1.1 b.0.1.1 c.0.1.1,
  text_eq_iff a.0.0 b.0.0,
  text_eq_iff b.0.0 c.0.0,
  text_eq_iff a.0.0 c.0.0,
  text_lt_irrefl a.0.0,
  text_lt_irrefl b.0.0,
)

ranks_before_neg_trans :
    (a b c : Target × ℕ)
    → ranks_before a b ≡ false
    → ranks_before b c ≡ false
    → ranks_before a c ≡ false
unfolding ranks_before
ranks_before_neg_trans a b c h k = ground (
  arith,
  text_lt_neg_trans a.0.0 b.0.0 c.0.0,
  text_lt_neg_trans a.0.1.1 b.0.1.1 c.0.1.1,
  text_eq_iff a.0.0 b.0.0,
  text_eq_iff b.0.0 c.0.0,
  text_eq_iff a.0.0 c.0.0,
  text_lt_total a.0.0 b.0.0,
  text_lt_total b.0.0 c.0.0,
  text_lt_trans c.0.0 b.0.0 a.0.0,
)

-- The first stands before the second: it consumed more, or as much and comes by its namespace and
-- then by its name.
abbrev pub RanksAbove : Target × ℕ → Target × ℕ → Type 0
RanksAbove a b =
    (b.1 < a.1)
    ⊎ ((a.1 ≡ b.1)
        × ((text_lt a.0.0 b.0.0 ≡ true) ⊎ ((a.0.0 ≡ b.0.0) × (text_lt b.0.1.1 a.0.1.1 ≡ false))))

ranks_before-RanksAbove : (a b : Target × ℕ) → ranks_before b a ≡ false → RanksAbove a b
unfolding ranks_before
ranks_before-RanksAbove a b h =
    ground (arith, text_eq_iff b.0.0 a.0.0, text_eq_iff a.0.0 b.0.0, text_lt_total a.0.0 b.0.0)

-- Every entry ranks above all those behind it.
abbrev pub InOrder : List (Target × ℕ) → Type 0
InOrder [] = Unit
InOrder (x ∷ xs) = All (RanksAbove x) xs × InOrder xs

sorted-InOrder : (xs : List (Target × ℕ)) → IsSorted ranks_before xs → InOrder xs
sorted-InOrder [] s = tt
sorted-InOrder (x ∷ xs) (first, s) =
    (All-map (λ y. ranks_before-RanksAbove x y) xs first, sorted-InOrder xs s)

take_all : (n : ℕ) (xs : List (Target × ℕ)) → length xs ≤ n → take n xs ≡ xs
unfolding take
take_all zero [] h = refl
take_all zero (x ∷ xs) h = absurd (omega arith)
take_all (suc n) [] h = refl
take_all (suc n) (x ∷ xs) h = ap (λ ys. x ∷ ys) (take_all n xs (omega arith))

take-min : (n : ℕ) (xs : List (Target × ℕ)) → take (min n (length xs)) xs ≡ take n xs
take-min n xs = elim (Bool-cases (ltb n (length xs))) [
  | inl less ↦ ap (λ k. take k xs) (ground arith)
  | inr more ↦
      let long : length xs ≤ n = ground arith in
      let least : min n (length xs) ≡ length xs = omega arith in
      rw least (take_all (length xs) xs (omega arith) ∙ sym (take_all n xs long))
]

take-drop : (n : ℕ) (xs : List (Target × ℕ)) → take n xs ++ drop n xs ≡ xs
unfolding take
take-drop zero xs = refl
take-drop (suc n) [] = refl
take-drop (suc n) (x ∷ xs) = ap (λ ys. x ∷ ys) (take-drop n xs)

sum_allowed :
    (excluded : Target → Bool) (rs : List Record) (m : List (Target × ℕ))
    → All (λ x. excluded x.0 ≡ false) m
    → All (λ x. excluded x.0 ≡ false) (sum_by_target excluded rs m)
unfolding sum_by_target
sum_allowed excluded [] m a = a
sum_allowed excluded (r ∷ rs) m a =
    let t = target_of r in
    elim (Bool-cases (excluded t)) [
      | inl out ↦ rw out (sum_allowed excluded rs m a)
      | inr into ↦ rw into (
          sum_allowed excluded rs _ (
            All-insert (λ x. excluded x.0 ≡ false) t
              (from_option 0 (lookup t m) + r.cpu.core_nanoseconds) m a into))
    ]

take-room :
    (n : ℕ) (xs : List (Target × ℕ))
    → (length (take n xs) ≤ n) × ((drop n xs ≡ []) ⊎ (length (take n xs) ≡ n))
unfolding take
take-room zero xs = (omega arith, inr refl)
take-room (suc n) [] = (omega arith, inl refl)
take-room (suc n) (x ∷ xs) =
    let (fits, full) = take-room n xs in
    (omega (arith, fits), elim full [ inl none_left ↦ inl none_left | inr all ↦ inr (ap suc all) ])

-- Each workload of the ranking stands there once: counted over a sorted list as over the summary.
entries_of-ranked :
    (excluded : Target → Bool) (rs : List Record) (t : Target)
    → entries_of t (ranked excluded rs) ≡ entries_of t (sum_by_target excluded rs [])
unfolding ranked
entries_of-ranked excluded rs t =
    sum_of-perm (λ x. if pair_key.beq x.0 t then 1 else 0)
      (sort_slice-perm ranks_before (sum_by_target excluded rs []))

ranked_complete :
    (excluded : Target → Bool) (rs qs : List Record)
    → All
        (λ r.
          excluded (target_of r) ≡ false
          → entries_of (target_of r) (sum_by_target excluded rs []) ≡ 1)
        qs
    → All
        (λ r. excluded (target_of r) ≡ false → entries_of (target_of r) (ranked excluded rs) ≡ 1)
        qs
ranked_complete excluded rs [] a = tt
ranked_complete excluded rs (q ∷ qs) (h, a) =
    ((λ e. entries_of-ranked excluded rs (target_of q) ∙ h e), ranked_complete excluded rs qs a)

ranked-once :
    (excluded : Target → Bool) (rs : List Record) (xs : List (Target × ℕ))
    → All (λ x. entries_of x.0 (sum_by_target excluded rs []) ≡ 1) xs
    → All (λ x. entries_of x.0 (ranked excluded rs) ≡ 1) xs
ranked-once excluded rs [] a = tt
ranked-once excluded rs (x ∷ xs) (h, a) =
    (entries_of-ranked excluded rs x.0 ∙ h, ranked-once excluded rs xs a)

-- The ranking that a publication is cut from: what is published, and what is left out.
pub record TopRanked (excluded : Target → Bool) (top_n : ℕ) (rs : List Record) (out : List Target)
    : Type 0 where
  pub kept : List (Target × ℕ)
  pub rest : List (Target × ℕ)
  pub published : out ≡ map (λ x. x.0) kept
  pub measured : All (λ x. x.1 ≡ consumption x.0 rs) (kept ++ rest)
  pub allowed : All (λ x. excluded x.0 ≡ false) (kept ++ rest)
  pub once : All (λ x. entries_of x.0 (kept ++ rest) ≡ 1) (kept ++ rest)
  pub complete :
      All (λ r. excluded (target_of r) ≡ false → entries_of (target_of r) (kept ++ rest) ≡ 1) rs
  pub in_order : InOrder (kept ++ rest)
  pub bounded : length kept ≤ top_n
  pub full : (rest ≡ []) ⊎ (length kept ≡ top_n)

-- A publication is the front of a ranking of the workloads, cut at the ceiling and nowhere before it.
-- Each workload of the ranking stands there once and is not excluded, and every record's workload
-- that is not excluded stands there. It ranks by the core time that its records sum to, the most
-- first; where the sums tie, by namespace and then by name.
pub publish-TopRanked :
    (excluded : Target → Bool) (p : Publisher) (rs : List Record)
    → TopRanked excluded p.top_n rs (snapshot (publish excluded p rs))
unfolding publish snapshot ranked
publish-TopRanked excluded p rs =
    let all = ranked excluded rs in
    let summary = sum_by_target excluded rs [] in
    let allowed = sum_allowed excluded rs [] tt in
    let sorted =
      sort_slice-IsSorted ranks_before ranks_before_irrefl ranks_before_trans ranks_before_neg_trans
        summary in
    let whole = sym (take-drop p.top_n all) in
    let (fits, full) = take-room p.top_n all in
    record {
      kept = take p.top_n all;
      rest = drop p.top_n all;
      published = ap (map (λ x. x.0)) (take-min p.top_n all);
      measured = subst (All (λ x. x.1 ≡ consumption x.0 rs)) whole (
          All-sort_slice ranks_before (λ x. x.1 ≡ consumption x.0 rs) summary
            (sum-measured excluded rs allowed));
      allowed =
          subst (All (λ x. excluded x.0 ≡ false)) whole
            (All-sort_slice ranks_before (λ x. excluded x.0 ≡ false) summary allowed);
      once =
          subst (λ l. All (λ x. entries_of x.0 l ≡ 1) l) whole
            (All-sort_slice ranks_before (λ x. entries_of x.0 all ≡ 1) summary
              (ranked-once excluded rs summary (sum-single excluded rs)));
      complete =
          subst (λ l. All (λ r. excluded (target_of r) ≡ false → entries_of (target_of r) l ≡ 1) rs)
            whole (ranked_complete excluded rs rs (sum_complete excluded rs));
      in_order = subst InOrder whole (sorted-InOrder all sorted);
      bounded = fits;
      full = full;
    }
