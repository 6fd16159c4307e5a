-- ===== src/Journal/Events/Resumption.antt =====
-- A journal of events resumed from its own snapshots.
use runtime_agent.Prelude.Keys.{Eq, lookup, insert, values, lookup-insert}
use runtime_agent.Prelude.Sort.{insert_sorted, sort_slice}
use runtime_agent.Prelude.{
  ◌≡◌, refl, ap, ◌∙◌, Bool, true, false, List, [], ◌∷◌, Option, none, some, arith, if◌then◌else◌,
  Bool-cases, subst, Option-cases, inl, inr,
}
use runtime_agent.Journal.Events.{file, resume}

module _ {K R : Type 0} ⦃e : Eq K⦄ (key_of : R → K) where
  -- The first record under a key.
  abbrev find : K → List R → Option R
  find k [] = none
  find k (r ∷ rs) = if e.beq (key_of r) k then some r else find k rs

  abbrev or_else : Option R → Option R → Option R
  or_else (some r) o = some r
  or_else none o = o

  -- Every record stands once, under its own key.
  abbrev pub WellKeyed : List (K × R) → Type 0
  WellKeyed [] = Unit
  WellKeyed ((k, r) ∷ m) = (k ≡ key_of r) × (lookup k m ≡ none) × WellKeyed m

  beq_refl : (k : K) → e.beq k k ≡ true
  beq_refl k = (e.beq_iff k k).1 refl

  pub insert-WellKeyed : (r : R) (m : List (K × R)) → WellKeyed m → WellKeyed (file key_of r m)
  unfolding insert lookup
  insert-WellKeyed r [] w = (refl, refl, tt)
  insert-WellKeyed r ((k, s) ∷ m) (own, once, w) = elim (Bool-cases (e.beq k (key_of r))) [
    | inl same ↦
        rw same (refl, subst (λ j. lookup j m ≡ none) ((e.beq_iff k (key_of r)).0 same) once, w)
    | inr other ↦
        let apart : e.beq (key_of r) k ≡ false =
          ground (arith, other, e.beq_iff (key_of r) k, e.beq_iff k (key_of r)) in
        let kept = lookup-insert (key_of r) k r m in
        let kept' = rw apart at kept in rw other (own, kept' ∙ once, insert-WellKeyed r m w)
  ]

  lookup-resume :
      (k : K) (m : List (K × R)) (rs : List R)
      → lookup k (resume key_of m rs).0 ≡ or_else (lookup k m) (find k rs)
  lookup-resume k m [] = ground (arith)
  lookup-resume k m (r ∷ rs) = elim (Option-cases (lookup (key_of r) m)) [
    | inr (held, h) ↦ elim (Bool-cases (e.beq (key_of r) k)) [
      | inl same ↦
          let at : lookup k m ≡ some held =
            subst (λ j. lookup j m ≡ some held) ((e.beq_iff (key_of r) k).0 same) h in
          let rest = lookup-resume k m rs in rw (h, same) (rest ∙ rw at refl)
      | inr other ↦ rw (h, other) (lookup-resume k m rs)
    ]
    | inl h ↦ elim (Bool-cases (e.beq (key_of r) k)) [
      | inl same ↦
          let at : lookup k m ≡ none =
            subst (λ j. lookup j m ≡ none) ((e.beq_iff (key_of r) k).0 same) h in
          let put = lookup-insert (key_of r) k r m in
          let put' = rw same at put in
          let rest = lookup-resume k (file key_of r m) rs in
          rw (h, same) (rest ∙ rw (put', at) refl)
      | inr other ↦
          let put = lookup-insert (key_of r) k r m in
          let put' = rw other at put in
          let rest = lookup-resume k (file key_of r m) rs in rw (h, other) (rest ∙ rw put' refl)
    ]
  ]

  find-lookup : (k : K) (m : List (K × R)) → WellKeyed m → find k (values m) ≡ lookup k m
  unfolding lookup
  find-lookup k [] w = refl
  find-lookup k ((j, r) ∷ m) (own, once, w) =
      rw own (ap (λ o. if e.beq (key_of r) k then some r else o) (find-lookup k m w))

  -- No other record stands under the key of the first.
  abbrev Unique : List R → Type 0
  Unique [] = Unit
  Unique (r ∷ rs) = (find (key_of r) rs ≡ none) × Unique rs

  values-Unique : (m : List (K × R)) → WellKeyed m → Unique (values m)
  values-Unique [] w = tt
  values-Unique ((k, r) ∷ m) (own, once, w) =
      (find-lookup (key_of r) m w ∙ subst (λ j. lookup j m ≡ none) own once, values-Unique m w)

  module _ (less : R → R → Bool) where
    find-insert_sorted :
        (k : K) (r : R) (rs : List R)
        → find (key_of r) rs ≡ none
        → find k (insert_sorted less r rs) ≡ find k (r ∷ rs)
    unfolding insert_sorted
    find-insert_sorted k r [] h = refl
    find-insert_sorted k r (s ∷ rs) h = elim (Bool-cases (e.beq (key_of s) (key_of r))) [
      | inl same ↦ absurd (ground (arith, rw same at h))
      | inr apart ↦
          let later : find (key_of r) rs ≡ none = rw apart at h in
          ground (
            arith,
            find-insert_sorted k r rs later,
            apart,
            e.beq_iff (key_of s) k,
            e.beq_iff (key_of r) k,
            e.beq_iff (key_of s) (key_of r),
          )
    ]

    find-sort_slice : (k : K) (rs : List R) → Unique rs → find k (sort_slice less rs) ≡ find k rs
    unfolding sort_slice
    find-sort_slice k [] u = refl
    find-sort_slice k (r ∷ rs) (fresh, u) =
        find-insert_sorted k r (sort_slice less rs) (find-sort_slice (key_of r) rs u ∙ fresh)
        ∙ ap (λ o. if e.beq (key_of r) k then some r else o) (find-sort_slice k rs u)

    -- A journal resumed from its snapshots holds what it held.
    pub lookup-resume_snapshots :
        (k : K) (m : List (K × R))
        → WellKeyed m
        → lookup k (resume key_of [] (sort_slice less (values m))).0 ≡ lookup k m
    unfolding lookup sort_slice
    lookup-resume_snapshots k m w =
        lookup-resume k [] (sort_slice less (values m))
        ∙ find-sort_slice k (values m) (values-Unique m w)
        ∙ find-lookup k m w
