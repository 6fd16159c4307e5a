-- ===== src/Targeting/Summing.antt =====
-- internal/targeting/targeting.go: what the loop that sums by workload leaves under each workload.
use runtime_agent.Prelude.Keys.{text_key, pair_key, lookup, insert, lookup-insert, All-insert}
use runtime_agent.Prelude.{
  ℕ, ◌+◌, ◌≡◌, ◌≢◌, refl, ap, sym, ◌∙◌, Bool, true, false, List, [], ◌∷◌, some, arith,
  if◌then◌else◌, All, subst, sum_of, from_option, Bool-cases, inl, inr,
}
use runtime_agent.Rollup.Record.{Record}
use runtime_agent.Targeting.{Target, target_of, sum_by_target}

-- What a workload consumed in the records.
abbrev pub consumption : Target → List Record → ℕ
consumption t rs =
    sum_of (λ r. if pair_key.beq (target_of r) t then r.cpu.core_nanoseconds else 0) rs

-- How many entries stand under a workload.
abbrev pub entries_of : Target → List (Target × ℕ) → ℕ
entries_of t m = sum_of (λ x. if pair_key.beq x.0 t then 1 else 0) m

-- No workload stands twice.
abbrev Distinct : List (Target × ℕ) → Type 0
Distinct [] = Unit
Distinct (x ∷ m) = All (λ y. y.0 ≢ x.0) m × Distinct m

unequal : (a b : Target) → a ≢ b → pair_key.beq a b ≡ false
unequal a b h = elim (Bool-cases (pair_key.beq a b)) [
  | inl e ↦ absurd (h ((pair_key.beq_iff a b).0 e))
  | inr e ↦ e
]

clash : (b : Bool) → b ≡ true → b ≢ false
clash b h k = ground (arith, h, k)

different : (a b : Target) → pair_key.beq a b ≡ false → a ≢ b
different a b h e = clash (pair_key.beq a b) ((pair_key.beq_iff a b).1 e) h

insert-Distinct :
    (k : Target) (v : ℕ) (m : List (Target × ℕ)) → Distinct m → Distinct (insert k v m)
unfolding insert
insert-Distinct k v [] d = (tt, tt)
insert-Distinct k v ((j, w) ∷ m) (other, d) = elim (Bool-cases (pair_key.beq j k)) [
  | inl same ↦
      let e = (pair_key.beq_iff j k).0 same in
      rw same (subst (λ i. All (λ y. y.0 ≢ i) m) e other, d)
  | inr new_ ↦ rw new_ (
    All-insert (λ y. y.0 ≢ j) k v m other (λ q. different j k new_ (sym q)),
    insert-Distinct k v m d,
  )
]

-- Each entry is what is found under its workload.
Distinct-lookup : (m : List (Target × ℕ)) → Distinct m → All (λ x. lookup x.0 m ≡ some x.1) m
unfolding lookup
Distinct-lookup [] d = tt
Distinct-lookup ((k, v) ∷ m) (other, d) =
    (rw ((pair_key.beq_iff k k).1 refl) refl, behind m other (Distinct-lookup m d))
  where
    behind :
        (xs : List (Target × ℕ))
        → All (λ y. y.0 ≢ k) xs
        → All (λ x. lookup x.0 m ≡ some x.1) xs
        → All (λ x. lookup x.0 ((k, v) ∷ m) ≡ some x.1) xs
    behind [] a b = tt
    behind (x ∷ xs) (a, others) (b, bs) =
        (rw (lookup, unequal k x.0 (λ e. a (sym e))) b, behind xs others bs)

entries_of-other : (t : Target) (m : List (Target × ℕ)) → All (λ y. y.0 ≢ t) m → entries_of t m ≡ 0
entries_of-other t [] a = refl
entries_of-other t (x ∷ m) (other, a) =
    rw (unequal x.0 t other) (omega (arith, entries_of-other t m a))

-- A workload that is found stands once.
entries_of-found :
    (t : Target) (n : ℕ) (m : List (Target × ℕ))
    → Distinct m
    → lookup t m ≡ some n
    → entries_of t m ≡ 1
unfolding lookup
entries_of-found t n [] d h = absurd (ground arith)
entries_of-found t n ((k, v) ∷ m) (other, d) h = elim (Bool-cases (pair_key.beq k t)) [
  | inl same ↦
      let e = (pair_key.beq_iff k t).0 same in
      rw same (omega (arith, entries_of-other t m (subst (λ i. All (λ y. y.0 ≢ i) m) e other)))
  | inr new_ ↦ rw new_ (omega (arith, entries_of-found t n m d (rw new_ at h)))
]

module _ (excluded : Target → Bool) where
  sum-Distinct :
      (rs : List Record) (m : List (Target × ℕ))
      → Distinct m
      → Distinct (sum_by_target excluded rs m)
  unfolding sum_by_target
  sum-Distinct [] m d = d
  sum-Distinct (r ∷ rs) m d = elim (Bool-cases (excluded (target_of r))) [
    | inl out ↦ rw out (sum-Distinct rs m d)
    | inr into ↦ rw into (sum-Distinct rs _ (insert-Distinct (target_of r) _ m d))
  ]

  -- What stands under a workload grows by what it consumed.
  lookup-sum :
      (t : Target) (rs : List Record) (m : List (Target × ℕ))
      → excluded t ≡ false
      → from_option 0 (lookup t (sum_by_target excluded rs m))
        ≡ from_option 0 (lookup t m) + consumption t rs
  unfolding sum_by_target
  lookup-sum t [] m h = omega arith
  lookup-sum t (r ∷ rs) m h =
      let k = target_of r in
      let v = from_option 0 (lookup k m) + r.cpu.core_nanoseconds in
      elim (Bool-cases (excluded k)) [
        | inl out ↦
            let apart = unequal k t (λ e. clash (excluded k) out (ap excluded e ∙ h)) in
            rw (out, apart) (omega (arith, lookup-sum t rs m h))
        | inr into ↦
            let rest = lookup-sum t rs (insert k v m) h in
            let written = lookup-insert k t v m in
            elim (Bool-cases (pair_key.beq k t)) [
              | inl same ↦
                  let found =
                    ap (λ j. from_option 0 (lookup j m)) ((pair_key.beq_iff k t).0 same) in
                  rw (into, same)
                    (omega (arith, rest, ap (from_option 0) (rw same at written), found))
              | inr other ↦
                  rw (into, other) (omega (arith, rest, ap (from_option 0) (rw other at written)))
            ]
      ]

  -- A workload that is found stays found.
  found-sum :
      (t : Target) (n : ℕ) (rs : List Record) (m : List (Target × ℕ))
      → lookup t m ≡ some n
      → (j : ℕ) × (lookup t (sum_by_target excluded rs m) ≡ some j)
  unfolding sum_by_target
  found-sum t n [] m h = (n, h)
  found-sum t n (r ∷ rs) m h =
      let k = target_of r in
      let v = from_option 0 (lookup k m) + r.cpu.core_nanoseconds in
      elim (Bool-cases (excluded k)) [
        | inl out ↦ rw out (found-sum t n rs m h)
        | inr into ↦ elim (Bool-cases (pair_key.beq k t)) [
          | inl same ↦
              rw into (found-sum t v rs (insert k v m) (lookup-insert k t v m ∙ rw same refl))
          | inr other ↦
              rw into (found-sum t n rs (insert k v m) (lookup-insert k t v m ∙ rw other h))
        ]
      ]

  abbrev pub IsFound : List (Target × ℕ) → Record → Type 0
  IsFound m r = excluded (target_of r) ≡ false → (j : ℕ) × (lookup (target_of r) m ≡ some j)

  sum_skipped :
      (r : Record) (rs : List Record) (m : List (Target × ℕ))
      → excluded (target_of r) ≡ true
      → sum_by_target excluded (r ∷ rs) m ≡ sum_by_target excluded rs m
  unfolding sum_by_target
  sum_skipped r rs m out = rw out refl

  sum_added :
      (r : Record) (rs : List Record) (m : List (Target × ℕ))
      → excluded (target_of r) ≡ false
      → sum_by_target excluded (r ∷ rs) m
        ≡ sum_by_target excluded rs (
            insert
              (target_of r)
              (from_option 0 (lookup (target_of r) m) + r.cpu.core_nanoseconds)
              m)
  unfolding sum_by_target
  sum_added r rs m into = rw into refl

  -- Each record's workload that is not excluded is found.
  All-IsFound :
      (rs : List Record) (m : List (Target × ℕ)) → All (IsFound (sum_by_target excluded rs m)) rs
  All-IsFound [] m = tt
  All-IsFound (r ∷ rs) m =
      let k = target_of r in
      let v = from_option 0 (lookup k m) + r.cpu.core_nanoseconds in
      let m' = insert k v m in
      elim (Bool-cases (excluded k)) [
        | inl out ↦
            subst (λ x. IsFound x r × All (IsFound x) rs) (sym (sum_skipped r rs m out))
              ((λ h. absurd (clash (excluded k) out h)), All-IsFound rs m)
        | inr into ↦
            subst (λ x. IsFound x r × All (IsFound x) rs) (sym (sum_added r rs m into))
              (
                (λ h.
                    found-sum k v rs m'
                      (lookup-insert k k v m ∙ rw ((pair_key.beq_iff k k).1 refl) refl)),
                All-IsFound rs m',
              )
      ]

  -- What stands in the sum of the records: each workload once, with what it consumed.
  measured :
      (rs : List Record) (m xs : List (Target × ℕ))
      → m ≡ sum_by_target excluded rs []
      → All (λ x. excluded x.0 ≡ false) xs
      → All (λ x. lookup x.0 m ≡ some x.1) xs
      → All (λ x. x.1 ≡ consumption x.0 rs) xs
  unfolding lookup
  measured rs m [] e a b = tt
  measured rs m (x ∷ xs) e (a, others) (b, found) = (
    omega (
      arith,
      lookup-sum x.0 rs [] a,
      ap (from_option 0) b,
      ap (λ y. from_option 0 (lookup x.0 y)) e,
    ),
    measured rs m xs e others found,
  )

  single :
      (m xs : List (Target × ℕ))
      → Distinct m
      → All (λ x. lookup x.0 m ≡ some x.1) xs
      → All (λ x. entries_of x.0 m ≡ 1) xs
  single m [] d found = tt
  single m (x ∷ xs) d (h, found) = (entries_of-found x.0 x.1 m d h, single m xs d found)

  complete :
      (m : List (Target × ℕ)) (rs : List Record)
      → Distinct m
      → All (IsFound m) rs
      → All (λ r. excluded (target_of r) ≡ false → entries_of (target_of r) m ≡ 1) rs
  complete m [] d found = tt
  complete m (r ∷ rs) d (h, found) =
      ((λ e. let (j, q) = h e in entries_of-found (target_of r) j m d q), complete m rs d found)

  pub sum-measured :
      (rs : List Record)
      → All (λ x. excluded x.0 ≡ false) (sum_by_target excluded rs [])
      → All (λ x. x.1 ≡ consumption x.0 rs) (sum_by_target excluded rs [])
  sum-measured rs a =
      let m = sum_by_target excluded rs [] in
      measured rs m m refl a (Distinct-lookup m (sum-Distinct rs [] tt))

  pub sum-single :
      (rs : List Record) → let m = sum_by_target excluded rs [] in All (λ x. entries_of x.0 m ≡ 1) m
  sum-single rs =
      let m = sum_by_target excluded rs [] in
      let d = sum-Distinct rs [] tt in single m m d (Distinct-lookup m d)

  pub sum_complete :
      (rs : List Record)
      → All
          (λ r.
            excluded (target_of r) ≡ false
            → entries_of (target_of r) (sum_by_target excluded rs []) ≡ 1)
          rs
  sum_complete rs =
      complete (sum_by_target excluded rs []) rs (sum-Distinct rs [] tt) (All-IsFound rs [])
