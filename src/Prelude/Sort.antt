-- ===== src/Prelude/Sort.antt =====
-- `sort.Slice` with a `less` function: an insertion sort, and what any sort by a strict total
-- order guarantees.
use mathlib.Core.Bool.{Bool, true, false}
use mathlib.Core.List.{List, [], ◌∷◌, Perm}
use mathlib.Core.List.Perm
use mathlib.Core.Logic.{inl, inr}
use mathlib.Core.Path.{◌≡◌}
use native.Mathlib.Omega.{arith}
use runtime_agent.Prelude.Lists.{All}
use runtime_agent.Prelude.Tests.{if◌then◌else◌, Bool-cases}

module _ {ℓ} {A : Type ℓ} (less : A → A → Bool) where
  unfoldable pub insert_sorted : A → List A → List A
  insert_sorted x [] = x ∷ []
  insert_sorted x (y ∷ ys) = if less y x then y ∷ insert_sorted x ys else x ∷ y ∷ ys

  unfoldable pub sort_slice : List A → List A
  unfolding insert_sorted
  sort_slice [] = []
  sort_slice (x ∷ xs) = insert_sorted x (sort_slice xs)

  insert_sorted-perm : (x : A) (ys : List A) → Perm (insert_sorted x ys) (x ∷ ys)
  unfolding insert_sorted
  insert_sorted-perm x [] = Perm.refl (x ∷ [])
  insert_sorted-perm x (y ∷ ys) =
      let moved = Perm.trans (Perm.cons y (insert_sorted-perm x ys)) (Perm.swap x y ys) in
      ground (arith, moved, Perm.refl (x ∷ y ∷ ys))

  pub sort_slice-perm : (xs : List A) → Perm (sort_slice xs) xs
  unfolding sort_slice
  sort_slice-perm [] = Perm.nil
  sort_slice-perm (x ∷ xs) =
      Perm.trans (insert_sorted-perm x (sort_slice xs)) (Perm.cons x (sort_slice-perm xs))

  All-insert {κ} :
      (P : A → Type κ) (x : A) (ys : List A) → P x → All P ys → All P (insert_sorted x ys)
  unfolding insert_sorted
  All-insert P x [] p h = (p, tt)
  All-insert P x (y ∷ ys) p h = elim (Bool-cases (less y x)) [
    | inl before ↦ rw before (h.0, All-insert P x ys p h.1)
    | inr after ↦ rw after (p, h)
  ]

  pub All-sort_slice {κ} : (P : A → Type κ) (xs : List A) → All P xs → All P (sort_slice xs)
  unfolding sort_slice
  All-sort_slice P [] h = tt
  All-sort_slice P (x ∷ xs) h = All-insert P x (sort_slice xs) h.0 (All-sort_slice P xs h.1)

  -- No member precedes an earlier one.
  abbrev pub IsSorted : List A → Type 0
  IsSorted [] = Unit
  IsSorted (x ∷ xs) = All (λ y. less y x ≡ false) xs × IsSorted xs

  module _ (irrefl : (a : A) → less a a ≡ false)
      (trans : (a b c : A) → less a b ≡ true → less b c ≡ true → less a c ≡ true)
      (negative : (a b c : A) → less a b ≡ false → less b c ≡ false → less a c ≡ false) where
    asym : (a b : A) → less a b ≡ true → less b a ≡ false
    asym a b h = ground (arith, trans a b a, irrefl a)

    All-insert_sorted :
        (z x : A) (ys : List A)
        → less x z ≡ false
        → All (λ y. less y z ≡ false) ys
        → All (λ y. less y z ≡ false) (insert_sorted x ys)
    unfolding insert_sorted
    All-insert_sorted z x [] h k = (h, tt)
    All-insert_sorted z x (y ∷ ys) h k = ground (arith, All-insert_sorted z x ys h k.1)

    All-le :
        (x y : A) (ys : List A)
        → less y x ≡ false
        → All (λ w. less w y ≡ false) ys
        → All (λ w. less w x ≡ false) ys
    All-le x y [] h k = tt
    All-le x y (w ∷ ys) h k = (negative w y x k.0 h, All-le x y ys h k.1)

    insert_sorted-IsSorted : (x : A) (ys : List A) → IsSorted ys → IsSorted (insert_sorted x ys)
    unfolding insert_sorted
    insert_sorted-IsSorted x [] s = (tt, tt)
    insert_sorted-IsSorted x (y ∷ ys) s =
        ground (
          arith,
          insert_sorted-IsSorted x ys s.1,
          All-insert_sorted y x ys,
          asym y x,
          All-le x y ys,
        )

    pub sort_slice-IsSorted : (xs : List A) → IsSorted (sort_slice xs)
    unfolding sort_slice
    sort_slice-IsSorted [] = tt
    sort_slice-IsSorted (x ∷ xs) = insert_sorted-IsSorted x (sort_slice xs) (sort_slice-IsSorted xs)
