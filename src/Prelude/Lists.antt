-- ===== src/Prelude/Lists.antt =====
-- Lists measured by native numbers, predicates on their members, and selection by a test.
use Prim.Native.Nat.{ℕ, zero, suc, ◌+◌, ◌≤◌}
use mathlib.Core.Bool.{Bool, true, not}
use mathlib.Core.List.{List, [], ◌∷◌, ◌++◌, map, Perm, Permᴰ, perm_middle}
use mathlib.Core.List.Perm
use mathlib.Core.Logic.{∥∥₁_elim}
use mathlib.Core.Path.{◌≡◌, refl, ap, ◌∙◌}
use native.Mathlib.Nat.{ℕ_set}
use native.Mathlib.Omega.{arith}
use runtime_agent.Prelude.Tests.{if◌then◌else◌}

module _ {ℓ} {A : Type ℓ} where
  abbrev pub length : List A → ℕ
  length [] = 0
  length (x ∷ xs) = suc (length xs)

  unfoldable pub take : ℕ → List A → List A
  take zero xs = []
  take (suc n) [] = []
  take (suc n) (x ∷ xs) = x ∷ take n xs

  -- The sum of a measure over a list.
  abbrev pub sum_of : (A → ℕ) → List A → ℕ
  sum_of f [] = 0
  sum_of f (x ∷ xs) = f x + sum_of f xs

  -- The members that pass a test, in order.
  abbrev pub select : (A → Bool) → List A → List A
  select p [] = []
  select p (x ∷ xs) = if p x then x ∷ select p xs else select p xs

  abbrev pub All {κ} : (A → Type κ) → List A → Type κ
  All P [] = Unit
  All P (x ∷ xs) = P x × All P xs

  pub length-append : (xs ys : List A) → length (xs ++ ys) ≡ length xs + length ys
  length-append [] ys = omega arith
  length-append (x ∷ xs) ys = omega (arith, length-append xs ys)

  pub sum_of-append : (f : A → ℕ) (xs ys : List A) → sum_of f (xs ++ ys) ≡ sum_of f xs + sum_of f ys
  sum_of-append f [] ys = omega arith
  sum_of-append f (x ∷ xs) ys = omega (arith, sum_of-append f xs ys)

  pub length-take-le : (n : ℕ) (xs : List A) → length (take n xs) ≤ n
  unfolding take
  length-take-le zero xs = omega arith
  length-take-le (suc n) [] = omega arith
  length-take-le (suc n) (x ∷ xs) = omega (arith, length-take-le n xs)

  pub All-map {κ μ} :
      {P : A → Type κ} {Q : A → Type μ}
      → ((x : A) → P x → Q x)
      → (xs : List A) → All P xs
      → All Q xs
  All-map f [] a = tt
  All-map f (x ∷ xs) (p, a) = (f x p, All-map f xs a)

  pub All-append {κ} : (P : A → Type κ) (xs ys : List A) → All P xs → All P ys → All P (xs ++ ys)
  All-append P [] ys hx hy = hy
  All-append P (x ∷ xs) ys hx hy = (hx.0, All-append P xs ys hx.1 hy)

  pub All-select : (p : A → Bool) (xs : List A) → All (λ x. p x ≡ true) (select p xs)
  All-select p [] = tt
  All-select p (x ∷ xs) = ground (arith, All-select p xs)

  -- A test splits a list: what passes, and what does not.
  pub select-perm :
      (p : A → Bool) (xs : List A) → Perm xs (select p xs ++ select (λ x. not (p x)) xs)
  select-perm p [] = Perm.nil
  select-perm p (x ∷ xs) =
      let rest = Perm.cons x (select-perm p xs) in
      ground (
        arith,
        rest,
        Perm.trans rest (Perm.symm (perm_middle (select p xs) (select (λ y. not (p y)) xs))),
      )

  -- Sums and lengths do not depend on the order.
  sum_of-permᴰ : (f : A → ℕ) {xs ys : List A} → Permᴰ xs ys → sum_of f xs ≡ sum_of f ys
  sum_of-permᴰ f Permᴰ.nil = refl
  sum_of-permᴰ f (Permᴰ.cons e p) = omega (arith, ap f e, sum_of-permᴰ f p)
  sum_of-permᴰ f (Permᴰ.swap e e') = omega (arith, ap f e, ap f e')
  sum_of-permᴰ f (Permᴰ.trans p q) = sum_of-permᴰ f p ∙ sum_of-permᴰ f q

  pub sum_of-perm : (f : A → ℕ) {xs ys : List A} → Perm xs ys → sum_of f xs ≡ sum_of f ys
  sum_of-perm f p = ∥∥₁_elim p (ℕ_set _ _) (sum_of-permᴰ f)

  length-eq-sum_of : (xs : List A) → length xs ≡ sum_of (λ x. 1) xs
  length-eq-sum_of [] = refl
  length-eq-sum_of (x ∷ xs) = omega (arith, length-eq-sum_of xs)

  pub length-perm : {xs ys : List A} → Perm xs ys → length xs ≡ length ys
  length-perm {xs} {ys} p =
      omega (arith, length-eq-sum_of xs, length-eq-sum_of ys, sum_of-perm (λ x. 1) p)

module _ {ℓ κ} {A : Type ℓ} {B : Type κ} (f : A → B) where
  pub All-mapped {μ} : (P : B → Type μ) (xs : List A) → All (λ x. P (f x)) xs → All P (map f xs)
  All-mapped P [] a = tt
  All-mapped P (x ∷ xs) (p, a) = (p, All-mapped P xs a)

  pub sum_of-map : (g : B → ℕ) (xs : List A) → sum_of g (map f xs) ≡ sum_of (λ x. g (f x)) xs
  sum_of-map g [] = refl
  sum_of-map g (x ∷ xs) = omega (arith, sum_of-map g xs)
