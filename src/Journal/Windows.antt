-- ===== src/Journal/Windows.antt =====
-- What the journals of internal/journal share: a map of open records, the loop that closes the
-- ended ones, and the comparison of two strings in a sort's `less`.
use runtime_agent.Prelude.{
  ℕ, ◌+◌, ◌≡◌, refl, Bool, true, false, List, [], ◌∷◌, arith, if◌then◌else◌, text_eq, text_lt, Text,
  sum_of, All, Bool-cases, inl, inr,
}

abbrev pub second : ℕ
second = 1000000000

-- `if a != b { return a < b }`, with what follows it.
abbrev pub then_by : Text → Text → Bool → Bool
then_by a b rest = if text_eq a b then rest else text_lt a b

module _ {ℓ κ} {K : Type ℓ} {V : Type κ} (ended : V → Bool) where
  -- What the loop of a `CloseBefore` collects, and what it leaves.
  abbrev pub closing : List (K × V) → List V
  closing [] = []
  closing ((k, v) ∷ m) = if ended v then v ∷ closing m else closing m

  abbrev pub remaining : List (K × V) → List (K × V)
  remaining [] = []
  remaining ((k, v) ∷ m) = if ended v then remaining m else (k, v) ∷ remaining m

  -- Nothing is lost between the two.
  pub sum_of-closing :
      (f : V → ℕ) (m : List (K × V))
      → sum_of f (closing m) + sum_of (λ x. f x.1) (remaining m) ≡ sum_of (λ x. f x.1) m
  sum_of-closing f [] = refl
  sum_of-closing f ((k, v) ∷ m) = ground (arith, sum_of-closing f m)

  pub All-remaining {μ} : (P : K × V → Type μ) (m : List (K × V)) → All P m → All P (remaining m)
  All-remaining P [] a = tt
  All-remaining P ((k, v) ∷ m) (p, a) = elim (Bool-cases (ended v)) [
    | inl e ↦ rw e (All-remaining P m a)
    | inr o ↦ rw o (p, All-remaining P m a)
  ]

  pub All-closing {μ} : (P : V → Type μ) (m : List (K × V)) → All (λ x. P x.1) m → All P (closing m)
  All-closing P [] a = tt
  All-closing P ((k, v) ∷ m) (p, a) = elim (Bool-cases (ended v)) [
    | inl e ↦ rw e (p, All-closing P m a)
    | inr o ↦ rw o (All-closing P m a)
  ]

  pub closing-ended : (m : List (K × V)) → All (λ v. ended v ≡ true) (closing m)
  closing-ended [] = tt
  closing-ended ((k, v) ∷ m) = ground (arith, closing-ended m)

  pub remaining-open : (m : List (K × V)) → All (λ x. ended x.1 ≡ false) (remaining m)
  remaining-open [] = tt
  remaining-open ((k, v) ∷ m) = ground (arith, remaining-open m)
