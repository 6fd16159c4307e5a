-- ===== src/Prelude/Keys.antt =====
-- Go maps. A map that is only indexed is a function; one that is ranged over is an association
-- list, generic in its keys through `Eq`.
use Prim.Native.Nat.{ℕ, ◌+◌}
use mathlib.Core.Bool.{Bool, true, ◌&&◌}
use mathlib.Core.List.{List, [], ◌∷◌, map}
use mathlib.Core.Logic.{◌↔◌, inl, inr}
use mathlib.Core.Option.{Option, none, some}
use mathlib.Core.Path.{◌≡◌, refl, subst₂, ap₂, ap, ◌∙◌}
use runtime_agent.Prelude.Lists.{sum_of, All, select}
use native.Mathlib.Omega.{arith}
use runtime_agent.Prelude.Tests.{if◌then◌else◌, ◌==◌, ==_iff, Bool-cases, from_option}
use runtime_agent.Prelude.Strings.{Text, text_eq, text_eq_iff}

pub record Eq {ℓ} (A : Type ℓ) : Type ℓ where
  pub beq : A → A → Bool
  pub beq_iff : (a b : A) → (beq a b ≡ true) ↔ (a ≡ b)

instance abbrev pub text_key : Eq Text
text_key = record { beq = text_eq; beq_iff = text_eq_iff }

-- The measure of what a lookup finds, 0 of nothing.
abbrev pub weight {ℓ} : {V : Type ℓ} → (V → ℕ) → Option V → ℕ
weight f none = 0
weight f (some v) = f v

some_inj {ℓ} : {V : Type ℓ} {a b : V} → some a ≡ some b → a ≡ b
some_inj {V} {a} {b} h = ap (from_option a) h

-- `m[k] = v` on a map that is only indexed.
abbrev pub update {ℓ} : {V : Type ℓ} → (Text → V) → Text → V → Text → V
update m k v j = if text_eq j k then v else m j

module _ {ℓ κ} {K : Type ℓ} {V : Type κ} ⦃e : Eq K⦄ where
  unfoldable pub lookup : K → List (K × V) → Option V
  lookup k [] = none
  lookup k ((j, v) ∷ m) = if e.beq j k then some v else lookup k m

  -- `m[k] = v`: in place, or a new entry.
  unfoldable pub insert : K → V → List (K × V) → List (K × V)
  insert k v [] = (k, v) ∷ []
  insert k v ((j, w) ∷ m) = if e.beq j k then (k, v) ∷ m else (j, w) ∷ insert k v m

  pub lookup-insert :
      (k j : K) (v : V) (m : List (K × V))
      → lookup j (insert k v m) ≡ (if e.beq k j then some v else lookup j m)
  unfolding lookup insert
  lookup-insert k j v [] = refl
  lookup-insert k j v ((i, w) ∷ m) =
      ground (arith, e.beq_iff k j, e.beq_iff i k, e.beq_iff i j, lookup-insert k j v m)

  -- The values, in the order of the entries.
  abbrev pub values : List (K × V) → List V
  values = map (λ x. x.1)

  -- What the entries measure in all, before and after an entry is written.
  pub sum_of-insert :
      (f : V → ℕ) (k : K) (v : V) (m : List (K × V))
      → sum_of (λ x. f x.1) (insert k v m) + weight f (lookup k m) ≡ sum_of (λ x. f x.1) m + f v
  unfolding lookup insert
  sum_of-insert f k v [] = omega arith
  sum_of-insert f k v ((i, w) ∷ m) = ground (arith, sum_of-insert f k v m)

  pub insert_twice : (k : K) (v : V) (m : List (K × V)) → insert k v (insert k v m) ≡ insert k v m
  unfolding insert
  insert_twice k v [] = rw ((e.beq_iff k k).1 refl) refl
  insert_twice k v ((i, w) ∷ m) = elim (Bool-cases (e.beq i k)) [
    | inl s ↦ rw (s, (e.beq_iff k k).1 refl) refl
    | inr d ↦ rw (d, d, insert_twice k v m) refl
  ]

  pub All-insert {μ} :
      (P : K × V → Type μ) (k : K) (v : V) (m : List (K × V))
      → All P m
      → P (k, v)
      → All P (insert k v m)
  unfolding insert
  All-insert P k v [] a p = (p, tt)
  All-insert P k v ((i, w) ∷ m) (q, a) p = elim (Bool-cases (e.beq i k)) [
    | inl s ↦ rw s (p, a)
    | inr d ↦ rw d (q, All-insert P k v m a p)
  ]

  -- A value that is looked up stands under its key.
  pub All-lookup {μ} :
      (P : K × V → Type μ) (k : K) (v : V) (m : List (K × V))
      → All P m
      → lookup k m ≡ some v
      → P (k, v)
  unfolding lookup
  All-lookup P k v [] a h = absurd (ground arith)
  All-lookup P k v ((i, w) ∷ m) (q, a) h = elim (Bool-cases (e.beq i k)) [
    | inl s ↦
        let h' : some w ≡ some v = rw s at h in
        subst₂ (λ x y. P (x, y)) ((e.beq_iff i k).0 s) (some_inj h') q
    | inr d ↦ All-lookup P k v m a (rw d at h)
  ]

  -- A value that is looked up is still found where the entries that pass a test are kept, and it does.
  pub lookup-select :
      (p : V → Bool) (k : K) (v : V) (m : List (K × V))
      → lookup k m ≡ some v
      → p v ≡ true
      → lookup k (select (λ x. p x.1) m) ≡ some v
  unfolding lookup
  lookup-select p k v [] h t = absurd (ground arith)
  lookup-select p k v ((i, w) ∷ m) h t = elim (Bool-cases (e.beq i k)) [
    | inl s ↦
        let h' : some w ≡ some v = rw s at h in
        let found : p w ≡ true = ap p (some_inj h') ∙ t in rw (found, lookup, s) h'
    | inr d ↦
        let rest = lookup-select p k v m (rw d at h) t in
        elim (Bool-cases (p w)) [ inl stays ↦ rw (stays, lookup, d) rest | inr goes ↦ rw goes rest ]
  ]

instance abbrev pub nat_key : Eq ℕ
nat_key = record { beq = λ a b. a == b; beq_iff = ==_iff }

module _ {ℓ κ} {A : Type ℓ} {B : Type κ} ⦃a : Eq A⦄ ⦃b : Eq B⦄ where
  unfoldable pub pair_eq : A × B → A × B → Bool
  pair_eq x y = a.beq x.0 y.0 && b.beq x.1 y.1

  pub pair_eq_to : (x y : A × B) → pair_eq x y ≡ true → x ≡ y
  unfolding pair_eq
  pair_eq_to (i, v) (j, w) h =
      ap₂ (λ p q. (p, q)) ((a.beq_iff i j).0 (ground (arith, h)))
        ((b.beq_iff v w).0 (ground (arith, h)))

  pub pair_eq_from : (x y : A × B) → x ≡ y → pair_eq x y ≡ true
  unfolding pair_eq
  pair_eq_from (i, v) (j, w) h =
      rw ((a.beq_iff i j).1 (ap (λ p. p.0) h), (b.beq_iff v w).1 (ap (λ p. p.1) h)) refl

  instance unfoldable pub pair_key : Eq (A × B)
  unfolding pair_eq
  pair_key = record { beq = pair_eq; beq_iff = λ x y. (pair_eq_to x y, pair_eq_from x y) }
