-- ===== src/Collector/Filter/Search.antt =====
-- internal/collector/filter.go: the searches of `matchGlob` in a string.
use mathlib.Core.List.{append_assoc, reverse, reverse-append, reverse-reverse}
use runtime_agent.Prelude.{
  ℕ, zero, suc, ◌+◌, ◌≤◌, ◌≡◌, refl, sym, ap, ap₂, subst, ◌∙◌, inl, inr, true, ◌&&◌, [], ◌∷◌, ◌++◌,
  Option, none, some, ◌==◌, ==_iff, length, length-append, Bool-cases, Text, has_prefix, has_suffix,
  arith,
}
use runtime_agent.Collector.Filter.{drop, index}

pub drop-append : (q t : Text) → drop (length q) (q ++ t) ≡ t
unfolding drop
drop-append [] t = refl
drop-append (c ∷ q) t = drop-append q t

pub has_prefix-append : (q t : Text) → has_prefix (q ++ t) q ≡ true
unfolding has_prefix
has_prefix-append [] t = ground arith
has_prefix-append (c ∷ q) t = rw ((==_iff c c).1 refl) (has_prefix-append q t)

-- What a string with the prefix is.
pub has_prefix-drop : (s q : Text) → has_prefix s q ≡ true → s ≡ q ++ drop (length q) s
unfolding has_prefix drop
has_prefix-drop s [] h = refl
has_prefix-drop [] (b ∷ q) h = absurd (ground (arith, h))
has_prefix-drop (a ∷ s) (b ∷ q) h =
    let whole : (a == b && has_prefix s q) ≡ true = h in
    ap₂ (λ x y. x ∷ y) ((==_iff a b).0 (ground (arith, whole)))
      (has_prefix-drop s q (ground (arith, whole)))

-- What a string with the suffix is, and that a suffix is no longer than the string.
pub has_suffix-split : (s q : Text) → has_suffix s q ≡ true → (run : Text) × (s ≡ run ++ q)
unfolding has_suffix
has_suffix-split s q h =
    let rest = drop (length (reverse q)) (reverse s) in
    (
      reverse rest,
      sym (reverse-reverse s)
          ∙ ap reverse (has_prefix-drop (reverse s) (reverse q) h)
          ∙ reverse-append (reverse q) rest
          ∙ ap (λ x. reverse rest ++ x) (reverse-reverse q),
    )

pub has_suffix-append : (run q : Text) → has_suffix (run ++ q) q ≡ true
unfolding has_suffix
has_suffix-append run q =
    ap (λ x. has_prefix x (reverse q)) (reverse-append run q)
    ∙ has_prefix-append (reverse q) (reverse run)

drop-append_le : (n : ℕ) (a t : Text) → n ≤ length a → drop n (a ++ t) ≡ drop n a ++ t
unfolding drop
drop-append_le zero a t h = refl
drop-append_le (suc n) [] t h = absurd (omega (arith, h))
drop-append_le (suc n) (c ∷ a) t h = drop-append_le n a t (omega (arith, h))

drop-suc : (i n c : ℕ) (s : Text) → drop (suc i + n) (c ∷ s) ≡ drop (i + n) s
unfolding drop
drop-suc i n c s = ap (λ m. drop m (c ∷ s)) m
  where
    m : suc i + n ≡ suc (i + n)
    m = omega arith

drop-zero : (n : ℕ) (s : Text) → drop (0 + n) s ≡ drop n s
drop-zero n s = ap (λ m. drop m s) (omega arith)

-- What is behind a part that is found.
abbrev Splits : Text → Text → Option ℕ → Type 0
Splits s part none = Unit
Splits s part (some i) = (run : Text) × (s ≡ run ++ (part ++ drop (i + length part) s))

Splits-zero : (s part : Text) → has_prefix s part ≡ true → Splits s part (some 0)
Splits-zero s part h =
    ([], has_prefix-drop s part h ∙ ap (λ x. part ++ x) (sym (drop-zero (length part) s)))

Splits-suc :
    (c : ℕ) (s part : Text) (o : Option ℕ)
    → Splits s part o
    → Splits (c ∷ s) part (elim o [ none ↦ none | some i ↦ some (suc i) ])
Splits-suc c s part none h = tt
Splits-suc c s part (some i) (run, e) = (
  c ∷ run,
  ap (λ x. c ∷ x) (e ∙ ap (λ x. run ++ (part ++ x)) (sym (drop-suc i (length part) c s))),
)

index-Splits : (s part : Text) → Splits s part (index s part)
unfolding index
index-Splits [] part = elim (Bool-cases (has_prefix [] part)) [
  | inl h ↦ rw h (Splits-zero [] part h)
  | inr h ↦ rw h tt
]
index-Splits (c ∷ s) part = elim (Bool-cases (has_prefix (c ∷ s) part)) [
  | inl h ↦ rw h (Splits-zero (c ∷ s) part h)
  | inr h ↦ rw h (Splits-suc c s part (index s part) (index-Splits s part))
]

pub index-split :
    (s part : Text) (i : ℕ)
    → index s part ≡ some i
    → (run : Text) × (s ≡ run ++ (part ++ drop (i + length part) s))
index-split s part i h = subst (Splits s part) h (index-Splits s part)

index-prefix : (s part : Text) → has_prefix s part ≡ true → index s part ≡ some 0
unfolding index
index-prefix [] part h = rw h refl
index-prefix (c ∷ s) part h = rw h refl

-- A part that occurs is found, at its first place, so that what stood behind it still does.
unfoldable pub Leftmost : Text → Text → Text → Type 0
Leftmost s part t =
    (i : ℕ) × (x : Text) × (index s part ≡ some i) × (drop (i + length part) s ≡ x ++ t)

pub index-append : (run part t : Text) → Leftmost (run ++ (part ++ t)) part t
unfolding Leftmost index
index-append [] part t = (
  0,
  [],
  index-prefix (part ++ t) part (has_prefix-append part t),
  drop-zero (length part) (part ++ t) ∙ drop-append part t,
)
index-append (c ∷ run) part t = elim (Bool-cases (has_prefix (c ∷ (run ++ (part ++ t))) part)) [
  | inl h ↦ (
    0,
    drop (length part) ((c ∷ run) ++ part),
    index-prefix (c ∷ (run ++ (part ++ t))) part h,
    drop-zero (length part) ((c ∷ run) ++ (part ++ t))
        ∙ ap (drop (length part)) (sym (append_assoc (c ∷ run) part t))
        ∙ drop-append_le (length part) ((c ∷ run) ++ part) t
            (omega (arith, length-append (c ∷ run) part)),
  )
  | inr h ↦
      let (i, x, e, d) = index-append run part t in
      (suc i, x, rw (h, e) refl, drop-suc i (length part) c (run ++ (part ++ t)) ∙ d)
]
