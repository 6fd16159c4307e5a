-- ===== src/Sink/Cadence/Lines.antt =====
-- What a fingerprint depends on.
use mathlib.Core.List.{append_assoc}
use runtime_agent.Prelude.{
  ℕ, zero, suc, ◌≤◌, ◌≡◌, refl, ap, ◌∙◌, inl, inr, Bool, false, not, List, [], ◌∷◌, ◌++◌, Text,
  arith, length, length-append, All, select, has_prefix, contains_byte, Bool-cases, if◌then◌else◌,
}
use runtime_agent.Sink.Cadence.{newline, captured_at_field, next_line, hashed_lines, fingerprint}

-- The bytes of a payload made of the given lines, each ended by a newline.
abbrev pub unlines : List Text → Text
unlines [] = []
unlines (l ∷ ls) = (l ++ newline ∷ []) ++ unlines ls

abbrev pub IsLine : Text → Type 0
IsLine l = contains_byte newline l ≡ false

-- A line that dates the capture.
abbrev pub is_dated : Text → Bool
is_dated l = has_prefix (l ++ newline ∷ []) captured_at_field

next_line-append : (l d : Text) → IsLine l → next_line (l ++ newline ∷ d) ≡ (l ++ newline ∷ [], d)
unfolding next_line contains_byte
next_line-append [] d h = refl
next_line-append (c ∷ l) d h = ground (arith, next_line-append l d)

hashed_lines_step :
    (f c : ℕ) (d line rest : Text)
    → next_line (c ∷ d) ≡ (line, rest)
    → hashed_lines (suc f) (c ∷ d) ≡ (
        if has_prefix line captured_at_field
        then hashed_lines f rest
        else line ++ hashed_lines f rest)
unfolding hashed_lines
hashed_lines_step f c d line rest e = rw e

-- A line ended by a newline, and what follows, is hashed or passed over as a whole.
hashed_lines_line :
    (f : ℕ) (l d : Text)
    → IsLine l
    → hashed_lines (suc f) (l ++ newline ∷ d)
      ≡ (if is_dated l then hashed_lines f d else (l ++ newline ∷ []) ++ hashed_lines f d)
hashed_lines_line f [] d h = hashed_lines_step f newline d _ _ (next_line-append [] d h)
hashed_lines_line f (c ∷ l) d h = hashed_lines_step f c _ _ _ (next_line-append (c ∷ l) d h)

pass-unlines :
    (l : Text) (ls : List Text) (tail : Text)
    → tail ≡ unlines (select (λ m. not (is_dated m)) ls)
    → (if is_dated l then tail else (l ++ newline ∷ []) ++ tail)
      ≡ unlines (select (λ m. not (is_dated m)) (l ∷ ls))
pass-unlines l ls tail e = elim (Bool-cases (is_dated l)) [
  | inl dated ↦ rw dated e
  | inr plain ↦ rw plain (ap (◌++◌ (l ++ newline ∷ [])) e)
]

hashed_lines-unlines :
    (f : ℕ) (ls : List Text)
    → length (unlines ls) ≤ f
    → All IsLine ls
    → hashed_lines f (unlines ls) ≡ unlines (select (λ l. not (is_dated l)) ls)
unfolding hashed_lines
hashed_lines-unlines zero [] h k = refl
hashed_lines-unlines (suc f) [] h k = refl
hashed_lines-unlines zero (l ∷ ls) h k = absurd (
    omega
      (arith, length-append (l ++ newline ∷ []) (unlines ls), length-append l (newline ∷ []), h))
hashed_lines-unlines (suc f) (l ∷ ls) h k =
    ap (hashed_lines (suc f)) (append_assoc l (newline ∷ []) (unlines ls))
    ∙ hashed_lines_line f l (unlines ls) k.0
    ∙ pass-unlines l ls _ (
        hashed_lines-unlines f ls
          (omega (
            arith,
            length-append (l ++ newline ∷ []) (unlines ls),
            length-append l (newline ∷ []),
            h,
          ))
          k.1)

-- The fingerprint of a payload made of whole lines is the digest of its lines but those that date
-- the capture, in their order.
pub fingerprint-unlines :
    (hash : Text → Text) (ls : List Text)
    → All IsLine ls
    → fingerprint hash (unlines ls) ≡ hash (unlines (select (λ l. not (is_dated l)) ls))
unfolding fingerprint
fingerprint-unlines hash ls k = ap hash (hashed_lines-unlines _ ls (omega arith) k)
