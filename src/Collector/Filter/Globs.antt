-- ===== src/Collector/Filter/Globs.antt =====
-- internal/collector/filter.go: `matchGlob` against the meaning of a pattern.
use mathlib.Core.List.{append_assoc, cons≢nil}
use runtime_agent.Prelude.{
  ℕ, ◌+◌, ◌≤◌, ◌≡◌, ◌≢◌, refl, sym, ap, subst, subst₂, ◌∙◌, ◌↔◌, ◌⊎◌, inl, inr, true, false, List,
  [], ◌∷◌, ◌++◌, ◌==◌, ==_iff, length, length-append, Bool-cases, Option-cases, Text, text_eq_iff,
  has_prefix, has_suffix, arith,
}
use runtime_agent.Collector.Filter.{
  star, drop, index, extend, split_star, search, match_parts, match_glob,
}
use runtime_agent.Collector.Filter.Search.{
  drop-append, has_prefix-append, has_prefix-drop, has_suffix-split, has_suffix-append, index-split,
  Leftmost, index-append,
}

-- What a pattern means, byte for byte: a star stands for any run of bytes, all else for itself.
pub data Matches : Text → Text → Type 0 where
  end : Matches [] []
  byte : {p s : Text} (c : ℕ) → c ≢ star → Matches p s → Matches (c ∷ p) (c ∷ s)
  no_more : {p s : Text} → Matches p s → Matches (star ∷ p) s
  one_more : {p s : Text} (c : ℕ) → Matches (star ∷ p) s → Matches (star ∷ p) (c ∷ s)

-- A string that begins with the first part and has the others behind it, with any runs between.
Anchored : Text → List Text → Text → Type 0
Anchored q [] s = s ≡ q
Anchored q (p ∷ ps) s = (run : Text) × (u : Text) × (s ≡ q ++ (run ++ u)) × Anchored p ps u

abbrev Floating : Text → List Text → Text → Type 0
Floating p ps s = (run : Text) × (u : Text) × (s ≡ run ++ u) × Anchored p ps u

search→Floating : (p : Text) (ps : List Text) (s : Text) → search p ps s ≡ true → Floating p ps s
unfolding search Anchored
search→Floating p [] s h =
    let (run, e) = has_suffix-split s p (ground (arith, h)) in (run, p, e, refl)
search→Floating p (q ∷ qs) s h = elim (Option-cases (index s p)) [
  | inl e ↦ absurd (ground (arith, h, e))
  | inr (i, e) ↦
      let (run, at) = index-split s p i e in
      let (run', u, e', a) = search→Floating q qs (drop (i + length p) s) (rw (search, e) at h) in
      (run, p ++ drop (i + length p) s, at, (run', u, ap (λ x. p ++ x) e', a))
]

Floating→search : (p : Text) (ps : List Text) (s : Text) → Floating p ps s → search p ps s ≡ true
unfolding search Anchored Leftmost
Floating→search p [] s (run, u, e, same) =
    let whole : s ≡ run ++ p = e ∙ ap (λ x. run ++ x) same in
    let suffix : has_suffix s p ≡ true = ap (λ x. has_suffix x p) whole ∙ has_suffix-append run p in
    let short : length p ≤ length s = omega (arith, ap length whole, length-append run p) in
    ground (arith, suffix, short)
Floating→search p (q ∷ qs) s (run, u, e, (run', u', e', a)) =
    let whole : s ≡ run ++ (p ++ (run' ++ u')) = e ∙ ap (λ x. run ++ x) e' in
    let (i, x, found, behind) = index-append run p (run' ++ u') in
    let rest : search q qs (x ++ (run' ++ u')) ≡ true =
      Floating→search q qs (x ++ (run' ++ u')) (x ++ run', u', sym (append_assoc x run' u'), a) in
    subst (λ s'. search p (q ∷ qs) s' ≡ true) (sym whole) (rw (search, found, behind) rest)

-- The string and the parts of a pattern.
Parts : List Text → Text → Type 0
unfolding Anchored
Parts [] s = true ≡ false
Parts (q ∷ qs) s = Anchored q qs s

split_star_cons : (p : Text) → (q : Text) × (qs : List Text) × (split_star p ≡ q ∷ qs)
unfolding split_star extend
split_star_cons [] = ([], [], refl)
split_star_cons (c ∷ p) = elim (Bool-cases (c == star)) [
  | inl h ↦ ([], split_star p, rw h refl)
  | inr h ↦ let (q, qs, e) = split_star_cons p in (c ∷ q, qs, rw (h, e) refl)
]

-- The parts with stars between them.
joined : List Text → Text
joined [] = []
joined (q ∷ []) = q
joined (q ∷ p ∷ ps) = q ++ star ∷ joined (p ∷ ps)

joined-extend : (c : ℕ) (q : Text) (qs : List Text) → joined ((c ∷ q) ∷ qs) ≡ c ∷ joined (q ∷ qs)
unfolding joined
joined-extend c q [] = refl
joined-extend c q (p ∷ ps) = refl

joined-split_star : (p : Text) → joined (split_star p) ≡ p
unfolding joined split_star extend
joined-split_star [] = refl
joined-split_star (c ∷ p) =
    let (q, qs, e) = split_star_cons p in
    let back : joined (q ∷ qs) ≡ p = ap joined (sym e) ∙ joined-split_star p in
    elim (Bool-cases (c == star)) [
      | inl h ↦ rw (h, e, (==_iff c star).0 h) (ap (λ x. star ∷ x) back)
      | inr h ↦ rw (h, e) (joined-extend c q qs ∙ ap (λ x. c ∷ x) back)
    ]

Parts-extend : (c : ℕ) (qs : List Text) (s : Text) → Parts qs s → Parts (extend c qs) (c ∷ s)
unfolding Parts Anchored extend
Parts-extend c [] s h = h
Parts-extend c (q ∷ []) s h = ap (λ x. c ∷ x) h
Parts-extend c (q ∷ p ∷ ps) s (run, u, e, a) = (run, u, ap (λ x. c ∷ x) e, a)

-- A first part that is empty, before others.
Parts-star : (q : Text) (qs : List Text) (s : Text) → Floating q qs s ↔ Parts ([] ∷ q ∷ qs) s
unfolding Parts Anchored
Parts-star q qs s = (λ h. h, λ h. h)

Matches→Parts : {p s : Text} → Matches p s → Parts (split_star p) s
unfolding Parts Anchored split_star
Matches→Parts end = refl
Matches→Parts (byte {p} {s} c other m) =
    let differs : (c == star) ≡ false = ground (arith, other) in
    rw differs (Parts-extend c (split_star p) s (Matches→Parts m))
Matches→Parts {s = s} (no_more {p} m) =
    let (q, qs, e) = split_star_cons p in
    let h : Parts (q ∷ qs) s = subst (λ x. Parts x s) e (Matches→Parts m) in
    subst (λ x. Parts ([] ∷ x) s) (sym e) ([], s, refl, h)
Matches→Parts (one_more {p} {s} c m) =
    let (q, qs, e) = split_star_cons p in
    let h : Floating q qs s = subst (λ x. Parts ([] ∷ x) s) e (Matches→Parts m) in
    subst (λ x. Parts ([] ∷ x) (c ∷ s)) (sym e) (c ∷ h.0, h.1, ap (λ x. c ∷ x) h.2, h.3)

-- The runs before what a pattern behind a star matches.
after_run : (p run u : Text) → Matches p u → Matches (star ∷ p) (run ++ u)
after_run p [] u m = no_more m
after_run p (c ∷ run) u m = one_more c (after_run p run u m)

-- A byte at the start of the first part is one at the start of the string.
unextend :
    (c : ℕ) (qs : List Text) (s : Text)
    → Parts (extend c qs) s
    → (qs ≡ []) ⊎ ((rest : Text) × (s ≡ c ∷ rest) × Parts qs rest)
unfolding Parts Anchored extend
unextend c [] s h = inl refl
unextend c (q ∷ []) s h = inr (q, h, refl)
unextend c (q ∷ p ∷ ps) s (run, u, e, a) = inr (q ++ (run ++ u), e, (run, u, refl, a))

Parts→Matches : (p s : Text) → Parts (split_star p) s → Matches p s
unfolding Parts Anchored split_star
Parts→Matches [] s h = subst (Matches []) (sym h) end
Parts→Matches (c ∷ p) s h =
    let (q, qs, e) = split_star_cons p in
    elim (Bool-cases (c == star)) [
      | inl same ↦
          let h' : Parts ([] ∷ split_star p) s = rw same at h in
          let f : Floating q qs s = subst (λ x. Parts ([] ∷ x) s) e h' in
          let inner : Matches p (f.1) =
            Parts→Matches p f.1 (subst (λ x. Parts x f.1) (sym e) f.3) in
          subst₂ Matches (ap (λ x. x ∷ p) (sym ((==_iff c star).0 same))) (sym f.2)
            (after_run p f.0 f.1 inner)
      | inr differs ↦
          let h' : Parts (extend c (split_star p)) s = rw differs at h in
          elim (unextend c (split_star p) s h') [
            | inl empty ↦ absurd (cons≢nil (sym e ∙ empty))
            | inr (rest, at, a) ↦
                subst (Matches (c ∷ p)) (sym at)
                  (byte c (λ is_star. ground (arith, differs, is_star)) (Parts→Matches p rest a))
          ]
    ]

after_prefix :
    (s q p : Text) (ps : List Text) → Anchored q (p ∷ ps) s → match_parts q s (q ∷ p ∷ ps) ≡ true
unfolding match_parts Anchored
after_prefix s q p ps (run, u, e, a) =
    let starts : has_prefix s q ≡ true =
      ap (λ x. has_prefix x q) e ∙ has_prefix-append q (run ++ u) in
    let behind : drop (length q) s ≡ run ++ u = ap (drop (length q)) e ∙ drop-append q (run ++ u) in
    rw (starts, behind) (Floating→search p ps (run ++ u) (run, u, refl, a))

match_parts-Parts :
    (p s q : Text) (rest : List Text)
    → joined (q ∷ rest) ≡ p
    → (match_parts p s (q ∷ rest) ≡ true) ↔ Parts (q ∷ rest) s
unfolding match_parts Parts Anchored joined
match_parts-Parts p s q [] j =
    (λ h. sym ((text_eq_iff p s).0 h) ∙ sym j, λ h. (text_eq_iff p s).1 (sym j ∙ sym h))
match_parts-Parts p s q (r ∷ rs) j = (
  λ h.
      let starts : has_prefix s q ≡ true = ground (arith, h) in
      let found : search r rs (drop (length q) s) ≡ true = ground (arith, h) in
      let (run, u, e, a) = search→Floating r rs (drop (length q) s) found in
      (run, u, has_prefix-drop s q starts ∙ ap (λ x. q ++ x) e, a),
  λ h. after_prefix s q r rs h,
)

-- `matchGlob` tells exactly whether the string is of the pattern's meaning: its leftmost search of
-- the parts neither misses a match nor finds one that is not there.
pub match_glob-Matches : (p s : Text) → (match_glob p s ≡ true) ↔ Matches p s
unfolding match_glob
match_glob-Matches p s =
    let (q, qs, e) = split_star_cons p in
    let both = match_parts-Parts p s q qs (ap joined (sym e) ∙ joined-split_star p) in
    (
      λ h.
          Parts→Matches p s
            (subst (λ x. Parts x s) (sym e) (both.0 (subst (λ x. match_parts p s x ≡ true) e h))),
      λ m.
          subst (λ x. match_parts p s x ≡ true) (sym e)
            (both.1 (subst (λ x. Parts x s) e (Matches→Parts m))),
    )
