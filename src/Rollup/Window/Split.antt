-- ===== src/Rollup/Window/Split.antt =====
-- The parts of a divided delta.
use native.Mathlib.Nat.{div-add-mod, mod-lt, mul-mod_left}
use runtime_agent.Prelude.Int.{ℤ, pos, negsuc}
use runtime_agent.Prelude.{
  ℕ, zero, suc, ◌+◌, ◌-◌, ◌*◌, ◌/◌, ◌%◌, ◌^◌, ◌≤◌, ◌<◌, ◌≡◌, refl, ap, inl, inr, true, false, [],
  arith, ltb, leb, All, sum_of, Bool-cases, ltb→lt,
}
use runtime_agent.Rollup.Histogram.{u64}
use runtime_agent.Rollup.Window.{start_of, mul_div, Part, split_loop, split}

mul_le_mul : (a b c : ℕ) → b ≤ c → a * b ≤ a * c
mul_le_mul a b c h = grind arith

mul_mono : (a b c : ℕ) → a ≤ b → a * c ≤ b * c
mul_mono a b c h = grind arith

le_of_mul : (q a c : ℕ) → 0 < c → q * c ≤ a * c → q ≤ a
le_of_mul q a c p h = elim (Bool-cases (ltb a q)) [
  | inl past ↦ absurd (omega (arith, mul_mono (a + 1) q c (omega (arith, ltb→lt a q past))))
  | inr fits ↦ ground arith
]

recombine : (n : ℕ) → n / u64 * u64 + n % u64 ≡ n
recombine n = omega arith

high_lt : (a b c : ℕ) → a < 2 ^ 63 → 0 < c → b ≤ c → a * b / u64 < c
high_lt a b c h p l =
    omega (arith, recombine (a * b), mul_le_mul a b c l, mul_mono a (2 ^ 63) c (omega arith))

quotient_le : (a b c : ℕ) → 0 < c → b ≤ c → a * b / c ≤ a
quotient_le a b c p l =
    le_of_mul (a * b / c) a c p (omega (arith, div-add-mod (a * b) c, mul_le_mul a b c l))

mul_div_quotient :
    (a b c : ℕ) → a < 2 ^ 63 → 0 < c → b ≤ c → mul_div (pos a) (pos b) (pos c) ≡ a * b / c
unfolding mul_div
mul_div_quotient a b c h p l =
    let e : a * b / u64 * u64 + a * b % u64 ≡ a * b = recombine (a * b) in
    rw e (ground (arith, high_lt a b c, quotient_le a b c))

-- Where the factor is at most the divisor, the divisor is positive and the amount fits an int64,
-- nothing saturates: the result is the quotient rounded
-- down, and at most the amount.
pub mul_div-eq :
    (a b c : ℕ)
    → a < 2 ^ 63
    → 0 < c
    → b ≤ c
    → (mul_div (pos a) (pos b) (pos c) * c ≤ a * b)
      × (a * b < mul_div (pos a) (pos b) (pos c) * c + c)
      × (mul_div (pos a) (pos b) (pos c) ≤ a)
mul_div-eq a b c h p l = rw (mul_div_quotient a b c h p l) (
  omega (arith, div-add-mod (a * b) c),
  omega (arith, div-add-mod (a * b) c, mod-lt (a * b) p),
  quotient_le a b c p l,
)

-- What is left of the amount still covers the rest of the interval.
cover_rest :
    (amount total d e left part remaining : ℕ)
    → left + part ≡ remaining
    → amount * (d + e) ≤ remaining * total
    → part * total ≤ amount * d
    → amount * e ≤ left * total
cover_rest amount total d e left part remaining h k l = omega (arith, ap (λ (t : ℕ). t * total) h)

part_le :
    (amount total d e part remaining : ℕ)
    → 0 < total
    → amount * (d + e) ≤ remaining * total
    → part * total ≤ amount * d
    → part ≤ remaining
part_le amount total d e part remaining p h k = le_of_mul part remaining total p (omega arith)

grid_mod : (length at : ℕ) → 0 < length → (at - at % length) % length ≡ 0
grid_mod length at p =
    let e : at - at % length ≡ at / length * length = omega (arith, div-add-mod at length) in
    rw e (mul-mod_left (at / length) length)

module _ (length to amount from : ℕ) (positive : 0 < length) (small : amount < 2 ^ 63)
    (before : from < to) where
  -- What a window of the interval may hold.
  abbrev Overlaps : Part → Type 0
  Overlaps p = (p.start % length ≡ 0) × (p.start < to) × (from < p.start + length)

  start_facts : (at : ℕ) → (start_of length at ≤ at) × (at < start_of length at + length)
  start_facts at = omega (arith, mod-lt at positive)

  start_aligned : (at : ℕ) → start_of length at % length ≡ 0
  start_aligned at = grid_mod length at positive

  split_loop-sum :
      (f seg_from remaining : ℕ)
      → to - seg_from ≤ f
      → from ≤ seg_from
      → seg_from < to
      → amount * (to - seg_from) ≤ remaining * (to - from)
      → sum_of (λ p. p.share) (split_loop length to amount (to - from) f seg_from remaining)
        ≡ remaining
  unfolding split_loop
  split_loop-sum zero seg_from remaining fuel h k inv = absurd (omega arith)
  split_loop-sum (suc f) seg_from remaining fuel h k inv =
      let seg_to = start_of length seg_from + length in
      let (s1, s2) = start_facts seg_from in
      let running : ltb seg_from to ≡ true = ground arith in
      rw running (elim (Bool-cases (ltb seg_to to)) [
        | inl inside ↦
            let l = ltb→lt seg_to to inside in
            let part = mul_div (pos amount) (pos (seg_to - seg_from)) (pos (to - from)) in
            let (m1, m2, m3) =
              mul_div-eq amount (seg_to - seg_from) (to - from) small (omega arith) (omega arith) in
            let d = seg_to - seg_from in
            let e = to - seg_to in
            let whole : to - seg_from ≡ d + e = omega arith in
            let inv' : amount * (d + e) ≤ remaining * (to - from) = rw whole at inv in
            let fits = part_le amount (to - from) d e part remaining (omega arith) inv' m1 in
            rw inside (
              rw
                (split_loop-sum f seg_to (remaining - part) (omega arith) (omega arith) l (
                  cover_rest amount (to - from) d e (remaining - part) part remaining (omega arith)
                    inv' m1))
                (omega arith))
        | inr last ↦ rw last (omega arith)
      ])

  split_loop-Overlaps :
      (f seg_from remaining : ℕ)
      → from ≤ seg_from
      → All Overlaps (split_loop length to amount (to - from) f seg_from remaining)
  unfolding split_loop
  split_loop-Overlaps zero seg_from remaining h = tt
  split_loop-Overlaps (suc f) seg_from remaining h =
      let seg_to = start_of length seg_from + length in
      let (s1, s2) = start_facts seg_from in
      let aligned : start_of length seg_from % length ≡ 0 = start_aligned seg_from in
      elim (Bool-cases (ltb seg_from to)) [
        | inr over ↦ rw over tt
        | inl running ↦ rw running (elim (Bool-cases (ltb seg_to to)) [
          | inl inside ↦ rw inside (
            (aligned, omega (arith, ltb→lt _ _ running), omega arith),
            split_loop-Overlaps f seg_to _ (omega arith),
          )
          | inr last ↦ rw last ((aligned, omega (arith, ltb→lt _ _ running), omega arith), tt)
        ])
      ]

-- On windows of a positive length, a delta of an int64 over an interval that is not empty is divided
-- without loss: the shares add up to the whole amount, and each goes to a window, started on the
-- grid, that overlaps the interval. The loop ends within its fuel.
pub split-sum :
    (length from to amount : ℕ)
    → 0 < length
    → amount < 2 ^ 63
    → from < to
    → (sum_of (λ p. p.share) (split length from to (pos amount)) ≡ amount)
      × All
          (λ p. (p.start % length ≡ 0) × (p.start < to) × (from < p.start + length))
          (split length from to (pos amount))
unfolding split
split-sum length from to amount positive small before =
    let running : leb to from ≡ false = ground arith in
    rw running (
      split_loop-sum length to amount from positive small before (to - from) from amount
          (omega arith) (omega arith) before (omega arith),
      split_loop-Overlaps length to amount from positive small before (to - from) from amount
          (omega arith),
    )

-- An empty or reversed interval, and a negative amount, give no part.
pub split_none :
    (length from to n : ℕ) (amount : ℤ)
    → (split length from to (negsuc n) ≡ []) × (to ≤ from → split length from to amount ≡ [])
unfolding split
split_none length from to n (pos a) = (refl, λ h. ground arith)
split_none length from to n (negsuc a) = (refl, λ h. refl)

-- An int64 as a counter's delta: a negative one counts nothing.
abbrev pub counted : ℤ → ℕ
counted (pos n) = n
counted (negsuc n) = 0

abbrev pub Fits : ℤ → Type 0
Fits (pos n) = n < 2 ^ 63
Fits (negsuc n) = Unit

pub split-counted :
    (length from to : ℕ) (z : ℤ)
    → 0 < length
    → Fits z
    → from < to
    → sum_of (λ p. p.share) (split length from to z) ≡ counted z
split-counted length from to (pos n) positive fits before =
    (split-sum length from to n positive fits before).0
split-counted length from to (negsuc n) positive fits before =
    ap (sum_of (λ p. p.share)) (split_none length from to n (pos 0)).0
