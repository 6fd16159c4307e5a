-- ===== src/Rollup/Histogram/Grid.antt =====
-- A value lies between the bounds of its bucket.
use native.Mathlib.Nat.{pow-suc, div-add-mod}
use Prim.Native.Nat.{zero-le}
use native.Mathlib.Numerals.{add-one}
use runtime_agent.Prelude.Int.{pos}
use runtime_agent.Prelude.{
  ℕ, zero, suc, ◌+◌, ◌-◌, ◌*◌, ◌/◌, ◌%◌, ◌^◌, ◌≤◌, ◌<◌, ◌≡◌, ◌∙◌, ap, refl, sym, subst, inl, inr,
  false, arith, ltb, leb, ◌==◌, Bool-cases, ltb→lt, leb→le,
}
use runtime_agent.Rollup.Histogram.{
  u64, octave_step, shift_product, bound, bit_length, find_step, index, lower_bound, upper_bound,
}

pub pow_pos : (n : ℕ) → 1 ≤ 2 ^ n
pow_pos zero = omega arith
pow_pos (suc n) = omega (arith, pow-suc 2 n, pow_pos n)

pub pow-add : (m n : ℕ) → 2 ^ (m + n) ≡ 2 ^ m * 2 ^ n
pow-add m zero = let e : m + zero ≡ m = omega arith in rw e (omega arith)
pow-add m (suc n) =
    let e : m + suc n ≡ suc (m + n) = omega arith in
    rw e (
      pow-suc 2 (m + n)
      ∙ ap (λ (t : ℕ). t * 2) (pow-add m n)
      ∙ sym (omega (arith, ap (λ (t : ℕ). 2 ^ m * t) (pow-suc 2 n))))

leb-false : (x y : ℕ) → leb x y ≡ false → y < x
leb-false x y h = ground arith

le-mul_pos : (d t : ℕ) → 1 ≤ t → d ≤ d * t
le-mul_pos d t h = grind arith

mul_le : (x m y : ℕ) → x ≤ m → x * y ≤ m * y
mul_le x m y h = grind arith

pow-le-add : (m k : ℕ) → 2 ^ m ≤ 2 ^ (m + k)
pow-le-add m k = omega (arith, pow-add m k, le-mul_pos (2 ^ m) (2 ^ k) (pow_pos k))

pub pow_mono : (m n : ℕ) → m ≤ n → 2 ^ m ≤ 2 ^ n
pow_mono m n h =
    let e : m + (n - m) ≡ n = omega arith in subst (λ t. 2 ^ m ≤ 2 ^ t) e (pow-le-add m (n - m))

shift_product-eq : (p : ℕ) → p < 2 ^ 96 → shift_product p ≡ p / 2 ^ 32
unfolding shift_product
shift_product-eq p h = omega arith

octave_step_lt : (m : ℕ) → octave_step m < 2 ^ 33
unfolding octave_step
octave_step_lt m = ground arith

bound-eq : (a j : ℕ) → a + j / 8 ≤ 62 → bound a j ≡ (2 ^ (a + j / 8) * octave_step (j % 8)) / 2 ^ 32
unfolding bound
bound-eq a j h =
    let small : 2 ^ (a + j / 8) ≤ 2 ^ 62 = pow_mono (a + j / 8) 62 h in
    let e : ltb 62 (a + j / 8) ≡ false = ground arith in
    rw e (
      shift_product-eq _ (
        omega (
          arith,
          mul_le (2 ^ (a + j / 8)) (2 ^ 62) (octave_step (j % 8)) small,
          octave_step_lt (j % 8),
        )))

-- At whole octaves the boundary is the power of two itself.
bound-octave : (a q : ℕ) → a + q ≤ 62 → bound a (8 * q) ≡ 2 ^ (a + q)
unfolding octave_step
bound-octave a q h =
    let d : 8 * q / 8 ≡ q = omega arith in
    let m : 8 * q % 8 ≡ 0 = omega arith in
    bound-eq a (8 * q) (omega arith) ∙ rw (d, m) (omega arith)

bound_saturated : (a j : ℕ) → 62 < a + j / 8 → bound a j ≡ u64 - 1
unfolding bound
bound_saturated a j h = ground arith

bit_length-zero : (f : ℕ) → bit_length f 0 ≡ 0
unfolding bit_length
bit_length-zero zero = refl
bit_length-zero (suc f) = refl

one_bit : (f x : ℕ) → 0 < x → x / 2 ≡ 0 → bit_length (suc f) x ≡ 1
unfolding bit_length
one_bit f x h e = ground (arith, bit_length-zero f, ap (bit_length f) e)

-- The number of bits: one more than the exponent of the largest power of two that fits.
bit_length-pow :
    (f x : ℕ)
    → 0 < x
    → x < 2 ^ f
    → (k : ℕ) × (bit_length f x ≡ suc k) × (2 ^ k ≤ x) × (x < 2 ^ suc k)
unfolding bit_length
bit_length-pow zero x h l = absurd (omega arith)
bit_length-pow (suc f) x h l = elim (Bool-cases (x / 2 == 0)) [
  | inl small ↦ (0, one_bit f x h (ground arith), ground arith, ground arith)
  | inr more ↦
      let (k, e, lo, hi) = bit_length-pow f (x / 2) (ground arith) (omega (arith, pow-suc 2 f)) in
      (
        suc k,
        ground (arith, e),
        omega (arith, pow-suc 2 k),
        omega (arith, pow-suc 2 (suc k), pow-suc 2 k),
      )
]

abbrev Contains : ℕ → ℕ → ℕ → Type 0
Contains a u i = (lower_bound a i ≤ u) × (u < upper_bound a i)

lower_bound_one : (a n : ℕ) → lower_bound a (n + 1) ≡ bound a n
unfolding lower_bound
lower_bound_one a n = rw add-one

found_step : (a n u : ℕ) → bound a n ≤ u → u < bound a (suc n) → Contains a u (n + 1)
unfolding upper_bound
found_step a n u lo hi = (rw lower_bound_one lo, rw add-one hi)

-- The search ends in a bucket that holds the value, if the boundary below it and the one past the
-- search's start enclose the value.
find_step-Contains :
    (a q u m : ℕ)
    → bound a (8 * q) ≤ u
    → u < bound a (suc (8 * q + m))
    → Contains a u (find_step a q u m)
unfolding find_step
find_step-Contains a q u zero lo hi =
    found_step a (8 * q) u lo (let e : 8 * q + zero ≡ 8 * q = omega arith in rw e at hi)
find_step-Contains a q u (suc m) lo hi = elim (Bool-cases (leb (bound a (8 * q + suc m)) u)) [
  | inl here ↦ rw here (found_step a (8 * q + suc m) u (leb→le _ _ here) hi)
  | inr below ↦ rw below (
      find_step-Contains a q u m lo
        (let e : 8 * q + suc m ≡ suc (8 * q + m) = omega arith in rw e at (leb-false _ _ below)))
]

-- The value of a bucket's octave: `k` whole doublings of the anchor fit, and no more.
octave_of :
    (a u : ℕ)
    → 2 ^ a ≤ u
    → u < 2 ^ 63
    → (k : ℕ) × (bit_length 64 (u / 2 ^ a) ≡ suc k) × (2 ^ (a + k) ≤ u) × (u < 2 ^ (a + suc k))
octave_of a u h l =
    let x = u / 2 ^ a in
    let d : x * 2 ^ a + u % 2 ^ a ≡ u = omega (arith, div-add-mod u (2 ^ a)) in
    let r : u % 2 ^ a < 2 ^ a = omega (arith, pow_pos a) in
    let positive : 0 < x = ground (arith, d, r) in
    let (k, e, lo, hi) =
      bit_length-pow 64 x positive (omega (arith, le-mul_pos x (2 ^ a) (pow_pos a))) in
    (
      k,
      e,
      omega (arith, pow-add a k, mul_le (2 ^ k) x (2 ^ a) lo),
      omega (arith, pow-add a (suc k), mul_le (x + 1) (2 ^ suc k) (2 ^ a) (omega arith)),
    )

below_63 : (n u : ℕ) → 2 ^ n ≤ u → u < 2 ^ 63 → n ≤ 62
below_63 n u h l = elim (Bool-cases (leb n 62)) [
  | inl fits ↦ leb→le n 62 fits
  | inr past ↦ absurd (omega (arith, pow_mono 63 n (leb-false n 62 past)))
]

next_octave : (a k u : ℕ) → u < 2 ^ 63 → u < 2 ^ (a + suc k) → u < bound a (suc (8 * k + 7))
next_octave a k u l h =
    let e : suc (8 * k + 7) ≡ 8 * suc k = omega arith in
    rw e (elim (Bool-cases (leb (a + suc k) 62)) [
      | inl fits ↦ rw (bound-octave a (suc k) (leb→le _ _ fits)) h
      | inr past ↦
          let d : 8 * suc k / 8 ≡ suc k = omega arith in
          rw (bound_saturated a (8 * suc k) (rw d (leb-false _ _ past))) (omega arith)
    ])

-- Every value below 2 ^ 63 lies between the lower bound of its bucket and the exclusive upper one,
-- on any grid whose anchor is a power of two up to 2 ^ 62.
pub index-Contains :
    (a u : ℕ)
    → a ≤ 62
    → u < 2 ^ 63
    → (lower_bound a (index a (pos u)) ≤ u) × (u < upper_bound a (index a (pos u)))
unfolding index lower_bound upper_bound
index-Contains a u h l = elim (Bool-cases (ltb u (2 ^ a))) [
  | inl under ↦
      let e : a + 0 ≡ a = omega arith in
      rw under (zero-le, rw (bound-octave a 0 (omega arith)) (rw e (ltb→lt _ _ under)))
  | inr over ↦
      let (k, e, lo, hi) = octave_of a u (ground arith) l in
      let fits : a + k ≤ 62 = below_63 (a + k) u lo l in
      let q : suc k - 1 ≡ k = omega arith in
      rw (over, e, q)
        (find_step-Contains a k u 7 (rw (bound-octave a k fits) lo) (next_octave a k u l hi))
]
