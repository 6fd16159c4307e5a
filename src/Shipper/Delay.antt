-- ===== src/Shipper/Delay.antt =====
-- internal/shipper/shipper.go: `nextDelay`, in nanoseconds. The jitter is a parameter, a draw from
-- the numbers below its argument.
use native.Mathlib.Nat.{pow-suc}
use runtime_agent.Prelude.{
  ap, ◌∙◌, ℕ, zero, suc, ◌+◌, ◌-◌, ◌*◌, ◌/◌, ◌^◌, ◌≤◌, ◌<◌, ◌≡◌, ◌⊎◌, arith, min, ltb, ◌==◌,
  if◌then◌else◌,
}
use runtime_agent.Sink.Registry.{second, minute}

abbrev pub default_interval : ℕ
default_interval = 30 * second

abbrev pub min_backoff : ℕ
min_backoff = 5 * second

abbrev pub max_backoff : ℕ
max_backoff = 5 * minute

-- `for i := 1; i < failures && d < maxBackoff; i++ { d *= 2 }`, by the rounds left.
pub double_backoff : ℕ → ℕ → ℕ
double_backoff zero d = d
double_backoff (suc n) d = if ltb d max_backoff then double_backoff n (d * 2) else d

pub backoff : ℕ → ℕ
unfolding double_backoff
backoff failures =
    let d = double_backoff (failures - 1) min_backoff in
    if ltb max_backoff d then max_backoff else d

unfoldable pub next_delay : (ℕ → ℕ) → ℕ → ℕ → ℕ
next_delay jitter interval failures =
    if failures == 0 then interval else backoff failures / 2 + jitter (backoff failures / 2)

double_backoff-bounds :
    (n d : ℕ)
    → min_backoff ≤ d
    → d < 2 * max_backoff
    → (min_backoff ≤ double_backoff n d) × (double_backoff n d < 2 * max_backoff)
unfolding double_backoff
double_backoff-bounds zero d h k = (h, k)
double_backoff-bounds (suc n) d h k = ground (arith, double_backoff-bounds n (d * 2))

pow_pos : (n : ℕ) → 1 ≤ 2 ^ n
pow_pos zero = omega arith
pow_pos (suc n) = omega (arith, pow-suc 2 n, pow_pos n)

le-mul_pos : (d t : ℕ) → 1 ≤ t → d ≤ d * t
le-mul_pos d t h = grind arith

twice-pow : (d n : ℕ) → d * 2 ^ suc n ≡ d * 2 * 2 ^ n
twice-pow d n = ap (λ (t : ℕ). d * t) (pow-suc 2 n) ∙ omega arith

double_backoff-pow : (n d : ℕ) → min max_backoff (double_backoff n d) ≡ min max_backoff (d * 2 ^ n)
unfolding double_backoff
double_backoff-pow zero d = omega arith
double_backoff-pow (suc n) d = rw twice-pow (
    ground (
      arith,
      double_backoff-pow n (d * 2),
      twice-pow d n,
      le-mul_pos d (2 ^ suc n),
      pow_pos (suc n),
    ))

-- The backoff is the smallest one doubled with every failure after the first, up to the largest.
pub backoff-pow :
    (failures : ℕ) → backoff (suc failures) ≡ min max_backoff (min_backoff * 2 ^ failures)
unfolding backoff
backoff-pow failures =
    let e : suc failures - 1 ≡ failures = omega arith in
    rw e (ground (arith, double_backoff-pow failures min_backoff))

backoff_bounds :
    (failures : ℕ) → (min_backoff ≤ backoff failures) × (backoff failures ≤ max_backoff)
unfolding backoff
backoff_bounds failures = ground (arith, double_backoff-bounds (failures - 1) min_backoff)

-- Whatever the jitter draws, the delay after a failure lies between half the smallest backoff and
-- the largest one; with no failure it is the interval.
pub next_delay_bounds :
    (jitter : ℕ → ℕ) (interval failures : ℕ)
    → ((n : ℕ) → 0 < n → jitter n < n)
    → ((failures ≡ 0) × (next_delay jitter interval failures ≡ interval))
      ⊎ ((min_backoff / 2 ≤ next_delay jitter interval failures)
          × (next_delay jitter interval failures < max_backoff))
unfolding next_delay
next_delay_bounds jitter interval failures h =
    ground (arith, backoff_bounds failures, h (backoff failures / 2))
