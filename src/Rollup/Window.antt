-- ===== src/Rollup/Window.antt =====
-- internal/rollup/window.go: windows aligned to the wall clock, and the division of a counter's
-- delta between them. An instant is its nanoseconds since Go's zero time. An interval is exact, where
-- `time.Sub` saturates at 2^63 - 1 nanoseconds, about 292 years.
pub mod Split
use runtime_agent.Prelude.Int.{ℤ, pos, negsuc}
use runtime_agent.Prelude.{
  ℕ, zero, suc, ◌+◌, ◌-◌, ◌*◌, ◌/◌, ◌%◌, ◌^◌, List, [], ◌∷◌, ltb, leb, ◌==◌, if◌then◌else◌,
}
use runtime_agent.Rollup.Histogram.{u64}

abbrev pub max_int64 : ℕ
max_int64 = 2 ^ 63 - 1

-- `Truncate` of an instant to a positive length.
abbrev pub start_of : ℕ → ℕ → ℕ
start_of length at = at - at % length

-- The 128-bit product over `c`: `bits.Mul64`, then `bits.Div64`, which wants its high half below
-- the divisor.
div_wide : ℕ → ℕ → ℕ → ℕ
div_wide hi lo c =
    let q = (hi * u64 + lo) / c in
    if leb c hi then max_int64 else if ltb max_int64 q then max_int64 else q

unfoldable pub mul_div : ℤ → ℤ → ℤ → ℕ
unfolding div_wide
mul_div (pos a) (pos b) (pos c) = if c == 0 then 0 else div_wide (a * b / u64) (a * b % u64) c
mul_div (negsuc a) b c = 0
mul_div (pos a) (negsuc b) c = 0
mul_div (pos a) (pos b) (negsuc c) = 0

-- One call of `yield`.
pub record Part : Type 0 where
  pub start : ℕ
  pub share : ℕ

module _ (length to amount total : ℕ) where
  -- The loop of `split`, from `seg_from`. Each round but the last ends a window, so as many rounds
  -- as the interval has nanoseconds are enough.
  pub split_loop : ℕ → ℕ → ℕ → List Part
  split_loop zero seg_from remaining = []
  split_loop (suc f) seg_from remaining =
      let start = start_of length seg_from in
      let seg_to = start + length in
      let part = mul_div (pos amount) (pos (seg_to - seg_from)) (pos total) in
      let rest = split_loop f seg_to (remaining - part) in
      if ltb seg_from to
      then (if ltb seg_to to
          then record { start = start; share = part } ∷ rest
          else record { start = start; share = remaining } ∷ [])
      else []

unfoldable pub split : ℕ → ℕ → ℕ → ℤ → List Part
unfolding split_loop mul_div
split length from to (negsuc n) = []
split length from to (pos amount) =
    if leb to from then [] else split_loop length to amount (to - from) (to - from) from amount
