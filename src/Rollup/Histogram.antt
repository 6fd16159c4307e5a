-- ===== src/Rollup/Histogram.antt =====
-- internal/rollup/histogram.go: the frozen bucket grid. A uint64 is a number below 2 ^ 64, an int64
-- an integer. The map of counts is a function, 0 where the map has no entry; counts do not wrap.
pub mod Grid
pub mod Merging
use runtime_agent.Prelude.Int.{ℤ, pos, negsuc}
use runtime_agent.Prelude.{
  ℕ, zero, suc, ◌+◌, ◌-◌, ◌*◌, ◌/◌, ◌%◌, ◌^◌, List, [], ◌∷◌, Option, none, some, ltb, leb, ◌==◌,
  if◌then◌else◌,
}

abbrev pub u64 : ℕ
u64 = 2 ^ 64

-- 2 ^ (m / 8) in 32.32 fixed point.
pub octave_step : ℕ → ℕ
octave_step zero = 4294967296
octave_step (suc zero) = 4683695048
octave_step (suc (suc zero)) = 5107605667
octave_step (suc (suc (suc zero))) = 5569883475
octave_step (suc (suc (suc (suc zero)))) = 6074001000
octave_step (suc (suc (suc (suc (suc zero))))) = 6623745059
octave_step (suc (suc (suc (suc (suc (suc zero)))))) = 7223245206
octave_step (suc (suc (suc (suc (suc (suc (suc m))))))) = 7877004752

abbrev pub cpu_anchor_shift : ℕ
cpu_anchor_shift = 0

abbrev pub memory_anchor_shift : ℕ
memory_anchor_shift = 20

pub record Histogram : Type 0 where
  pub anchor_shift : ℕ
  pub counts : ℕ → ℕ

abbrev pub empty_histogram : ℕ → Histogram
empty_histogram a = record { anchor_shift = a; counts = λ i. 0 }

-- The product as `bits.Mul64` returns it, shifted right by 32; the two halves share no bit, so
-- their `|` is their sum.
pub shift_product : ℕ → ℕ
shift_product p = (p / u64 * 2 ^ 32) % u64 + p % u64 / 2 ^ 32

-- `bound`, on an index that is not negative.
unfoldable pub bound : ℕ → ℕ → ℕ
unfolding octave_step shift_product
bound a j =
    if ltb 62 (a + j / 8) then u64 - 1 else shift_product (2 ^ (a + j / 8) * octave_step (j % 8))

-- `bits.Len64`, by the bits left.
pub bit_length : ℕ → ℕ → ℕ
bit_length zero x = 0
bit_length (suc f) x = if x == 0 then 0 else suc (bit_length f (x / 2))

-- The loop of `Index`, from the step `m` down to 1.
pub find_step : ℕ → ℕ → ℕ → ℕ → ℕ
find_step a q u zero = 8 * q + 1
find_step a q u (suc m) =
    if leb (bound a (8 * q + suc m)) u then 8 * q + suc m + 1 else find_step a q u m

-- `Index`
unfoldable pub index : ℕ → ℤ → ℕ
unfolding bit_length find_step bound
index a (negsuc n) = 0
index a (pos u) = if ltb u (2 ^ a) then 0 else find_step a (bit_length 64 (u / 2 ^ a) - 1) u 7

-- `LowerBound`
unfoldable pub lower_bound : ℕ → ℕ → ℕ
unfolding bound
lower_bound a zero = 0
lower_bound a (suc i) = bound a i

-- `UpperBound`
unfoldable pub upper_bound : ℕ → ℕ → ℕ
unfolding bound
upper_bound a i = bound a i

-- `Observe`
unfoldable pub observe : Histogram → ℤ → Histogram
unfolding index
observe h v = record h {
  counts = λ i. if index h.anchor_shift v == i then h.counts i + 1 else h.counts i;
}

-- `Merge`: none on different anchors.
unfoldable pub merge : Histogram → Histogram → Option Histogram
merge h o =
    if h.anchor_shift == o.anchor_shift
    then some (record h { counts = λ i. h.counts i + o.counts i })
    else none
