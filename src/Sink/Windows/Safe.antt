-- ===== src/Sink/Windows/Safe.antt =====
-- internal/sink/spool.go: the bytes of a window's name.
use runtime_agent.Prelude.Int.{ℤ, pos, negsuc}
use runtime_agent.Prelude.{
  ℕ, zero, suc, ◌+◌, ◌/◌, ◌%◌, ◌<◌, ◌≡◌, ◌∙◌, false, ◌||◌, [], ◌∷◌, ◌++◌, contains_byte, ltb, Text,
  arith, refl, inl, inr, Bool-cases,
}
use runtime_agent.Sink.Names.{dash}
use runtime_agent.Sink.Names.Plain.{Safe, Safe-append, is_digit-Safe, dash-Safe}
use runtime_agent.Sink.Windows.{
  WindowKey, decimal_loop, decimal, format_int, unix, window_numbers, window_name,
  usage_name_prefix,
}

decimal_loop-Safe : (f n : ℕ) (s : Text) → Safe s → Safe (decimal_loop f n s)
unfolding decimal_loop
decimal_loop-Safe zero n s a = a
decimal_loop-Safe (suc f) n s a = elim (Bool-cases (ltb n 10)) [
  | inl e ↦ rw e (is_digit-Safe n (ground arith), a)
  | inr e ↦
      rw e
        (decimal_loop-Safe f (n / 10) ((48 + n % 10) ∷ s) (is_digit-Safe (n % 10) (omega arith), a))
]

decimal-Safe : (n : ℕ) → Safe (decimal n)
unfolding decimal
decimal-Safe n = decimal_loop-Safe 20 n [] tt

pub format_int-Safe : (z : ℤ) → Safe (format_int z)
unfolding format_int
format_int-Safe (pos n) = decimal-Safe n
format_int-Safe (negsuc n) = (dash-Safe, decimal-Safe (suc n))

pub window_numbers-Safe : (k : WindowKey) → Safe (window_numbers k)
unfolding window_numbers
window_numbers-Safe k =
    Safe-append (format_int (unix k.0)) (dash ∷ decimal k.1) (format_int-Safe (unix k.0))
      (dash-Safe, decimal-Safe k.1)

pub contains_byte-append :
    (c : ℕ) (s t : Text) → contains_byte c (s ++ t) ≡ (contains_byte c s || contains_byte c t)
unfolding contains_byte
contains_byte-append c [] t = refl
contains_byte-append c (a ∷ s) t = ground (arith, contains_byte-append c s t)

-- The digits have no byte above them.
contains_byte-decimal_loop :
    (c f n : ℕ) (s : Text) → 57 < c → contains_byte c (decimal_loop f n s) ≡ contains_byte c s
unfolding decimal_loop contains_byte
contains_byte-decimal_loop c zero n s h = refl
contains_byte-decimal_loop c (suc f) n s h =
    ground (arith, contains_byte-decimal_loop c f (n / 10) ((48 + n % 10) ∷ s) h)

contains_byte-format_int : (c : ℕ) (z : ℤ) → 57 < c → contains_byte c (format_int z) ≡ false
unfolding format_int decimal contains_byte
contains_byte-format_int c (pos n) h = contains_byte-decimal_loop c 20 n [] h
contains_byte-format_int c (negsuc n) h =
    ground (arith, contains_byte-decimal_loop c 20 (suc n) [] h)

contains_byte-window_numbers :
    (c : ℕ) (k : WindowKey) → 57 < c → contains_byte c (window_numbers k) ≡ false
unfolding window_numbers decimal contains_byte
contains_byte-window_numbers c k h =
    contains_byte-append c (format_int (unix k.0)) (dash ∷ decimal_loop 20 k.1 [])
    ∙ ground
        (arith, contains_byte-format_int c (unix k.0) h, contains_byte-decimal_loop c 20 k.1 [] h)

-- Behind the prefix, a window's name has no letter.
pub contains_byte-window_name :
    (c : ℕ) (k : WindowKey)
    → 57 < c
    → contains_byte c (window_name k) ≡ contains_byte c usage_name_prefix
unfolding window_name
contains_byte-window_name c k h =
    contains_byte-append c usage_name_prefix (window_numbers k)
    ∙ ground (arith, contains_byte-window_numbers c k h)
