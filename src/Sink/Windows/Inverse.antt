-- ===== src/Sink/Windows/Inverse.antt =====
-- internal/sink/spool.go and recover.go: the name of a window's file, read back.
use mathlib.Core.List.{reverse, reverse-append}
use runtime_agent.Prelude.Int.{pos}
use runtime_agent.Prelude.{
  ℕ, zero, suc, ◌+◌, ◌-◌, ◌*◌, ◌/◌, ◌%◌, ◌^◌, ◌<◌, true, false, [], ◌∷◌, ◌++◌, some, ◌==◌, ==_iff,
  ◌∙◌, All, ltb, lt→ltb, leb, Text, has_prefix, has_suffix, take, length, length-append, ◌≡◌, refl,
  ap, inl, inr, Bool-cases, arith,
}
use runtime_agent.Sink.Names.{dash, is_digit}
use runtime_agent.Sink.Registry.{second}
use runtime_agent.Sink.Windows.{
  unix_offset, unix, from_unix, decimal_loop, decimal, format_int, parse_digits, magnitude,
  to_int64, parse_int, cut_prefix, trim_suffix, cut_dash, window_numbers, positive_length,
  parse_parts, parse_window_name,
}

abbrev AllDigits : Text → Type 0
AllDigits t = All (λ c. is_digit c ≡ true) t

digit_of : (n : ℕ) → n < 10 → is_digit (48 + n) ≡ true
digit_of n h = ground arith

parse_digits_cons :
    (n : ℕ) (s : Text) (acc m : ℕ)
    → n < 10
    → acc * 10 + n ≡ m
    → parse_digits ((48 + n) ∷ s) acc ≡ parse_digits s m
unfolding parse_digits
parse_digits_cons n s acc m h e =
    let d : acc * 10 + (48 + n - 48) ≡ m = omega (arith, e) in rw (digit_of n h, d) refl

-- The digits of a number, read back.
parse_digits-decimal_loop :
    (f n : ℕ) (s : Text) → n < 10 ^ f → parse_digits (decimal_loop f n s) 0 ≡ parse_digits s n
unfolding decimal_loop
parse_digits-decimal_loop zero n s h = ap (parse_digits s) (omega (arith, h))
parse_digits-decimal_loop (suc f) n s h = elim (Bool-cases (ltb n 10)) [
  | inl e ↦ rw e (parse_digits_cons n s 0 n (ground arith) (omega arith))
  | inr e ↦ rw e (
      parse_digits-decimal_loop f (n / 10) ((48 + n % 10) ∷ s) (omega (arith, h))
      ∙ parse_digits_cons (n % 10) s (n / 10) n (omega arith) (omega arith))
]

decimal_loop-AllDigits :
    (f n : ℕ) (s : Text) → n < 10 ^ f → AllDigits s → AllDigits (decimal_loop f n s)
unfolding decimal_loop
decimal_loop-AllDigits zero n s h a = a
decimal_loop-AllDigits (suc f) n s h a = elim (Bool-cases (ltb n 10)) [
  | inl e ↦ rw e (digit_of n (ground arith), a)
  | inr e ↦ rw e (
      decimal_loop-AllDigits f (n / 10) ((48 + n % 10) ∷ s) (omega (arith, h))
        (digit_of (n % 10) (omega arith), a))
]

length-decimal_loop : (f n : ℕ) (s : Text) → length s < length (decimal_loop (suc f) n s)
unfolding decimal_loop
length-decimal_loop zero n s = ground arith
length-decimal_loop (suc f) n s = ground (arith, length-decimal_loop f (n / 10) ((48 + n % 10) ∷ s))

parse_int_digits :
    (t : Text) (n : ℕ)
    → AllDigits t
    → 0 < length t
    → parse_digits t 0 ≡ some n
    → n < 2 ^ 63
    → parse_int t ≡ some (pos n)
unfolding parse_int magnitude to_int64
parse_int_digits [] n a l p h = absurd (omega (arith, l))
parse_int_digits (c ∷ t) n (d, a) l p h =
    let plus : (c == b'+') ≡ false = ground arith in
    let minus : (c == dash) ≡ false = ground arith in rw (plus, minus, p, lt→ltb n (2 ^ 63) h) refl

parse_int-decimal : (n : ℕ) → n < 2 ^ 63 → parse_int (decimal n) ≡ some (pos n)
unfolding decimal parse_digits
parse_int-decimal n h =
    let small : n < 10 ^ 20 = omega (arith, h) in
    parse_int_digits (decimal_loop 20 n []) n (decimal_loop-AllDigits 20 n [] small tt)
      (length-decimal_loop 19 n []) (parse_digits-decimal_loop 20 n [] small) h

cut_prefix-append : (p t : Text) → cut_prefix (p ++ t) p ≡ some t
unfolding cut_prefix
cut_prefix-append [] t = refl
cut_prefix-append (c ∷ p) t = rw ((==_iff c c).1 refl) (cut_prefix-append p t)

cut_dash-append : (d t : Text) → AllDigits d → cut_dash (d ++ dash ∷ t) ≡ some (d, t)
unfolding cut_dash
cut_dash-append [] t a = refl
cut_dash-append (c ∷ d) t (e, a) =
    let minus : (c == dash) ≡ false = ground arith in rw (minus, cut_dash-append d t a) refl

unix-from_unix : (u : ℕ) → unix (from_unix u) ≡ pos u
unfolding unix
unix-from_unix u =
    let e : (u + unix_offset) * second / second ≡ u + unix_offset = omega arith in
    let l : leb unix_offset (u + unix_offset) ≡ true = ground arith in
    rw (e, l) (ap pos (omega arith))

decimal-AllDigits : (n : ℕ) → n < 2 ^ 63 → AllDigits (decimal n)
unfolding decimal
decimal-AllDigits n h = decimal_loop-AllDigits 20 n [] (omega (arith, h)) tt

parts_read :
    (prefix d e : Text) (u s : ℕ)
    → AllDigits d
    → parse_int d ≡ some (pos u)
    → parse_int e ≡ some (pos (suc s))
    → parse_window_name (prefix ++ (d ++ dash ∷ e)) prefix ≡ some (from_unix u, suc s)
unfolding parse_window_name parse_parts positive_length
parts_read prefix d e u s a hd he =
    rw
      (
        parse_window_name,
        cut_prefix-append prefix (d ++ dash ∷ e),
        cut_dash-append d e a,
        parse_parts,
        hd,
        positive_length,
        he,
      )
      refl

format_pos : (u s : ℕ) → format_int (pos u) ++ dash ∷ decimal s ≡ decimal u ++ dash ∷ decimal s
unfolding format_int
format_pos u s = refl

window_numbers-from_unix :
    (u s : ℕ) → window_numbers (from_unix u, s) ≡ decimal u ++ dash ∷ decimal s
unfolding window_numbers
window_numbers-from_unix u s =
    ap (λ z. format_int z ++ dash ∷ decimal s) (unix-from_unix u) ∙ format_pos u s

-- The window that starts at `u` seconds past 1970 and is `s` seconds long, both of them in the
-- range of an int64 and `s` not zero, is read back from the name that is written under any prefix.
pub parse_window_name-window_numbers :
    (prefix : Text) (u s : ℕ)
    → u < 2 ^ 63
    → 0 < s
    → s < 2 ^ 63
    → parse_window_name (prefix ++ window_numbers (from_unix u, s)) prefix ≡ some (from_unix u, s)
parse_window_name-window_numbers prefix u zero hu hz hs = absurd (omega (arith, hz))
parse_window_name-window_numbers prefix u (suc s) hu hz hs =
    rw (window_numbers-from_unix u (suc s)) (
      parts_read prefix (decimal u) (decimal (suc s)) u s (decimal-AllDigits u hu)
        (parse_int-decimal u hu) (parse_int-decimal (suc s) hs))

has_prefix-append : (p t : Text) → has_prefix (p ++ t) p ≡ true
unfolding has_prefix
has_prefix-append [] t = ground arith
has_prefix-append (c ∷ p) t = rw ((==_iff c c).1 refl) (has_prefix-append p t)

take-append : (t s : Text) → take (length t) (t ++ s) ≡ t
unfolding take
take-append [] s = refl
take-append (c ∷ t) s = ap (λ r. c ∷ r) (take-append t s)

pub trim_suffix-append : (t s : Text) → trim_suffix (t ++ s) s ≡ t
unfolding trim_suffix has_suffix
trim_suffix-append t s =
    let e : has_prefix (reverse (t ++ s)) (reverse s) ≡ true =
      ap (λ r. has_prefix r (reverse s)) (reverse-append t s)
      ∙ has_prefix-append (reverse s) (reverse t) in
    let n : length (t ++ s) - length s ≡ length t = omega (arith, length-append t s) in
    rw (e, n) (take-append t s)
