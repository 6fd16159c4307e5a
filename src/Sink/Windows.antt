-- ===== src/Sink/Windows.antt =====
-- internal/sink/spool.go and recover.go: the names of the windows' files, and their inverse. An
-- instant is its nanoseconds since Go's zero time; the seconds of a window are not negative, and no
-- name stands for an instant past the range of `time.Time`.
pub mod Inverse
pub mod Safe
use runtime_agent.Prelude.Int.{ℤ, pos, negsuc}
use runtime_agent.Prelude.Keys.{Eq, nat_key, pair_key}
use runtime_agent.Prelude.{
  ℕ, zero, suc, ◌+◌, ◌-◌, ◌*◌, ◌/◌, ◌%◌, ◌^◌, Bool, true, false, List, [], ◌∷◌, ◌++◌, Option, none,
  some, ltb, leb, ◌==◌, if◌then◌else◌, Text, codes, length, has_suffix, take,
}
use runtime_agent.Sink.Names.{dash, is_digit}
use runtime_agent.Sink.Registry.{second}

-- `windowKey`, as (start, seconds).
abbrev pub WindowKey : Type 0
WindowKey = ℕ × ℕ

-- Go's zero time is this many seconds before 1970.
abbrev pub unix_offset : ℕ
unix_offset = 62135596800

-- `Unix` of an instant.
unfoldable pub unix : ℕ → ℤ
unix at =
    if leb unix_offset (at / second)
    then pos (at / second - unix_offset)
    else negsuc (unix_offset - at / second - 1)

-- `time.Unix(s, 0)`, of no instant before 1970.
abbrev pub from_unix : ℕ → ℕ
from_unix s = (s + unix_offset) * second

-- The decimal digits of a number, before `s`; twenty are enough for a uint64.
pub decimal_loop : ℕ → ℕ → Text → Text
decimal_loop zero n s = s
decimal_loop (suc f) n s =
    let rest = decimal_loop f (n / 10) ((48 + n % 10) ∷ s) in
    if ltb n 10 then (48 + n) ∷ s else rest

-- `%d`
unfoldable pub decimal : ℕ → Text
unfolding decimal_loop
decimal n = decimal_loop 20 n []

unfoldable pub format_int : ℤ → Text
unfolding decimal
format_int (pos n) = decimal n
format_int (negsuc n) = dash ∷ decimal (suc n)

-- The decimal digits of a text, after those that gave `acc`.
pub parse_digits : Text → ℕ → Option ℕ
parse_digits [] acc = some acc
parse_digits (c ∷ t) acc = if is_digit c then parse_digits t (acc * 10 + (c - 48)) else none

pub magnitude : Text → Option ℕ
unfolding parse_digits
magnitude [] = none
magnitude (c ∷ t) = parse_digits (c ∷ t) 0

pub to_int64 : Bool → Option ℕ → Option ℤ
to_int64 negative none = none
to_int64 false (some n) = if ltb n (2 ^ 63) then some (pos n) else none
to_int64 true (some zero) = some (pos 0)
to_int64 true (some (suc n)) = if ltb n (2 ^ 63) then some (negsuc n) else none

-- `strconv.ParseInt` in base 10 and 64 bits.
unfoldable pub parse_int : Text → Option ℤ
unfolding magnitude to_int64
parse_int [] = none
parse_int (c ∷ t) =
    if c == b'+'
    then to_int64 false (magnitude t)
    else if c == dash
    then to_int64 true (magnitude t)
    else to_int64 false (magnitude (c ∷ t))

-- `strings.CutPrefix`
unfoldable pub cut_prefix : Text → Text → Option Text
cut_prefix t [] = some t
cut_prefix [] (p ∷ ps) = none
cut_prefix (c ∷ t) (p ∷ ps) = if c == p then cut_prefix t ps else none

-- `strings.TrimSuffix`
unfoldable pub trim_suffix : Text → Text → Text
trim_suffix t s = if has_suffix t s then take (length t - length s) t else t

-- `strings.Cut` at the first dash.
unfoldable pub cut_dash : Text → Option (Text × Text)
cut_dash [] = none
cut_dash (c ∷ t) =
    let rest = cut_dash t in
    if c == dash then some ([], t) else elim rest [ none ↦ none | some (a, b) ↦ some (c ∷ a, b) ]

abbrev pub usage_name_prefix : Text
usage_name_prefix = codes "usage-"

abbrev pub usage_snapshot_suffix : Text
usage_snapshot_suffix = codes ".snapshot.json"

abbrev pub json_suffix : Text
json_suffix = codes ".json"

-- The numbers in the name of a window's file.
unfoldable pub window_numbers : WindowKey → Text
unfolding unix format_int decimal
window_numbers k = format_int (unix k.0) ++ dash ∷ decimal k.1

-- `windowKey.name`
unfoldable pub window_name : WindowKey → Text
unfolding window_numbers
window_name k = usage_name_prefix ++ window_numbers k

-- `journalWindowName`
unfoldable pub journal_window_name : Text → WindowKey → Text
unfolding window_numbers
journal_window_name prefix k = prefix ++ window_numbers k ++ json_suffix

-- The multiplication of an int64 by `time.Second`, which wraps.
pub seconds_duration : ℕ → ℤ
seconds_duration s =
    let w = s * second % 2 ^ 64 in if ltb w (2 ^ 63) then pos w else negsuc (2 ^ 64 - w - 1)

-- `windowKey.end`; an instant before Go's zero time is that time here.
unfoldable pub window_end : WindowKey → ℕ
unfolding seconds_duration
window_end k = elim (seconds_duration k.1) [ pos d ↦ k.0 + d | negsuc d ↦ k.0 - suc d ]

pub positive_length : ℕ → Option ℤ → Option WindowKey
positive_length start none = none
positive_length start (some (negsuc n)) = none
positive_length start (some (pos zero)) = none
positive_length start (some (pos (suc n))) = some (from_unix start, suc n)

-- Past the cut of a name at its first dash, which leaves no sign before the first number.
pub parse_parts : Text × Text → Option WindowKey
unfolding positive_length parse_int
parse_parts (u, s) = elim (parse_int u) [
  | none ↦ none
  | some (negsuc n) ↦ none
  | some (pos start) ↦ positive_length start (parse_int s)
]

-- `parseWindowName`
unfoldable pub parse_window_name : Text → Text → Option WindowKey
unfolding parse_parts cut_prefix cut_dash
parse_window_name name prefix = elim (cut_prefix name prefix) [
  | none ↦ none
  | some rest ↦ elim (cut_dash rest) [ none ↦ none | some parts ↦ parse_parts parts ]
]
