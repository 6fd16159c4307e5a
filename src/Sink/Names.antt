-- ===== src/Sink/Names.antt =====
-- internal/sink/spool.go: the names of spool files. A string is the list of its code points.
pub mod Safe
pub mod Plain
use mathlib.Core.List.{reverse}
use runtime_agent.Prelude.{
  ℕ, ◌-◌, Bool, true, ◌&&◌, ◌||◌, not, [], ◌∷◌, Text, codes, text_eq, contains_byte, length, leb,
  ◌==◌, if◌then◌else◌,
}

abbrev pub dash : ℕ
dash = b'-'

abbrev pub dot : ℕ
dot = b'.'

abbrev pub slash : ℕ
slash = b'/'

abbrev pub backslash : ℕ
backslash = 92

abbrev pub is_digit : ℕ → Bool
is_digit r = leb b'0' r && leb r b'9'

abbrev pub is_lower : ℕ → Bool
is_lower r = leb b'a' r && leb r b'z'

abbrev pub is_upper : ℕ → Bool
is_upper r = leb b'A' r && leb r b'Z'

-- Kept as it is by `fileToken` and `digestFileToken`, a dot aside.
pub is_name_rune : ℕ → Bool
is_name_rune r = is_digit r || is_lower r || is_upper r || r == dash || r == b'_'

abbrev pub file_token_max : ℕ
file_token_max = 63

abbrev pub unnamed : Text
unnamed = codes "unnamed"

-- The byte that the loop of `fileToken` writes for a rune.
pub token_byte : ℕ → ℕ
unfolding is_name_rune
token_byte r = if is_name_rune r then r else if r == dot then r else dash

-- The loop: `room` more bytes may be written, and it stops at the byte that fills the component.
pub token_loop : ℕ → Text → Text
unfolding token_byte
token_loop room [] = []
token_loop room (r ∷ s) =
    let rest = token_loop (room - 1) s in token_byte r ∷ (if leb room 1 then [] else rest)

pub all_dots : Text → Bool
all_dots [] = true
all_dots (b ∷ s) = b == dot && all_dots s

unfoldable pub file_token : Text → Text
unfolding token_loop all_dots
file_token s =
    let b = token_loop file_token_max s in if length b == 0 || all_dots b then unnamed else b

digest_byte : ℕ → ℕ
unfolding is_name_rune
digest_byte r = if is_name_rune r then r else dash

unfoldable pub digest_file_token : Text → Text
unfolding digest_byte
digest_file_token [] = []
digest_file_token (r ∷ s) = digest_byte r ∷ digest_file_token s

-- What stands behind the last colon, or all of it.
pub after_last_colon : Text → Text
unfolding contains_byte
after_last_colon [] = []
after_last_colon (c ∷ s) =
    if contains_byte b':' s then after_last_colon s else if c == b':' then s else c ∷ s

abbrev pub short_digest_len : ℕ
short_digest_len = 12

abbrev pub no_digest : Text
no_digest = codes "nodigest"

abbrev pub is_hex : ℕ → Bool
is_hex r = is_digit r || (leb b'a' r && leb r b'f')

-- The loop of `shortDigest`; `room` counts down from twelve.
pub hex_loop : ℕ → Text → Text
hex_loop room [] = []
hex_loop room (r ∷ s) =
    let rest = hex_loop (room - 1) s in
    let skipped = hex_loop room s in
    if is_hex r then r ∷ (if room == 1 then [] else rest) else skipped

unfoldable pub short_digest : Text → Text
unfolding after_last_colon hex_loop
short_digest digest =
    let short = hex_loop short_digest_len (after_last_colon digest) in
    if length short == 0 then no_digest else short

pub drop_slashes : Text → Text
drop_slashes [] = []
drop_slashes (c ∷ s) = if c == slash then drop_slashes s else c ∷ s

pub until_slash : Text → Text
until_slash [] = []
until_slash (c ∷ s) = if c == slash then [] else c ∷ until_slash s

-- `filepath.Base` on a system whose separator is a slash.
pub base : Text → Text
unfolding drop_slashes until_slash
base [] = dot ∷ []
base (c ∷ s) =
    let last = reverse (until_slash (drop_slashes (reverse (c ∷ s)))) in
    if length last == 0 then slash ∷ [] else last

-- The test of `encodePayload` on a name.
unfoldable pub is_plain_name : Text → Bool
unfolding base contains_byte
is_plain_name name =
    text_eq name (base name)
    && not (contains_byte slash name || contains_byte backslash name)
    && not (text_eq name (codes "."))
    && not (text_eq name (codes ".."))
