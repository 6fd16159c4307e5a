-- ===== src/Sink/Names/Safe.antt =====
-- A component of a file name can neither leave the spool's directory nor be empty.
use runtime_agent.Prelude.{
  ℕ, ◌-◌, ◌≤◌, ◌<◌, ◌≡◌, refl, Bool, true, false, ◌||◌, [], ◌∷◌, Text, arith, length, All, ◌==◌,
}
use runtime_agent.Sink.Names.{
  dot, is_name_rune, token_byte, token_loop, all_dots, file_token, file_token_max,
}

-- A byte that `fileToken` may write.
unfoldable pub is_token_byte : ℕ → Bool
unfolding is_name_rune
is_token_byte b = is_name_rune b || b == dot

token_byte-safe : (r : ℕ) → is_token_byte (token_byte r) ≡ true
unfolding is_token_byte token_byte is_name_rune
token_byte-safe r = ground arith

token_loop-safe : (room : ℕ) (s : Text) → All (λ b. is_token_byte b ≡ true) (token_loop room s)
unfolding token_loop
token_loop-safe room [] = tt
token_loop-safe room (r ∷ s) = (token_byte-safe r, ground (arith, token_loop-safe (room - 1) s))

length-token_loop : (room : ℕ) (s : Text) → 0 < room → length (token_loop room s) ≤ room
unfolding token_loop
length-token_loop room [] h = omega arith
length-token_loop room (r ∷ s) h = ground (arith, length-token_loop (room - 1) s)

-- Every component of a payload's file name is a nonempty string of at most 63 bytes, each of them
-- a letter, a digit, a dash, an underscore or a dot, and not all of them dots.
pub file_token-safe :
    (s : Text)
    → All (λ b. is_token_byte b ≡ true) (file_token s)
      × (0 < length (file_token s))
      × (length (file_token s) ≤ file_token_max)
      × (all_dots (file_token s) ≡ false)
unfolding file_token is_token_byte is_name_rune
file_token-safe s =
    ground (arith, token_loop-safe file_token_max s, length-token_loop file_token_max s)

token_byte_keep : (b : ℕ) → is_token_byte b ≡ true → token_byte b ≡ b
unfolding is_token_byte token_byte is_name_rune
token_byte_keep b h = ground arith

token_loop_keep :
    (room : ℕ) (s : Text)
    → All (λ b. is_token_byte b ≡ true) s
    → length s ≤ room
    → token_loop room s ≡ s
unfolding token_loop
token_loop_keep room [] h l = refl
token_loop_keep room (r ∷ s) h l =
    ground (arith, token_byte_keep r, token_loop_keep (room - 1) s h.1)

file_token_keep :
    (s : Text)
    → All (λ b. is_token_byte b ≡ true) s
    → 0 < length s
    → length s ≤ file_token_max
    → all_dots s ≡ false
    → file_token s ≡ s
unfolding file_token
file_token_keep s h p l d = rw (token_loop_keep file_token_max s h l) (ground arith)

-- A component that is safe already is kept as it is: sanitizing twice is sanitizing once.
pub file_token-file_token : (s : Text) → file_token (file_token s) ≡ file_token s
file_token-file_token s =
    let (safe, nonempty, short, named) = file_token-safe s in
    file_token_keep (file_token s) safe nonempty short named
