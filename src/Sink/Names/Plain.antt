-- ===== src/Sink/Names/Plain.antt =====
-- internal/sink/spool.go: a name of the bytes that its components may have passes the test of
-- `encodePayload`.
use mathlib.Core.List.{reverse, reverse-cons, reverse-reverse}
use runtime_agent.Prelude.{
  ℕ, ◌+◌, ◌-◌, ◌<◌, ◌≡◌, refl, sym, ap, subst, ◌∙◌, Bool, true, false, ◌&&◌, ◌||◌, [], ◌∷◌, ◌++◌,
  length, length-append, ◌==◌, All, All-append, if◌then◌else◌, Text, codes, text_eq, text_eq_refl,
  contains_byte, arith,
}
use runtime_agent.Sink.Names.{
  dash, slash, backslash, is_name_rune, digest_byte, digest_file_token, hex_loop, short_digest,
  short_digest_len, after_last_colon, drop_slashes, until_slash, base, is_plain_name,
}
use runtime_agent.Sink.Names.Safe.{is_token_byte}

-- Bytes that a component of a name may have.
abbrev pub Safe : Text → Type 0
Safe t = All (λ b. is_token_byte b ≡ true) t

pub Safe-append : (s t : Text) → Safe s → Safe t → Safe (s ++ t)
Safe-append s t a b = All-append (λ c. is_token_byte c ≡ true) s t a b

Safe-reverse : (t : Text) → Safe t → Safe (reverse t)
Safe-reverse [] a = tt
Safe-reverse (c ∷ t) (e, a) =
    subst Safe (sym (reverse-cons c t))
      (Safe-append (reverse t) (c ∷ []) (Safe-reverse t a) (e, tt))

no_slash : (c : ℕ) → is_token_byte c ≡ true → (c == slash) ≡ false
unfolding is_token_byte is_name_rune
no_slash c e = ground arith

no_backslash : (c : ℕ) → is_token_byte c ≡ true → (c == backslash) ≡ false
unfolding is_token_byte is_name_rune
no_backslash c e = ground arith

drop_slashes-Safe : (t : Text) → Safe t → drop_slashes t ≡ t
unfolding drop_slashes
drop_slashes-Safe [] a = refl
drop_slashes-Safe (c ∷ t) (e, a) = rw (no_slash c e) refl

until_slash-Safe : (t : Text) → Safe t → until_slash t ≡ t
unfolding until_slash
until_slash-Safe [] a = refl
until_slash-Safe (c ∷ t) (e, a) = rw (no_slash c e, until_slash-Safe t a) refl

contains_byte-Safe :
    (t : Text) → Safe t → (contains_byte slash t || contains_byte backslash t) ≡ false
unfolding contains_byte
contains_byte-Safe [] a = refl
contains_byte-Safe (c ∷ t) (e, a) =
    ground (arith, no_slash c e, no_backslash c e, contains_byte-Safe t a)

length-cons : (c : ℕ) (t : Text) → (length (c ∷ t) == 0) ≡ false
length-cons c t = ground arith

named : Text → Text
named u = if length (reverse u) == 0 then slash ∷ [] else reverse u

base-Safe : (c : ℕ) (t : Text) → Safe (c ∷ t) → base (c ∷ t) ≡ c ∷ t
unfolding base named
base-Safe c t a =
    let r = Safe-reverse (c ∷ t) a in
    let u : until_slash (drop_slashes (reverse (c ∷ t))) ≡ reverse (c ∷ t) =
      ap until_slash (drop_slashes-Safe _ r) ∙ until_slash-Safe _ r in
    ap named u
    ∙ ap (λ x. if length x == 0 then slash ∷ [] else x) (reverse-reverse (c ∷ t))
    ∙ ap (λ b. if b then slash ∷ [] else c ∷ t) (length-cons c t)

pub is_plain_name-Safe : (t : Text) → Safe t → 2 < length t → is_plain_name t ≡ true
unfolding is_plain_name text_eq contains_byte
is_plain_name-Safe [] a h = absurd (omega (arith, h))
is_plain_name-Safe (x ∷ []) a h = absurd (omega (arith, h))
is_plain_name-Safe (x ∷ y ∷ []) a h = absurd (omega (arith, h))
is_plain_name-Safe (x ∷ y ∷ z ∷ t) a h =
    rw
      (
        is_plain_name,
        base-Safe x (y ∷ z ∷ t) a,
        text_eq_refl (x ∷ y ∷ z ∷ t),
        contains_byte-Safe (x ∷ y ∷ z ∷ t) a,
      )
      (ground arith)

pub is_digit-Safe : (n : ℕ) → n < 10 → is_token_byte (48 + n) ≡ true
unfolding is_token_byte is_name_rune
is_digit-Safe n h = ground arith

pub digest_file_token-Safe : (t : Text) → Safe (digest_file_token t)
unfolding digest_file_token digest_byte is_token_byte is_name_rune
digest_file_token-Safe [] = tt
digest_file_token-Safe (c ∷ t) = (ground arith, digest_file_token-Safe t)

hex_loop-Safe : (room : ℕ) (t : Text) → Safe (hex_loop room t)
unfolding hex_loop is_token_byte is_name_rune
hex_loop-Safe room [] = tt
hex_loop-Safe room (c ∷ t) = ground (arith, hex_loop-Safe (room - 1) t, hex_loop-Safe room t)

pub short_digest-Safe : (t : Text) → Safe (short_digest t)
unfolding short_digest is_token_byte is_name_rune
short_digest-Safe t = ground (arith, hex_loop-Safe short_digest_len (after_last_colon t))

pub dash-Safe : is_token_byte dash ≡ true
unfolding is_token_byte is_name_rune
dash-Safe = refl

unfoldable pub all_safe : Text → Bool
unfolding is_token_byte
all_safe [] = true
all_safe (c ∷ t) = is_token_byte c && all_safe t

pub literal-Safe : (t : Text) → all_safe t ≡ true → Safe t
unfolding all_safe
literal-Safe [] e = tt
literal-Safe (c ∷ t) e =
    let whole : (is_token_byte c && all_safe t) ≡ true = e in
    (ground (arith, whole), literal-Safe t (ground (arith, whole)))

pub json-Safe : Safe (codes ".json")
unfolding all_safe
json-Safe = literal-Safe (codes ".json") refl

-- What `encodePayload` makes of the name of a JSON file.
pub json_name-plain : (t : Text) → Safe t → is_plain_name (t ++ codes ".json") ≡ true
json_name-plain t a =
    is_plain_name-Safe (t ++ codes ".json") (Safe-append t (codes ".json") a json-Safe)
      (omega (arith, length-append t (codes ".json")))
