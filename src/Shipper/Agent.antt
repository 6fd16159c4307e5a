-- ===== src/Shipper/Agent.antt =====
-- internal/shipper/agent.go: the name that the agent gives itself in a request.
use runtime_agent.Prelude.{
  ℕ, ◌+◌, ◌≤◌, ◌≡◌, Bool, true, false, ◌&&◌, ◌||◌, not, [], ◌∷◌, ◌++◌, Text, codes, arith, length,
  length-append, ltb, ◌==◌, if◌then◌else◌,
}
use runtime_agent.Sink.Names.{is_digit, is_lower, is_upper}

abbrev pub product : Text
product = codes "runtime-agent"

abbrev pub max_version : ℕ
max_version = 64

pub is_version_rune : ℕ → Bool
is_version_rune r =
    is_digit r || is_lower r || is_upper r || r == b'.' || r == b'-' || r == b'+' || r == b'_'

pub plain_version : Text → Bool
unfolding is_version_rune
plain_version [] = true
plain_version (r ∷ s) = is_version_rune r && plain_version s

unfoldable pub user_agent : Text → Text
unfolding plain_version
user_agent version =
    if length version == 0 || ltb max_version (length version) || not (plain_version version)
    then product
    else product ++ b'/' ∷ version

-- The header is the product alone, or with a version made of the allowed characters, and is never
-- longer than the product, a slash and 64 more bytes.
pub user_agent_bounded :
    (version : Text)
    → (length (user_agent version) ≤ length product + 1 + max_version)
      × (plain_version version ≡ false → user_agent version ≡ product)
unfolding user_agent
user_agent_bounded version = ground (arith, length-append product (b'/' ∷ version))
