-- ===== src/Sink/Cadence.antt =====
-- internal/sink/cadence.go: when a payload of a kind is written. Instants and durations are
-- nanoseconds. The digest is a parameter, a function from the bytes hashed to the digest's bytes.
pub mod Lines
use mathlib.Core.Bool.{not}
use runtime_agent.Prelude.Keys.{update}
use runtime_agent.Prelude.{
  ℕ, zero, suc, ◌+◌, Bool, true, false, [], ◌∷◌, ◌++◌, Option, none, some, Text, codes, text_eq,
  has_prefix, length, ltb, leb, ◌==◌, if◌then◌else◌,
}
use runtime_agent.Sink.Registry.{Cadence, Trigger, always, changed, event}

pub record Written : Type 0 where
  pub at : ℕ
  pub fp : Text

-- `gate`: the map of natural keys to their last write.
abbrev pub Gate : Type 0
Gate = Text → Option Written

abbrev pub empty_gate : Gate
empty_gate k = none

abbrev pub is_changed : Trigger → Bool
is_changed changed = true
is_changed always = false
is_changed event = false

abbrev pub newline : ℕ
newline = 10

abbrev pub captured_at_field : Text
captured_at_field = codes "  \"captured_at\": "

-- The bytes up to and with the first newline, and the rest.
pub next_line : Text → Text × Text
next_line [] = ([], [])
next_line (c ∷ d) =
    if c == newline then (c ∷ [], d) else (let (line, rest) = next_line d in (c ∷ line, rest))

-- What `fingerprint` writes to the hash: the lines that do not date the capture. The loop takes at
-- least a byte a round, so the length of the bytes is enough fuel.
pub hashed_lines : ℕ → Text → Text
hashed_lines zero d = []
hashed_lines (suc f) [] = []
hashed_lines (suc f) (c ∷ d) =
    let (line, rest) = next_line (c ∷ d) in
    let tail = hashed_lines f rest in
    if has_prefix line captured_at_field then tail else line ++ tail

-- The digest that `due` returns where no comparison is made.
abbrev pub zero_digest : ℕ → Text
zero_digest zero = []
zero_digest (suc n) = 0 ∷ zero_digest n

-- The answer once a previous write of the key is known, or none.
pub decide_due : Option Written → Cadence → Text → ℕ → Bool
decide_due none c fp now = true
decide_due (some prev) c fp now =
    if leb (prev.at + c.ceiling) now
    then true
    else if ltb now (prev.at + c.floor)
    then false
    else not (text_eq fp prev.fp)

module _ (hash : Text → Text) where
  unfoldable pub fingerprint : Text → Text
  unfolding hashed_lines next_line
  fingerprint bytes = hash (hashed_lines (length bytes) bytes)

  -- `gate.due`
  unfoldable pub due : Gate → Text → Cadence → Text → ℕ → Text × Bool
  unfolding decide_due
  due g key c bytes now =
      if not (is_changed c.trigger)
      then (zero_digest 32, true)
      else (let fp = fingerprint bytes in (fp, decide_due (g key) c fp now))

-- `gate.wrote`
unfoldable pub wrote : Gate → Text → Cadence → Text → ℕ → Gate
wrote g key c fp now =
    if not (is_changed c.trigger) then g else update g key (some (record { at = now; fp = fp }))

forget_before : ℕ → Option Written → Option Written
forget_before cutoff none = none
forget_before cutoff (some w) = if ltb w.at cutoff then none else some w

-- `gate.prune`
unfoldable pub prune : Gate → ℕ → Gate
unfolding forget_before
prune g cutoff key = forget_before cutoff (g key)
