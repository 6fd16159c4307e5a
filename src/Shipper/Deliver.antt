-- ===== src/Shipper/Deliver.antt =====
-- internal/shipper/shipper.go: one delivery. What the file system, the backend and the clock
-- answer during it is an `Attempt`; the decoding of a payload's envelope and its compression are
-- parameters, the functions of the packages json and gzip.
pub mod Outcomes
pub mod Verdicts
use runtime_agent.Prelude.{
  ℕ, ◌+◌, Bool, true, false, ◌&&◌, ◌||◌, [], ◌∷◌, Option, none, some, Text, length, take, ltb, leb,
  ◌==◌, if◌then◌else◌,
}
use runtime_agent.Shipper.State.{
  Shipper, FileInfo, Shipping, max_payload_bytes, same_file, hold, defer, count, one_unreadable,
  one_unauthorized, one_too_large, one_malformed,
}
use runtime_agent.Sink.Registry.{PayloadKind, lookup_kind}

-- An opened file: its identity, and its bytes where they can be read.
pub record Opened : Type 0 where
  pub info : FileInfo
  pub content : Option Text

-- `answer` is the backend's status, none where the request failed; `cancelled` is the context
-- after that; `current` is the file under the name once the payload was acknowledged.
pub record Attempt : Type 0 where
  pub opened : Option Opened
  pub answer : Option ℕ
  pub cancelled : Bool
  pub current : Option FileInfo
  pub removes : Bool
  pub clock : ℕ

-- The state after a delivery, whether the round goes on, whether a request was made, and whether
-- the file was removed.
pub record Delivery : Type 0 where
  pub shipper : Shipper
  pub goes_on : Bool
  pub offered : Bool
  pub removed : Bool

read_opened : FileInfo → Option Text → Option (Text × FileInfo)
read_opened info content =
    if ltb max_payload_bytes info.size
    then some ([], info)
    else elim content [ none ↦ none | some b ↦ some (take (max_payload_bytes + 1) b, info) ]

-- `read`: none on an error, no bytes of a file past the ceiling, and at most a byte more than the
-- ceiling of any other.
pub read : Option Opened → Option (Text × FileInfo)
unfolding read_opened
read none = none
read (some o) = read_opened o.info o.content

-- A kind that the registry holds.
registered_kind : Text → Option Text
registered_kind kind =
    if length kind == 0 then none else elim (lookup_kind kind) [ none ↦ none | some p ↦ some kind ]

pub payload_kind : (Text → Option Text) → Text → Option Text
unfolding registered_kind
payload_kind envelope bytes = elim (envelope bytes) [
  | none ↦ none
  | some kind ↦ registered_kind kind
]

-- Whether the file that was sent is still the one under the name, and goes: the stat and the
-- removal are one step, with no replacement of the file between them.
removes_sent : FileInfo → Option FileInfo → Bool → Bool
removes_sent sent none removes = false
removes_sent sent (some current) removes = same_file sent current && removes

-- `acknowledged`
pub acknowledged : Shipper → Shipper
acknowledged s = record s {
  counts = record s.counts { delivered = s.counts.delivered + 1 };
  failures = 0;
}

abbrev pub is_success : ℕ → Bool
is_success status = leb 200 status && ltb status 300

abbrev pub is_identity : ℕ → Bool
is_identity status = status == 401 || status == 403

-- The answers of `deliver` to a status.
pub settle : Shipper → Text → FileInfo → Attempt → ℕ → Delivery
unfolding acknowledged removes_sent hold defer count
settle s name info a status =
    if is_success status
    then record {
      shipper = acknowledged s;
      goes_on = true;
      offered = true;
      removed = removes_sent info a.current a.removes;
    }
    else if is_identity status
    then record {
      shipper = record (count s one_unauthorized) { halted_at = a.clock };
      goes_on = false;
      offered = true;
      removed = false;
    }
    else if status == 400
    then record {
      shipper = hold s name info one_malformed;
      goes_on = true;
      offered = true;
      removed = false;
    }
    else if status == 413
    then record {
      shipper = hold s name info one_too_large;
      goes_on = true;
      offered = true;
      removed = false;
    }
    else record { shipper = defer s; goes_on = false; offered = true; removed = false }

-- A request that failed, or that could not be made.
pub failed : Shipper → Attempt → Bool → Delivery
unfolding defer
failed s a offered =
    if a.cancelled
    then record { shipper = s; goes_on = false; offered = offered; removed = false }
    else record { shipper = defer s; goes_on = false; offered = offered; removed = false }

answered : Shipper → Text → FileInfo → Attempt → Option ℕ → Delivery
unfolding settle failed
answered s name info a none = failed s a true
answered s name info a (some status) = settle s name info a status

abbrev pub sent_bytes : ℕ → ℕ → Shipping → Shipping
sent_bytes raw encoded c = record c {
  payload_bytes = c.payload_bytes + raw;
  transmitted_bytes = c.transmitted_bytes + encoded;
}

-- `post`, from what `encode` made of the payload.
post : Shipper → Text → FileInfo → Attempt → Text → Option Text → Delivery
unfolding answered failed count
post s name info a bytes none = failed s a false
post s name info a bytes (some encoded) =
    answered (count s (sent_bytes (length bytes) (length encoded))) name info a a.answer

module _ (envelope : Text → Option Text) (gzip : Text → Option Text) where
  offer : Shipper → Text → FileInfo → Attempt → Text → Option Text → Delivery
  unfolding post count
  offer s name info a bytes none = record {
    shipper = count s one_unreadable;
    goes_on = true;
    offered = false;
    removed = false;
  }
  offer s name info a bytes (some kind) = post s name info a bytes (gzip bytes)

  deliver_read : Shipper → Text → Attempt → Option (Text × FileInfo) → Delivery
  unfolding offer payload_kind hold count
  deliver_read s name a none = record {
    shipper = count s one_unreadable;
    goes_on = true;
    offered = false;
    removed = false;
  }
  deliver_read s name a (some (bytes, info)) =
      if ltb max_payload_bytes info.size || ltb max_payload_bytes (length bytes)
      then record {
        shipper = hold s name info one_too_large;
        goes_on = true;
        offered = false;
        removed = false;
      }
      else offer s name info a bytes (payload_kind envelope bytes)

  unfoldable pub deliver : Shipper → Text → Attempt → Delivery
  unfolding deliver_read read
  deliver s name a = deliver_read s name a (read a.opened)
