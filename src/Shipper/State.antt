-- ===== src/Shipper/State.antt =====
-- internal/shipper/shipper.go: the shipper's state, its counters (internal/model/coverage.go) and
-- their updates. Counters are numbers that do not wrap. A file's identity, which `os.SameFile`
-- compares, is its inode.
use runtime_agent.Prelude.Keys.{update}
use runtime_agent.Prelude.{ℕ, ◌+◌, ◌*◌, ◌^◌, Bool, not, Option, none, some, Text, ◌==◌}

pub record FileInfo : Type 0 where
  pub inode : ℕ
  pub size : ℕ
  pub mod_time : ℕ

abbrev pub same_file : FileInfo → FileInfo → Bool
same_file a b = a.inode == b.inode

-- `model.Shipping` and `model.ShippingRejections`
pub record Shipping : Type 0 where
  pub delivered : ℕ
  pub deferred : ℕ
  pub unreadable : ℕ
  pub unauthorized : ℕ
  pub too_large : ℕ
  pub malformed : ℕ
  pub payload_bytes : ℕ
  pub transmitted_bytes : ℕ

-- `halted_at` is 0 where shipping has not halted.
pub record Shipper : Type 0 where
  pub halted_at : ℕ
  pub held : Text → Option FileInfo
  pub failures : ℕ
  pub counts : Shipping

abbrev pub max_payload_bytes : ℕ
max_payload_bytes = 4 * 2 ^ 20

abbrev pub no_counts : Shipping
no_counts = record {
  delivered = 0;
  deferred = 0;
  unreadable = 0;
  unauthorized = 0;
  too_large = 0;
  malformed = 0;
  payload_bytes = 0;
  transmitted_bytes = 0;
}

-- What `New` starts from.
abbrev pub fresh_shipper : Shipper
fresh_shipper = record { halted_at = 0; held = λ n. none; failures = 0; counts = no_counts }

abbrev pub halted : Shipper → Bool
halted s = not (s.halted_at == 0)

-- `hold`, with the counter that it moves.
unfoldable pub hold : Shipper → Text → FileInfo → (Shipping → Shipping) → Shipper
hold s name info count = record s { held = update s.held name (some info); counts = count s.counts }

-- `deferred`
unfoldable pub defer : Shipper → Shipper
defer s = record s {
  counts = record s.counts { deferred = s.counts.deferred + 1 };
  failures = s.failures + 1;
}

-- `count`
unfoldable pub count : Shipper → (Shipping → Shipping) → Shipper
count s f = record s { counts = f s.counts }

abbrev pub one_unreadable : Shipping → Shipping
one_unreadable c = record c { unreadable = c.unreadable + 1 }

abbrev pub one_unauthorized : Shipping → Shipping
one_unauthorized c = record c { unauthorized = c.unauthorized + 1 }

abbrev pub one_too_large : Shipping → Shipping
one_too_large c = record c { too_large = c.too_large + 1 }

abbrev pub one_malformed : Shipping → Shipping
one_malformed c = record c { malformed = c.malformed + 1 }
