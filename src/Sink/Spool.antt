-- ===== src/Sink/Spool.antt =====
-- internal/sink/spool.go and counters.go: the spool's state, and how one payload is written. The
-- directory is the map of its file names to their bytes. What the file system does to one write is
-- a parameter, `Faults`. Counters are numbers that do not wrap.
pub mod Writes
pub mod Spacing
use runtime_agent.Prelude.Int.{ℤ, pos, negsuc}
use runtime_agent.Prelude.Keys.{update}
use runtime_agent.Prelude.{
  ℕ, zero, suc, ◌+◌, ◌*◌, ◌^◌, Bool, true, false, [], ◌∷◌, ◌++◌, Option, none, some, Text, codes,
  if◌then◌else◌,
}
use runtime_agent.Sink.Cadence.{Gate, newline, empty_gate, due, wrote}
use runtime_agent.Sink.Names.{is_plain_name}
use runtime_agent.Sink.Registry.{minute, lookup_kind, PayloadKind}

pub data Reason : Type 0 where
  age orphan_temp bytes files : Reason

pub record Evicted : Type 0 where
  pub by_age : ℕ
  pub by_orphan_temp : ℕ
  pub by_bytes : ℕ
  pub by_files : ℕ

-- What one startup read found.
pub record Recovered : Type 0 where
  pub windows : ℕ
  pub records : ℕ
  pub skipped : ℕ
  pub journal_windows : ℕ
  pub journal_records : ℕ

pub record Spool : Type 0 where
  pub max_age : ℕ
  pub max_bytes : ℕ
  pub max_files : ℕ
  pub cadence : Gate
  pub written : Text → ℕ
  pub write_failures : Text → ℕ
  pub suppressed : Text → ℕ
  pub evicted : Evicted
  pub bytes_held : ℕ
  pub files_held : ℕ
  pub recovered : Recovered

abbrev pub default_max_age : ℕ
default_max_age = 24 * 60 * minute

abbrev pub default_max_bytes : ℕ
default_max_bytes = 512 * 2 ^ 20

abbrev pub default_max_files : ℕ
default_max_files = 20000

-- A duration that is not positive selects the default.
pub positive_or : ℕ → ℤ → ℕ
positive_or d (pos zero) = d
positive_or d (pos (suc n)) = suc n
positive_or d (negsuc n) = d

-- `NewSpool`, once the directory is there.
unfoldable pub new_spool : ℤ → Spool
unfolding positive_or
new_spool max_age = record {
  max_age = positive_or default_max_age max_age;
  max_bytes = default_max_bytes;
  max_files = default_max_files;
  cadence = empty_gate;
  written = λ k. 0;
  write_failures = λ k. 0;
  suppressed = λ k. 0;
  evicted = record { by_age = 0; by_orphan_temp = 0; by_bytes = 0; by_files = 0 };
  bytes_held = 0;
  files_held = 0;
  recovered = record {
    windows = 0;
    records = 0;
    skipped = 0;
    journal_windows = 0;
    journal_records = 0;
  };
}

unfoldable pub count_write : Spool → Text → Bool → Spool
count_write s kind true = record s {
  write_failures = update s.write_failures kind (s.write_failures kind + 1);
}
count_write s kind false = record s { written = update s.written kind (s.written kind + 1) }

unfoldable pub count_suppressed : Spool → Text → Spool
count_suppressed s kind = record s { suppressed = update s.suppressed kind (s.suppressed kind + 1) }

bump : Evicted → Reason → Evicted
bump e age = record e { by_age = e.by_age + 1 }
bump e orphan_temp = record e { by_orphan_temp = e.by_orphan_temp + 1 }
bump e bytes = record e { by_bytes = e.by_bytes + 1 }
bump e files = record e { by_files = e.by_files + 1 }

unfoldable pub count_eviction : Spool → Reason → Spool
unfolding bump
count_eviction s r = record s { evicted = bump s.evicted r }

unfoldable pub record_sweep : Spool → ℕ → ℕ → Spool
record_sweep s b n = record s { bytes_held = b; files_held = n }

unfoldable pub count_recovery : Spool → ℕ → ℕ → ℕ → ℕ → ℕ → Spool
count_recovery s records windows skipped journal_records journal_windows = record s {
  recovered = record {
    windows = windows;
    records = records;
    skipped = skipped;
    journal_windows = journal_windows;
    journal_records = journal_records;
  };
}

abbrev pub Disk : Type 0
Disk = Text → Option Text

-- What happens to one write: `fails` holds what a failed write of the temporary file leaves there.
pub record Faults : Type 0 where
  pub fails : Option (Option Text)
  pub rename_fails : Bool

abbrev pub temp_name : Text → Text
temp_name name = name ++ codes ".tmp"

-- `publish`: the temporary file, then the rename over the name.
unfoldable pub publish : Faults → Disk → Text → Text → Disk × Bool
publish f disk name content = elim f.fails [
  | some left ↦ (update disk (temp_name name) left, false)
  | none ↦
      let staged = update disk (temp_name name) (some content) in
      if f.rename_fails
      then (staged, false)
      else (update (update staged (temp_name name) none) name (some content), true)
]

pub data Outcome : Type 0 where
  unregistered unencodable held_back unpublished landed : Outcome

pub record Written : Type 0 where
  pub spool : Spool
  pub disk : Disk
  pub outcome : Outcome

-- A payload, as `json.MarshalIndent` renders it, or its failure.
abbrev pub Encoded : Type 0
Encoded = Option Text

-- `encodePayload`: no bytes where the name is refused or the encoding fails.
unfoldable pub encode_payload : Text → Encoded → Encoded
encode_payload name rendered =
    if is_plain_name name
    then elim rendered [ none ↦ none | some b ↦ some (b ++ newline ∷ []) ]
    else none

module _ (hash : Text → Text) (f : Faults) where
  -- `write` once the bytes are there; the clock is read at `now`, and again at `after`.
  pub write_encoded : Spool → Disk → Text → PayloadKind → Text → Text → ℕ → ℕ → Written
  write_encoded s disk kind entry name content now after =
      let (fp, is_due) = due hash s.cadence name entry.cadence content now in
      let (disk', published) = publish f disk name content in
      let kept = record s { cadence = wrote s.cadence name entry.cadence fp after } in
      if is_due
      then (if published
          then record { spool = count_write kept kind false; disk = disk'; outcome = landed }
          else record { spool = count_write s kind true; disk = disk'; outcome = unpublished })
      else record { spool = count_suppressed s kind; disk = disk; outcome = held_back }

  pub write_registered : Spool → Disk → Text → PayloadKind → Text → Encoded → ℕ → ℕ → Written
  unfolding write_encoded
  write_registered s disk kind entry name none now after = record {
    spool = count_write s kind true;
    disk = disk;
    outcome = unencodable;
  }
  write_registered s disk kind entry name (some content) now after =
      write_encoded s disk kind entry name content now after

  write_found : Option PayloadKind → Spool → Disk → Text → Text → Encoded → ℕ → ℕ → Written
  unfolding write_registered encode_payload
  write_found none s disk kind name rendered now after = record {
    spool = s;
    disk = disk;
    outcome = unregistered;
  }
  write_found (some entry) s disk kind name rendered now after =
      write_registered s disk kind entry name (encode_payload name rendered) now after

  unfoldable pub write : Spool → Disk → Text → Text → Encoded → ℕ → ℕ → Written
  unfolding write_found
  write s disk kind name rendered now after =
      write_found (lookup_kind kind) s disk kind name rendered now after
