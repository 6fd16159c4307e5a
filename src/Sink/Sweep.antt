-- ===== src/Sink/Sweep.antt =====
-- internal/sink/spool.go: `Sweep`, the bound on what the spool holds. The directory comes as the
-- listing that `os.ReadDir` returns; what `os.Remove` answers for a name is a parameter, true for
-- a file that is gone afterwards.
pub mod Loops
pub mod Bounds
use runtime_agent.Prelude.Sort.{sort_slice}
use runtime_agent.Prelude.{
  ℕ, ◌+◌, ◌-◌, Bool, true, false, ◌&&◌, ◌||◌, not, List, [], ◌∷◌, ◌++◌, Option, none, some, Text,
  codes, text_lt, has_suffix, length, ltb, leb, ◌==◌, if◌then◌else◌,
}
use runtime_agent.Sink.Cadence.{prune}
use runtime_agent.Sink.Registry.{minute}
use runtime_agent.Sink.Spool.{
  Spool, Reason, age, orphan_temp, bytes, files, count_eviction, record_sweep,
}

-- The `file` of the sweep.
pub record Kept : Type 0 where
  pub name : Text
  pub size : ℕ
  pub mod_time : ℕ

-- An entry of the listing: a directory, a file that vanished before its `Info`, or a file.
pub data DirEntry : Type 0 where
  directory : Text → DirEntry
  vanished : Text → DirEntry
  regular : Kept → DirEntry

-- A sweep under way, with the files that it removed, oldest call first.
pub record Sweeping : Type 0 where
  pub spool : Spool
  pub kept : List Kept
  pub total : ℕ
  pub removed : List Kept

pub data Swept : Type 0 where
  done : Sweeping → Swept
  remove_failed : Sweeping → Swept
  unlistable : Spool → Swept

-- Instants are counted from Go's zero time, so a cutoff before it, like one at it, expires nothing.
pub is_expired : ℕ → Kept → Bool
is_expired cutoff f = ltb f.mod_time cutoff

pub is_orphan : ℕ → Kept → Bool
is_orphan now f = has_suffix f.name (codes ".tmp") && ltb (f.mod_time + minute) now

unfoldable pub by_age : Kept → Kept → Bool
by_age a b = if a.mod_time == b.mod_time then text_lt a.name b.name else ltb a.mod_time b.mod_time

module _ (removes : Text → Bool) where
  -- The loop over the listing.
  pub scan : ℕ → ℕ → List DirEntry → Sweeping → Swept
  unfolding is_expired is_orphan count_eviction
  scan cutoff now [] w = done w
  scan cutoff now (directory n ∷ es) w = scan cutoff now es w
  scan cutoff now (vanished n ∷ es) w = scan cutoff now es w
  scan cutoff now (regular f ∷ es) w =
      let expired = is_expired cutoff f in
      let reason = if expired then age else orphan_temp in
      let dropped =
        scan cutoff now es
          (record w { spool = count_eviction w.spool reason; removed = w.removed ++ f ∷ [] }) in
      let held =
        scan cutoff now es (record w { kept = w.kept ++ f ∷ []; total = w.total + f.size }) in
      if expired || is_orphan now f
      then (if removes f.name then dropped else remove_failed w)
      else held

  -- The loop over what was kept: `w.kept` is what is still to be looked at, `count` how many.
  pub evict : List Kept → ℕ → Sweeping → Swept
  unfolding count_eviction record_sweep
  evict [] count w = done (record w { kept = []; spool = record_sweep w.spool w.total count })
  evict (f ∷ fs) count w =
      let reason = if ltb w.spool.max_bytes w.total then bytes else files in
      let rest = evict fs (count - 1) (record w {
        spool = count_eviction w.spool reason;
        total = w.total - f.size;
        removed = w.removed ++ f ∷ [];
      }) in
      if leb w.total w.spool.max_bytes && leb count w.spool.max_files
      then done (record w { kept = f ∷ fs; spool = record_sweep w.spool w.total count })
      else (if removes f.name then rest else remove_failed w)

  after_scan : Swept → Swept
  unfolding evict
  after_scan (done w) =
      if leb w.total w.spool.max_bytes && leb (length w.kept) w.spool.max_files
      then done (record w { spool = record_sweep w.spool w.total (length w.kept) })
      else evict (sort_slice by_age w.kept) (length w.kept) w
  after_scan (remove_failed w) = remove_failed w
  after_scan (unlistable s) = unlistable s

  -- `Sweep`
  unfoldable pub sweep : Option (List DirEntry) → ℕ → Spool → Swept
  unfolding after_scan scan
  sweep none now s = unlistable s
  sweep (some entries) now s =
      let cutoff = now - s.max_age in
      let pruned = record s { cadence = prune s.cadence cutoff } in
      after_scan
        (scan cutoff now entries (record { spool = pruned; kept = []; total = 0; removed = [] }))
