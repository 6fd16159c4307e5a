-- ===== src/Examples/Sinks.antt =====
-- The spool's theorems at concrete inputs.
use runtime_agent.Prelude.Sort.{sort_slice}
use runtime_agent.Prelude.{
  has_suffix, text_eq, contains_byte, ◌+◌, ◌<◌, ◌≡◌, ◌≢◌, ◌↔◌, ◌⊎◌, refl, true, false, not, List,
  [], ◌∷◌, ◌++◌, none, some, Text, codes, select, from_option,
}
use runtime_agent.Prelude.Int.{pos}
use runtime_agent.Sink.Registry.{PayloadKind, lookup_kind, agent, supersedes, every_pass}
use runtime_agent.Sink.Cadence.{due, fingerprint}
use runtime_agent.Sink.Cadence.Lines.{is_dated, unlines, fingerprint-unlines}
use runtime_agent.Sink.Names.{is_plain_name}
use runtime_agent.Sink.Spool.{
  publish, Spool, Disk, Faults, landed, held_back, Written, new_spool, encode_payload, write,
  temp_name,
}
use runtime_agent.Sink.Spool.Writes.{write_atomic}
use runtime_agent.Sink.Spool.Spacing.{write_again}
use runtime_agent.Sink.Sweep.{
  by_age, DirEntry, directory, regular, Sweeping, Swept, done, remove_failed, unlistable, sweep,
}
use runtime_agent.Sink.Sweep.Bounds.{Sweeps, sweep-Sweeps, sweep_ends}
use runtime_agent.Sink.Sweep.Loops.{regulars}

abbrev small : Spool
small = record (new_spool (pos 100)) { max_bytes = 10; max_files = 2 }

-- One expired file, one that the budget removes, one that stays, and a directory.
abbrev listing : List DirEntry
listing =
    regular (record { name = codes "new.json"; size = 6; mod_time = 960 })
    ∷ directory (codes "tmp")
    ∷ regular (record { name = codes "old.json"; size = 6; mod_time = 950 })
    ∷ regular (record { name = codes "stale.json"; size = 5; mod_time = 100 })
    ∷ []

abbrev swept_of : Swept → Sweeping
swept_of (done w) = w
swept_of (remove_failed w) = w
swept_of (unlistable s) = record { spool = s; kept = []; total = 0; removed = [] }

abbrev after_sweep : Sweeping
after_sweep = swept_of (sweep (λ n. true) (some listing) 1000 small)

sweep_of_listing : sweep (λ n. true) (some listing) 1000 small ≡ done after_sweep
unfolding sweep new_spool has_suffix sort_slice by_age
sweep_of_listing = refl

sweep-Sweeps_example : Sweeps (regulars listing) 1000 small after_sweep
sweep-Sweeps_example = sweep-Sweeps (λ n. true) listing 1000 small after_sweep sweep_of_listing

sweep_ends_example :
    (r : Sweeping) × (sweep (λ n. true) (some listing) 1000 small ≡ done r)
    × Sweeps (regulars listing) 1000 small r
sweep_ends_example = sweep_ends (λ n. true) listing 1000 small (refl, (refl, (refl, tt)))

abbrev no_faults : Faults
no_faults = record { fails = none; rename_fails = false }

abbrev rename_fault : Faults
rename_fault = record { fails = none; rename_fails = true }

abbrev no_disk : Disk
no_disk n = none

-- A digest for the examples: the bytes themselves.
abbrev digest : Text → Text
digest b = b

abbrev payload : Text
payload = codes "{}"

abbrev first_write : Written
first_write =
    write digest no_faults small no_disk (codes "node_metadata") (codes "nodes.json") (some payload)
      1000 1001

abbrev node_metadata : PayloadKind
node_metadata =
    from_option
      (record {
        kind = [];
        source = agent;
        natural_key = "";
        delivery = supersedes;
        cadence = every_pass;
        adr = "";
      })
      (lookup_kind (codes "node_metadata"))

found : lookup_kind (codes "node_metadata") ≡ some node_metadata
unfolding lookup_kind text_eq
found = refl

encoded : encode_payload (codes "nodes.json") (some payload) ≡ some (payload ++ 10 ∷ [])
unfolding encode_payload is_plain_name text_eq
encoded = refl

first_landed : first_write.outcome ≡ landed
unfolding write lookup_kind text_eq is_plain_name due new_spool publish
first_landed = refl

write_again_example :
    ((write digest no_faults first_write.spool first_write.disk
        (codes "node_metadata")
        (codes "nodes.json")
        (some payload)
        2000
        2001).outcome
      ≡ held_back)
    ↔ ((2000 < 1001 + node_metadata.cadence.floor)
        ⊎ ((2000 < 1001 + node_metadata.cadence.ceiling)
            × (fingerprint digest (payload ++ 10 ∷ []) ≡ fingerprint digest (payload ++ 10 ∷ []))))
unfolding lookup_kind text_eq
write_again_example =
    write_again digest (codes "node_metadata") (codes "nodes.json") node_metadata no_faults
      no_faults small no_disk first_write.disk (some payload) (some payload) (payload ++ 10 ∷ [])
      (payload ++ 10 ∷ []) 1000 1001 2000 2001 found refl encoded encoded first_landed

write_atomic_example :
    let w =
      write digest rename_fault small no_disk
        (codes "node_metadata")
        (codes "nodes.json")
        (some payload)
        1000
        1001 in
    (w.outcome ≡ landed
      → w.disk (codes "nodes.json") ≡ encode_payload (codes "nodes.json") (some payload))
    × (w.outcome ≢ landed → w.disk (codes "nodes.json") ≡ none)
    × ((n : Text) → n ≢ codes "nodes.json" → n ≢ temp_name (codes "nodes.json") → w.disk n ≡ none)
write_atomic_example =
    write_atomic digest rename_fault small no_disk (codes "node_metadata") (codes "nodes.json")
      (some payload) 1000 1001

-- A payload of three lines, one of which dates the capture.
abbrev dated : List Text
dated = codes "{" ∷ codes "  \"captured_at\": 7," ∷ codes "}" ∷ []

fingerprint-unlines_example :
    fingerprint digest (unlines dated) ≡ digest (unlines (select (λ l. not (is_dated l)) dated))
unfolding contains_byte
fingerprint-unlines_example = fingerprint-unlines digest dated (refl, (refl, (refl, tt)))
