-- ===== src/Sink/Spool/Spacing.antt =====
-- How far apart two writes of one key are.
use runtime_agent.Prelude.{
  ℕ, ◌+◌, ◌≤◌, ◌<◌, ◌≡◌, ◌⊎◌, ◌↔◌, refl, subst, some, Text, text_eq_iff, text_eq_refl, arith,
}
use runtime_agent.Sink.Cadence.{due, wrote, fingerprint}
use runtime_agent.Sink.Registry.{PayloadKind, changed, lookup_kind}
use runtime_agent.Sink.Registry.Rows.{lookup_kind-IsRow}
use runtime_agent.Sink.Spool.{
  Spool, Disk, Faults, Encoded, held_back, landed, count_write, encode_payload, write_encoded,
  write_registered, write_found, write,
}

module _ (hash : Text → Text) (kind name : Text) (entry : PayloadKind) where
  -- The gate remembers a write that landed.
  landed_gate :
      (f : Faults) (s : Spool) (disk : Disk) (content : Text) (now after : ℕ)
      → entry.cadence.trigger ≡ changed
      → let w = write_encoded hash f s disk kind entry name content now after in
        w.outcome ≡ landed
        → w.spool.cadence name ≡ some (record { at = after; fp = fingerprint hash content })
  unfolding write_encoded due wrote count_write
  landed_gate f s disk content now after t h = ground (arith, text_eq_refl name)

  held_back_iff :
      (f : Faults) (s : Spool) (disk : Disk) (content fp : Text) (now after at : ℕ)
      → entry.cadence.trigger ≡ changed
      → entry.cadence.floor ≤ entry.cadence.ceiling
      → s.cadence name ≡ some (record { at = at; fp = fp })
      → ((write_encoded hash f s disk kind entry name content now after).outcome ≡ held_back) ↔ (
          (now < at + entry.cadence.floor)
          ⊎ ((now < at + entry.cadence.ceiling) × (fingerprint hash content ≡ fp)))
  unfolding write_encoded due
  held_back_iff f s disk content fp now after at t o e =
      ground (arith, text_eq_iff (fingerprint hash content) fp)

  as_encoded :
      (f : Faults) (s : Spool) (disk : Disk) (rendered : Encoded) (content : Text) (now after : ℕ)
      → lookup_kind kind ≡ some entry
      → encode_payload name rendered ≡ some content
      → write hash f s disk kind name rendered now after
        ≡ write_encoded hash f s disk kind entry name content now after
  unfolding write
  as_encoded f s disk rendered content now after e b =
      rw (e, write_found) (rw (b, write_registered) refl)

-- After a write of a change-triggered kind landed, the next payload under its name is held back
-- exactly while the kind's floor has not passed since, and, short of its ceiling, while its
-- fingerprint is the one that was written.
pub write_again :
    (hash : Text → Text) (kind name : Text) (entry : PayloadKind) (f f' : Faults) (s : Spool)
    (disk disk' : Disk) (rendered rendered' : Encoded) (content content' : Text)
    (now after now' after' : ℕ)
    → lookup_kind kind ≡ some entry
    → entry.cadence.trigger ≡ changed
    → encode_payload name rendered ≡ some content
    → encode_payload name rendered' ≡ some content'
    → (write hash f s disk kind name rendered now after).outcome ≡ landed
    → ((write hash f'
          (write hash f s disk kind name rendered now after).spool
          disk'
          kind
          name
          rendered'
          now'
          after').outcome
        ≡ held_back)
      ↔ ((now' < after + entry.cadence.floor)
          ⊎ ((now' < after + entry.cadence.ceiling)
              × (fingerprint hash content' ≡ fingerprint hash content)))
write_again hash kind name entry f f' s disk disk' rendered rendered' content content' now after
      now' after' l t b b' h =
    let first = as_encoded hash kind name entry f s disk rendered content now after l b in
    let landed' = subst (λ w. w.outcome ≡ landed) first h in
    let gate = landed_gate hash kind name entry f s disk content now after t landed' in
    rw first (
      rw (as_encoded hash kind name entry f' _ disk' rendered' content' now' after' l b') (
        held_back_iff hash kind name entry f' _ disk' content' (fingerprint hash content) now'
          after' after t (lookup_kind-IsRow kind entry l).1 gate))
