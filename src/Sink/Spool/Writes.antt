-- ===== src/Sink/Spool/Writes.antt =====
-- What one call of `write` does, and how often a key is written.
use runtime_agent.Prelude.{
  ℕ, ◌+◌, ◌≡◌, ◌≢◌, refl, ap, inl, inr, Bool, true, false, [], ◌∷◌, none, some, Text, text_eq_iff,
  text_eq_refl, arith, length, length-append, Option-cases,
}
use runtime_agent.Sink.Registry.{PayloadKind, lookup_kind}
use runtime_agent.Sink.Spool.{
  Spool, Disk, Faults, Encoded, landed, temp_name, publish, count_write, count_suppressed,
  encode_payload, write_registered, write_found, write,
}

temp_name-ne : (name : Text) → name ≢ temp_name name
temp_name-ne name e =
    omega (arith, ap length e, length-append name (b'.' ∷ b't' ∷ b'm' ∷ b'p' ∷ []))

-- What readers see of a write: `content` under the name, or nothing new, and no other file but the
-- temporary one touched.
pub record Publishes (disk disk' : Disk) (name content : Text) (ok : Bool) : Type 0 where
  pub whole : ok ≡ true → disk' name ≡ some content
  pub untouched : ok ≡ false → disk' name ≡ disk name
  pub others : (n : Text) → n ≢ name → n ≢ temp_name name → disk' n ≡ disk n

publish-Publishes :
    (f : Faults) (disk : Disk) (name content : Text)
    → Publishes disk (publish f disk name content).0 name content (publish f disk name content).1
unfolding publish
publish-Publishes f disk name content = record {
  whole = ground (arith, text_eq_refl name);
  untouched = ground (arith, text_eq_iff name (temp_name name), temp_name-ne name);
  others = λ n h k. ground (arith, text_eq_iff n name, text_eq_iff n (temp_name name));
}

module _ (hash : Text → Text) (f : Faults) where
  registered_atomic :
      (s : Spool) (disk : Disk) (kind : Text) (entry : PayloadKind) (name : Text) (e : Encoded)
      (now after : ℕ)
      → let w = write_registered hash f s disk kind entry name e now after in
        (w.outcome ≡ landed → w.disk name ≡ e)
        × (w.outcome ≢ landed → w.disk name ≡ disk name)
        × ((n : Text) → n ≢ name → n ≢ temp_name name → w.disk n ≡ disk n)
  unfolding write_registered
  registered_atomic s disk kind entry name none now after =
      (ground arith, ground arith, λ n h k. refl)
  registered_atomic s disk kind entry name (some content) now after =
      let p = publish-Publishes f disk name content in
      (
        ground (arith, p.whole),
        ground (arith, p.untouched),
        λ n h k. ground (arith, p.others n h k),
      )

  -- A write that lands leaves the whole payload under its name; any other outcome leaves there
  -- what there was. No other file changes but the temporary one.
  pub write_atomic :
      (s : Spool) (disk : Disk) (kind name : Text) (rendered : Encoded) (now after : ℕ)
      → let w = write hash f s disk kind name rendered now after in
        (w.outcome ≡ landed → w.disk name ≡ encode_payload name rendered)
        × (w.outcome ≢ landed → w.disk name ≡ disk name)
        × ((n : Text) → n ≢ name → n ≢ temp_name name → w.disk n ≡ disk n)
  unfolding write
  write_atomic s disk kind name rendered now after = elim (Option-cases (lookup_kind kind)) [
    | inl missing ↦ rw (missing, write_found) (ground arith, ground arith, λ n h k. refl)
    | inr (entry, found) ↦
        rw (found, write_found)
          (registered_atomic s disk kind entry name (encode_payload name rendered) now after)
  ]

  registered_counted :
      (s : Spool) (disk : Disk) (kind : Text) (entry : PayloadKind) (name : Text) (e : Encoded)
      (now after : ℕ)
      → let w = write_registered hash f s disk kind entry name e now after in
        (w.spool.written kind + w.spool.write_failures kind + w.spool.suppressed kind
          ≡ s.written kind + s.write_failures kind + s.suppressed kind + 1)
        × ((k : Text)
            → k ≢ kind
            → (w.spool.written k ≡ s.written k)
              × (w.spool.write_failures k ≡ s.write_failures k)
              × (w.spool.suppressed k ≡ s.suppressed k))
  unfolding write_registered count_write count_suppressed
  registered_counted s disk kind entry name none now after =
      (ground (arith, text_eq_refl kind), λ k h. ground (arith, text_eq_iff k kind))
  registered_counted s disk kind entry name (some content) now after =
      (ground (arith, text_eq_refl kind), λ k h. ground (arith, text_eq_iff k kind))

  -- A call for a registered kind is counted once, as written, failed or suppressed; a call for any
  -- other kind changes nothing. No other kind's counters move.
  pub write_counted :
      (s : Spool) (disk : Disk) (kind name : Text) (rendered : Encoded) (now after : ℕ)
      → let w = write hash f s disk kind name rendered now after in
        ((lookup_kind kind ≢ none)
          → w.spool.written kind + w.spool.write_failures kind + w.spool.suppressed kind
            ≡ s.written kind + s.write_failures kind + s.suppressed kind + 1)
        × ((lookup_kind kind ≡ none) → (w.spool ≡ s) × (w.disk ≡ disk))
        × ((k : Text)
            → k ≢ kind
            → (w.spool.written k ≡ s.written k)
              × (w.spool.write_failures k ≡ s.write_failures k)
              × (w.spool.suppressed k ≡ s.suppressed k))
  unfolding write count_write count_suppressed
  write_counted s disk kind name rendered now after = elim (Option-cases (lookup_kind kind)) [
    | inl missing ↦
        rw (missing, write_found)
          ((λ h. absurd (h refl)), (λ h. (refl, refl)), (λ k h. (refl, refl, refl)))
    | inr (entry, found) ↦
        rw (found, write_found)
          (
            (λ h.
                (registered_counted s disk kind entry name (encode_payload name rendered) now
                  after).0),
            (λ h. cc),
            (registered_counted s disk kind entry name (encode_payload name rendered) now after).1,
          )
  ]
