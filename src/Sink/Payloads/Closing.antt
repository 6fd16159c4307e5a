-- ===== src/Sink/Payloads/Closing.antt =====
-- internal/sink/spool.go: a closed window has no snapshot.
use runtime_agent.Prelude.{
  ℕ, ◌≡◌, ◌≢◌, refl, sym, subst, ap, ◌∙◌, inl, inr, true, false, ◌||◌, List, [], ◌∷◌, none, All,
  Bool-cases, Text, codes, text_eq_refl, contains_byte, arith,
}
use runtime_agent.Rollup.Record.{Record}
use runtime_agent.Sink.Payloads.{
  World, Observation, UsagePayload, ran, write_in, and_then, remove_in, each_group, close_group,
  write_closed_windows, group_by_window, usage_payload, usage_window_of, snapshot_name, closed_name,
}
use runtime_agent.Sink.Spool.{Spool, Disk, Encoded, temp_name}
use runtime_agent.Sink.Spool.Writes.{write_atomic}
use runtime_agent.Sink.Windows.{WindowKey, window_name}
use runtime_agent.Sink.Windows.Safe.{contains_byte-append, contains_byte-window_name}

-- A byte of a snapshot's name that no closed window's file has.
abbrev h_byte : ℕ
h_byte = b'h'

snapshot_has : (k : WindowKey) → contains_byte h_byte (snapshot_name k) ≡ true
unfolding snapshot_name contains_byte
snapshot_has k =
    contains_byte-append h_byte (window_name k) (codes ".snapshot.json")
    ∙ ap (λ b. b || true) (contains_byte-window_name h_byte k (omega arith))

closed_lacks : (k : WindowKey) → contains_byte h_byte (closed_name k) ≡ false
unfolding closed_name contains_byte
closed_lacks k =
    contains_byte-append h_byte (window_name k) (codes ".json")
    ∙ ap (λ b. b || false) (contains_byte-window_name h_byte k (omega arith))

temp_lacks : (k : WindowKey) → contains_byte h_byte (temp_name (closed_name k)) ≡ false
unfolding contains_byte
temp_lacks k =
    contains_byte-append h_byte (closed_name k) (codes ".tmp")
    ∙ ap (λ b. b || false) (closed_lacks k)

-- A text that has the byte is not one that lacks it.
apart : (s t : Text) → contains_byte h_byte s ≡ true → contains_byte h_byte t ≡ false → s ≢ t
apart s t h l e =
    let same : contains_byte h_byte s ≡ contains_byte h_byte t = ap (contains_byte h_byte) e in
    absurd (ground (arith, h, l, same))

module _ (w : World) (encode : UsagePayload Record → Encoded) (obs : Observation) where
  -- A write of a closed window leaves the snapshots.
  write_in-snapshot :
      (s : Spool) (disk : Disk) (k j : WindowKey) (rendered : Encoded)
      → (write_in w s disk (codes "usage_window") (closed_name j) rendered).disk (snapshot_name k)
        ≡ disk (snapshot_name k)
  unfolding write_in ran
  write_in-snapshot s disk k j rendered =
      (write_atomic w.hash (w.faults (closed_name j)) s disk (codes "usage_window") (closed_name j)
          rendered (w.now (closed_name j)) (w.after (closed_name j))).2
        (snapshot_name k)
        (apart (snapshot_name k) (closed_name j) (snapshot_has k) (closed_lacks j))
        (apart (snapshot_name k) (temp_name (closed_name j)) (snapshot_has k) (temp_lacks j))

  remove_in-none :
      (s : Spool) (disk : Disk) (name n : Text)
      → disk n ≡ none
      → (remove_in w s disk name).disk n ≡ none
  unfolding remove_in
  remove_in-none s disk name n e = ground (arith, e)

  remove_in-same :
      (s : Spool) (disk : Disk) (name : Text)
      → (remove_in w s disk name).ok ≡ true
      → (remove_in w s disk name).disk name ≡ none
  unfolding remove_in
  remove_in-same s disk name h = ground (arith, text_eq_refl name)

  close_group-none :
      (g : WindowKey × List Record) (s : Spool) (disk : Disk) (k : WindowKey)
      → disk (snapshot_name k) ≡ none
      → (close_group w encode obs g s disk).disk (snapshot_name k) ≡ none
  unfolding close_group and_then
  close_group-none g s disk k e =
      let r =
        write_in w s disk (codes "usage_window") (closed_name g.0)
          (encode (usage_payload (codes "usage_window") obs g)) in
      let kept =
        write_in-snapshot s disk k g.0 (encode (usage_payload (codes "usage_window") obs g)) ∙ e in
      elim (Bool-cases r.ok) [
        | inl h ↦ rw h (remove_in-none r.spool r.disk (snapshot_name g.0) (snapshot_name k) kept)
        | inr h ↦ rw h kept
      ]

  -- The step of a window that returns no error leaves no snapshot of it.
  close_group-same :
      (g : WindowKey × List Record) (s : Spool) (disk : Disk)
      → (close_group w encode obs g s disk).ok ≡ true
      → (close_group w encode obs g s disk).disk (snapshot_name g.0) ≡ none
  unfolding close_group and_then
  close_group-same g s disk ok =
      let r =
        write_in w s disk (codes "usage_window") (closed_name g.0)
          (encode (usage_payload (codes "usage_window") obs g)) in
      elim (Bool-cases r.ok) [
        | inl h ↦ rw h (remove_in-same r.spool r.disk (snapshot_name g.0) (rw h at ok))
        | inr h ↦ absurd (ground (arith, h, ok))
      ]

  each_group-none :
      (gs : List (WindowKey × List Record)) (s : Spool) (disk : Disk) (k : WindowKey)
      → disk (snapshot_name k) ≡ none
      → (each_group (close_group w encode obs) gs s disk).disk (snapshot_name k) ≡ none
  unfolding each_group and_then
  each_group-none [] s disk k e = e
  each_group-none (g ∷ gs) s disk k e =
      let r = close_group w encode obs g s disk in
      let kept = close_group-none g s disk k e in
      elim (Bool-cases r.ok) [
        | inl h ↦ rw h (each_group-none gs r.spool r.disk k kept)
        | inr h ↦ rw h kept
      ]

  each_group-closes :
      (gs : List (WindowKey × List Record)) (s : Spool) (disk : Disk)
      → (each_group (close_group w encode obs) gs s disk).ok ≡ true
      → All
          (λ g. (each_group (close_group w encode obs) gs s disk).disk (snapshot_name g.0) ≡ none)
          gs
  unfolding each_group and_then
  each_group-closes [] s disk ok = tt
  each_group-closes (g ∷ gs) s disk ok =
      let r = close_group w encode obs g s disk in
      elim (Bool-cases r.ok) [
        | inr h ↦ absurd (ground (arith, h, ok))
        | inl h ↦
            let rest = each_group (close_group w encode obs) gs r.spool r.disk in
            let e : each_group (close_group w encode obs) (g ∷ gs) s disk ≡ rest = rw h refl in
            subst (λ x. All (λ g'. x.disk (snapshot_name g'.0) ≡ none) (g ∷ gs)) (sym e)
              (
                each_group-none gs r.spool r.disk g.0 (close_group-same g s disk h),
                each_group-closes gs r.spool r.disk (rw h at ok),
              )
      ]

-- Where `WriteClosedWindows` returns no error, no window of its records has a snapshot left, whatever
-- the writes met.
pub write_closed_windows-leaves :
    (w : World) (encode : UsagePayload Record → Encoded) (s : Spool) (disk : Disk)
    (records : List Record) (obs : Observation)
    → (write_closed_windows w encode s disk records obs).ok ≡ true
    → All
        (λ g. (write_closed_windows w encode s disk records obs).disk (snapshot_name g.0) ≡ none)
        (group_by_window usage_window_of records)
unfolding write_closed_windows
write_closed_windows-leaves w encode s disk records obs ok =
    each_group-closes w encode obs (group_by_window usage_window_of records) s disk ok
