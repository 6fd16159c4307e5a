-- ===== src/Sink/Recover/Resumed.antt =====
-- internal/sink/spool.go and recover.go: a journal's window that was written is what is recovered.
use runtime_agent.Prelude.{
  ℕ, ◌<◌, ◌≤◌, ◌^◌, ◌≡◌, refl, ap, ◌∙◌, true, false, List, [], ◌∷◌, ◌++◌, Option, some, Text, ltb,
  lt→ltb, ==_iff, length, arith, text_eq_refl,
}
use runtime_agent.Sink.Cadence.{newline}
use runtime_agent.Sink.Files.Plain.{journal_name-plain}
use runtime_agent.Sink.Names.Plain.{all_safe}
use runtime_agent.Sink.Payloads.{World, JournalPayload, Kept, journal_payload}
use runtime_agent.Sink.Recover.{
  Volume, holds, max_recovery_bytes, read_recoverable, sized, decoded, and_read, same_window,
  all_of, envelope, read_journal_window, open_window, resume_into,
}
use runtime_agent.Sink.Recover.Open.{IsOpen, AllOf}
use runtime_agent.Sink.Spool.{Spool, Disk, Encoded, landed, encode_payload, write}
use runtime_agent.Sink.Spool.Writes.{write_atomic}
use runtime_agent.Sink.Windows.Inverse.{trim_suffix-append, parse_window_name-window_numbers}
use runtime_agent.Sink.Windows.{
  WindowKey, from_unix, window_end, window_numbers, journal_window_name, json_suffix,
}

same_window_refl : (k : WindowKey) → same_window k k ≡ true
same_window_refl (a, b) = rw ((==_iff a a).1 refl, (==_iff b b).1 refl) refl

AllOf-all_of {ℓ} :
    {R : Type ℓ} (window_of : R → WindowKey) (k : WindowKey) (rs : List R)
    → AllOf window_of k rs
    → all_of window_of k rs ≡ true
unfolding all_of
AllOf-all_of window_of k [] a = refl
AllOf-all_of window_of k (r ∷ rs) (e, a) =
    rw (e, same_window_refl k, AllOf-all_of window_of k rs a) refl

-- The name of a window still open is one that `resumeInto` reads.
open_window-journal_window_name :
    (prefix : Text) (u s now : ℕ)
    → u < 2 ^ 63
    → 0 < s
    → s < 2 ^ 63
    → IsOpen now (from_unix u, s)
    → open_window (journal_window_name prefix (from_unix u, s)) json_suffix prefix now
      ≡ some (from_unix u, s)
unfolding open_window journal_window_name
open_window-journal_window_name prefix u s now hu h0 hs open_ =
    let k : WindowKey = (from_unix u, s) in
    rw
      (
        open_window,
        trim_suffix-append (prefix ++ window_numbers k) json_suffix,
        parse_window_name-window_numbers prefix u s hu h0 hs,
        lt→ltb now (window_end k) open_,
      )
      refl

read_recoverable-held :
    (v : Volume) (name raw : Text)
    → v.disk name ≡ some raw
    → v.stat_fails name ≡ false
    → v.read_fails name ≡ false
    → length raw ≤ max_recovery_bytes
    → read_recoverable v name ≡ holds raw
unfolding read_recoverable sized
read_recoverable-held v name raw e st rd h =
    let small : ltb max_recovery_bytes (length raw) ≡ false = ground arith in
    rw (st, e, rd, small) refl

read_journal_window-held {ℓ} :
    {R : Type ℓ} (v : Volume) (j : Kept R) (decode : Text → Option (JournalPayload R))
    (name raw : Text) (k : WindowKey) (captured_at : ℕ) (rs : List R)
    → read_recoverable v name ≡ holds raw
    → decode raw ≡ some (journal_payload j captured_at (k, rs))
    → AllOf j.window_of k rs
    → read_journal_window v j decode name k ≡ holds rs
unfolding read_journal_window and_read decoded envelope
read_journal_window-held v j decode name raw k captured_at rs r d a =
    rw (r, d, text_eq_refl j.kind, same_window_refl k, AllOf-all_of j.window_of k rs a) refl

-- The payload of a journal's window, and the file that a write of it leaves.
module _ {ℓ} {R : Type ℓ} (j : Kept R) (encode : JournalPayload R → Encoded)
    (decode : Text → Option (JournalPayload R)) (captured_at u seconds : ℕ) (rs : List R) where
  abbrev pub window : WindowKey
  window = (from_unix u, seconds)

  abbrev pub name_of : Text
  name_of = journal_window_name j.prefix window

  abbrev pub payload : JournalPayload R
  payload = journal_payload j captured_at (window, rs)

  -- A journal's window is read back as it was written: where the write of the payload landed, its
  -- records are all of that window, the decoding of the bytes gives the payload, the file is no
  -- larger than the ceiling and can be read, and the window has not ended, `resumeInto` on the file
  -- finds exactly the records. The window starts in 1970 or later.
  pub resume_into-write :
      (w : World) (s : Spool) (disk : Disk) (raw : Text) (v : Volume) (now : ℕ)
      → all_safe j.prefix ≡ true
      → u < 2 ^ 63
      → 0 < seconds
      → seconds < 2 ^ 63
      → AllOf j.window_of window rs
      → encode payload ≡ some raw
      → decode (raw ++ newline ∷ []) ≡ some payload
      → length (raw ++ newline ∷ []) ≤ max_recovery_bytes
      → (let written =
            write w.hash
              (w.faults name_of)
              s
              disk
              j.kind
              name_of
              (encode payload)
              (w.now name_of)
              (w.after name_of) in
          (written.outcome ≡ landed) × (v.disk ≡ written.disk))
      → v.stat_fails name_of ≡ false
      → v.read_fails name_of ≡ false
      → IsOpen now window
      → resume_into v j decode name_of now ≡ some (holds rs)
  unfolding resume_into encode_payload
  resume_into-write w s disk raw v now safe hu h0 hs a e d small (l, same) st rd o =
      let atomic =
        write_atomic w.hash (w.faults name_of) s disk j.kind name_of (encode payload)
          (w.now name_of) (w.after name_of) in
      let content : encode_payload name_of (encode payload) ≡ some (raw ++ newline ∷ []) =
        rw (encode_payload, journal_name-plain j.prefix window safe, e) refl in
      let file : v.disk name_of ≡ some (raw ++ newline ∷ []) =
        ap (λ m. m name_of) same ∙ atomic.0 l ∙ content in
      let found = read_recoverable-held v name_of (raw ++ newline ∷ []) file st rd small in
      rw
        (
          resume_into,
          open_window-journal_window_name j.prefix u seconds now hu h0 hs o,
          read_journal_window-held v j decode name_of (raw ++ newline ∷ []) window captured_at rs
              found d a,
        )
        refl
