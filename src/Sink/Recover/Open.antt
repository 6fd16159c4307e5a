-- ===== src/Sink/Recover/Open.antt =====
-- internal/sink/recover.go: only what is of a window still open is recovered.
use runtime_agent.Prelude.{
  ℕ, ◌<◌, ◌≡◌, sym, ap₂, subst, inl, inr, true, ◌&&◌, List, [], ◌∷◌, Option, none, some, ltb,
  ltb→lt, ==_iff, All, All-map, Bool-cases, Text, if◌then◌else◌, text_eq, arith,
}
use runtime_agent.Rollup.Record.{Record}
use runtime_agent.Sink.Payloads.{
  UsagePayload, JournalPayload, Kept, usage_window_of, kind_usage_snapshot,
}
use runtime_agent.Sink.Recover.{
  Volume, Read, refused, holds, same_window, all_of, present, and_read, decoded, envelope,
  read_recoverable, foreign_record, read_usage_snapshot, read_journal_window, open_window,
  resume_into,
}
use runtime_agent.Sink.Windows.{WindowKey, window_end, json_suffix, parse_window_name, trim_suffix}

same_window→eq : (a b : WindowKey) → same_window a b ≡ true → a ≡ b
same_window→eq (i, v) (j, w) h =
    ap₂ (λ p q. (p, q)) ((==_iff i j).0 (ground (arith, h))) ((==_iff v w).0 (ground (arith, h)))

-- What a read holds, where it holds anything, satisfies `P`.
abbrev pub Holding {ℓ κ} : {A : Type ℓ} → (A → Type κ) → Read A → Type κ
Holding P (refused e) = Unit
Holding P (holds a) = P a

Holding-and_read {ℓ κ μ} :
    {A : Type ℓ} {B : Type κ} (P : B → Type μ) (r : Read A) (next : A → Read B)
    → ((a : A) → Holding P (next a))
    → Holding P (and_read r next)
unfolding and_read
Holding-and_read P (refused e) next h = tt
Holding-and_read P (holds a) next h = h a

-- Each record is of the window.
abbrev pub AllOf {ℓ} : {R : Type ℓ} → (R → WindowKey) → WindowKey → List R → Type 0
AllOf window_of k rs = All (λ r. window_of r ≡ k) rs

all_of-AllOf {ℓ} :
    {R : Type ℓ} (window_of : R → WindowKey) (k : WindowKey) (rs : List R)
    → all_of window_of k rs ≡ true
    → AllOf window_of k rs
unfolding all_of
all_of-AllOf window_of k [] h = tt
all_of-AllOf window_of k (r ∷ rs) h =
    let whole : (same_window (window_of r) k && all_of window_of k rs) ≡ true = h in
    (
      same_window→eq (window_of r) k (ground (arith, whole)),
      all_of-AllOf window_of k rs (ground (arith, whole)),
    )

-- A test of records yields none but such as satisfy `P`.
abbrev pub Yields {ℓ κ} : {A : Type ℓ} → (A → Type κ) → Option A → Type κ
Yields P none = Unit
Yields P (some a) = P a

checked {ℓ κ} :
    {A : Type ℓ} (P : A → Type κ) (o : Option A)
    → Yields P o
    → Holding P (elim o [ none ↦ refused foreign_record | some rs ↦ holds rs ])
checked P none h = tt
checked P (some a) h = h

envelope-Holding {ℓ κ} :
    {A : Type ℓ} (P : A → Type κ) (held kind : Text) (window k : WindowKey) (o : Option A)
    → Yields P o
    → Holding P (envelope held kind window k o)
unfolding envelope
envelope-Holding P held kind window k o h = elim (Bool-cases (text_eq held kind)) [
  | inr e ↦ rw e tt
  | inl e ↦ elim (Bool-cases (same_window window k)) [
    | inr d ↦ rw (e, d) tt
    | inl d ↦ rw (e, d) (checked P o h)
  ]
]

kept_one :
    (k : WindowKey) (r : Record) (o : Option (List Record))
    → usage_window_of r ≡ k
    → Yields (AllOf usage_window_of k) o
    → Yields (AllOf usage_window_of k) (elim o [ none ↦ none | some kept ↦ some (r ∷ kept) ])
kept_one k r none e h = tt
kept_one k r (some rs) e h = (e, h)

present-AllOf :
    (k : WindowKey) (rs : List (Option Record)) → Yields (AllOf usage_window_of k) (present k rs)
unfolding present
present-AllOf k [] = tt
present-AllOf k (none ∷ rs) = tt
present-AllOf k (some r ∷ rs) = elim (Bool-cases (same_window (usage_window_of r) k)) [
  | inr e ↦ rw e tt
  | inl e ↦
      rw e
        (kept_one k r (present k rs) (same_window→eq (usage_window_of r) k e) (present-AllOf k rs))
]

pub read_usage_snapshot-AllOf :
    (v : Volume) (decode : Text → Option (UsagePayload (Option Record))) (name : Text)
    (k : WindowKey)
    → Holding (AllOf usage_window_of k) (read_usage_snapshot v decode name k)
unfolding read_usage_snapshot
read_usage_snapshot-AllOf v decode name k =
    let P = AllOf usage_window_of k in
    Holding-and_read P (read_recoverable v name) _ (λ raw.
      Holding-and_read P (decoded (decode raw)) _ (λ p.
        envelope-Holding P p.kind kind_usage_snapshot (p.window_start, p.window_seconds) k
          (present k p.records) (present-AllOf k p.records)))

tested {ℓ} :
    {R : Type ℓ} (window_of : R → WindowKey) (k : WindowKey) (rs : List R)
    → Yields (AllOf window_of k) (if all_of window_of k rs then some rs else none)
tested window_of k rs = elim (Bool-cases (all_of window_of k rs)) [
  | inr e ↦ rw e tt
  | inl e ↦ rw e (all_of-AllOf window_of k rs e)
]

read_journal_window-AllOf {ℓ} :
    {R : Type ℓ} (v : Volume) (j : Kept R) (decode : Text → Option (JournalPayload R)) (name : Text)
    (k : WindowKey)
    → Holding (AllOf j.window_of k) (read_journal_window v j decode name k)
unfolding read_journal_window
read_journal_window-AllOf v j decode name k =
    let P = AllOf j.window_of k in
    Holding-and_read P (read_recoverable v name) _ (λ raw.
      Holding-and_read P (decoded (decode raw)) _ (λ p.
        envelope-Holding P p.kind j.kind (p.window_start, p.window_seconds) k _
          (tested j.window_of k p.records)))

-- The window has not ended.
abbrev pub IsOpen : ℕ → WindowKey → Type 0
IsOpen now k = now < window_end k

pub open_window-IsOpen :
    (name suffix prefix : Text) (now : ℕ) → Yields (IsOpen now) (open_window name suffix prefix now)
unfolding open_window
open_window-IsOpen name suffix prefix now =
    still (parse_window_name (trim_suffix name suffix) prefix)
  where
    still :
        (o : Option WindowKey)
        → Yields
            (IsOpen now)
            (elim o [ none ↦ none | some k ↦ if ltb now (window_end k) then some k else none ])
    still none = tt
    still (some k) = elim (Bool-cases (ltb now (window_end k))) [
      | inr e ↦ rw e tt
      | inl e ↦ rw e (ltb→lt now (window_end k) e)
    ]

-- What is recovered of a journal is of windows still open.
abbrev pub AllOpen {ℓ} : {R : Type ℓ} → (R → WindowKey) → ℕ → List R → Type 0
AllOpen window_of now rs = All (λ r. IsOpen now (window_of r)) rs

AllOf→AllOpen {ℓ} :
    {R : Type ℓ} (window_of : R → WindowKey) (now : ℕ) (k : WindowKey) (rs : List R)
    → IsOpen now k
    → AllOf window_of k rs
    → AllOpen window_of now rs
AllOf→AllOpen window_of now k rs h a = All-map (λ r e. subst (IsOpen now) (sym e) h) rs a

-- What `resumeInto` finds, where it finds anything, satisfies `P`.
abbrev pub Finding {ℓ κ} : {A : Type ℓ} → (A → Type κ) → Option (Read A) → Type κ
Finding P none = Unit
Finding P (some r) = Holding P r

pub Holding-map {ℓ κ μ} :
    {A : Type ℓ} {P : A → Type κ} {Q : A → Type μ}
    → ((a : A) → P a → Q a)
    → (r : Read A) → Holding P r
    → Holding Q r
Holding-map f (refused e) h = tt
Holding-map f (holds a) h = f a h

pub resume_into-AllOpen {ℓ} :
    {R : Type ℓ} (v : Volume) (j : Kept R) (decode : Text → Option (JournalPayload R)) (name : Text)
    (now : ℕ)
    → Finding (AllOpen j.window_of now) (resume_into v j decode name now)
unfolding resume_into
resume_into-AllOpen v j decode name now =
    found (open_window name json_suffix j.prefix now)
      (open_window-IsOpen name json_suffix j.prefix now)
  where
    found :
        (o : Option WindowKey)
        → Yields (IsOpen now) o
        → Finding
            (AllOpen j.window_of now)
            (elim o [ none ↦ none | some k ↦ some (read_journal_window v j decode name k) ])
    found none h = tt
    found (some k) h =
        Holding-map (λ rs a. AllOf→AllOpen j.window_of now k rs h a)
          (read_journal_window v j decode name k) (read_journal_window-AllOf v j decode name k)
