-- ===== src/Sink/Sweep/Loops.antt =====
-- The two loops of a sweep: what each leaves, and that they end by themselves.
use mathlib.Core.List.{append_assoc, append-nil}
use runtime_agent.Prelude.{
  ℕ, ◌+◌, ◌-◌, ◌≤◌, ◌<◌, ◌≡◌, ◌⊎◌, refl, sym, ap, subst, subst₂, ◌∙◌, inl, inr, Bool, true, false,
  not, ◌&&◌, ◌||◌, List, [], ◌∷◌, ◌++◌, Text, arith, length, sum_of, sum_of-append, select, leb,
  Bool-cases, ltb, has_suffix, codes,
}
use runtime_agent.Sink.Spool.{count_eviction, record_sweep}
use runtime_agent.Sink.Sweep.{
  Kept, DirEntry, directory, vanished, regular, Sweeping, Swept, done, remove_failed, unlistable,
  is_expired, is_orphan, scan, evict,
}

abbrev pub sizes : List Kept → ℕ
sizes = sum_of (λ f. f.size)

-- The files of a listing that a sweep can see.
abbrev pub regulars : List DirEntry → List Kept
regulars [] = []
regulars (directory n ∷ es) = regulars es
regulars (vanished n ∷ es) = regulars es
regulars (regular f ∷ es) = f ∷ regulars es

-- Each file went while it and what came after it were together past a bound.
abbrev pub Needed : ℕ → ℕ → List Kept → List Kept → Type 0
Needed max_bytes max_files [] left = Unit
Needed max_bytes max_files (f ∷ fs) left =
    ((max_bytes < sizes (f ∷ fs ++ left)) ⊎ (max_files < length (f ∷ fs ++ left)))
    × Needed max_bytes max_files fs left

-- The second loop removed a first part of its files and left the rest, within both bounds.
pub record Evicts (fs : List Kept) (w r : Sweeping) : Type 0 where
  pub evicted : List Kept
  pub split : fs ≡ evicted ++ r.kept
  pub logged : r.removed ≡ w.removed ++ evicted
  pub bytes_held : r.spool.bytes_held ≡ sizes r.kept
  pub files_held : r.spool.files_held ≡ length r.kept
  pub within_bytes : sizes r.kept ≤ w.spool.max_bytes
  pub within_files : length r.kept ≤ w.spool.max_files
  pub needed : Needed w.spool.max_bytes w.spool.max_files evicted r.kept

abbrev Ends : List Kept → Sweeping → Swept → Type 0
Ends fs w (done r) = Evicts fs w r
Ends fs w (remove_failed r) = Unit
Ends fs w (unlistable s) = Unit

-- One more file, removed before the others.
Ends-cons :
    (f : Kept) (fs : List Kept) (w w' : Sweeping) (x : Swept)
    → w'.removed ≡ w.removed ++ f ∷ []
    → w'.spool.max_bytes ≡ w.spool.max_bytes
    → w'.spool.max_files ≡ w.spool.max_files
    → ((w.spool.max_bytes < sizes (f ∷ fs)) ⊎ (w.spool.max_files < length (f ∷ fs)))
    → Ends fs w' x
    → Ends (f ∷ fs) w x
Ends-cons f fs w w' (done r) log mb mf over e = record {
  evicted = f ∷ e.evicted;
  split = ap (◌∷◌ f) e.split;
  logged = e.logged ∙ ap (λ l. l ++ e.evicted) log ∙ append_assoc w.removed (f ∷ []) e.evicted;
  bytes_held = e.bytes_held;
  files_held = e.files_held;
  within_bytes = omega (arith, e.within_bytes, mb);
  within_files = omega (arith, e.within_files, mf);
  needed = (
    omega (arith, over, ap sizes e.split, ap length e.split),
    subst₂ (λ b n. Needed b n e.evicted r.kept) mb mf e.needed,
  );
}
Ends-cons f fs w w' (remove_failed r) log mb mf over e = tt
Ends-cons f fs w w' (unlistable s) log mb mf over e = tt

over_bound :
    (w : Sweeping) (fs : List Kept) (count : ℕ)
    → count ≡ length fs
    → w.total ≡ sizes fs
    → (leb w.total w.spool.max_bytes && leb count w.spool.max_files) ≡ false
    → ((w.spool.max_bytes < sizes fs) ⊎ (w.spool.max_files < length fs))
over_bound w fs count c t h = ground (arith, c, t)

module _ (removes : Text → Bool) where
  evict-Ends :
      (fs : List Kept) (count : ℕ) (w : Sweeping)
      → count ≡ length fs
      → w.total ≡ sizes fs
      → Ends fs w (evict removes fs count w)
  unfolding evict record_sweep count_eviction
  evict-Ends [] count w c t = record {
    evicted = [];
    split = refl;
    logged = sym (append-nil w.removed);
    bytes_held = t;
    files_held = c;
    within_bytes = omega arith;
    within_files = omega arith;
    needed = tt;
  }
  evict-Ends (f ∷ fs) count w c t =
      elim (Bool-cases (leb w.total w.spool.max_bytes && leb count w.spool.max_files)) [
        | inl stop ↦ rw stop (record {
          evicted = [];
          split = refl;
          logged = sym (append-nil w.removed);
          bytes_held = t;
          files_held = c;
          within_bytes = ground (arith, t);
          within_files = ground (arith, c);
          needed = tt;
        })
        | inr more ↦ rw more (elim (Bool-cases (removes f.name)) [
          | inl gone ↦ rw gone (
              Ends-cons f fs w _ _ refl refl refl (over_bound w (f ∷ fs) count c t more)
                (evict-Ends fs (count - 1) _ (omega arith) (omega arith)))
          | inr stuck ↦ rw stuck tt
        ])
      ]

  pub evict-Evicts :
      (fs : List Kept) (count : ℕ) (w r : Sweeping)
      → count ≡ length fs
      → w.total ≡ sizes fs
      → evict removes fs count w ≡ done r
      → Evicts fs w r
  evict-Evicts fs count w r c t h = subst (Ends fs w) h (evict-Ends fs count w c t)

-- Last written before the cutoff, or a temporary file that was last written over a minute ago.
pub is_stale : ℕ → ℕ → Kept → Bool
is_stale cutoff now f =
    ltb f.mod_time cutoff
    || (has_suffix f.name (codes ".tmp") && ltb (f.mod_time + 60000000000) now)

-- The first loop removed the stale files and kept the others, each in the listing's order.
pub record Scans (cutoff now : ℕ) (fs : List Kept) (w r : Sweeping) : Type 0 where
  pub kept : r.kept ≡ w.kept ++ select (λ f. not (is_stale cutoff now f)) fs
  pub removed : r.removed ≡ w.removed ++ select (is_stale cutoff now) fs
  pub total : r.total ≡ sizes r.kept
  pub max_bytes : r.spool.max_bytes ≡ w.spool.max_bytes
  pub max_files : r.spool.max_files ≡ w.spool.max_files

abbrev pub Scanned : ℕ → ℕ → List Kept → Sweeping → Swept → Type 0
Scanned cutoff now fs w (done r) = Scans cutoff now fs w r
Scanned cutoff now fs w (remove_failed r) = Unit
Scanned cutoff now fs w (unlistable s) = Unit

Scanned-dropped :
    (cutoff now : ℕ) (f : Kept) (fs : List Kept) (w w' : Sweeping) (x : Swept)
    → is_stale cutoff now f ≡ true
    → w'.removed ≡ w.removed ++ f ∷ []
    → w'.kept ≡ w.kept
    → w'.spool.max_bytes ≡ w.spool.max_bytes
    → w'.spool.max_files ≡ w.spool.max_files
    → Scanned cutoff now fs w' x
    → Scanned cutoff now (f ∷ fs) w x
Scanned-dropped cutoff now f fs w w' (done r) st log kp mb mf e = record {
  kept = rw st (e.kept ∙ ap (λ l. l ++ select (λ g. not (is_stale cutoff now g)) fs) kp);
  removed = rw st (
      e.removed
      ∙ ap (λ l. l ++ select (is_stale cutoff now) fs) log
      ∙ append_assoc w.removed (f ∷ []) (select (is_stale cutoff now) fs));
  total = e.total;
  max_bytes = e.max_bytes ∙ mb;
  max_files = e.max_files ∙ mf;
}
Scanned-dropped cutoff now f fs w w' (remove_failed r) st log kp mb mf e = tt
Scanned-dropped cutoff now f fs w w' (unlistable s) st log kp mb mf e = tt

Scanned-held :
    (cutoff now : ℕ) (f : Kept) (fs : List Kept) (w w' : Sweeping) (x : Swept)
    → is_stale cutoff now f ≡ false
    → w'.kept ≡ w.kept ++ f ∷ []
    → w'.removed ≡ w.removed
    → w'.spool ≡ w.spool
    → Scanned cutoff now fs w' x
    → Scanned cutoff now (f ∷ fs) w x
Scanned-held cutoff now f fs w w' (done r) st kp log sp e = record {
  kept = rw st (
      e.kept
      ∙ ap (λ l. l ++ select (λ g. not (is_stale cutoff now g)) fs) kp
      ∙ append_assoc w.kept (f ∷ []) (select (λ g. not (is_stale cutoff now g)) fs));
  removed = rw st (e.removed ∙ ap (λ l. l ++ select (is_stale cutoff now) fs) log);
  total = e.total;
  max_bytes = e.max_bytes ∙ ap (λ s. s.max_bytes) sp;
  max_files = e.max_files ∙ ap (λ s. s.max_files) sp;
}
Scanned-held cutoff now f fs w w' (remove_failed r) st kp log sp e = tt
Scanned-held cutoff now f fs w w' (unlistable s) st kp log sp e = tt

sizes-snoc : (l : List Kept) (f : Kept) → sizes (l ++ f ∷ []) ≡ sizes l + f.size
sizes-snoc l f = omega (arith, sum_of-append (λ (g : Kept). g.size) l (f ∷ []))

module _ (removes : Text → Bool) (cutoff now : ℕ) where
  pub scan-Scanned :
      (es : List DirEntry) (w : Sweeping)
      → w.total ≡ sizes w.kept
      → Scanned cutoff now (regulars es) w (scan removes cutoff now es w)
  unfolding scan is_stale is_expired is_orphan count_eviction
  scan-Scanned [] w t = record {
    kept = sym (append-nil w.kept);
    removed = sym (append-nil w.removed);
    total = t;
    max_bytes = refl;
    max_files = refl;
  }
  scan-Scanned (directory n ∷ es) w t = scan-Scanned es w t
  scan-Scanned (vanished n ∷ es) w t = scan-Scanned es w t
  scan-Scanned (regular f ∷ es) w t = elim (Bool-cases (is_stale cutoff now f)) [
    | inl old ↦ rw old (elim (Bool-cases (removes f.name)) [
      | inl gone ↦ rw gone (
          Scanned-dropped cutoff now f (regulars es) w _ _ old refl refl refl refl
            (scan-Scanned es _ t))
      | inr stuck ↦ rw stuck tt
    ])
    | inr fresh ↦ rw fresh (
        Scanned-held cutoff now f (regulars es) w _ _ fresh refl refl refl
          (scan-Scanned es _ (omega (arith, sizes-snoc w.kept f))))
  ]
