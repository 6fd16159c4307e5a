-- ===== src/Sink/Sweep/Bounds.antt =====
-- What a sweep leaves: the spool's bounds, and which files went.
use mathlib.Core.List.{append-nil}
use mathlib.Core.List.Perm
use runtime_agent.Prelude.Sort.{
  sort_slice, sort_slice-perm, sort_slice-IsSorted, IsSorted, All-sort_slice,
}
use runtime_agent.Prelude.{
  ℕ, ◌-◌, ◌≤◌, ◌≡◌, ◌⊎◌, refl, sym, ap, subst, subst₂, ◌∙◌, inl, inr, Bool, true, false, not, ◌&&◌,
  ◌||◌, List, [], ◌∷◌, ◌++◌, Perm, some, Text, text_lt_irrefl, text_lt_trans, text_lt_neg_trans,
  arith, length, sum_of-perm, length-perm, select, leb, Bool-cases, All, All-append, All-map, ◌<◌,
  text_lt,
}
use runtime_agent.Sink.Cadence.{prune}
use runtime_agent.Sink.Spool.{Spool, record_sweep}
use runtime_agent.Sink.Sweep.{
  Kept, DirEntry, directory, vanished, regular, Sweeping, is_expired, is_orphan, Swept, done,
  remove_failed, unlistable, by_age, scan, evict, after_scan, sweep,
}
use runtime_agent.Sink.Sweep.Loops.{
  sizes, regulars, is_stale, Needed, Evicts, evict-Evicts, Scans, scan-Scanned, Scanned,
}

by_age_irrefl : (a : Kept) → by_age a a ≡ false
unfolding by_age
by_age_irrefl a = ground (arith, text_lt_irrefl a.name)

by_age_trans : (a b c : Kept) → by_age a b ≡ true → by_age b c ≡ true → by_age a c ≡ true
unfolding by_age
by_age_trans a b c h k = ground (arith, text_lt_trans a.name b.name c.name)

by_age_neg_trans : (a b c : Kept) → by_age a b ≡ false → by_age b c ≡ false → by_age a c ≡ false
unfolding by_age
by_age_neg_trans a b c h k = ground (arith, text_lt_neg_trans a.name b.name c.name)

pub by_age-IsSorted : (fs : List Kept) → IsSorted by_age (sort_slice by_age fs)
by_age-IsSorted fs = sort_slice-IsSorted by_age by_age_irrefl by_age_trans by_age_neg_trans fs

-- The first is older than the second, or as old and not behind it by name.
abbrev pub IsOlder : Kept → Kept → Type 0
IsOlder a b =
    (a.mod_time < b.mod_time) ⊎ ((a.mod_time ≡ b.mod_time) × (text_lt b.name a.name ≡ false))

abbrev pub OldestFirst : List Kept → Type 0
OldestFirst [] = Unit
OldestFirst (f ∷ fs) = All (IsOlder f) fs × OldestFirst fs

by_age-IsOlder : (a b : Kept) → by_age b a ≡ false → IsOlder a b
unfolding by_age
by_age-IsOlder a b h = ground arith

sorted-OldestFirst : (fs : List Kept) → IsSorted by_age fs → OldestFirst fs
sorted-OldestFirst [] h = tt
sorted-OldestFirst (f ∷ fs) (first, h) =
    (All-map (λ g. by_age-IsOlder f g) fs first, sorted-OldestFirst fs h)

-- A sweep before its first entry.
abbrev started : ℕ → Spool → Sweeping
started now s = record {
  spool = record s { cadence = prune s.cadence (now - s.max_age) };
  kept = [];
  total = 0;
  removed = [];
}

-- The files that the first loop keeps.
abbrev pub fresh : ℕ → Spool → List Kept → List Kept
fresh now s = select (λ f. not (is_stale (now - s.max_age) now f))

-- What a finished sweep of the files `fs` did: the stale files went, then files of the budget.
pub record Sweeps (fs : List Kept) (now : ℕ) (s : Spool) (r : Sweeping) : Type 0 where
  pub budget : List Kept
  pub removed : r.removed ≡ select (is_stale (now - s.max_age) now) fs ++ budget
  pub rest : Perm (budget ++ r.kept) (fresh now s fs)
  pub oldest_first : (budget ≡ []) ⊎ OldestFirst (budget ++ r.kept)
  pub needed : Needed s.max_bytes s.max_files budget r.kept
  pub within_bytes : sizes r.kept ≤ s.max_bytes
  pub within_files : length r.kept ≤ s.max_files
  pub bytes_held : r.spool.bytes_held ≡ sizes r.kept
  pub files_held : r.spool.files_held ≡ length r.kept

module _ (removes : Text → Bool) (fs : List Kept) (now : ℕ) (s : Spool) (w : Sweeping)
    (scanned : Scans (now - s.max_age) now fs (started now s) w) where
  within-Sweeps :
      (r : Sweeping)
      → (leb w.total w.spool.max_bytes && leb (length w.kept) w.spool.max_files) ≡ true
      → r ≡ record w { spool = record_sweep w.spool w.total (length w.kept) }
      → Sweeps fs now s r
  unfolding record_sweep
  within-Sweeps r fits e = rw e (record {
    budget = [];
    removed = scanned.removed ∙ sym (append-nil _);
    rest = subst (λ l. Perm l (fresh now s fs)) (sym scanned.kept) (Perm.refl (fresh now s fs));
    oldest_first = inl refl;
    needed = tt;
    within_bytes = ground (arith, scanned.total, scanned.max_bytes);
    within_files = ground (arith, scanned.max_files);
    bytes_held = scanned.total;
    files_held = refl;
  })

  sorted_total : sizes (sort_slice by_age w.kept) ≡ sizes w.kept
  sorted_total = sum_of-perm (λ f. f.size) (sort_slice-perm by_age w.kept)

  evicted-Sweeps : (r : Sweeping) → Evicts (sort_slice by_age w.kept) w r → Sweeps fs now s r
  evicted-Sweeps r e = record {
    budget = e.evicted;
    removed = e.logged ∙ ap (λ l. l ++ e.evicted) scanned.removed;
    rest =
        subst (λ l. Perm l (fresh now s fs)) e.split
          (subst (Perm (sort_slice by_age w.kept)) scanned.kept (sort_slice-perm by_age w.kept));
    oldest_first = inr (subst OldestFirst e.split (sorted-OldestFirst _ (by_age-IsSorted w.kept)));
    needed =
        subst₂ (λ b n. Needed b n e.evicted r.kept) scanned.max_bytes scanned.max_files e.needed;
    within_bytes = omega (arith, e.within_bytes, scanned.max_bytes);
    within_files = omega (arith, e.within_files, scanned.max_files);
    bytes_held = e.bytes_held;
    files_held = e.files_held;
  }

  after_scan-Sweeps : (r : Sweeping) → after_scan removes (done w) ≡ done r → Sweeps fs now s r
  unfolding after_scan
  after_scan-Sweeps r h =
      elim (Bool-cases (leb w.total w.spool.max_bytes && leb (length w.kept) w.spool.max_files)) [
        | inl fits ↦ within-Sweeps r fits (cc (rw fits at h))
        | inr over ↦ evicted-Sweeps r (
            evict-Evicts removes (sort_slice by_age w.kept) (length w.kept) w r
              (sym (length-perm (sort_slice-perm by_age w.kept))) (scanned.total ∙ sym sorted_total)
              (rw over at h))
      ]

after-Sweeps :
    (removes : Text → Bool) (fs : List Kept) (now : ℕ) (s : Spool) (x : Swept) (r : Sweeping)
    → Scanned (now - s.max_age) now fs (started now s) x
    → after_scan removes x ≡ done r
    → Sweeps fs now s r
unfolding after_scan
after-Sweeps removes fs now s (done w) r scanned h =
    after_scan-Sweeps removes fs now s w scanned r h
after-Sweeps removes fs now s (remove_failed w) r scanned h = cc
after-Sweeps removes fs now s (unlistable t) r scanned h = cc

-- A sweep that ends without an error has removed the stale files of the listing and, of the fresh
-- ones, those of a budget: the oldest first, with ties by name, each of them while what remained
-- with it was past a bound. What it leaves is within both bounds, and the spool's own figures are
-- the bytes and the number of the files left.
pub sweep-Sweeps :
    (removes : Text → Bool) (es : List DirEntry) (now : ℕ) (s : Spool) (r : Sweeping)
    → sweep removes (some es) now s ≡ done r
    → Sweeps (regulars es) now s r
unfolding sweep
sweep-Sweeps removes es now s r h =
    after-Sweeps removes (regulars es) now s _ r
      (scan-Scanned removes (now - s.max_age) now es (started now s) refl) h

module _ (removes : Text → Bool) where
  -- Every one of the files can be removed.
  abbrev pub Removable : List Kept → Type 0
  Removable = All (λ f. removes f.name ≡ true)

  scan_done :
      (cutoff now : ℕ) (es : List DirEntry) (w : Sweeping)
      → Removable (regulars es)
      → Removable w.kept
      → (r : Sweeping) × (scan removes cutoff now es w ≡ done r) × Removable r.kept
  unfolding scan
  scan_done cutoff now [] w a b = (w, refl, b)
  scan_done cutoff now (directory n ∷ es) w a b = scan_done cutoff now es w a b
  scan_done cutoff now (vanished n ∷ es) w a b = scan_done cutoff now es w a b
  scan_done cutoff now (regular f ∷ es) w (gone, a) b =
      elim (Bool-cases (is_expired cutoff f || is_orphan now f)) [
        | inl old ↦ rw (old, gone) (scan_done cutoff now es _ a b)
        | inr new ↦ rw new (
            scan_done cutoff now es _ a
              (All-append (λ g. removes g.name ≡ true) w.kept (f ∷ []) b (gone, tt)))
      ]

  evict_done :
      (fs : List Kept) (count : ℕ) (w : Sweeping)
      → Removable fs
      → (r : Sweeping) × (evict removes fs count w ≡ done r)
  unfolding evict
  evict_done [] count w a = (_, refl)
  evict_done (f ∷ fs) count w (gone, a) =
      elim (Bool-cases (leb w.total w.spool.max_bytes && leb count w.spool.max_files)) [
        | inl stop ↦ rw stop (_, refl)
        | inr more ↦ rw (more, gone) (evict_done fs (count - 1) _ a)
      ]

  after_scan_done :
      (x : Swept) (w : Sweeping)
      → x ≡ done w
      → Removable w.kept
      → (r : Sweeping) × (after_scan removes x ≡ done r)
  unfolding after_scan
  after_scan_done x w e a =
      elim (Bool-cases (leb w.total w.spool.max_bytes && leb (length w.kept) w.spool.max_files)) [
        | inl fits ↦ rw (e, fits) (_, refl)
        | inr over ↦
            rw (e, over)
              (evict_done (sort_slice by_age w.kept) (length w.kept) w
                (All-sort_slice by_age (λ f. removes f.name ≡ true) w.kept a))
      ]

  finish_sweep :
      (es : List DirEntry) (now : ℕ) (s : Spool)
      → (w : Sweeping) × (scan removes (now - s.max_age) now es (started now s) ≡ done w)
        × Removable w.kept
      → (r : Sweeping) × (sweep removes (some es) now s ≡ done r)
  unfolding sweep
  finish_sweep es now s (w, e, a) = after_scan_done _ w e a

  -- Where the listed files can be removed, a sweep ends without an error, and has done what a
  -- finished sweep does: the stale files went, and then the oldest of the others, no more than the
  -- budgets of bytes and files need; the rest is within both, and recorded as what is held.
  pub sweep_ends :
      (es : List DirEntry) (now : ℕ) (s : Spool)
      → Removable (regulars es)
      → (r : Sweeping) × (sweep removes (some es) now s ≡ done r) × Sweeps (regulars es) now s r
  sweep_ends es now s a =
      let (r, ended) =
        finish_sweep es now s (scan_done (now - s.max_age) now es (started now s) a tt) in
      (r, ended, sweep-Sweeps removes es now s r ended)
