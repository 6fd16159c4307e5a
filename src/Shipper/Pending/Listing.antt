-- ===== src/Shipper/Pending/Listing.antt =====
-- What a listing offers, and what it remembers.
use mathlib.Core.List.{append-nil, append_assoc}
use runtime_agent.Prelude.Sort.{sort_slice-perm, sort_slice-IsSorted, IsSorted}
use runtime_agent.Prelude.{
  ◌≡◌, ◌∙◌, ap, refl, sym, true, false, List, [], ◌∷◌, ◌++◌, Perm, Option, none, some, Text,
  text_lt_irrefl, text_lt_trans, text_lt_neg_trans, arith, if◌then◌else◌, ◌||◌,
}
use runtime_agent.Shipper.Pending.{
  DirEntry, Spooled, Gathered, by_age, is_held, visit, is_skipped, collect, pending,
}
use runtime_agent.Shipper.State.{Shipper, FileInfo}

-- A listing changes nothing of the shipper but its marks.
pub pending_keeps :
    (s : Shipper) (es : Option (List DirEntry))
    → ((pending s es).0.halted_at ≡ s.halted_at)
      × ((pending s es).0.failures ≡ s.failures)
      × ((pending s es).0.counts ≡ s.counts)
unfolding pending
pending_keeps s none = (refl, refl, refl)
pending_keeps s (some es) = (refl, refl, refl)

by_age_irrefl : (a : Spooled) → by_age a a ≡ false
unfolding by_age
by_age_irrefl a = ground (arith, text_lt_irrefl a.name)

by_age_trans : (a b c : Spooled) → by_age a b ≡ true → by_age b c ≡ true → by_age a c ≡ true
unfolding by_age
by_age_trans a b c h k = ground (arith, text_lt_trans a.name b.name c.name)

by_age_neg_trans : (a b c : Spooled) → by_age a b ≡ false → by_age b c ≡ false → by_age a c ≡ false
unfolding by_age
by_age_neg_trans a b c h k = ground (arith, text_lt_neg_trans a.name b.name c.name)

-- An entry that a round offers: a complete payload whose present file is not held.
unfoldable pub offered_entry : Shipper → DirEntry → Option FileInfo → List Spooled
unfolding is_held is_skipped
offered_entry s e none = []
offered_entry s e (some info) =
    if is_skipped e || is_held (s.held e.name) info
    then []
    else record { name = e.name; mod_time = info.mod_time } ∷ []

abbrev pub candidates : Shipper → List DirEntry → List Spooled
candidates s [] = []
candidates s (e ∷ es) = offered_entry s e e.info ++ candidates s es

visit_out :
    (s : Shipper) (l : Gathered) (e : DirEntry) (o : Option FileInfo)
    → (if is_skipped e then l else visit s l e.name o).out ≡ l.out ++ offered_entry s e o
unfolding visit offered_entry
visit_out s l e none = ground (arith, append-nil l.out)
visit_out s l e (some info) = ground (arith, append-nil l.out)

collect_out :
    (s : Shipper) (es : List DirEntry) (l : Gathered)
    → (collect s es l).out ≡ l.out ++ candidates s es
unfolding collect
collect_out s [] l = sym (append-nil l.out)
collect_out s (e ∷ es) l =
    collect_out s es _
    ∙ ap (λ x. x ++ candidates s es) (visit_out s l e e.info)
    ∙ append_assoc l.out (offered_entry s e e.info) (candidates s es)

-- A round's payloads are the candidates of the listing, sorted.
pub pending-candidates :
    (s : Shipper) (es : List DirEntry)
    → Perm (pending s (some es)).1 (candidates s es) × IsSorted by_age (pending s (some es)).1
unfolding pending
pending-candidates s es =
    let e = collect_out s es (record { still = λ n. none; out = [] }) in
    rw e (
      sort_slice-perm by_age (candidates s es),
      sort_slice-IsSorted by_age by_age_irrefl by_age_trans by_age_neg_trans (candidates s es),
    )

module _ (s : Shipper) (n : Text) (held : FileInfo) (marked : s.held n ≡ some held) where
  -- Where a listing shows the name, it is still the file that was held.
  abbrev pub SameEntry : DirEntry → Type 0
  SameEntry e = e.name ≡ n → (info : FileInfo) → e.info ≡ some info → held.inode ≡ info.inode
