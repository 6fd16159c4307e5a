-- ===== src/Shipper/Pending/Offers.antt =====
-- internal/shipper/shipper.go, `pending`: which files of a listing a round offers, and in what order.
use runtime_agent.Collector.Filter.Search.{has_suffix-split, has_suffix-append}
use runtime_agent.Prelude.Sort.{IsSorted}
use runtime_agent.Prelude.{
  ◌<◌, ◌≡◌, ◌≢◌, ◌⊎◌, ◌∙◌, ap, refl, sym, inl, inr, true, false, List, [], ◌∷◌, ◌++◌, Perm, Option,
  none, some, Text, codes, text_lt, has_suffix, arith, All, All-map, Bool-cases, from_option,
}
use runtime_agent.Shipper.Pending.{DirEntry, Spooled, by_age, is_held, is_skipped, pending}
use runtime_agent.Shipper.Pending.Listing.{offered_entry, candidates, pending-candidates}
use runtime_agent.Shipper.State.{Shipper, FileInfo}

-- The name of a file that is still being written.
abbrev pub IsTemporary : Text → Type 0
IsTemporary n = (p : Text) × (n ≡ p ++ codes ".tmp")

-- A complete file that is not the one the shipper holds under the name.
abbrev pub IsOffered : Shipper → DirEntry → FileInfo → Type 0
IsOffered s e info =
    (e.is_dir ≡ false)
    × ¬ (IsTemporary e.name)
    × (e.info ≡ some info)
    × ((h : FileInfo) → s.held e.name ≡ some h → h.inode ≢ info.inode)

-- The files that a listing offers, in its order.
pub data Offers (s : Shipper) : List DirEntry → List Spooled → Type 0 where
  ended : Offers s [] []
  offered :
      {e : DirEntry} {es : List DirEntry} {fs : List Spooled} (info : FileInfo)
      → IsOffered s e info
      → Offers s es fs
      → Offers s (e ∷ es) (record { name = e.name; mod_time = info.mod_time } ∷ fs)
  passed :
      {e : DirEntry} {es : List DirEntry} {fs : List Spooled}
      → ((info : FileInfo) → ¬ (IsOffered s e info))
      → Offers s es fs
      → Offers s (e ∷ es) fs

-- The first is older than the second, or as old and not behind it by name.
abbrev pub IsOlder : Spooled → Spooled → Type 0
IsOlder a b =
    (a.mod_time < b.mod_time) ⊎ ((a.mod_time ≡ b.mod_time) × (text_lt b.name a.name ≡ false))

abbrev pub OldestFirst : List Spooled → Type 0
OldestFirst [] = Unit
OldestFirst (f ∷ fs) = All (IsOlder f) fs × OldestFirst fs

by_age-IsOlder : (a b : Spooled) → by_age b a ≡ false → IsOlder a b
unfolding by_age
by_age-IsOlder a b h = ground arith

sorted-OldestFirst : (fs : List Spooled) → IsSorted by_age fs → OldestFirst fs
sorted-OldestFirst [] h = tt
sorted-OldestFirst (f ∷ fs) (first, h) =
    (All-map (λ g. by_age-IsOlder f g) fs first, sorted-OldestFirst fs h)

skipped-passed :
    (s : Shipper) (e : DirEntry) (info : FileInfo) → is_skipped e ≡ true → ¬ (IsOffered s e info)
unfolding is_skipped
skipped-passed s e info h (file, whole, i, other) =
    whole (has_suffix-split e.name (codes ".tmp") (ground (arith, h, file)))

taken-whole : (e : DirEntry) → is_skipped e ≡ false → ¬ (IsTemporary e.name)
unfolding is_skipped
taken-whole e h (p, q) =
    ground (arith, h, ap (λ n. has_suffix n (codes ".tmp")) q ∙ has_suffix-append p (codes ".tmp"))

taken-file : (e : DirEntry) → is_skipped e ≡ false → e.is_dir ≡ false
unfolding is_skipped
taken-file e h = ground (arith, h)

held_inode :
    (o : Option FileInfo) (i : FileInfo)
    → is_held o i ≡ true
    → (h : FileInfo) × (o ≡ some h) × (h.inode ≡ i.inode)
unfolding is_held
held_inode none i h = absurd (ground (arith, h))
held_inode (some g) i h = (g, refl, ground (arith, h))

held-passed :
    (s : Shipper) (e : DirEntry) (i info : FileInfo)
    → e.info ≡ some i
    → is_held (s.held e.name) i ≡ true
    → ¬ (IsOffered s e info)
held-passed s e i info h held (file, whole, j, other) =
    let (g, found, same) = held_inode (s.held e.name) i held in
    other g found (same ∙ ap (λ o. (from_option i o).inode) (sym h ∙ j))

free : (o : Option FileInfo) (i h : FileInfo) → is_held o i ≡ false → o ≡ some h → h.inode ≢ i.inode
unfolding is_held
free none i h a b c = absurd (ground (arith, b))
free (some g) i h a b c = ground (arith, a, c, ap (λ o. (from_option g o).inode) b)

entry-Offers :
    (s : Shipper) (e : DirEntry) (es : List DirEntry) (fs : List Spooled) (o : Option FileInfo)
    → e.info ≡ o
    → Offers s es fs
    → Offers s (e ∷ es) (offered_entry s e o ++ fs)
unfolding offered_entry
entry-Offers s e es fs none h rest =
    passed (λ info (file, whole, j, other). ground (arith, h, j)) rest
entry-Offers s e es fs (some i) h rest = elim (Bool-cases (is_skipped e)) [
  | inl skip ↦ rw skip (passed (λ info. skipped-passed s e info skip) rest)
  | inr take ↦ elim (Bool-cases (is_held (s.held e.name) i)) [
    | inl held ↦ rw (take, held) (passed (λ info. held-passed s e i info h held) rest)
    | inr new ↦
        rw (take, new)
          (offered i
            (taken-file e take, taken-whole e take, h, λ g q. free (s.held e.name) i g new q) rest)
  ]
]

candidates-Offers : (s : Shipper) (es : List DirEntry) → Offers s es (candidates s es)
candidates-Offers s [] = ended
candidates-Offers s (e ∷ es) =
    entry-Offers s e es (candidates s es) e.info refl (candidates-Offers s es)

-- What a round offers of a listing, and in what order.
abbrev pub IsRound : Shipper → List DirEntry → List Spooled → Type 0
IsRound s es out = (fs : List Spooled) × Offers s es fs × Perm out fs × OldestFirst out

-- A round offers exactly the files of the listing that are complete, with no `.tmp` at the end of
-- the name, that have not vanished, and that are not the file that the shipper holds under the name.
-- It offers the oldest first, and by name where the times tie.
pub pending-IsRound : (s : Shipper) (es : List DirEntry) → IsRound s es (pending s (some es)).1
pending-IsRound s es =
    let (same, sorted) = pending-candidates s es in
    (candidates s es, candidates-Offers s es, same, sorted-OldestFirst _ sorted)
