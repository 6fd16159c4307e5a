-- ===== src/Sink/Payloads/Groups.antt =====
-- internal/sink/spool.go: what the records of one payload are.
use runtime_agent.Prelude.Keys.{nat_key, pair_key, lookup, lookup-insert, All-insert, All-lookup}
use runtime_agent.Prelude.{
  Bool, true, false, List, [], ◌∷◌, ◌++◌, Option, none, some, ◌≡◌, refl, sym, ap, ◌∙◌, inl, inr,
  Bool-cases, from_option, All, All-append, select, if◌then◌else◌,
}
use runtime_agent.Sink.Windows.{WindowKey}
use runtime_agent.Sink.Payloads.{add_to_group, group_loop, group_by_window}
use mathlib.Core.List.{append_assoc, append-nil}

module _ {ℓ} {R : Type ℓ} (window_of : R → WindowKey) where
  -- Whether a record is of the window.
  unfoldable pub is_of : WindowKey → R → Bool
  unfolding pair_key
  is_of k r = pair_key.beq (window_of r) k

  held : WindowKey → List (WindowKey × List R) → List R
  held k grouped = from_option [] (lookup k grouped)

  held-insert :
      (k j : WindowKey) (grouped : List (WindowKey × List R)) (r : R) (same : Bool)
      → pair_key.beq j k ≡ same
      → from_option [] (if same then some (held j grouped ++ r ∷ []) else lookup k grouped)
        ≡ held k grouped ++ (if same then r ∷ [] else [])
  unfolding held
  held-insert k j grouped r true e = ap (λ i. held i grouped ++ r ∷ []) ((pair_key.beq_iff j k).0 e)
  held-insert k j grouped r false e = sym (append-nil (held k grouped))

  held-add_to_group :
      (k : WindowKey) (grouped : List (WindowKey × List R)) (r : R)
      → held k (add_to_group window_of grouped r)
        ≡ held k grouped ++ (if is_of k r then r ∷ [] else [])
  unfolding held add_to_group is_of
  held-add_to_group k grouped r =
      ap (from_option [])
        (lookup-insert (window_of r) k (held (window_of r) grouped ++ r ∷ []) grouped)
      ∙ held-insert k (window_of r) grouped r (pair_key.beq (window_of r) k) refl

  select_cons :
      (k : WindowKey) (before : List R) (r : R) (rs : List R)
      → (before ++ (if is_of k r then r ∷ [] else [])) ++ select (is_of k) rs
        ≡ before ++ select (is_of k) (r ∷ rs)
  select_cons k before r rs = elim (Bool-cases (is_of k r)) [
    | inl e ↦ rw e (append_assoc before (r ∷ []) (select (is_of k) rs))
    | inr e ↦ rw e (append_assoc before [] (select (is_of k) rs))
  ]

  held-group_loop :
      (k : WindowKey) (grouped : List (WindowKey × List R)) (rs : List R)
      → held k (group_loop window_of grouped rs) ≡ held k grouped ++ select (is_of k) rs
  unfolding group_loop
  held-group_loop k grouped [] = sym (append-nil (held k grouped))
  held-group_loop k grouped (r ∷ rs) =
      held-group_loop k (add_to_group window_of grouped r) rs
      ∙ ap (λ t. t ++ select (is_of k) rs) (held-add_to_group k grouped r)
      ∙ select_cons k (held k grouped) r rs

  -- The group of a window is the records of that window, each of them once and in their order, and
  -- it is empty where there are none.
  pub lookup-group_by_window :
      (k : WindowKey) (rs : List R)
      → from_option [] (lookup k (group_by_window window_of rs)) ≡ select (is_of k) rs
  unfolding group_by_window held lookup
  lookup-group_by_window k rs = held-group_loop k [] rs

  -- Every record of a group is of the group's window.
  abbrev pub OfWindow : WindowKey × List R → Type 0
  OfWindow g = All (λ r. window_of r ≡ g.0) g.1

  OfWindow-held :
      (k : WindowKey) (grouped : List (WindowKey × List R)) (found : Option (List R))
      → lookup k grouped ≡ found
      → All OfWindow grouped
      → OfWindow (k, from_option [] found)
  OfWindow-held k grouped none e a = tt
  OfWindow-held k grouped (some rs) e a = All-lookup OfWindow k rs grouped a e

  OfWindow-group_loop :
      (grouped : List (WindowKey × List R)) (rs : List R)
      → All OfWindow grouped
      → All OfWindow (group_loop window_of grouped rs)
  unfolding group_loop add_to_group
  OfWindow-group_loop grouped [] a = a
  OfWindow-group_loop grouped (r ∷ rs) a =
      let k = window_of r in
      let old = OfWindow-held k grouped (lookup k grouped) refl a in
      let new =
        All-append (λ x. window_of x ≡ k) (from_option [] (lookup k grouped)) (r ∷ []) old
          (refl, tt) in
      OfWindow-group_loop (add_to_group window_of grouped r) rs
        (All-insert OfWindow k (from_option [] (lookup k grouped) ++ r ∷ []) grouped a new)

  pub OfWindow-group_by_window : (rs : List R) → All OfWindow (group_by_window window_of rs)
  unfolding group_by_window
  OfWindow-group_by_window rs = OfWindow-group_loop [] rs tt
