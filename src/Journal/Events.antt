-- ===== src/Journal/Events.antt =====
-- What the journals of single events share (internal/journal/disruptions.go, jobs.go, nodes.go): a
-- map of records by their own key, on the conventions of the restart journal.
pub mod Resumption
pub mod Continuing
use runtime_agent.Prelude.Keys.{Eq, lookup, insert, values}
use runtime_agent.Prelude.Sort.{sort_slice}
use runtime_agent.Prelude.{ℕ, ◌+◌, Bool, List, [], ◌∷◌, Option, none, some}
use runtime_agent.Journal.Windows.{closing, remaining}

module _ {K R : Type 0} ⦃e : Eq K⦄ (key_of : R → K) where
  -- The write at the end of `Observe`.
  abbrev pub file : R → List (K × R) → List (K × R)
  file r m = insert (key_of r) r m

  -- One round of the loop of `Resume`, given what the key holds, and whether it seeded.
  abbrev pub resume_held : List (K × R) → R → Option R → List (K × R) × ℕ
  resume_held m r (some held) = (m, 0)
  resume_held m r none = (file r m, 1)

  -- `Resume`: the open records, and how many were seeded.
  abbrev pub resume : List (K × R) → List R → List (K × R) × ℕ
  resume m [] = (m, 0)
  resume m (r ∷ rs) =
      let (m', n) = resume_held m r (lookup (key_of r) m) in let (t, k) = resume m' rs in (t, n + k)
