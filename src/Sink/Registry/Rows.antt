-- ===== src/Sink/Registry/Rows.antt =====
-- What holds of every row of the registry.
use runtime_agent.Prelude.{◌≤◌, ◌≡◌, List, [], ◌∷◌, some, Text, text_eq_iff, arith, All}
use runtime_agent.Sink.Registry.{PayloadKind, find_kind, lookup_kind, registry}

abbrev IsRow : PayloadKind → Type 0
IsRow p = p.cadence.floor ≤ p.cadence.ceiling

registry-IsRow : All IsRow registry
unfolding registry
registry-IsRow = omega arith

find_kind-IsRow :
    (k : Text) (ps : List PayloadKind) (p : PayloadKind)
    → All IsRow ps
    → find_kind k ps ≡ some p
    → (p.kind ≡ k) × IsRow p
unfolding find_kind
find_kind-IsRow k [] p a h = cc
find_kind-IsRow k (q ∷ ps) p a h = ground (arith, find_kind-IsRow k ps p a.1, text_eq_iff q.kind k)

-- A kind that is found is the kind asked for, and its floor is not past its ceiling.
pub lookup_kind-IsRow :
    (k : Text) (p : PayloadKind)
    → lookup_kind k ≡ some p
    → (p.kind ≡ k) × (p.cadence.floor ≤ p.cadence.ceiling)
unfolding lookup_kind
lookup_kind-IsRow k p h = find_kind-IsRow k registry p registry-IsRow h
