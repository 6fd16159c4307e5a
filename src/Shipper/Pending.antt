-- ===== src/Shipper/Pending.antt =====
-- internal/shipper/shipper.go: `pending`, the payloads to offer in a round.
pub mod Listing
pub mod Offers
use runtime_agent.Prelude.Keys.{update}
use runtime_agent.Prelude.Sort.{sort_slice}
use runtime_agent.Prelude.{
  ℕ, Bool, true, false, ◌||◌, List, [], ◌∷◌, ◌++◌, Option, none, some, Text, codes, text_lt,
  has_suffix, ltb, ◌==◌, if◌then◌else◌,
}
use runtime_agent.Shipper.State.{Shipper, FileInfo, same_file}

pub record DirEntry : Type 0 where
  pub name : Text
  pub is_dir : Bool
  pub info : Option FileInfo

pub record Spooled : Type 0 where
  pub name : Text
  pub mod_time : ℕ

pub by_age : Spooled → Spooled → Bool
by_age a b = if a.mod_time == b.mod_time then text_lt a.name b.name else ltb a.mod_time b.mod_time

-- A payload that this process will not offer again.
is_held : Option FileInfo → FileInfo → Bool
is_held none info = false
is_held (some prev) info = same_file prev info

pub record Gathered : Type 0 where
  pub still : Text → Option FileInfo
  pub out : List Spooled

visit : Shipper → Gathered → Text → Option FileInfo → Gathered
unfolding is_held
visit s l name none = l
visit s l name (some info) =
    if is_held (s.held name) info
    then record l { still = update l.still name (s.held name) }
    else record l { out = l.out ++ record { name = name; mod_time = info.mod_time } ∷ [] }

is_skipped : DirEntry → Bool
is_skipped e = if e.is_dir then true else has_suffix e.name (codes ".tmp")

collect : Shipper → List DirEntry → Gathered → Gathered
unfolding visit is_skipped
collect s [] l = l
collect s (e ∷ es) l = collect s es (if is_skipped e then l else visit s l e.name e.info)

-- The listing, or none where the directory could not be read.
unfoldable pub pending : Shipper → Option (List DirEntry) → Shipper × List Spooled
unfolding collect by_age
pending s none = (s, [])
pending s (some es) =
    let l = collect s es (record { still = λ n. none; out = [] }) in
    (record s { held = l.still }, sort_slice by_age l.out)
