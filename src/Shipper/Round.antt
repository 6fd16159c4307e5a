-- ===== src/Shipper/Round.antt =====
-- internal/shipper/shipper.go: a round of deliveries, and the last one. `world` is what each
-- file's delivery meets, `stopped` whether the context is done before it.
pub mod Halting
use runtime_agent.Prelude.{
  ℕ, Bool, true, false, List, [], ◌∷◌, Option, none, some, Text, if◌then◌else◌,
}
use runtime_agent.Shipper.Deliver.{Attempt, Delivery, deliver}
use runtime_agent.Shipper.Pending.{DirEntry, Spooled, pending}
use runtime_agent.Shipper.State.{Shipper, halted}

-- The state after a round, the names it offered and the names it removed, the latest first.
pub record Round : Type 0 where
  pub shipper : Shipper
  pub offered : List Text
  pub removed : List Text

abbrev pub log_if : Bool → Text → List Text → List Text
log_if b name l = if b then name ∷ l else l

module _ (envelope : Text → Option Text) (gzip : Text → Option Text) (world : Text → Attempt)
    (stopped : Text → Bool) where
  pub deliver_all : List Spooled → Round → Round
  deliver_all [] r = r
  deliver_all (f ∷ fs) r =
      let d = deliver envelope gzip r.shipper f.name (world f.name) in
      let next : Round = record {
        shipper = d.shipper;
        offered = log_if d.offered f.name r.offered;
        removed = log_if d.removed f.name r.removed;
      } in
      let rest = deliver_all fs next in
      if stopped f.name then r else (if d.goes_on then rest else next)

  -- `Round`
  unfoldable pub round : Option (List DirEntry) → Shipper → Round
  unfolding deliver_all
  round entries s =
      let (s', fs) = pending s entries in
      if halted s
      then record { shipper = s; offered = []; removed = [] }
      else deliver_all fs (record { shipper = s'; offered = []; removed = [] })
