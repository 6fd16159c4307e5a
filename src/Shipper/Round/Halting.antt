-- ===== src/Shipper/Round/Halting.antt =====
-- Where a round stops, and what a rejected identity does to it and to every later one.
use runtime_agent.Prelude.{
  ◌≡◌, ◌≢◌, ◌⊎◌, ◌∙◌, refl, inl, inr, Bool, true, false, List, [], ◌∷◌, Option, some, Text, arith,
  All, Bool-cases,
}
use runtime_agent.Shipper.Deliver.{Attempt, Delivery, deliver}
use runtime_agent.Shipper.Deliver.Outcomes.{Halts, deliver-Halts, IsTaken, deliver-IsTaken}
use runtime_agent.Shipper.Pending.{DirEntry, Spooled, pending}
use runtime_agent.Shipper.Pending.Listing.{pending_keeps}
use runtime_agent.Shipper.Round.{Round, log_if, deliver_all, round}
use runtime_agent.Shipper.State.{Shipper, halted}

module _ (envelope : Text → Option Text) (gzip : Text → Option Text) (world : Text → Attempt)
    (stopped : Text → Bool) where
  -- Every offer but the latest was answered, and the backend took the payload or refused it for
  -- good.
  abbrev pub Stops : List Text → Type 0
  Stops [] = Unit
  Stops (n ∷ rest) = All (λ m. IsTaken (world m)) rest

  Stops-of_All : (l : List Text) → All (λ m. IsTaken (world m)) l → Stops l
  Stops-of_All [] h = tt
  Stops-of_All (n ∷ l) h = h.1

  log-Stops :
      (b : Bool) (n : Text) (l : List Text) → All (λ m. IsTaken (world m)) l → Stops (log_if b n l)
  log-Stops true n l h = h
  log-Stops false n l h = Stops-of_All l h

  log-All :
      (b : Bool) (n : Text) (l : List Text)
      → (b ≡ true → IsTaken (world n))
      → All (λ m. IsTaken (world m)) l
      → All (λ m. IsTaken (world m)) (log_if b n l)
  log-All true n l t h = (t refl, h)
  log-All false n l t h = h

  deliver_all-Stops :
      (fs : List Spooled) (r : Round)
      → All (λ m. IsTaken (world m)) r.offered
      → Stops (deliver_all envelope gzip world stopped fs r).offered
  unfolding deliver_all
  deliver_all-Stops [] r h = Stops-of_All r.offered h
  deliver_all-Stops (f ∷ fs) r h = elim (Bool-cases (stopped f.name)) [
    | inl over ↦ rw over (Stops-of_All r.offered h)
    | inr running ↦
        rw running
          (elim (Bool-cases (deliver envelope gzip r.shipper f.name (world f.name)).goes_on) [
            | inl on ↦ rw on (
                deliver_all-Stops fs _ (
                  log-All _ f.name r.offered
                    (λ o. deliver-IsTaken envelope gzip r.shipper f.name (world f.name) on o) h))
            | inr off ↦ rw off (log-Stops _ f.name r.offered h)
          ])
  ]

  -- A round offers payloads one at a time and stops at the first that the backend could not take:
  -- every offer but the latest was answered with a 2xx, a 400 or a 413.
  pub round-Stops :
      (entries : Option (List DirEntry)) (s : Shipper)
      → Stops (round envelope gzip world stopped entries s).offered
  unfolding round
  round-Stops entries s = elim (Bool-cases (halted s)) [
    | inl h ↦ rw h tt
    | inr h ↦ rw h (deliver_all-Stops (pending s entries).1 _ tt)
  ]

  -- The identity of the agent was refused on the latest offer.
  abbrev pub Refused : List Text → Type 0
  Refused [] = ⊥
  Refused (n ∷ rest) = ((world n).answer ≡ some 401) ⊎ ((world n).answer ≡ some 403)

  -- Shipping has not halted, or the latest offer is to blame.
  abbrev Blames : Round → Type 0
  Blames r = (r.shipper.halted_at ≡ 0) ⊎ Refused r.offered

  -- A delivery that halts is the last of its round.
  next-Blames :
      (s : Shipper) (n : Text) (d : Delivery) (l m : List Text)
      → s.halted_at ≡ 0
      → d.goes_on ≡ false
      → Halts s (world n) d
      → Blames (record { shipper = d.shipper; offered = log_if d.offered n l; removed = m })
  next-Blames s n d l m z off (inl same) = inl (same ∙ z)
  next-Blames s n d l m z off (inr (c, g, o, a)) = inr (rw o a)

  going_on :
      (s : Shipper) (n : Text) (d : Delivery)
      → s.halted_at ≡ 0
      → d.goes_on ≡ true
      → Halts s (world n) d
      → d.shipper.halted_at ≡ 0
  going_on s n d z on (inl same) = same ∙ z
  going_on s n d z on (inr (c, g, o, a)) = cc

  deliver_all-Blames :
      (fs : List Spooled) (r : Round)
      → r.shipper.halted_at ≡ 0
      → Blames (deliver_all envelope gzip world stopped fs r)
  unfolding deliver_all
  deliver_all-Blames [] r z = inl z
  deliver_all-Blames (f ∷ fs) r z =
      let d = deliver envelope gzip r.shipper f.name (world f.name) in
      let halts = deliver-Halts envelope gzip r.shipper f.name (world f.name) in
      elim (Bool-cases (stopped f.name)) [
        | inl over ↦ rw over (inl z)
        | inr running ↦
            rw running
              (elim (Bool-cases (deliver envelope gzip r.shipper f.name (world f.name)).goes_on) [
                | inl on ↦ rw on (deliver_all-Blames fs _ (going_on r.shipper f.name d z on halts))
                | inr off ↦ rw off (
                    next-Blames r.shipper f.name d r.offered (log_if d.removed f.name r.removed) z
                      off halts)
              ])
      ]

  round-Blames :
      (entries : Option (List DirEntry)) (s : Shipper)
      → s.halted_at ≡ 0
      → Blames (round envelope gzip world stopped entries s)
  unfolding round
  round-Blames entries s z = elim (Bool-cases (halted s)) [
    | inl h ↦ rw h (inl z)
    | inr h ↦ rw h (deliver_all-Blames (pending s entries).1 _ ((pending_keeps s entries).0 ∙ z))
  ]

  round_halted :
      (entries : Option (List DirEntry)) (s : Shipper)
      → s.halted_at ≢ 0
      → round envelope gzip world stopped entries s
        ≡ record { shipper = s; offered = []; removed = [] }
  unfolding round
  round_halted entries s h = let e : halted s ≡ true = ground arith in rw e

-- If a round halts shipping, the latest payload that it offered was answered by a 401 or a 403.
-- Every later round, whatever it would meet, offers nothing, removes nothing and changes nothing.
pub round_halts :
    (envelope gzip : Text → Option Text) (world : Text → Attempt) (stopped : Text → Bool)
    (entries : Option (List DirEntry)) (s : Shipper)
    → s.halted_at ≡ 0
    → let r = round envelope gzip world stopped entries s in
      r.shipper.halted_at ≢ 0
      → Refused envelope gzip world stopped r.offered
        × ((world' : Text → Attempt) (stopped' : Text → Bool) (later : Option (List DirEntry))
            → round envelope gzip world' stopped' later r.shipper
              ≡ record { shipper = r.shipper; offered = []; removed = [] })
round_halts envelope gzip world stopped entries s z h = (
  elim (round-Blames envelope gzip world stopped entries s z) [ inl e ↦ absurd (h e) | inr r ↦ r ],
  (λ world' stopped' later. round_halted envelope gzip world' stopped' later _ h),
)
