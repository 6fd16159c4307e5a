-- ===== src/Shipper/Deliver/Outcomes.antt =====
-- What one delivery does: when it removes the file, and when it halts.
use runtime_agent.Prelude.{
  ap, ◌∙◌, ◌||◌, ltb, length, Bool-cases, Option-cases, ℕ, ◌+◌, ◌≤◌, ◌<◌, ◌≡◌, ◌⊎◌, refl, inl, inr,
  true, false, Option, none, some, Text, arith,
}
use runtime_agent.Shipper.Deliver.{
  Opened, Attempt, Delivery, settle, failed, answered, post, offer, deliver_read, deliver, read,
  payload_kind, is_success,
}
use runtime_agent.Shipper.State.{
  Shipper, FileInfo, hold, defer, count, one_unreadable, one_too_large, max_payload_bytes,
}

-- The file was removed: the backend acknowledged these bytes, and the file under the name was
-- still the one that had been opened.
pub record IsAcknowledged (s : Shipper) (a : Attempt) (d : Delivery) : Type 0 where
  pub status : ℕ
  pub answered : a.answer ≡ some status
  pub success : (200 ≤ status) × (status < 300)
  pub opened : Opened
  pub current : FileInfo
  pub was_opened : a.opened ≡ some opened
  pub is_current : a.current ≡ some current
  pub same : opened.info.inode ≡ current.inode
  pub removable : a.removes ≡ true
  pub offered : d.offered ≡ true
  pub counted : d.shipper.counts.delivered ≡ s.counts.delivered + 1

abbrev RemovesSent : Shipper → FileInfo → Attempt → Delivery → Type 0
RemovesSent s info a d =
    d.removed ≡ true
    → (status : ℕ) × (current : FileInfo) × (a.answer ≡ some status)
      × (200 ≤ status)
      × (status < 300)
      × (a.current ≡ some current)
      × (info.inode ≡ current.inode)
      × (a.removes ≡ true)
      × (d.offered ≡ true)
      × (d.shipper.counts.delivered ≡ s.counts.delivered + 1)

settle-RemovesSent :
    (s : Shipper) (name : Text) (info : FileInfo) (a : Attempt) (status : ℕ) (o : Option FileInfo)
    → a.answer ≡ some status
    → a.current ≡ o
    → RemovesSent s info a (settle s name info a status)
unfolding settle hold defer count
settle-RemovesSent s name info a status none h c r = ground (arith, c)
settle-RemovesSent s name info a status (some current) h c r = (
  status,
  current,
  h,
  ground (arith, c),
  ground (arith, c),
  c,
  ground (arith, c),
  ground (arith, c),
  ground (arith, c),
  ground (arith, c),
)

answered-RemovesSent :
    (s : Shipper) (name : Text) (info : FileInfo) (a : Attempt) (o : Option ℕ)
    → a.answer ≡ o
    → RemovesSent s info a (answered s name info a o)
unfolding answered failed defer
answered-RemovesSent s name info a none h r = ground arith
answered-RemovesSent s name info a (some status) h r =
    settle-RemovesSent s name info a status a.current h refl r

post-RemovesSent :
    (s : Shipper) (name : Text) (info : FileInfo) (a : Attempt) (bytes : Text) (o : Option Text)
    → RemovesSent s info a (post s name info a bytes o)
unfolding post failed defer count
post-RemovesSent s name info a bytes none r = ground arith
post-RemovesSent s name info a bytes (some encoded) r =
    answered-RemovesSent _ name info a a.answer refl r

-- Shipping halts on one answer only, the refusal of the agent's identity, and that ends the round.
abbrev pub Halts : Shipper → Attempt → Delivery → Type 0
Halts s a d =
    (d.shipper.halted_at ≡ s.halted_at)
    ⊎ ((d.shipper.halted_at ≡ a.clock)
        × (d.goes_on ≡ false)
        × (d.offered ≡ true)
        × ((a.answer ≡ some 401) ⊎ (a.answer ≡ some 403)))

settle-Halts :
    (s : Shipper) (name : Text) (info : FileInfo) (a : Attempt) (status : ℕ)
    → a.answer ≡ some status
    → Halts s a (settle s name info a status)
unfolding settle hold defer count
settle-Halts s name info a status h = ground (arith, h)

answered-Halts :
    (s : Shipper) (name : Text) (info : FileInfo) (a : Attempt) (o : Option ℕ)
    → a.answer ≡ o
    → Halts s a (answered s name info a o)
unfolding answered failed defer
answered-Halts s name info a none h = inl (ground arith)
answered-Halts s name info a (some status) h = settle-Halts s name info a status h

post-Halts :
    (s : Shipper) (name : Text) (info : FileInfo) (a : Attempt) (bytes : Text) (o : Option Text)
    → Halts s a (post s name info a bytes o)
unfolding post failed defer count
post-Halts s name info a bytes none = inl (ground arith)
post-Halts s name info a bytes (some encoded) = answered-Halts _ name info a a.answer refl

read_info :
    (o : Option Opened) (bytes : Text) (info : FileInfo)
    → read o ≡ some (bytes, info)
    → (p : Opened) × (o ≡ some p) × (p.info ≡ info)
unfolding read
read_info none bytes info h = cc
read_info (some p) bytes info h = (p, refl, ground (arith, p.content))

module _ (envelope gzip : Text → Option Text) where
  -- A delivery is unreadable, past the ceiling, or posted.
  deliver_read_cases :
      (P : Delivery → Type 0) (s : Shipper) (name : Text) (a : Attempt)
      (o : Option (Text × FileInfo))
      → P (record {
        shipper = count s one_unreadable;
        goes_on = true;
        offered = false;
        removed = false;
      })
      → ((info : FileInfo)
          → P (record {
            shipper = hold s name info one_too_large;
            goes_on = true;
            offered = false;
            removed = false;
          }))
      → ((bytes : Text) (info : FileInfo)
          → o ≡ some (bytes, info)
          → P (post s name info a bytes (gzip bytes)))
      → P (deliver_read envelope gzip s name a o)
  unfolding deliver_read
  deliver_read_cases P s name a none unreadable too_large posted = unreadable
  deliver_read_cases P s name a (some (bytes, info)) unreadable too_large posted =
      elim (Bool-cases (ltb max_payload_bytes info.size || ltb max_payload_bytes (length bytes))) [
        | inl past ↦ rw past (too_large info)
        | inr within ↦ rw within (elim (Option-cases (payload_kind envelope bytes)) [
          | inl unknown ↦ rw (unknown, offer) unreadable
          | inr (kind, known) ↦ rw (known, offer) (posted bytes info refl)
        ])
      ]

  -- Shipping halts on one answer only, a 401 or a 403, at the instant of that answer, and the round
  -- does not go on from there. On every other outcome the halt is as it was.
  pub deliver-Halts :
      (s : Shipper) (name : Text) (a : Attempt) → Halts s a (deliver envelope gzip s name a)
  unfolding deliver count hold
  deliver-Halts s name a =
      deliver_read_cases (Halts s a) s name a (read a.opened) (inl refl) (λ info. inl refl)
        (λ bytes info e. post-Halts s name info a bytes _)

  posted-IsAcknowledged :
      (s : Shipper) (a : Attempt) (info : FileInfo) (d : Delivery)
      → (p : Opened) × (a.opened ≡ some p) × (p.info ≡ info)
      → RemovesSent s info a d
      → d.removed ≡ true
      → IsAcknowledged s a d
  posted-IsAcknowledged s a info d (p, e, i) sent r =
      let (status, current, h1, h2, h3, h4, h5, h6, h7, h8) = sent r in
      record {
        status = status;
        answered = h1;
        success = (h2, h3);
        opened = p;
        current = current;
        was_opened = e;
        is_current = h4;
        same = ap (λ j. j.inode) i ∙ h5;
        removable = h6;
        offered = h7;
        counted = h8;
      }

  -- Deletion is acknowledgment: a file is removed only after the backend answered its payload with
  -- a 2xx, and only while the file under its name is still the one that was opened and sent.
  pub deliver-IsAcknowledged :
      (s : Shipper) (name : Text) (a : Attempt)
      → (deliver envelope gzip s name a).removed ≡ true
      → IsAcknowledged s a (deliver envelope gzip s name a)
  unfolding deliver
  deliver-IsAcknowledged s name a =
      deliver_read_cases (λ d. d.removed ≡ true → IsAcknowledged s a d) s name a (read a.opened)
        (λ r. cc) (λ info r. cc)
        (λ bytes info e r.
          posted-IsAcknowledged s a info _ (read_info a.opened bytes info e)
            (post-RemovesSent s name info a bytes (gzip bytes)) r)

-- The backend answered, and it took the payload or refused its bytes for good.
abbrev pub IsTaken : Attempt → Type 0
IsTaken a =
    (status : ℕ) × (a.answer ≡ some status)
    × ((is_success status ≡ true) ⊎ (status ≡ 400) ⊎ (status ≡ 413))

abbrev Takes : Attempt → Delivery → Type 0
Takes a d = d.goes_on ≡ true → d.offered ≡ true → IsTaken a

answered-Takes :
    (s : Shipper) (name : Text) (info : FileInfo) (a : Attempt) (o : Option ℕ)
    → a.answer ≡ o
    → Takes a (answered s name info a o)
unfolding answered failed settle hold defer count
answered-Takes s name info a none h g f = ground arith
answered-Takes s name info a (some status) h g f = (status, h, ground arith)

post-Takes :
    (s : Shipper) (name : Text) (info : FileInfo) (a : Attempt) (bytes : Text) (o : Option Text)
    → Takes a (post s name info a bytes o)
unfolding post failed defer count
post-Takes s name info a bytes none g f = ground arith
post-Takes s name info a bytes (some encoded) g f = answered-Takes _ name info a a.answer refl g f

module _ (envelope gzip : Text → Option Text) where
  pub deliver-IsTaken :
      (s : Shipper) (name : Text) (a : Attempt)
      → (deliver envelope gzip s name a).goes_on ≡ true
      → (deliver envelope gzip s name a).offered ≡ true
      → IsTaken a
  unfolding deliver
  deliver-IsTaken s name a =
      deliver_read_cases envelope gzip (Takes a) s name a (read a.opened) (λ g f. cc)
        (λ info g f. cc) (λ bytes info e. post-Takes s name info a bytes (gzip bytes))
