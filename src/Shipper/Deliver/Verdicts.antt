-- ===== src/Shipper/Deliver/Verdicts.antt =====
-- internal/shipper/shipper.go, `deliver`: which counter an attempt moves, what it does to the halt
-- and to the round, told from the file, the answer and the context.
use runtime_agent.Prelude.{
  ltb, ◌==◌, ◌||◌, length, Bool-cases, Option-cases, ℕ, ◌+◌, ◌≤◌, ◌<◌, ◌≡◌, ◌≢◌, ◌⊎◌, refl, inl,
  inr, Bool, true, false, Option, none, some, Text, arith,
}
use runtime_agent.Shipper.Deliver.{
  Attempt, Delivery, settle, failed, answered, post, offer, deliver_read, deliver, read,
  payload_kind, is_success, is_identity, sent_bytes,
}
use runtime_agent.Shipper.State.{Shipper, FileInfo, Shipping, hold, defer, count, max_payload_bytes}

-- What an attempt comes to: one of the counters, or none of them.
pub data Verdict : Type 0 where
  as_delivered as_deferred as_unreadable as_unauthorized as_too_large as_malformed uncounted :
      Verdict

-- How far each counter of attempts rises, and no other does.
abbrev Rises : Shipping → Shipping → ℕ → ℕ → ℕ → ℕ → ℕ → ℕ → Type 0
Rises c d delivered deferred unreadable unauthorized too_large malformed =
    (d.delivered ≡ c.delivered + delivered)
    × (d.deferred ≡ c.deferred + deferred)
    × (d.unreadable ≡ c.unreadable + unreadable)
    × (d.unauthorized ≡ c.unauthorized + unauthorized)
    × (d.too_large ≡ c.too_large + too_large)
    × (d.malformed ≡ c.malformed + malformed)

-- What a verdict does to the counters, to the halt and to the round.
unfoldable pub Effect : Verdict → Shipper → Attempt → Delivery → Type 0
Effect as_delivered s a d =
    Rises s.counts d.shipper.counts 1 0 0 0 0 0
    × (d.shipper.halted_at ≡ s.halted_at)
    × (d.goes_on ≡ true)
Effect as_deferred s a d =
    Rises s.counts d.shipper.counts 0 1 0 0 0 0
    × (d.shipper.halted_at ≡ s.halted_at)
    × (d.goes_on ≡ false)
Effect as_unreadable s a d =
    Rises s.counts d.shipper.counts 0 0 1 0 0 0
    × (d.shipper.halted_at ≡ s.halted_at)
    × (d.goes_on ≡ true)
Effect as_unauthorized s a d =
    Rises s.counts d.shipper.counts 0 0 0 1 0 0
    × (d.shipper.halted_at ≡ a.clock)
    × (d.goes_on ≡ false)
Effect as_too_large s a d =
    Rises s.counts d.shipper.counts 0 0 0 0 1 0
    × (d.shipper.halted_at ≡ s.halted_at)
    × (d.goes_on ≡ true)
Effect as_malformed s a d =
    Rises s.counts d.shipper.counts 0 0 0 0 0 1
    × (d.shipper.halted_at ≡ s.halted_at)
    × (d.goes_on ≡ true)
Effect uncounted s a d =
    Rises s.counts d.shipper.counts 0 0 0 0 0 0
    × (d.shipper.halted_at ≡ s.halted_at)
    × (d.goes_on ≡ false)

-- The answers that neither take a payload, nor refuse the agent, nor refuse the payload for good.
abbrev pub IsOther : ℕ → Type 0
IsOther status =
    ((status < 200) ⊎ (300 ≤ status))
    × (status ≢ 400)
    × (status ≢ 401)
    × (status ≢ 403)
    × (status ≢ 413)

module _ (envelope gzip : Text → Option Text) where
  -- The file could be read, is within the ceiling and is of a kind that the registry holds.
  abbrev pub IsSendable : Attempt → Text → Type 0
  IsSendable a bytes =
      (info : FileInfo) × (kind : Text) × (read a.opened ≡ some (bytes, info))
      × (info.size ≤ max_payload_bytes)
      × (length bytes ≤ max_payload_bytes)
      × (payload_kind envelope bytes ≡ some kind)

  -- The payload was sent.
  abbrev pub IsSent : Attempt → Type 0
  IsSent a = (bytes : Text) × (encoded : Text) × IsSendable a bytes × (gzip bytes ≡ some encoded)

  -- The payload is there, and its compression failed.
  abbrev pub IsUnencodable : Attempt → Type 0
  IsUnencodable a = (bytes : Text) × IsSendable a bytes × (gzip bytes ≡ none)

  -- When an attempt comes to a verdict.
  unfoldable pub Comes : Verdict → Attempt → Type 0
  Comes as_delivered a =
      IsSent a × ((status : ℕ) × (a.answer ≡ some status) × (200 ≤ status) × (status < 300))
  Comes as_deferred a =
      (IsSent a × ((status : ℕ) × (a.answer ≡ some status) × IsOther status))
      ⊎ (IsSent a × (a.answer ≡ none) × (a.cancelled ≡ false))
      ⊎ (IsUnencodable a × (a.cancelled ≡ false))
  Comes as_unreadable a =
      (read a.opened ≡ none)
      ⊎ ((bytes : Text) × (info : FileInfo) × (read a.opened ≡ some (bytes, info))
          × (info.size ≤ max_payload_bytes)
          × (length bytes ≤ max_payload_bytes)
          × (payload_kind envelope bytes ≡ none))
  Comes as_unauthorized a = IsSent a × ((a.answer ≡ some 401) ⊎ (a.answer ≡ some 403))
  Comes as_too_large a =
      (IsSent a × (a.answer ≡ some 413))
      ⊎ ((bytes : Text) × (info : FileInfo) × (read a.opened ≡ some (bytes, info))
          × ((max_payload_bytes < info.size) ⊎ (max_payload_bytes < length bytes)))
  Comes as_malformed a = IsSent a × (a.answer ≡ some 400)
  Comes uncounted a =
      (IsSent a × (a.answer ≡ none) × (a.cancelled ≡ true))
      ⊎ (IsUnencodable a × (a.cancelled ≡ true))

  -- The verdict of an attempt, and that its effect is what the delivery did.
  abbrev pub IsCounted : Shipper → Attempt → Delivery → Type 0
  IsCounted s a d = (v : Verdict) × Comes v a × Effect v s a d

  settle-IsCounted :
      (s : Shipper) (name : Text) (info : FileInfo) (a : Attempt) (status : ℕ)
      → IsSent a
      → a.answer ≡ some status
      → IsCounted s a (settle s name info a status)
  unfolding settle hold defer count Comes Effect
  settle-IsCounted s name info a status sent h = elim (Bool-cases (is_success status)) [
    | inl ok ↦ rw ok (as_delivered, (sent, (status, h, ground arith, ground arith)), ground arith)
    | inr failing ↦ elim (Bool-cases (is_identity status)) [
      | inl id ↦ rw (failing, id) (as_unauthorized, (sent, ground (arith, h)), ground arith)
      | inr other ↦ elim (Bool-cases (status == 400)) [
        | inl bad ↦ rw (failing, other, bad) (as_malformed, (sent, ground (arith, h)), ground arith)
        | inr good ↦ elim (Bool-cases (status == 413)) [
          | inl large ↦
              rw (failing, other, good, large)
                (as_too_large, inl (sent, ground (arith, h)), ground arith)
          | inr small ↦
              rw (failing, other, good, small)
                (
                  as_deferred,
                  inl (
                    sent,
                    (
                      status,
                      h,
                      (ground arith, ground arith, ground arith, ground arith, ground arith),
                    ),
                  ),
                  ground arith,
                )
        ]
      ]
    ]
  ]

  -- A request that got no answer, or that could not be made.
  failed-IsCounted :
      (s : Shipper) (a : Attempt) (b : Bool)
      → (IsSent a × (a.answer ≡ none)) ⊎ IsUnencodable a
      → IsCounted s a (failed s a b)
  unfolding failed defer Comes Effect
  failed-IsCounted s a b why = elim (Bool-cases a.cancelled) [
    | inl done ↦ rw done (
      uncounted,
      elim why [ inl (sent, h) ↦ inl (sent, h, refl) | inr u ↦ inr (u, refl) ],
      ground arith,
    )
    | inr live ↦ rw live (
      as_deferred,
      elim why [ inl (sent, h) ↦ inr (inl (sent, h, refl)) | inr u ↦ inr (inr (u, refl)) ],
      ground arith,
    )
  ]

  answered-IsCounted :
      (s : Shipper) (name : Text) (info : FileInfo) (a : Attempt) (o : Option ℕ)
      → IsSent a
      → a.answer ≡ o
      → IsCounted s a (answered s name info a o)
  unfolding answered
  answered-IsCounted s name info a none sent h = failed-IsCounted s a true (inl (sent, h))
  answered-IsCounted s name info a (some status) sent h =
      settle-IsCounted s name info a status sent h

  -- The bytes that a payload is counted by are none of the counters of attempts.
  IsCounted-bytes :
      (s : Shipper) (a : Attempt) (d : Delivery) (n m : ℕ)
      → IsCounted (count s (sent_bytes n m)) a d
      → IsCounted s a d
  unfolding count Effect
  IsCounted-bytes s a d n m (v, came, effect) = (v, came, same v effect)
    where
      same : (v : Verdict) → Effect v (count s (sent_bytes n m)) a d → Effect v s a d
      same as_delivered e = e
      same as_deferred e = e
      same as_unreadable e = e
      same as_unauthorized e = e
      same as_too_large e = e
      same as_malformed e = e
      same uncounted e = e

  post-IsCounted :
      (s : Shipper) (name : Text) (info : FileInfo) (a : Attempt) (bytes : Text) (o : Option Text)
      → IsSendable a bytes
      → gzip bytes ≡ o
      → IsCounted s a (post s name info a bytes o)
  unfolding post
  post-IsCounted s name info a bytes none sendable h =
      failed-IsCounted s a false (inr (bytes, sendable, h))
  post-IsCounted s name info a bytes (some encoded) sendable h =
      IsCounted-bytes s a _ (length bytes) (length encoded)
        (answered-IsCounted _ name info a a.answer (bytes, encoded, sendable, h) refl)

  deliver_read-IsCounted :
      (s : Shipper) (name : Text) (a : Attempt) (o : Option (Text × FileInfo))
      → read a.opened ≡ o
      → IsCounted s a (deliver_read envelope gzip s name a o)
  unfolding deliver_read count hold Comes Effect
  deliver_read-IsCounted s name a none h = (as_unreadable, inl h, ground arith)
  deliver_read-IsCounted s name a (some (bytes, info)) h =
      elim (Bool-cases (ltb max_payload_bytes info.size || ltb max_payload_bytes (length bytes))) [
        | inl past ↦ rw past (as_too_large, inr (bytes, info, h, ground arith), ground arith)
        | inr within ↦ rw within (elim (Option-cases (payload_kind envelope bytes)) [
          | inl unknown ↦
              rw (unknown, offer)
                (
                  as_unreadable,
                  inr (bytes, info, h, ground arith, ground arith, unknown),
                  ground arith,
                )
          | inr (kind, known) ↦
              rw (known, offer)
                (post-IsCounted s name info a bytes (gzip bytes)
                  (info, kind, h, ground arith, ground arith, known) refl)
        ])
      ]

  -- A delivery moves one counter of attempts by one and leaves the others, as the file and the
  -- answer tell. A file that cannot be read, or is of no kind of the registry, is unreadable; one
  -- past the ceiling is too large. A payload that was sent is delivered on a 2xx, malformed on a
  -- 400, too large on a 413, unauthorized on a 401 or a 403, and deferred on any other answer. A
  -- request that failed, or a payload whose compression failed, is deferred too, unless the context
  -- is done: then no counter moves. Shipping halts, at the instant of the attempt, exactly where it
  -- is unauthorized, and the round goes on exactly where it is delivered, unreadable, too large or
  -- malformed.
  pub deliver-IsCounted :
      (s : Shipper) (name : Text) (a : Attempt) → IsCounted s a (deliver envelope gzip s name a)
  unfolding deliver
  deliver-IsCounted s name a = deliver_read-IsCounted s name a (read a.opened) refl
