-- ===== src/Collector/Network/Deltas.antt =====
-- internal/collector/usage.go, with internal/rollup/network.go behind it: what of a pod's counters
-- reaches the records.
use runtime_agent.Prelude.Int.{pos}
use runtime_agent.Prelude.Keys.{text_key, lookup, insert, lookup-insert, lookup-select}
use runtime_agent.Prelude.{
  Option, none, some, Text, from_option, not, ◌∙◌, ap, ℕ, ◌+◌, ◌-◌, ◌^◌, ◌<◌, ◌≤◌, ◌≡◌, refl, Bool,
  false, List, [], ◌∷◌, ltb, leb, ◌==◌, arith,
}
use runtime_agent.Collector.Network.{
  NetCounterState, NetworkStats, Read, Sums, zero_counters, ran_backwards, ingest_sums, sums_of,
  ingest_network, ingest_pods, poll_network, sweep_network,
}
use runtime_agent.Collector.Usage.{clamp_to_int64, is_stale, stale_tracker_after}
use runtime_agent.Rollup.Network.{NetworkKey, NetworkDelta, Open, observe}
use runtime_agent.Rollup.Network.Totals.{over, observe-Grows}

-- A poll: its instant, and the pod's stats where a kubelet reported them.
abbrev pub Poll : Type 0
Poll = ℕ × Option NetworkStats

-- What a poll reads of the pod.
abbrev pub reads_of : Text → NetworkKey → Bool → Option NetworkStats → List Read
reads_of uid k host none = []
reads_of uid k host (some net) = (uid, k, host, some net) ∷ []

abbrev pub Trackers : Type 0
Trackers = List (Text × NetCounterState)

-- Polls in order, with what they read of one pod.
pub feed : ℕ → Text → NetworkKey → Bool → Trackers × Open → List Poll → Trackers × Open
feed w uid k host s [] = s
feed w uid k host s ((now, o) ∷ ps) =
    feed w uid k host (poll_network w (reads_of uid k host o) now s) ps

-- No counter falls, and each is below 2^63.
abbrev pub Above : Sums → Sums → Type 0
Above s n =
    (s.rx ≤ n.rx)
    × (s.tx ≤ n.tx)
    × (s.rx_err ≤ n.rx_err)
    × (s.tx_err ≤ n.tx_err)
    × (n.rx < 2 ^ 63)
    × (n.tx < 2 ^ 63)
    × (n.rx_err < 2 ^ 63)
    × (n.tx_err < 2 ^ 63)

-- Each reading has an interface and is later than the one before; a poll without a reading is no
-- more than the sweep's 300 seconds behind the last poll that had one.
unfoldable pub Rising : ℕ → ℕ → Sums → List Poll → Type 0
Rising seen t s [] = Unit
Rising seen t s ((now, none) ∷ ps) = (now ≤ seen + stale_tracker_after) × Rising seen t s ps
Rising seen t s ((now, some net) ∷ ps) =
    (t < net.time)
    × (net.time - t < 2 ^ 63)
    × Above s (sums_of net)
    × (0 < (sums_of net).interfaces)
    × Rising now net.time (sums_of net) ps

-- The instant and the sums of the last reading.
unfoldable pub last : ℕ × Sums → List Poll → ℕ × Sums
last r [] = r
last r ((now, none) ∷ ps) = last r ps
last r ((now, some net) ∷ ps) = last (net.time, sums_of net) ps

-- How many polls had a reading.
unfoldable pub readings : List Poll → ℕ
readings [] = 0
readings ((now, none) ∷ ps) = readings ps
readings ((now, some net) ∷ ps) = 1 + readings ps

clamped : (n : ℕ) → n < 2 ^ 63 → clamp_to_int64 n ≡ pos n
unfolding clamp_to_int64
clamped n h = let small : ltb (2 ^ 63 - 1) n ≡ false = ground arith in rw small refl

-- A tracker that holds a reading.
abbrev state : ℕ → ℕ → Sums → NetCounterState
state seen t s = record {
  at = t;
  rx_bytes = s.rx;
  tx_bytes = s.tx;
  rx_errors = s.rx_err;
  tx_errors = s.tx_err;
  last_seen = seen;
}

-- The rises from one reading to the next.
abbrev rises : Sums → Sums → NetworkDelta
rises s n = record {
  rx_bytes = pos (n.rx - s.rx);
  tx_bytes = pos (n.tx - s.tx);
  rx_errors = pos (n.rx_err - s.rx_err);
  tx_errors = pos (n.tx_err - s.tx_err);
  interfaces = n.interfaces;
}

next_sums :
    (w : ℕ) (k : NetworkKey) (host : Bool) (seen t at : ℕ) (s n : Sums) (acc : Open)
    → 0 < t
    → t < at
    → Above s n
    → ingest_sums w k host at n (state seen t s, acc)
      ≡ (state seen at n, observe w acc k t at (rises s n) host)
unfolding ingest_sums
next_sums w k host seen t at s n acc ht later (a, b, c, d, e, f, g, h) =
    let known : (t == 0) ≡ false = ground arith in
    let fresh : leb at t ≡ false = ground arith in
    let up : ran_backwards (state seen t s) n ≡ false = ground arith in
    rw
      (
        known,
        fresh,
        up,
        clamped (n.rx - s.rx) (omega arith),
        clamped (n.tx - s.tx) (omega arith),
        clamped (n.rx_err - s.rx_err) (omega arith),
        clamped (n.tx_err - s.tx_err) (omega arith),
      )
      refl

-- What the poller holds of a pod.
abbrev Tracked : Text → Trackers → ℕ → ℕ → Sums → Type 0
Tracked uid m seen t s = lookup uid m ≡ some (state seen t s)

-- The sweep at the end of a poll keeps a tracker that is not stale.
sweep-Tracked :
    (uid : Text) (m : Trackers) (now seen t : ℕ) (s : Sums)
    → Tracked uid m seen t s
    → now ≤ seen + stale_tracker_after
    → Tracked uid (sweep_network m now) seen t s
unfolding sweep_network
sweep-Tracked uid m now seen t s h near =
    lookup-select (λ st. not (is_stale now st.last_seen)) uid (state seen t s) m h (ground arith)

-- A poll that reads the pod writes the tracker that its counters make.
poll_reading :
    (w : ℕ) (uid : Text) (k : NetworkKey) (host : Bool) (net : NetworkStats) (now t : ℕ) (s : Sums)
    (m : Trackers) (acc acc' : Open)
    → 0 < (sums_of net).interfaces
    → ingest_sums w k host net.time
        (sums_of net)
        (record (from_option zero_counters (lookup uid m)) { last_seen = now }, acc)
      ≡ (state now t s, acc')
    → let p = poll_network w (reads_of uid k host (some net)) now (m, acc) in
      Tracked uid p.0 now t s × (p.1 ≡ acc')
unfolding poll_network ingest_pods ingest_network
poll_reading w uid k host net now t s m acc acc' some_interface h =
    let there : ((sums_of net).interfaces == 0) ≡ false = ground arith in
    rw (there, h)
      (
        sweep-Tracked uid (insert uid (state now t s) m) now now t s
            (lookup-insert uid uid (state now t s) m ∙ rw ((text_key.beq_iff uid uid).1 refl) refl)
            (omega arith),
        refl,
      )

poll_next :
    (w : ℕ) (uid : Text) (k : NetworkKey) (host : Bool) (net : NetworkStats) (now seen t : ℕ)
    (s : Sums) (m : Trackers) (acc : Open)
    → 0 < t
    → Tracked uid m seen t s
    → t < net.time
    → Above s (sums_of net)
    → 0 < (sums_of net).interfaces
    → let p = poll_network w (reads_of uid k host (some net)) now (m, acc) in
      Tracked uid p.0 now net.time (sums_of net)
      × (p.1 ≡ observe w acc k t net.time (rises s (sums_of net)) host)
poll_next w uid k host net now seen t s m acc ht tracked later above some_interface =
    poll_reading w uid k host net now net.time (sums_of net) m acc
      (observe w acc k t net.time (rises s (sums_of net)) host) some_interface
      (rw tracked (next_sums w k host now t net.time s (sums_of net) acc ht later above))

feed-next :
    (w : ℕ) (uid : Text) (k : NetworkKey) (host : Bool) (seen t : ℕ) (s : Sums) (m : Trackers)
    (acc : Open) (ps : List Poll)
    → 0 < w
    → 0 < t
    → Tracked uid m seen t s
    → Rising seen t s ps
    → let acc' = (feed w uid k host (m, acc) ps).1 in
      (over (λ r. r.rx_bytes) acc' + s.rx ≡ over (λ r. r.rx_bytes) acc + (last (t, s) ps).1.rx)
      × (over (λ r. r.tx_bytes) acc' + s.tx ≡ over (λ r. r.tx_bytes) acc + (last (t, s) ps).1.tx)
      × (over (λ r. r.covered_nanoseconds) acc' + t
          ≡ over (λ r. r.covered_nanoseconds) acc + (last (t, s) ps).0)
      × (over (λ r. r.samples) acc' ≡ over (λ r. r.samples) acc + readings ps)
unfolding feed Rising last readings poll_network ingest_pods
feed-next w uid k host seen t s m acc [] hw ht tracked h = (refl, refl, refl, omega arith)
feed-next w uid k host seen t s m acc ((now, none) ∷ ps) hw ht tracked (near, rest) =
    feed-next w uid k host seen t s (sweep_network m now) acc ps hw ht
      (sweep-Tracked uid m now seen t s tracked near) rest
feed-next w uid k host seen t s m acc ((now, some net) ∷ ps) hw ht tracked
      (later, fit, above, some_interface, rest) =
    let n = sums_of net in
    let p = poll_network w (reads_of uid k host (some net)) now (m, acc) in
    let (tracked', made) =
      poll_next w uid k host net now seen t s m acc ht tracked later above some_interface in
    let (a, b, c, d, e, f, g, h) = above in
    let (rx, tx, re, te, cv, sm) =
      observe-Grows w t net.time k (rises s n) host acc hw later fit (omega arith) (omega arith)
        (omega arith) (omega arith) in
    let (rx', tx', cv', sm') =
      feed-next w uid k host now net.time n p.0 p.1 ps hw (omega (arith, later)) tracked' rest in
    (
      omega (arith, rx, rx', a, ap (over (λ r. r.rx_bytes)) made),
      omega (arith, tx, tx', b, ap (over (λ r. r.tx_bytes)) made),
      omega (arith, cv, cv', later, ap (over (λ r. r.covered_nanoseconds)) made),
      omega (arith, sm, sm', ap (over (λ r. r.samples)) made),
    )

-- The first reading of a pod that is new to the tracker is its baseline and adds nothing; from there
-- to the last reading the open records gain exactly the bytes received and sent, the time between
-- the two, and a sample for each reading behind the first. A poll may miss the pod, no more than 300
-- seconds after the last that read it; each poll ends with the sweep. The readings have an interface
-- and come each later than the one before, under 2^63 ns, and no counter falls or reaches 2^63.
pub feed-gained :
    (w : ℕ) (uid : Text) (k : NetworkKey) (host : Bool) (now : ℕ) (net : NetworkStats)
    (m : Trackers) (acc : Open) (ps : List Poll)
    → 0 < w
    → 0 < net.time
    → 0 < (sums_of net).interfaces
    → lookup uid m ≡ none
    → Rising now net.time (sums_of net) ps
    → let acc' = (feed w uid k host (m, acc) ((now, some net) ∷ ps)).1 in
      let start : ℕ × Sums = (net.time, sums_of net) in
      (over (λ r. r.rx_bytes) acc' + start.1.rx ≡ over (λ r. r.rx_bytes) acc + (last start ps).1.rx)
      × (over (λ r. r.tx_bytes) acc' + start.1.tx
          ≡ over (λ r. r.tx_bytes) acc + (last start ps).1.tx)
      × (over (λ r. r.covered_nanoseconds) acc' + start.0
          ≡ over (λ r. r.covered_nanoseconds) acc + (last start ps).0)
      × (over (λ r. r.samples) acc' ≡ over (λ r. r.samples) acc + readings ps)
unfolding feed ingest_sums
feed-gained w uid k host now net m acc ps hw ht some_interface new_ h =
    let (tracked, made) =
      poll_reading w uid k host net now net.time (sums_of net) m acc acc some_interface
        (rw (new_) refl) in
    let p = poll_network w (reads_of uid k host (some net)) now (m, acc) in
    let (rx, tx, cv, sm) =
      feed-next w uid k host now net.time (sums_of net) p.0 p.1 ps hw ht tracked h in
    (
      omega (arith, rx, ap (over (λ r. r.rx_bytes)) made),
      omega (arith, tx, ap (over (λ r. r.tx_bytes)) made),
      omega (arith, cv, ap (over (λ r. r.covered_nanoseconds)) made),
      omega (arith, sm, ap (over (λ r. r.samples)) made),
    )
