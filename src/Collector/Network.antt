-- ===== src/Collector/Network.antt =====
-- internal/collector/usage.go: how a pod's network counters become deltas, on the conventions of the
-- poller. A sum of counters is a uint64.
pub mod Deltas
use runtime_agent.Prelude.Int.{ℤ, pos}
use runtime_agent.Prelude.Keys.{text_key, lookup, insert}
use runtime_agent.Prelude.{
  ℕ, ◌+◌, ◌-◌, ◌%◌, ◌^◌, Bool, true, false, ◌||◌, List, [], ◌∷◌, Option, none, some, ltb, leb, ◌==◌,
  length, if◌then◌else◌, Text, from_option, select, not,
}
use runtime_agent.Collector.Usage.{clamp_to_int64, is_stale}
use runtime_agent.Rollup.Network as Rollup
use runtime_agent.Rollup.Network.{NetworkKey, NetworkDelta, observe}

-- `statsapi.InterfaceStats`, without the name, which is not read.
pub record Interface : Type 0 where
  pub rx_bytes : Option ℕ
  pub tx_bytes : Option ℕ
  pub rx_errors : Option ℕ
  pub tx_errors : Option ℕ

-- `statsapi.NetworkStats`: the default interface stands inline.
pub record NetworkStats : Type 0 where
  pub time : ℕ
  pub default : Interface
  pub interfaces : List Interface

-- `netCounterState`
pub record NetCounterState : Type 0 where
  pub at : ℕ
  pub rx_bytes : ℕ
  pub tx_bytes : ℕ
  pub rx_errors : ℕ
  pub tx_errors : ℕ
  pub last_seen : ℕ

abbrev pub zero_counters : NetCounterState
zero_counters = record {
  at = 0;
  rx_bytes = 0;
  tx_bytes = 0;
  rx_errors = 0;
  tx_errors = 0;
  last_seen = 0;
}

-- `interfacesOf`
unfoldable pub interfaces_of : NetworkStats → List Interface
interfaces_of n = if length n.interfaces == 0 then n.default ∷ [] else n.interfaces

-- The sums of the loop, and how many interfaces they are over.
pub record Sums : Type 0 where
  pub rx : ℕ
  pub tx : ℕ
  pub rx_err : ℕ
  pub tx_err : ℕ
  pub interfaces : ℕ

is_silent : Interface → Bool
is_silent i = elim i.rx_bytes [
  | some b ↦ false
  | none ↦ elim i.tx_bytes [ some b ↦ false | none ↦ true ]
]

abbrev pub plus : ℕ → Option ℕ → ℕ
plus a o = (a + from_option 0 o) % 2 ^ 64

sum_loop : Sums → List Interface → Sums
unfolding is_silent
sum_loop s [] = s
sum_loop s (i ∷ is) =
    if is_silent i
    then sum_loop s is
    else sum_loop
        (record {
          rx = plus s.rx i.rx_bytes;
          tx = plus s.tx i.tx_bytes;
          rx_err = plus s.rx_err i.rx_errors;
          tx_err = plus s.tx_err i.tx_errors;
          interfaces = s.interfaces + 1;
        })
        is

unfoldable pub sums_of : NetworkStats → Sums
unfolding sum_loop interfaces_of
sums_of n =
    sum_loop (record { rx = 0; tx = 0; rx_err = 0; tx_err = 0; interfaces = 0 }) (interfaces_of n)

abbrev pub counters : NetCounterState → ℕ → Sums → NetCounterState
counters st at s = record st {
  at = at;
  rx_bytes = s.rx;
  tx_bytes = s.tx;
  rx_errors = s.rx_err;
  tx_errors = s.tx_err;
}

abbrev pub ran_backwards : NetCounterState → Sums → Bool
ran_backwards st s =
    ltb s.rx st.rx_bytes
    || ltb s.tx st.tx_bytes
    || ltb s.rx_err st.rx_errors
    || ltb s.tx_err st.tx_errors

abbrev pub delta_of : NetCounterState → Sums → NetworkDelta
delta_of st s = record {
  rx_bytes = clamp_to_int64 (s.rx - st.rx_bytes);
  tx_bytes = clamp_to_int64 (s.tx - st.tx_bytes);
  rx_errors = clamp_to_int64 (s.rx_err - st.rx_errors);
  tx_errors = clamp_to_int64 (s.tx_err - st.tx_errors);
  interfaces = s.interfaces;
}

-- The switch of `ingestNetwork`, and the baseline behind it.
unfoldable pub ingest_sums :
    ℕ → NetworkKey → Bool → ℕ → Sums → NetCounterState × Rollup.Open → NetCounterState × Rollup.Open
unfolding clamp_to_int64
ingest_sums w k host at s (st, acc) =
    if st.at == 0
    then (counters st at s, acc)
    else if leb at st.at
    then (st, acc)
    else if ran_backwards st s
    then (counters st at s, acc)
    else (counters st at s, observe w acc k st.at at (delta_of st s) host)

-- `ingestNetwork`: the trackers and the accumulator. `host` is whether the pod is on the host's network.
unfoldable pub ingest_network :
    ℕ
    → Text
    → NetworkKey
    → Bool
    → Option NetworkStats
    → ℕ
    → List (Text × NetCounterState) × Rollup.Open
    → List (Text × NetCounterState) × Rollup.Open
unfolding ingest_sums sums_of
ingest_network w uid k host none now (tracker, acc) = (tracker, acc)
ingest_network w uid k host (some net) now (tracker, acc) =
    let s = sums_of net in
    let st = from_option zero_counters (lookup uid tracker) in
    let (st', acc') = ingest_sums w k host net.time s (record st { last_seen = now }, acc) in
    if s.interfaces == 0 then (tracker, acc) else (insert uid st' tracker, acc')

-- A pod of a summary: its uid, its record's key, whether it is on the host's network, its stats.
abbrev pub Read : Type 0
Read = Text × NetworkKey × Bool × Option NetworkStats

-- The part of `sweep` on the network's trackers.
unfoldable pub sweep_network : List (Text × NetCounterState) → ℕ → List (Text × NetCounterState)
sweep_network tracker now = select (λ x. not (is_stale now x.1.last_seen)) tracker

-- The pods of `ingest`, each as it is resolved.
unfoldable pub ingest_pods :
    ℕ
    → List Read
    → ℕ
    → List (Text × NetCounterState) × Rollup.Open
    → List (Text × NetCounterState) × Rollup.Open
unfolding ingest_network
ingest_pods w [] now s = s
ingest_pods w ((uid, k, host, net) ∷ rs) now s =
    ingest_pods w rs now (ingest_network w uid k host net now s)

-- The part of `pollOnce` on the network.
unfoldable pub poll_network :
    ℕ
    → List Read
    → ℕ
    → List (Text × NetCounterState) × Rollup.Open
    → List (Text × NetCounterState) × Rollup.Open
unfolding ingest_pods sweep_network
poll_network w rs now s =
    let (tracker, acc) = ingest_pods w rs now s in (sweep_network tracker now, acc)
