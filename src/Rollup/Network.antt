-- ===== src/Rollup/Network.antt =====
-- internal/rollup/network.go: the network counters' accumulator. Counts do not wrap, and a map's
-- entries stand in one order.
pub mod Totals
use runtime_agent.Journal.Windows.{second, then_by, closing, remaining}
use runtime_agent.Prelude.Int.{ℤ, pos, negsuc}
use runtime_agent.Prelude.Keys.{Eq, text_key, nat_key, pair_key, values}
use runtime_agent.Prelude.Sort.{sort_slice}
use runtime_agent.Prelude.{
  ℕ, zero, suc, ◌+◌, ◌-◌, ◌/◌, Bool, true, false, ◌&&◌, ◌||◌, List, [], ◌∷◌, Option, none, some,
  ltb, leb, ◌==◌, if◌then◌else◌, Text, text_lt, max,
}
use runtime_agent.Rollup.Opened.{touch, add_parts}
use runtime_agent.Rollup.Window.{start_of, split}

-- `NetworkKey`, as (namespace, (workload kind, workload name)).
abbrev pub NetworkKey : Type 0
NetworkKey = Text × (Text × Text)

pub record NetworkRecord : Type 0 where
  pub key : NetworkKey
  pub window_start : ℕ
  pub window_seconds : ℕ
  pub rx_bytes : ℕ
  pub tx_bytes : ℕ
  pub rx_errors : ℕ
  pub tx_errors : ℕ
  pub samples : ℕ
  pub covered_nanoseconds : ℕ
  pub interfaces : ℕ
  pub host_network : Bool

-- `open`, by key and window start.
abbrev pub Open : Type 0
Open = List ((NetworkKey × ℕ) × NetworkRecord)

pub record NetworkDelta : Type 0 where
  pub rx_bytes : ℤ
  pub tx_bytes : ℤ
  pub rx_errors : ℤ
  pub tx_errors : ℤ
  pub interfaces : ℕ

-- The record that `recordAt` makes.
abbrev pub new_record : ℕ → NetworkKey → ℕ → NetworkRecord
new_record length k start = record {
  key = k;
  window_start = start;
  window_seconds = length / second;
  rx_bytes = 0;
  tx_bytes = 0;
  rx_errors = 0;
  tx_errors = 0;
  samples = 0;
  covered_nanoseconds = 0;
  interfaces = 0;
  host_network = false;
}

abbrev pub add_rx_bytes : NetworkRecord → ℕ → NetworkRecord
add_rx_bytes r n = record r { rx_bytes = r.rx_bytes + n }

abbrev pub add_tx_bytes : NetworkRecord → ℕ → NetworkRecord
add_tx_bytes r n = record r { tx_bytes = r.tx_bytes + n }

abbrev pub add_rx_errors : NetworkRecord → ℕ → NetworkRecord
add_rx_errors r n = record r { rx_errors = r.rx_errors + n }

abbrev pub add_tx_errors : NetworkRecord → ℕ → NetworkRecord
add_tx_errors r n = record r { tx_errors = r.tx_errors + n }

-- The function that the last `split` of `Observe` yields to.
abbrev pub cover : ℕ → Bool → NetworkRecord → ℕ → NetworkRecord
cover interfaces host r n = record r {
  covered_nanoseconds = r.covered_nanoseconds + n;
  interfaces = max r.interfaces interfaces;
  host_network = r.host_network || host;
}

abbrev pub count_sample : NetworkRecord → NetworkRecord
count_sample r = record r { samples = r.samples + 1 }

module _ (length : ℕ) where
  -- `Observe`, on an interval that is not empty.
  unfoldable pub observe_interval : Open → NetworkKey → ℕ → ℕ → NetworkDelta → Bool → Open
  unfolding touch add_parts
  observe_interval m k from to d host =
      let fresh = new_record length in
      let m1 = add_parts fresh add_rx_bytes k (split length from to d.rx_bytes) m in
      let m2 = add_parts fresh add_tx_bytes k (split length from to d.tx_bytes) m1 in
      let m3 = add_parts fresh add_rx_errors k (split length from to d.rx_errors) m2 in
      let m4 = add_parts fresh add_tx_errors k (split length from to d.tx_errors) m3 in
      let m5 =
        add_parts fresh (cover d.interfaces host) k (split length from to (pos (to - from))) m4 in
      touch fresh m5 k (start_of length to) count_sample

  -- `Observe`
  unfoldable pub observe : Open → NetworkKey → ℕ → ℕ → NetworkDelta → Bool → Open
  unfolding observe_interval
  observe m k from to d host = if ltb from to then observe_interval m k from to d host else m

  -- `less` in `sortNetworkRecords`
  unfoldable pub earlier : NetworkRecord → NetworkRecord → Bool
  earlier a b =
      if a.window_start == b.window_start
      then (then_by a.key.0 b.key.0 (then_by a.key.1.0 b.key.1.0 (text_lt a.key.1.1 b.key.1.1)))
      else ltb a.window_start b.window_start

  abbrev pub has_ended : ℕ → NetworkRecord → Bool
  has_ended now r = leb (r.window_start + length) now

  -- `CloseBefore`: what is returned, and what is left open.
  unfoldable pub close_before : Open → ℕ → List NetworkRecord × Open
  unfolding earlier
  close_before m now = (sort_slice earlier (closing (has_ended now) m), remaining (has_ended now) m)

  -- `Snapshots`
  unfoldable pub snapshots : Open → List NetworkRecord
  unfolding earlier
  snapshots m = sort_slice earlier (values m)

abbrev pub same_identity : NetworkRecord → NetworkRecord → Bool
same_identity r o =
    pair_key.beq r.key o.key
    && r.window_start == o.window_start
    && r.window_seconds == o.window_seconds

-- `Merge`: none where it returns its error, before any change.
unfoldable pub merge : NetworkRecord → NetworkRecord → Option NetworkRecord
merge r o =
    if same_identity r o
    then (some (record r {
      rx_bytes = r.rx_bytes + o.rx_bytes;
      tx_bytes = r.tx_bytes + o.tx_bytes;
      rx_errors = r.rx_errors + o.rx_errors;
      tx_errors = r.tx_errors + o.tx_errors;
      samples = r.samples + o.samples;
      covered_nanoseconds = r.covered_nanoseconds + o.covered_nanoseconds;
      interfaces = max r.interfaces o.interfaces;
      host_network = r.host_network || o.host_network;
    }))
    else none
