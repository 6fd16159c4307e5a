-- ===== src/Collector/Poll.antt =====
-- internal/collector/usage.go: what the poller does on usage and on the network together. What
-- is emitted is returned; the throttling counters are not modelled.
use runtime_agent.Collector.Network.{NetCounterState, sweep_network}
use runtime_agent.Collector.Usage.{Poller, sweep_poller, flush_usage}
use runtime_agent.Prelude.{ℕ, List, Text}
use runtime_agent.Rollup.Network as Network
use runtime_agent.Rollup.Network.{NetworkRecord}
use runtime_agent.Rollup.Record.{Record}

-- `UsagePoller`
pub record UsagePoller : Type 0 where
  pub usage : Poller
  pub net_tracker : List (Text × NetCounterState)
  pub net_acc : Network.Open

-- What a flush emits: the closed records, the snapshots of the open ones, and the closed network
-- windows, each where there is any.
pub record Flushed : Type 0 where
  pub closed : List Record
  pub open_snapshots : List Record
  pub network : List NetworkRecord

module _ (w : ℕ) where
  -- `sweep`
  unfoldable pub sweep : UsagePoller → ℕ → UsagePoller
  sweep p now = record p {
    usage = sweep_poller w p.usage now;
    net_tracker = sweep_network p.net_tracker now;
  }

  -- `flush`
  unfoldable pub flush : UsagePoller → ℕ → UsagePoller × Flushed
  flush p now =
      let (usage', (closed, snapshots)) = flush_usage w p.usage now in
      let (windows, net_acc') = Network.close_before w p.net_acc now in
      (
        record p { usage = usage'; net_acc = net_acc' },
        record { closed = closed; open_snapshots = snapshots; network = windows },
      )
