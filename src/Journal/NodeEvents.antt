-- ===== src/Journal/NodeEvents.antt =====
-- internal/journal/nodes.go: the arrivals and departures of nodes, on the conventions of the restart journal.
use runtime_agent.Journal.Events as Events
use runtime_agent.Journal.Windows.{second, then_by, closing, remaining}
use runtime_agent.Prelude.Int.{ℤ}
use runtime_agent.Prelude.Keys.{text_key, nat_key, pair_key, insert, values}
use runtime_agent.Prelude.Sort.{sort_slice}
use runtime_agent.Prelude.{
  ℕ, ◌+◌, ◌/◌, Bool, ◌||◌, List, [], ltb, leb, ◌==◌, if◌then◌else◌, Text, codes, text_eq, text_lt,
}
use runtime_agent.Rollup.Window.{start_of}

-- `model.NodeDevice`
pub record NodeDevice : Type 0 where
  pub name : Text
  pub capacity : ℤ
  pub allocatable : ℤ

-- What the journal reads of `model.NodeInfo`.
pub record NodeInfo : Type 0 where
  pub name : Text
  pub instance_type : Text
  pub capacity_type : Text
  pub zone : Text
  pub capacity_cpu_milli : ℤ
  pub capacity_memory_bytes : ℤ
  pub devices : List NodeDevice

-- `model.NodeLifecycle`
pub record NodeLifecycle : Type 0 where
  pub joined : Bool
  pub node : NodeInfo
  pub at : ℕ
  pub observed : Bool

abbrev pub event_joined : Text
event_joined = codes "joined"

abbrev pub event_left : Text
event_left = codes "left"

pub record NodeEventRecord : Type 0 where
  pub node : Text
  pub event : Text
  pub at : ℕ
  pub at_observed : Bool
  pub instance_type : Text
  pub capacity_type : Text
  pub zone : Text
  pub capacity_cpu_milli : ℤ
  pub capacity_memory_bytes : ℤ
  pub devices : List NodeDevice
  pub window_start : ℕ
  pub window_seconds : ℕ

-- `nodeEventKey`, as ((node, event), start)`
abbrev pub Key : Type 0
Key = (Text × Text) × ℕ

abbrev pub key_of : NodeEventRecord → Key
key_of r = ((r.node, r.event), r.window_start)

-- The open records of a `NodeEvents`.
abbrev pub Open : Type 0
Open = List (Key × NodeEventRecord)

-- `Observe`, on windows of length `w`.
unfoldable pub observe : ℕ → Open → NodeLifecycle → Open
observe w m ev =
    let event = if ev.joined then event_joined else event_left in
    let r : NodeEventRecord = record {
      node = ev.node.name;
      event = event;
      at = ev.at;
      at_observed = ev.observed;
      instance_type = ev.node.instance_type;
      capacity_type = ev.node.capacity_type;
      zone = ev.node.zone;
      capacity_cpu_milli = ev.node.capacity_cpu_milli;
      capacity_memory_bytes = ev.node.capacity_memory_bytes;
      devices = ev.node.devices;
      window_start = start_of w ev.at;
      window_seconds = w / second;
    } in
    if ev.at == 0 || text_eq ev.node.name []
    then m
    else insert ((ev.node.name, event), start_of w ev.at) r m

-- `less` in the sort.
unfoldable pub earlier : NodeEventRecord → NodeEventRecord → Bool
earlier a b =
    if a.window_start == b.window_start
    then then_by a.node b.node (text_lt a.event b.event)
    else ltb a.window_start b.window_start

-- `Snapshots`
unfoldable pub snapshots : Open → List NodeEventRecord
unfolding earlier
snapshots m = sort_slice earlier (values m)

-- `Resume`: the open records, and how many were seeded.
abbrev pub resume : Open → List NodeEventRecord → Open × ℕ
resume m rs = Events.resume key_of m rs

abbrev pub has_ended : ℕ → ℕ → NodeEventRecord → Bool
has_ended w now r = leb (r.window_start + w) now

-- `CloseBefore`: what is returned, and what is left open.
unfoldable pub close_before : ℕ → Open → ℕ → List NodeEventRecord × Open
unfolding earlier
close_before w m now =
    (sort_slice earlier (closing (has_ended w now) m), remaining (has_ended w now) m)
