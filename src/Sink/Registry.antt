-- ===== src/Sink/Registry.antt =====
-- internal/sink/registry.go: the payload kinds this agent ships. Prose fields are kept as text.
-- Durations are nanoseconds.
pub mod Rows
use Prim.Native.String.{String}
use runtime_agent.Prelude.Sort.{sort_slice}
use runtime_agent.Prelude.{
  ℕ, ◌*◌, List, [], ◌∷◌, Option, none, some, Text, codes, text_eq, text_lt, if◌then◌else◌,
}

pub data Source : Type 0 where
  structural measured journal sampled agent : Source

pub data Delivery : Type 0 where
  supersedes accumulates write_once : Delivery

pub data Trigger : Type 0 where
  always changed event : Trigger

pub record Cadence : Type 0 where
  pub floor : ℕ
  pub ceiling : ℕ
  pub trigger : Trigger

pub record PayloadKind : Type 0 where
  pub kind : Text
  pub source : Source
  pub natural_key : String
  pub delivery : Delivery
  pub cadence : Cadence
  pub adr : String

abbrev pub second : ℕ
second = 1_000_000_000

abbrev pub minute : ℕ
minute = 60 * second

abbrev pub every_pass : Cadence
every_pass = record { floor = minute; ceiling = minute; trigger = always }

abbrev pub on_change : Cadence
on_change = record { floor = minute; ceiling = 15 * minute; trigger = changed }

abbrev pub on_change_debounced : Cadence
on_change_debounced = record { floor = 5 * minute; ceiling = 15 * minute; trigger = changed }

abbrev pub on_event : Cadence
on_event = record { floor = 0; ceiling = 0; trigger = event }

row : String → Source → String → Delivery → Cadence → String → PayloadKind
row k s n d c a = record {
  kind = codes k;
  source = s;
  natural_key = n;
  delivery = d;
  cadence = c;
  adr = a;
}

unfoldable pub registry : List PayloadKind
unfolding row
registry =
    row "collection_coverage" agent "the kind itself (one per cluster)" supersedes every_pass "0054"
    ∷ row "agent_states" agent "(window start, window length)" supersedes every_pass "0088"
    ∷ row "agent_counters" agent "(window start, window length)" supersedes every_pass "0089"
    ∷ row "usage_snapshot" measured "(window start, window length)" supersedes every_pass
        "0006, 0013"
    ∷ row "usage_window" measured "(window start, window length)" supersedes on_event "0006, 0013"
    ∷ row "network_window" measured "(window start, window length)" supersedes on_event "0053"
    ∷ row "oom_kill" journal "(finished-at, namespace, pod, container, restart count)" accumulates
        on_event "0006, 0013"
    ∷ row "goroutine_counts" measured "(window start, window length)" supersedes every_pass "0080"
    ∷ row "container_restarts" journal "(window start, window length)" supersedes every_pass "0020"
    ∷ row "restart_counters" journal "the kind itself (one per cluster)" supersedes
        on_change_debounced "0034"
    ∷ row "pod_disruptions" journal "(window start, window length)" supersedes every_pass "0021"
    ∷ row "node_lifecycle" journal "(window start, window length)" supersedes every_pass "0064"
    ∷ row "job_runs" journal "(window start, window length)" supersedes every_pass "0029"
    ∷ row "go_inventory" structural "the kind itself (one per cluster)" supersedes
        on_change_debounced "0010, 0017, 0018"
    ∷ row "process_peaks" measured "the kind itself (one per cluster)" supersedes
        on_change_debounced "0052"
    ∷ row "process_counters" measured "the kind itself (one per cluster)" supersedes every_pass
        "0062"
    ∷ row "listening_ports" structural "the kind itself (one per cluster)" supersedes
        on_change_debounced "0056"
    ∷ row "go_build" structural "image digest" write_once on_event "0017, 0019"
    ∷ row "workload_metadata" structural "the kind itself (one per cluster)" supersedes
        on_change_debounced "0012, 0014, 0021, 0031"
    ∷ row "workload_revisions" structural "the kind itself (one per cluster)" supersedes
        on_change_debounced "0030, 0049"
    ∷ row "workload_policy" structural "the kind itself (one per cluster)" supersedes
        on_change_debounced "0032, 0033"
    ∷ row "cluster_policy" structural "the kind itself (one per cluster)" supersedes
        on_change_debounced "0032, 0033"
    ∷ row "node_metadata" structural "the kind itself (one per cluster)" supersedes on_change
        "0012, 0019"
    ∷ row "ebpf_profile" sampled "(namespace, workload, container, image digest, capture start–end)"
        accumulates on_event "0011, 0023"
    ∷ row "pprof_profile" sampled
        "(namespace, workload, container, image digest, capture start–end)" accumulates on_event
        "0058"
    ∷ []

find_kind : Text → List PayloadKind → Option PayloadKind
find_kind k [] = none
find_kind k (p ∷ ps) = if text_eq p.kind k then some p else find_kind k ps

-- `Lookup`.
unfoldable pub lookup_kind : Text → Option PayloadKind
unfolding find_kind registry
lookup_kind k = find_kind k registry

-- `Registry`.
unfoldable pub sorted_registry : List PayloadKind
unfolding registry
sorted_registry = sort_slice (λ a b. text_lt a.kind b.kind) registry
