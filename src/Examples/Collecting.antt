-- ===== src/Examples/Collecting.antt =====
-- The collector's theorems at concrete inputs.
use runtime_agent.Prelude.Keys.{lookup, text_key, pair_key}
use runtime_agent.Collector.Admission.{Watcher, Seen, decide, on_update}
use runtime_agent.Collector.Admission.Counts.{decided, moved, on_update-decided, on_update_twice}
use runtime_agent.Collector.Filter.{
  Filter, Coverage, namespace_filter, match_glob, admit_namespace, admit_pod, admit_job,
}
use runtime_agent.Collector.Filter.Globs.{Matches, one_more, no_more, byte, end, match_glob-Matches}
use runtime_agent.Collector.Filter.OptOut.{admit-denied}
use runtime_agent.Collector.Restarts as Restarts
use runtime_agent.Collector.Restarts.Reported.{Rising, watch, final, watch-counted}
use runtime_agent.Collector.Usage.{Poller, attributable_from_start}
use runtime_agent.Collector.Usage.Attribution as Attribution
use runtime_agent.Collector.Usage.Attribution.{Poll, Reading, core, feed, feed-counted}
use runtime_agent.Rollup.Record.{Key}
use runtime_agent.Journal.Restarts as Journal
use runtime_agent.Journal.Restarts.Totals.{total}
use runtime_agent.Prelude.Int.{pos}
use runtime_agent.Prelude.{
  ℕ, ◌+◌, ◌≡◌, ◌↔◌, refl, true, false, List, [], ◌∷◌, none, some, codes, arith, if◌then◌else◌,
}

match_glob-Matches_example :
    (match_glob (codes "kube-*-a*") (codes "kube-b-a-ab") ≡ true)
    ↔ Matches (codes "kube-*-a*") (codes "kube-b-a-ab")
match_glob-Matches_example = match_glob-Matches (codes "kube-*-a*") (codes "kube-b-a-ab")

abbrev zeros : Coverage
zeros = record {
  pods_observed = 0;
  excluded_namespace_filter = 0;
  excluded_namespace_annotation = 0;
  excluded_workload_annotation = 0;
  excluded_pod_annotation = 0;
  excluded_profiling_annotation = 0;
  workload_unknown_kind = 0;
  workload_not_cached = 0;
  jobs_observed = 0;
  jobs_excluded_namespace_filter = 0;
  jobs_excluded_namespace_annotation = 0;
  jobs_excluded_workload_annotation = 0;
  jobs_excluded_annotation = 0;
}

abbrev filter : Filter
filter = record { allow = []; deny = codes "dev" ∷ codes "k*" ∷ []; counts = zeros }

admit-denied_example :
    (admit_namespace filter (record { name = codes "kb"; annotations = [] })
      ≡ some namespace_filter)
    × (admit_pod filter
          (record { namespace = codes "kb"; annotations = [] })
          []
          (record { annotations = []; unresolved = none })
        ≡ some namespace_filter)
    × (admit_job filter
          (record { namespace = codes "kb"; annotations = []; template_annotations = [] })
          []
          (record { annotations = []; unresolved = none })
        ≡ some namespace_filter)
admit-denied_example =
    admit-denied filter (codes "dev" ∷ []) [] (codes "k*") (codes "kb") [] []
      (record { annotations = []; unresolved = none }) [] refl
      (byte b'k' (λ e. ground arith) (one_more b'b' (no_more end)))

-- A pod that was collected and has opted out since.
abbrev opted_out : Seen
opted_out = record {
  uid = codes "u1";
  pod = record {
    namespace = codes "shop";
    annotations = (codes "rebuildstack.co/collect", codes "false") ∷ [];
  };
  namespace_annotations = [];
  workload = record { annotations = []; unresolved = none };
}

abbrev watcher : Watcher
watcher = record { filter = filter; index = λ u. some true }

on_update-decided_example :
    (decided (on_update watcher opted_out).filter
      ≡ decided filter + moved (some true) (decide filter opted_out).collect)
    × ((on_update watcher opted_out).index (codes "u1") ≡ (
        if (decide filter opted_out).collect then some (decide filter opted_out).profile else none))
on_update-decided_example = on_update-decided watcher opted_out

on_update_twice_example :
    (on_update (on_update watcher opted_out) opted_out).filter
    ≡ (on_update watcher opted_out).filter
on_update_twice_example = on_update_twice watcher opted_out

abbrev pod : Restarts.Pod
pod = record {
  namespace = codes "shop";
  name = codes "cart-1";
  workload = record { kind = codes "Deployment"; name = codes "cart" };
  init_statuses = [];
  statuses = [];
}

-- The status of the container after so many restarts.
abbrev status : ℕ → Restarts.ContainerStatus
status n = record {
  name = codes "app";
  restart_count = n;
  last_terminated = some (record { reason = codes "Error"; exit_code = pos 1 });
  terminated = none;
}

abbrev journal : Journal.Restarts
journal = record { window_length = 3600; open_records = [] }

watch-counted_example :
    total
        (watch pod journal []
          ((10, status 40) ∷ (20, status 41) ∷ (30, status 41) ∷ (40, status 45) ∷ [])).0
      + 40
    ≡ total journal + final 40 ((20, status 41) ∷ (30, status 41) ∷ (40, status 45) ∷ [])
unfolding lookup Rising
watch-counted_example =
    watch-counted pod journal [] 10 (status 40)
      ((20, status 41) ∷ (30, status 41) ∷ (40, status 45) ∷ []) refl
      (refl, omega arith, (refl, omega arith, (refl, omega arith, tt)))

-- A reading with a stall.
abbrev reading : ℕ → ℕ → Reading
reading time counter = record { time = time; counter = counter; psi = some time; memory = none }

abbrev new_poller : Poller
new_poller = record {
  acc = [];
  tracker = [];
  resumed_keys = [];
  resumed_until = 0;
  signals = λ n. false;
}

-- Polls of half a minute, one of which misses the container, across an hour's end.
abbrev polls : List Poll
polls =
    (3540, some (reading 3530 12))
    ∷ (3570, none)
    ∷ (3600, some (reading 3590 40))
    ∷ (3630, some (reading 3620 70))
    ∷ []

abbrev cart : Key
cart = (codes "shop", (codes "Deployment", (codes "cart", codes "app")))

is_new : lookup (codes "u1", codes "app") new_poller.tracker ≡ none
unfolding lookup
is_new = refl

is_whole : attributable_from_start new_poller cart ≡ true
unfolding attributable_from_start
is_whole = refl

feed-counted_example :
    core (feed 3600 (codes "u1", codes "app") cart 3500 new_poller polls).acc
    ≡ core [] + Attribution.final 0 polls
unfolding Attribution.Rising
feed-counted_example =
    feed-counted 3600 (codes "u1", codes "app") cart 3500 3540 new_poller (reading 3530 12)
      ((3570, none) ∷ (3600, some (reading 3590 40)) ∷ (3630, some (reading 3620 70)) ∷ [])
      (omega arith) is_new is_whole
      (
        omega arith,
        omega arith,
        omega arith,
        omega arith,
        omega arith,
        (
          omega arith,
          (
            omega arith,
            omega arith,
            omega arith,
            omega arith,
            omega arith,
            (omega arith, omega arith, omega arith, omega arith, omega arith, tt),
          ),
        ),
      )
