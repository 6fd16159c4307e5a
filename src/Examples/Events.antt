-- ===== src/Examples/Events.antt =====
-- The theorems on the journals of single events at concrete inputs.
use runtime_agent.Journal.Disruptions as Disruptions
use runtime_agent.Journal.Disruptions.{PodDisruption}
use runtime_agent.Journal.Events.Continuing.{disrupted, finished, moved, lookup-resumed}
use runtime_agent.Journal.JobRuns as JobRuns
use runtime_agent.Journal.JobRuns.{JobRun}
use runtime_agent.Journal.NodeEvents as NodeEvents
use runtime_agent.Journal.NodeEvents.{NodeLifecycle}
use runtime_agent.Prelude.Int.{pos}
use runtime_agent.Prelude.Keys.{lookup, text_key, nat_key, pair_key}
use runtime_agent.Prelude.{◌≡◌, true, List, [], ◌∷◌, none, codes}

abbrev evicted : PodDisruption
evicted = record {
  namespace = codes "shop";
  pod = codes "cart-1";
  workload = record { kind = codes "Deployment"; name = codes "cart" };
  node = codes "n1";
  reason = codes "PreemptionByScheduler";
  disrupted_at = 7;
}

abbrev ran : JobRun
ran = record {
  namespace = codes "shop";
  workload = record { kind = codes "CronJob"; name = codes "report" };
  name = codes "report-1";
  started_at = 3;
  finished_at = 9;
  result = codes "succeeded";
  fail_reason = [];
  succeeded = pos 1;
  failed = pos 0;
  parallelism = none;
  completions = none;
  backoff_limit = none;
}

abbrev joined : NodeLifecycle
joined = record {
  joined = true;
  node = record {
    name = codes "n1";
    instance_type = codes "m5";
    capacity_type = codes "spot";
    zone = codes "a";
    capacity_cpu_milli = pos 2000;
    capacity_memory_bytes = pos 8;
    devices = [];
  };
  at = 12;
  observed = true;
}

abbrev two_pods : List PodDisruption
two_pods = record evicted { pod = codes "cart-2" } ∷ evicted ∷ []

lookup-resumed_example :
    ((k : Disruptions.Key)
      → lookup k (Disruptions.resume [] (Disruptions.snapshots (disrupted 5 two_pods))).0
        ≡ lookup k (disrupted 5 two_pods))
    × ((k : JobRuns.Key)
        → lookup k (JobRuns.resume [] (JobRuns.snapshots (finished 5 (ran ∷ [])))).0
          ≡ lookup k (finished 5 (ran ∷ [])))
    × ((k : NodeEvents.Key)
        → lookup k (NodeEvents.resume [] (NodeEvents.snapshots (moved 5 (joined ∷ [])))).0
          ≡ lookup k (moved 5 (joined ∷ [])))
lookup-resumed_example = lookup-resumed 5 two_pods (ran ∷ []) (joined ∷ [])
