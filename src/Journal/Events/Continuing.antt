-- ===== src/Journal/Events/Continuing.antt =====
-- The journals of single events over a restart of the agent.
use runtime_agent.Journal.Disruptions as Disruptions
use runtime_agent.Journal.Disruptions.{PodDisruption}
use runtime_agent.Journal.JobRuns as JobRuns
use runtime_agent.Journal.JobRuns.{JobRun}
use runtime_agent.Journal.NodeEvents as NodeEvents
use runtime_agent.Journal.NodeEvents.{NodeLifecycle}
use runtime_agent.Journal.Events.Resumption.{WellKeyed, insert-WellKeyed, lookup-resume_snapshots}
use runtime_agent.Prelude.Keys.{text_key, nat_key, pair_key, lookup, insert_twice}
use runtime_agent.Prelude.{ℕ, ◌≡◌, refl, ◌||◌, ◌==◌, List, [], ◌∷◌, text_eq, Bool-cases, inl, inr}

-- A run of `Observe` calls on an empty journal.
abbrev pub disrupted : ℕ → List PodDisruption → Disruptions.Open
disrupted w [] = []
disrupted w (e ∷ es) = Disruptions.observe w (disrupted w es) e

abbrev pub finished : ℕ → List JobRun → JobRuns.Open
finished w [] = []
finished w (e ∷ es) = JobRuns.observe w (finished w es) e

abbrev pub moved : ℕ → List NodeLifecycle → NodeEvents.Open
moved w [] = []
moved w (e ∷ es) = NodeEvents.observe w (moved w es) e

disrupted-WellKeyed :
    (w : ℕ) (es : List PodDisruption) → WellKeyed Disruptions.key_of (disrupted w es)
unfolding Disruptions.observe
disrupted-WellKeyed w [] = tt
disrupted-WellKeyed w (e ∷ es) = elim (Bool-cases (e.disrupted_at == 0)) [
  | inl never ↦ rw never (disrupted-WellKeyed w es)
  | inr at ↦
      rw at (insert-WellKeyed Disruptions.key_of _ (disrupted w es) (disrupted-WellKeyed w es))
]

finished-WellKeyed : (w : ℕ) (es : List JobRun) → WellKeyed JobRuns.key_of (finished w es)
unfolding JobRuns.observe
finished-WellKeyed w [] = tt
finished-WellKeyed w (e ∷ es) = elim (Bool-cases (e.finished_at == 0)) [
  | inl never ↦ rw never (finished-WellKeyed w es)
  | inr at ↦ rw at (insert-WellKeyed JobRuns.key_of _ (finished w es) (finished-WellKeyed w es))
]

moved-WellKeyed : (w : ℕ) (es : List NodeLifecycle) → WellKeyed NodeEvents.key_of (moved w es)
unfolding NodeEvents.observe
moved-WellKeyed w [] = tt
moved-WellKeyed w (e ∷ es) = elim (Bool-cases (e.at == 0 || text_eq e.node.name [])) [
  | inl never ↦ rw never (moved-WellKeyed w es)
  | inr at ↦ rw at (insert-WellKeyed NodeEvents.key_of _ (moved w es) (moved-WellKeyed w es))
]

-- A new process that resumes each of the three journals from the snapshots of the old one finds
-- under every key the record that the old one held, whatever events it had observed.
pub lookup-resumed :
    (w : ℕ) (ds : List PodDisruption) (js : List JobRun) (ns : List NodeLifecycle)
    → ((k : Disruptions.Key)
        → lookup k (Disruptions.resume [] (Disruptions.snapshots (disrupted w ds))).0
          ≡ lookup k (disrupted w ds))
      × ((k : JobRuns.Key)
          → lookup k (JobRuns.resume [] (JobRuns.snapshots (finished w js))).0
            ≡ lookup k (finished w js))
      × ((k : NodeEvents.Key)
          → lookup k (NodeEvents.resume [] (NodeEvents.snapshots (moved w ns))).0
            ≡ lookup k (moved w ns))
unfolding Disruptions.snapshots JobRuns.snapshots NodeEvents.snapshots
lookup-resumed w ds js ns = (
  λ k.
      lookup-resume_snapshots Disruptions.key_of Disruptions.earlier k (disrupted w ds)
        (disrupted-WellKeyed w ds),
  λ k.
      lookup-resume_snapshots JobRuns.key_of JobRuns.earlier k (finished w js)
        (finished-WellKeyed w js),
  λ k.
      lookup-resume_snapshots NodeEvents.key_of NodeEvents.earlier k (moved w ns)
        (moved-WellKeyed w ns),
)

-- An event reported twice in a row rewrites its own record: the second report changes nothing.
pub observe_twice :
    (w : ℕ) (d : PodDisruption) (ds : Disruptions.Open) (j : JobRun) (js : JobRuns.Open)
    (n : NodeLifecycle) (ns : NodeEvents.Open)
    → (Disruptions.observe w (Disruptions.observe w ds d) d ≡ Disruptions.observe w ds d)
      × (JobRuns.observe w (JobRuns.observe w js j) j ≡ JobRuns.observe w js j)
      × (NodeEvents.observe w (NodeEvents.observe w ns n) n ≡ NodeEvents.observe w ns n)
unfolding Disruptions.observe JobRuns.observe NodeEvents.observe
observe_twice w d ds j js n ns = (
  elim (Bool-cases (d.disrupted_at == 0)) [
    | inl never ↦ rw never refl
    | inr at ↦ rw at (insert_twice _ _ ds)
  ],
  elim (Bool-cases (j.finished_at == 0)) [
    | inl never ↦ rw never refl
    | inr at ↦ rw at (insert_twice _ _ js)
  ],
  elim (Bool-cases (n.at == 0 || text_eq n.node.name [])) [
    | inl never ↦ rw never refl
    | inr at ↦ rw at (insert_twice _ _ ns)
  ],
)
