-- ===== src/Collector/Restarts/Reported.antt =====
-- internal/collector/restarts.go, with internal/journal/restarts.go behind it: what is reported of a
-- container, and what the journal then holds.
use runtime_agent.Journal.Restarts.{ContainerRestart, Restarts, observe}
use runtime_agent.Journal.Restarts.Totals.{counted, total, total-observe}
use runtime_agent.Prelude.Keys.{text_key, lookup, insert, lookup-insert}
use runtime_agent.Prelude.{
  ℕ, ◌+◌, ◌≤◌, ◌≡◌, refl, sym, ap, ◌∙◌, false, List, [], ◌∷◌, none, some, ltb, sum_of, Text,
  text_eq_refl, arith,
}
use runtime_agent.Collector.Restarts.{
  ContainerStatus, Pod, Baseline, Baselines, restart_key, baselined, report_seen, report_status,
}

-- The journal behind `onRestart`.
pub observe_all : Restarts → List ContainerRestart → Restarts
observe_all j [] = j
observe_all j (e ∷ es) = observe_all (observe j e) es

-- The statuses of one container, in order, each read at an instant, with the journal behind them.
pub watch : Pod → Restarts → Baselines → List (ℕ × ContainerStatus) → Restarts × Baselines
unfolding observe_all
watch pod j m [] = (j, m)
watch pod j m ((at, s) ∷ ss) =
    let (m', events) = report_status pod at m s in watch pod (observe_all j events) m' ss

-- The statuses are of one container, and its counter does not fall.
unfoldable pub Rising : Text → ℕ → List (ℕ × ContainerStatus) → Type 0
Rising name n [] = Unit
Rising name n ((at, s) ∷ ss) =
    (s.name ≡ name) × (n ≤ s.restart_count) × Rising name s.restart_count ss

-- The counter in the last status.
pub final : ℕ → List (ℕ × ContainerStatus) → ℕ
final n [] = n
final n ((at, s) ∷ ss) = final s.restart_count ss

total-observe_all :
    (j : Restarts) (es : List ContainerRestart)
    → total (observe_all j es) ≡ total j + sum_of (λ e. counted e.restarts) es
unfolding observe_all
total-observe_all j [] = omega arith
total-observe_all j (e ∷ es) =
    omega (arith, total-observe_all (observe j e) es, total-observe j e e.restarts)

-- What is reported of a container seen before is its counter's rise.
report_seen-rise :
    (pod : Pod) (s : ContainerStatus) (at : ℕ) (m : Baselines) (base : Baseline)
    → base.last ≤ s.restart_count
    → sum_of (λ e. counted e.restarts) (report_seen pod s at m base).1 + base.last ≡ s.restart_count
unfolding report_seen
report_seen-rise pod s at m base h = ground arith

report_seen-kept :
    (pod : Pod) (s : ContainerStatus) (at : ℕ) (m : Baselines) (base : Baseline)
    → base.last ≤ s.restart_count
    → lookup (restart_key pod.namespace pod.name s.name) (report_seen pod s at m base).0
      ≡ some (record base { last = s.restart_count })
unfolding report_seen
report_seen-kept pod s at m base h =
    let key = restart_key pod.namespace pod.name s.name in
    let up : ltb s.restart_count base.last ≡ false = ground arith in
    rw up (
      lookup-insert key key (record base { last = s.restart_count }) m ∙ rw (text_eq_refl key) refl)

report_status_seen :
    (pod : Pod) (at : ℕ) (m : Baselines) (s : ContainerStatus) (base : Baseline)
    → lookup (restart_key pod.namespace pod.name s.name) m ≡ some base
    → report_status pod at m s ≡ report_seen pod s at m base
unfolding report_status
report_status_seen pod at m s base e = rw (report_status, e) refl

watch-rise :
    (pod : Pod) (name : Text) (j : Restarts) (m : Baselines) (base : Baseline)
    (ss : List (ℕ × ContainerStatus))
    → lookup (restart_key pod.namespace pod.name name) m ≡ some base
    → Rising name base.last ss
    → total (watch pod j m ss).0 + base.last ≡ total j + final base.last ss
unfolding watch Rising final
watch-rise pod name j m base [] e h = refl
watch-rise pod name j m base ((at, s) ∷ ss) e (same, up, rest) =
    let e' : lookup (restart_key pod.namespace pod.name s.name) m ≡ some base =
      ap (λ x. lookup (restart_key pod.namespace pod.name x) m) same ∙ e in
    let seen = report_seen pod s at m base in
    let kept : lookup (restart_key pod.namespace pod.name name) seen.0
        ≡ some (record base { last = s.restart_count }) =
      ap (λ x. lookup (restart_key pod.namespace pod.name x) seen.0) (sym same)
      ∙ report_seen-kept pod s at m base up in
    rw (watch, report_status_seen pod at m s base e')
      (omega (
        arith,
        watch-rise pod name (observe_all j seen.1) seen.0 (record base { last = s.restart_count })
            ss kept rest,
        total-observe_all j seen.1,
        report_seen-rise pod s at m base up,
      ))

first_sight :
    (pod : Pod) (at : ℕ) (m : Baselines) (s : ContainerStatus)
    → lookup (restart_key pod.namespace pod.name s.name) m ≡ none
    → report_status pod at m s
      ≡ (insert (restart_key pod.namespace pod.name s.name) (baselined s.restart_count at) m, [])
unfolding report_status
first_sight pod at m s e = rw (report_status, e) refl

-- Over the statuses of a container that is new to the collector and whose counter does not fall,
-- the restarts that the journal behind it gains are the counter's rise since the first status: what
-- came before is never invented, and no restart since is lost or counted twice.
pub watch-counted :
    (pod : Pod) (j : Restarts) (m : Baselines) (at : ℕ) (s : ContainerStatus)
    (ss : List (ℕ × ContainerStatus))
    → lookup (restart_key pod.namespace pod.name s.name) m ≡ none
    → Rising s.name s.restart_count ss
    → total (watch pod j m ((at, s) ∷ ss)).0 + s.restart_count ≡ total j + final s.restart_count ss
unfolding watch observe_all
watch-counted pod j m at s ss e h =
    let key = restart_key pod.namespace pod.name s.name in
    let base = baselined s.restart_count at in
    let kept : lookup key (insert key base m) ≡ some base =
      lookup-insert key key base m ∙ rw (text_eq_refl key) refl in
    rw (watch, first_sight pod at m s e)
      (watch-rise pod s.name j (insert key base m) base ss kept h)
