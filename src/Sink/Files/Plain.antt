-- ===== src/Sink/Files/Plain.antt =====
-- internal/sink/spool.go: the names of payloads are plain file names.
use mathlib.Core.List.{append_assoc}
use runtime_agent.Prelude.{◌≡◌, subst, refl, true, ◌∷◌, ◌++◌, Text, codes}
use runtime_agent.Sink.Files.{OomKill, ProfileKey, oom_name, key_name, build_name}
use runtime_agent.Sink.Names.{dash, file_token, is_plain_name}
use runtime_agent.Sink.Names.Plain.{
  Safe, Safe-append, all_safe, literal-Safe, dash-Safe, json_name-plain, digest_file_token-Safe,
  short_digest-Safe,
}
use runtime_agent.Sink.Names.Safe.{file_token-safe}
use runtime_agent.Sink.Payloads.{
  snapshot_name, closed_name, network_name, restarts, disruptions, node_lifecycle, job_runs,
  goroutine_counts, agent_states, agent_counters,
}
use runtime_agent.Sink.Windows.{
  WindowKey, format_int, unix, window_numbers, journal_window_name, usage_name_prefix,
}
use runtime_agent.Sink.Windows.Safe.{format_int-Safe, window_numbers-Safe}

record IsSafe (t : Text) : Type 0 where
  bytes : Safe t

-- One more component of a name, behind a dash.
dashed : {s t : Text} → IsSafe s → IsSafe t → IsSafe (s ++ dash ∷ t)
dashed {s} {t} a b = record { bytes = Safe-append s (dash ∷ t) a.bytes (dash-Safe, b.bytes) }

after : {s t : Text} → IsSafe s → IsSafe t → IsSafe (s ++ t)
after {s} {t} a b = record { bytes = Safe-append s t a.bytes b.bytes }

token : (s : Text) → IsSafe (file_token s)
token s = record { bytes = (file_token-safe s).0 }

number : (n : _) → IsSafe (format_int n)
number n = record { bytes = format_int-Safe n }

literal : (t : Text) → all_safe t ≡ true → IsSafe t
literal t e = record { bytes = literal-Safe t e }

plain : {t : Text} → IsSafe t → is_plain_name (t ++ codes ".json") ≡ true
plain {t} a = json_name-plain t a.bytes

oom_name-plain : (e : OomKill) → is_plain_name (oom_name e) ≡ true
unfolding oom_name all_safe
oom_name-plain e = plain (
    dashed
      (dashed
        (dashed
          (dashed (after (literal (codes "oom-") refl) (number (unix e.finished_at)))
            (token e.namespace))
          (token e.pod))
        (token e.container))
      (number e.restart_count))

key_name-plain :
    (kind : Text) (k : ProfileKey)
    → all_safe kind ≡ true
    → is_plain_name (kind ++ key_name k) ≡ true
unfolding key_name
key_name-plain kind k e =
    let name =
      dashed
        (dashed
          (dashed (dashed (dashed (token k.namespace) (token k.workload)) (token k.container))
            (record { bytes = short_digest-Safe k.image_digest }))
          (number (unix k.capture_start)))
        (number (unix k.capture_end)) in
    subst (λ t. is_plain_name t ≡ true) (append_assoc kind _ (codes ".json"))
      (plain (after (literal kind e) name))

build_name-plain : (digest : Text) → is_plain_name (build_name digest) ≡ true
unfolding build_name all_safe
build_name-plain digest =
    plain
      (after (literal (codes "go-build-") refl) (record { bytes = digest_file_token-Safe digest }))

numbered :
    (prefix : Text) (k : WindowKey) → all_safe prefix ≡ true → IsSafe (prefix ++ window_numbers k)
numbered prefix k e = after (literal prefix e) (record { bytes = window_numbers-Safe k })

window_names-plain :
    (k : WindowKey)
    → (is_plain_name (snapshot_name k) ≡ true)
      × (is_plain_name (closed_name k) ≡ true)
      × (is_plain_name (network_name k) ≡ true)
unfolding snapshot_name closed_name network_name all_safe
window_names-plain k =
    let name = numbered usage_name_prefix k refl in
    (
      subst (λ t. is_plain_name t ≡ true)
          (append_assoc (usage_name_prefix ++ window_numbers k) (codes ".snapshot") (codes ".json"))
          (plain (after name (literal (codes ".snapshot") refl))),
      plain name,
      plain (numbered (codes "network-") k refl),
    )

pub journal_name-plain :
    (prefix : Text) (k : WindowKey)
    → all_safe prefix ≡ true
    → is_plain_name (journal_window_name prefix k) ≡ true
unfolding journal_window_name
journal_name-plain prefix k e = plain (numbered prefix k e)

-- The names that are built from a caller's strings, instants and numbers.
pub data BuiltName : Text → Type 0 where
  of_oom : (e : OomKill) → BuiltName (oom_name e)
  of_profile : (k : ProfileKey) → BuiltName (codes "profile-" ++ key_name k)
  of_pulled : (k : ProfileKey) → BuiltName (codes "pprof-" ++ key_name k)
  of_build : (digest : Text) → BuiltName (build_name digest)
  of_snapshot : (k : WindowKey) → BuiltName (snapshot_name k)
  of_closed : (k : WindowKey) → BuiltName (closed_name k)
  of_network : (k : WindowKey) → BuiltName (network_name k)
  of_restarts : (k : WindowKey) → BuiltName (journal_window_name restarts.prefix k)
  of_disruptions : (k : WindowKey) → BuiltName (journal_window_name disruptions.prefix k)
  of_nodes : (k : WindowKey) → BuiltName (journal_window_name node_lifecycle.prefix k)
  of_jobs : (k : WindowKey) → BuiltName (journal_window_name job_runs.prefix k)
  of_goroutines : (k : WindowKey) → BuiltName (journal_window_name goroutine_counts.prefix k)
  of_states : (k : WindowKey) → BuiltName (journal_window_name agent_states.prefix k)
  of_counters : (k : WindowKey) → BuiltName (journal_window_name agent_counters.prefix k)

-- Every name that a writer of payloads builds, whatever the strings, instants and numbers it is
-- built from, is a plain file name, which `encodePayload` does not refuse.
pub BuiltName-plain : (t : Text) → BuiltName t → is_plain_name t ≡ true
unfolding all_safe
BuiltName-plain t (of_oom e) = oom_name-plain e
BuiltName-plain t (of_profile k) = key_name-plain (codes "profile-") k refl
BuiltName-plain t (of_pulled k) = key_name-plain (codes "pprof-") k refl
BuiltName-plain t (of_build d) = build_name-plain d
BuiltName-plain t (of_snapshot k) = (window_names-plain k).0
BuiltName-plain t (of_closed k) = (window_names-plain k).1
BuiltName-plain t (of_network k) = (window_names-plain k).2
BuiltName-plain t (of_restarts k) = journal_name-plain restarts.prefix k refl
BuiltName-plain t (of_disruptions k) = journal_name-plain disruptions.prefix k refl
BuiltName-plain t (of_nodes k) = journal_name-plain node_lifecycle.prefix k refl
BuiltName-plain t (of_jobs k) = journal_name-plain job_runs.prefix k refl
BuiltName-plain t (of_goroutines k) = journal_name-plain goroutine_counts.prefix k refl
BuiltName-plain t (of_states k) = journal_name-plain agent_states.prefix k refl
BuiltName-plain t (of_counters k) = journal_name-plain agent_counters.prefix k refl
