-- ===== src/Sink/Files.antt =====
-- internal/sink/spool.go: the payloads that have a file of their own, and those files' names. The
-- rendering of a payload is a parameter.
pub mod Plain
use runtime_agent.Journal.Restarts.{WorkloadRef}
use runtime_agent.Prelude.Int.{ℤ, pos, negsuc}
use runtime_agent.Prelude.{
  ℕ, Bool, false, List, [], ◌∷◌, ◌++◌, Option, none, some, length, ◌==◌, if◌then◌else◌, Text, codes,
  from_option,
}
use runtime_agent.Sink.Names.{dash, file_token, digest_file_token, short_digest}
use runtime_agent.Sink.Payloads.{World, Ran, write_in}
use runtime_agent.Sink.Registry.{Source, structural, journal, sampled}
use runtime_agent.Sink.Spool.{Spool, Disk, Encoded}
use runtime_agent.Sink.Windows.{unix, format_int, json_suffix}

-- `model.OOMKill`
pub record OomKill : Type 0 where
  pub namespace : Text
  pub pod : Text
  pub container : Text
  pub workload : WorkloadRef
  pub finished_at : ℕ
  pub exit_code : ℤ
  pub restart_count : ℤ
  pub memory_limit_bytes : Option ℤ

pub record OomPayload : Type 0 where
  pub kind : Text
  pub source : Source
  pub event : OomKill

unfoldable pub oom_name : OomKill → Text
unfolding unix format_int file_token
oom_name e =
    codes "oom-"
    ++ format_int (unix e.finished_at)
    ++ dash ∷ file_token e.namespace
    ++ dash ∷ file_token e.pod
    ++ dash ∷ file_token e.container
    ++ dash ∷ format_int e.restart_count
    ++ json_suffix

-- `WriteOOMKill`
unfoldable pub write_oom_kill : World → (OomPayload → Encoded) → Spool → Disk → OomKill → Ran
unfolding oom_name write_in
write_oom_kill w encode s disk e =
    write_in w s disk (codes "oom_kill") (oom_name e)
      (encode (record { kind = codes "oom_kill"; source = journal; event = e }))

pub record ProfileKey : Type 0 where
  pub namespace : Text
  pub workload : Text
  pub container : Text
  pub image_digest : Text
  pub capture_start : ℕ
  pub capture_end : ℕ

-- The part of a profile's name behind its kind.
unfoldable pub key_name : ProfileKey → Text
unfolding unix format_int file_token short_digest
key_name k =
    file_token k.namespace
    ++ dash ∷ file_token k.workload
    ++ dash ∷ file_token k.container
    ++ dash ∷ short_digest k.image_digest
    ++ dash ∷ format_int (unix k.capture_start)
    ++ dash ∷ format_int (unix k.capture_end)
    ++ json_suffix

pub record ProfilePayload : Type 0 where
  pub kind : Text
  pub namespace : Text
  pub workload : Text
  pub container : Text
  pub image_digest : Text
  pub capture_start : ℕ
  pub capture_end : ℕ
  pub source : Source
  pub pprof : Text

-- `WriteProfile`
unfoldable pub write_profile :
    World → (ProfilePayload → Encoded) → Spool → Disk → ProfileKey → Text → Ran
unfolding key_name write_in
write_profile w encode s disk k pprof =
    write_in w s disk (codes "ebpf_profile") (codes "profile-" ++ key_name k) (
      encode (record {
        kind = codes "ebpf_profile";
        namespace = k.namespace;
        workload = k.workload;
        container = k.container;
        image_digest = k.image_digest;
        capture_start = k.capture_start;
        capture_end = k.capture_end;
        source = sampled;
        pprof = pprof;
      }))

pub record ProfileDrops : Type 0 where
  pub third_party_frames : ℕ
  pub unsymbolized_frames : ℕ
  pub samples_touched : ℕ

pub record PulledProfilePayload : Type 0 where
  pub kind : Text
  pub namespace : Text
  pub workload : Text
  pub container : Text
  pub image_digest : Text
  pub capture_start : ℕ
  pub capture_end : ℕ
  pub source : Source
  pub dropped : ProfileDrops
  pub pprof : Text

-- `WritePulledProfile`
unfoldable pub write_pulled_profile :
    World → (PulledProfilePayload → Encoded) → Spool → Disk → ProfileKey → Text → ProfileDrops → Ran
unfolding key_name write_in
write_pulled_profile w encode s disk k pprof dropped =
    write_in w s disk (codes "pprof_profile") (codes "pprof-" ++ key_name k) (
      encode (record {
        kind = codes "pprof_profile";
        namespace = k.namespace;
        workload = k.workload;
        container = k.container;
        image_digest = k.image_digest;
        capture_start = k.capture_start;
        capture_end = k.capture_end;
        source = sampled;
        dropped = dropped;
        pprof = pprof;
      }))

-- `nodescan.Module`
pub record Module : Type 0 where
  pub path : Text
  pub version : Text
  pub replaced : Bool

-- `inventory.BuildFacts`; a nil list of modules is none.
pub record BuildFacts : Type 0 where
  pub image_digest : Text
  pub go_version : Text
  pub main_module : Text
  pub modules : Option (List Module)
  pub settings : List (Text × Text)
  pub go_debug : List (Text × Text)
  pub has_pprof : Bool

pub record GoBuildPayload : Type 0 where
  pub kind : Text
  pub source : Source
  pub image_digest : Text
  pub go_version : Text
  pub main_module : Text
  pub modules : List Module
  pub settings : List (Text × Text)
  pub go_debug : List (Text × Text)
  pub pprof_endpoint : Bool

unfoldable pub build_name : Text → Text
unfolding digest_file_token
build_name digest = codes "go-build-" ++ digest_file_token digest ++ json_suffix

-- `WriteGoBuild`
unfoldable pub write_go_build : World → (GoBuildPayload → Encoded) → Spool → Disk → BuildFacts → Ran
unfolding build_name write_in
write_go_build w encode s disk b =
    if length b.image_digest == 0
    then record { spool = s; disk = disk; ok = false }
    else write_in w s disk (codes "go_build") (build_name b.image_digest) (
        encode (record {
          kind = codes "go_build";
          source = structural;
          image_digest = b.image_digest;
          go_version = b.go_version;
          main_module = b.main_module;
          modules = from_option [] b.modules;
          settings = b.settings;
          go_debug = b.go_debug;
          pprof_endpoint = b.has_pprof;
        }))
