-- ===== src/Privileged/Job.antt =====
-- internal/privileged/privileged.go, `Run` and `runJob`: a privileged command in a machine of its
-- own. The sandbox service is outside: `Service` has what its `RunJob` streams for a request, and
-- which of the other steps work.
pub mod Run
pub mod Timeout
use masuda.Common.{
  ℕ, ◌+◌, ◌*◌, ◌-◌, ◌/◌, List, [], ◌∷◌, ◌++◌, map, Option, none, some, Bool, true, false, ◌&&◌,
  ◌||◌, not, if◌then◌else◌, ltb, ◌==◌, Text, codes, same,
}
use Prim.Native.Nat.{◌%◌, ◌^◌}
use masuda.Common.{Result, ok, err, ◌>>=◌, ◌>>◌, refuse_if, or_err}
use masuda.Common.Int.{ℤ, pos, negsuc}
use masuda.Config.Decl.{PrivilegedCommandDecl}
use masuda.Privileged.Tail.{Bytes, TailBuffer, new_buffer, write, bytes}
use masuda.Privileged.Shell.{
  guest_workspace, bundle_guest, snapshot_ref_ok, checkout_script, command_shell,
}

-- `sandboxv1.SecretDecl`; `in_body` for each place where the value is substituted.
pub record SandboxSecret : Type 0 where
  pub name : Text
  pub value : Text
  pub hosts : List Text
  pub in_body : List Bool

-- `HostInput`.
pub record HostInput : Type 0 where
  pub host_path : Text
  pub rel : Text
  pub mode : ℕ

-- `Options`, without the sandbox client, the staging repository and the live output.
pub record Options : Type 0 where
  pub main_id : Text
  pub run_id : Text
  pub build_id : Text
  pub disk_mib : ℕ
  pub memory_mib : ℕ
  pub cpus : ℕ
  pub egress : List Text
  pub secrets : List SandboxSecret
  pub decl : PrivilegedCommandDecl
  pub prepare : Text
  pub snapshot_ref : Text
  pub host_inputs : List HostInput

-- `sandboxv1.RunJobRequest_Input`.
pub data JobInput : Type 0 where
  host_file : (host_path guest_path : Text) (mode : ℕ) → JobInput
  from_sandbox : (id root : Text) (patterns : List Text) (dest_root : Text) → JobInput

-- `sandboxv1.RunJobRequest`.
pub record JobRequest : Type 0 where
  pub build_id : Text
  pub memory_mib : ℕ
  pub cpus : ℕ
  pub disk_mib : ℕ
  pub allowed_hosts : List Text
  pub secrets : List SandboxSecret
  pub user : Text
  pub cwd : Text
  pub setup_shell : Text
  pub shell : Text
  pub timeout_ms : ℕ
  pub inputs : List JobInput
  pub outputs : List Text

-- `sandboxv1.RunJobEvent`: how a shell ended, what a job reports at its end, and the events.
pub record Exit : Type 0 where
  pub exit_code : ℤ
  pub signal : Text
  pub timed_out : Bool

pub record Finished : Type 0 where
  pub setup : Option Exit
  pub exited : Option Exit
  pub job_timed_out : Bool
  pub outputs : List Text
  pub outputs_error : Text
  pub denied_hosts : List Text

pub data Event : Type 0 where
  phase : Text → Event
  stdout stderr : Bytes → Event
  finished : Finished → Event

-- `Result`.
pub record RunResult : Type 0 where
  pub exit_code : ℤ
  pub log : Text
  pub truncated : Bool
  pub results_dir : Text
  pub outputs : List Text
  pub outputs_error : Text
  pub timed_out : Bool
  pub signal : Text
  pub denied_hosts : List Text

pub data JobError : Type 0 where
  bad_ref bad_host_dir no_outputs_dir no_bundle not_started stream_broken no_finish : JobError
  setup_failed : JobError
  did_not_run host_write_failed guest_write_failed : JobError

-- The steps outside: the bundle's path, the stream of a job with whether it broke off, the writes,
-- and the outputs that the job left on the host.
pub record Service : Type 0 where
  pub host_dir_found : Bool
  pub outputs_dir_made : Bool
  pub bundle : Option Text
  pub run_job : JobRequest → Option (List Event × Bool)
  pub host_written : Bool
  pub guest_write : Text → Bytes → Bool
  pub output_file : Text → Option Bytes

abbrev pub log_tail_bytes : ℕ
log_tail_bytes = 204800

abbrev default_timeout : ℕ
default_timeout = 3600000000000

-- `time.Duration(s) * time.Second`, in two's complement with 64 bits.
unfoldable pub duration : ℤ → ℕ
duration (pos s) = s * 1000000000 % 2 ^ 64
duration (negsuc s) = (2 ^ 64 - (s + 1) * 1000000000 % 2 ^ 64) % 2 ^ 64

-- `uint32(min(timeout.Milliseconds(), int64(^uint32(0))))` of such a duration.
unfoldable pub milliseconds : ℕ → ℕ
milliseconds d =
    if ltb d (2 ^ 63)
    then (if ltb (2 ^ 32 - 1) (d / 1000000) then 2 ^ 32 - 1 else d / 1000000)
    else (2 ^ 32 - (2 ^ 64 - d) / 1000000 % 2 ^ 32) % 2 ^ 32

unfoldable pub timeout_ms : ℤ → ℕ
timeout_ms s = milliseconds (if duration s == 0 then default_timeout else duration s)

unfoldable pub host_input : HostInput → JobInput
host_input h = host_file h.host_path (guest_workspace ++ codes "/" ++ h.rel) (h.mode % 512)

abbrev pub sandbox_inputs : Text → List Text → List JobInput
sandbox_inputs main_id [] = []
sandbox_inputs main_id (p ∷ ps) =
    if same main_id []
    then []
    else from_sandbox main_id guest_workspace (p ∷ ps) guest_workspace ∷ []

-- The request that `Run` sends.
unfoldable pub request : Options → Text → JobRequest
unfolding host_input
request o bundle = record {
  build_id = o.build_id;
  memory_mib = o.memory_mib;
  cpus = o.cpus;
  disk_mib = o.disk_mib;
  allowed_hosts = o.egress;
  secrets = o.secrets;
  user = codes "root";
  cwd = guest_workspace;
  setup_shell = checkout_script o.snapshot_ref;
  shell = command_shell o.prepare o.decl.command;
  timeout_ms = timeout_ms o.decl.timeout_seconds;
  inputs =
      host_file bundle bundle_guest 420
      ∷ (map host_input o.host_inputs ++ sandbox_inputs o.main_id o.decl.inputs);
  outputs = o.decl.outputs;
}
