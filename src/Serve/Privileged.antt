-- ===== src/Serve/Privileged.antt =====
-- serve/privileged.go: `runPrivileged`. A run takes the next number among the records, pins the commit
-- or a snapshot, and has `privileged.Run` run the command. Outside are the engine's approved commit
-- and what `Host` holds; times are left out of the record.
pub mod Numbers
pub mod Safety
use masuda.Common.{
  ℕ, ◌+◌, List, [], ◌∷◌, ◌++◌, map, Option, none, some, Bool, true, false, ◌&&◌, not, if◌then◌else◌,
  ltb, ◌==◌, Text, codes, same, contains,
}
use masuda.Common.{Result, ok, err, ◌>>=◌, ◌>>◌, refuse_if, or_err}
use masuda.Common.Int.{ℤ, pos, negsuc}
use masuda.Common.Decimal.{atoi, pad4, max_int}
use masuda.Config.Decl.{
  SecretDecl, PrivilegedCommandDecl, Settings, LocalSettings, effective_in, in_body, vm_size,
}
use masuda.Privileged.Approval.{ResolveError, Resolved, resolve}
use masuda.Privileged.Shell.{approved_ref, wip_ref}
use masuda.Privileged.Job.{Options, SandboxSecret, RunResult, JobError, Service}
use masuda.Privileged.Job.Run.{Left, run}
use masuda.Secrets.{Files, StoreError, get_secret}

pub data PrivError : Type 0 where
  starting no_workspace no_settings no_local_settings : PrivError
  not_resolved : ResolveError → PrivError
  not_from_a_node no_approved_commit : PrivError
  no_value : Text → PrivError
  unreadable : StoreError → PrivError
  no_number no_head head_moved ref_not_set not_captured no_image : PrivError
  failed : JobError → PrivError

-- What the host holds for the workspace: whether it is there and booted, the two files of settings,
-- the stored secrets, the names in its directory of records, the commit at the head of its staging
-- branch, and the steps of git and of the image's build.
pub record Host : Type 0 where
  pub booted : Bool
  pub found : Bool
  pub id : Text
  pub repo_root : Text
  pub cfg : Option Settings
  pub local : Option LocalSettings
  pub files : Files
  pub entries : List Text
  pub records_made : Bool
  pub head : Option Text
  pub ref_set : Bool
  pub captured : Bool
  pub build : Text → Option Text
  pub service : Service

-- `privilegedRecord`, without the times.
pub record PrivilegedRecord : Type 0 where
  pub name : Text
  pub occurrence : Text
  pub decl_hash : Text
  pub snapshot : Text
  pub approved_commit : Text
  pub result : Result JobError RunResult

-- What a call leaves: its answer, the files put in the workspace's own guest, and the record.
pub record Ran : Type 0 where
  pub answer : Result PrivError RunResult
  pub in_guest : List (Text × Text)
  pub recorded : Option PrivilegedRecord

larger : Option ℤ → ℕ → ℕ
larger (some (pos n)) last = if ltb last n then n else last
larger (some (negsuc n)) last = last
larger none last = last

-- The loop of `nextPrivilegedRun`.
unfoldable pub last_number : ℕ → List Text → ℕ
unfolding larger
last_number last [] = last
last_number last (e ∷ es) = last_number (larger (atoi e) last) es

-- `fmt.Sprintf("%04d", last+1)` with 64 bits.
unfoldable pub numbered : ℕ → Text
numbered last = if last == max_int then codes "-9223372036854775808" else pad4 (last + 1)

-- `nextPrivilegedRun`; `Mkdir` fails on a name that is there.
unfoldable pub next_run : List Text → Bool → Option Text
next_run entries made =
    let id = numbered (last_number 0 entries) in
    if made && not (contains entries id) then some id else none

-- `sandboxSecret`.
unfoldable pub sandbox_secret : SecretDecl → Text → SandboxSecret
sandbox_secret d value = record {
  name = d.name;
  value = value;
  hosts = d.hosts;
  in_body = map (λ place. same place in_body) (effective_in d);
}

unfoldable pub has_secrets : List SecretDecl → Bool
has_secrets [] = false
has_secrets (d ∷ ds) = true

-- `pinApproved` behind `CheckHead`, and `SnapshotNamed`.
pin_approved : Option Text → Bool → Text → Text → Result PrivError Text
pin_approved none ref_set run_id commit = err no_head
pin_approved (some head) ref_set run_id commit = do
  refuse_if (not (same head commit)) head_moved
  refuse_if (not ref_set) ref_not_set
  ok (approved_ref run_id)

unfoldable pub pin : Bool → Host → Text → Text → Result PrivError Text
unfolding pin_approved
pin true host run_id commit = pin_approved host.head host.ref_set run_id commit
pin false host run_id commit = do
  refuse_if (not host.captured) not_captured
  ok (wip_ref (codes "privileged-" ++ run_id))

resolved_or : Result ResolveError Resolved → Result PrivError Resolved
resolved_or (err e) = err (not_resolved e)
resolved_or (ok r) = ok r

value_or : Text → Result StoreError (Option Text) → Result PrivError Text
value_or name (err e) = err (unreadable e)
value_or name (ok none) = err (no_value name)
value_or name (ok (some v)) = ok v

-- What stands outside: `path.Match`, the hash, whether an entry has a Dockerfile, the data directory
-- and the hash of a repository's path.
module _ (path_match : Text → Text → Option Bool)
    (digest : PrivilegedCommandDecl → Text → Option Text) (image_exists : Text → Bool)
    (data_dir : Text) (repo_hash : Text → Text) where
  -- `privilegedSecrets`.
  unfoldable pub privileged_secrets :
      Text → Files → List SecretDecl → Result PrivError (List SandboxSecret)
  unfolding value_or
  privileged_secrets repo files [] = ok []
  privileged_secrets repo files (d ∷ ds) = do
    v ← value_or d.name (get_secret data_dir repo_hash repo d.name files)
    rest ← privileged_secrets repo files ds
    ok (sandbox_secret d v ∷ rest)

  -- The command, the guards on one with secrets, and the values.
  unfoldable pub allowed :
      Host → Text → Text → Text → Result PrivError (Settings × Resolved × List SandboxSecret)
  unfolding resolved_or
  allowed host occurrence name commit = do
    refuse_if (not host.booted) starting
    refuse_if (not host.found) no_workspace
    cfg ← or_err no_settings host.cfg
    local ← or_err no_local_settings host.local
    cmd ← resolved_or (resolve path_match digest image_exists cfg local name)
    refuse_if (has_secrets cmd.decl.secrets && same occurrence []) not_from_a_node
    refuse_if (has_secrets cmd.decl.secrets && same commit []) no_approved_commit
    secrets ← privileged_secrets host.repo_root host.files cmd.decl.secrets
    ok (cfg, cmd, secrets)

  options : Host → Settings → Resolved → List SandboxSecret → Text → Text → Text → Options
  options host cfg cmd secrets run_id ref build = record {
    main_id = if has_secrets cmd.decl.secrets then [] else host.id;
    run_id = run_id;
    build_id = build;
    disk_mib = (vm_size cfg cmd.decl.image).disk_mib;
    memory_mib = (vm_size cfg cmd.decl.image).memory_mib;
    cpus = (vm_size cfg cmd.decl.image).cpus;
    egress = cmd.egress;
    secrets = secrets;
    decl = cmd.decl;
    prepare = cmd.prepare;
    snapshot_ref = ref;
    host_inputs = [];
  }

  -- The steps up to the call of `privileged.Run`.
  unfoldable pub prepared : Host → Text → Text → Text → Result PrivError (Resolved × Options)
  unfolding options
  prepared host occurrence name commit = do
    found ← allowed host occurrence name commit
    run_id ← or_err no_number (next_run host.entries host.records_made)
    ref ← pin (has_secrets found.1.decl.secrets) host run_id commit
    build ← or_err no_image (host.build found.1.decl.image)
    ok (found.1, options host found.0 found.1 found.2 run_id ref build)

  -- `withheldLog`; the text is by its code points.
  unfoldable pub withheld_log : Text → Text
  withheld_log run_id =
      codes "秘密を使うコマンドのため、ログは人間だけが読める（records/privileged/" ++ run_id ++ codes "/log）"

  answer_of : Bool → Text → Result JobError RunResult → Result PrivError RunResult
  answer_of secret run_id (err e) = err (failed e)
  answer_of true run_id (ok res) = ok (record res { log = withheld_log run_id; truncated = false })
  answer_of false run_id (ok res) = ok res

  record_of : Text → Text → Resolved → Options → Result JobError RunResult → PrivilegedRecord
  record_of occurrence commit cmd o result = record {
    name = cmd.name;
    occurrence = occurrence;
    decl_hash = cmd.hash;
    snapshot = if has_secrets cmd.decl.secrets then [] else o.snapshot_ref;
    approved_commit = if has_secrets cmd.decl.secrets then commit else [];
    result = result;
  }

  unfoldable pub finish : Host → Text → Text → Result PrivError (Resolved × Options) → Ran
  unfolding answer_of record_of
  finish host occurrence commit (err e) = record { answer = err e; in_guest = []; recorded = none }
  finish host occurrence commit (ok (cmd, o)) =
      let left = run o host.service in
      record {
        answer = answer_of (has_secrets cmd.decl.secrets) o.run_id left.result;
        in_guest = left.in_guest;
        recorded = some (record_of occurrence commit cmd o left.result);
      }

  -- `runPrivileged`.
  unfoldable pub run_privileged : Host → Text → Text → Text → Ran
  run_privileged host occurrence name commit =
      finish host occurrence commit (prepared host occurrence name commit)
