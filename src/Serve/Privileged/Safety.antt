-- ===== src/Serve/Privileged/Safety.antt =====
-- What a privileged command that uses secrets is held to (serve/privileged.go, `runPrivileged`).
use masuda.Common.{◌≡◌, ◌≢◌, List, [], Option, some, Bool, true, false, Text}
use masuda.Common.{ok, err}
use masuda.Config.Decl.{PrivilegedCommandDecl, Settings, LocalSettings}
use masuda.Privileged.Approval.{Resolved}
use masuda.Privileged.Approval.Gate.{IsApproved}
use masuda.Privileged.Shell.{approved_ref, checkout_script}
use masuda.Privileged.Job.Run.{run}
use masuda.Privileged.Job.{request, Service, Options, SandboxSecret, RunResult, JobError}
use masuda.Serve.Privileged.{
  failed, PrivilegedRecord, Host, Ran, has_secrets, privileged_secrets, withheld_log,
}

module _ (path_match : Text → Text → Option Bool)
    (digest : PrivilegedCommandDecl → Text → Option Text) (image_exists : Text → Bool)
    (data_dir : Text) (repo_hash : Text → Text) where
  -- What was found of a command that may run.
  pub record IsAllowed (host : Host) (occurrence name commit : Text) (cfg : Settings)
      (cmd : Resolved) (secrets : List SandboxSecret) : Type 0 where
    pub booted : host.booted ≡ true
    pub settings : host.cfg ≡ some cfg
    pub local : LocalSettings
    pub read : host.local ≡ some local
    pub approved : IsApproved path_match digest image_exists cfg local name cmd
    pub by_a_node : has_secrets cmd.decl.secrets ≡ true → (occurrence ≢ []) × (commit ≢ [])
    pub values :
        privileged_secrets path_match digest image_exists data_dir repo_hash host.repo_root
          host.files cmd.decl.secrets
        ≡ ok secrets

  -- A command with secrets that was run: for a node, on the approved commit, which is the head of the
  -- staging branch; no file reaches the workspace's guest, and the log that is returned is withheld.
  pub record Guarded (host : Host) (occurrence commit : Text) (o : Options) (ran : Ran)
      : Type 0 where
    pub by_a_node : (occurrence ≢ []) × (commit ≢ [])
    pub at_head : host.head ≡ some commit
    pub pinned : o.snapshot_ref ≡ approved_ref o.run_id
    pub apart : ran.in_guest ≡ []
    pub withheld :
        (res : RunResult)
        → ran.answer ≡ ok res
        → res.log ≡ withheld_log path_match digest image_exists data_dir repo_hash o.run_id

  -- What a call leaves is that of one run with the options `o`: the files in the guest, the record
  -- with the result, the hash that was approved and what the run was made on, and the answer, which
  -- fails as the run does and has the exit code and the outputs of the run.
  pub record WasRun (o : Options) (service : Service) (occurrence commit : Text) (cmd : Resolved)
      (ran : Ran) : Type 0 where
    pub in_guest : ran.in_guest ≡ (run o service).in_guest
    pub made : PrivilegedRecord
    pub recorded : ran.recorded ≡ some made
    pub of_command : (made.name ≡ cmd.name) × (made.decl_hash ≡ cmd.hash)
    pub of_node : made.occurrence ≡ occurrence
    pub on_commit :
        has_secrets cmd.decl.secrets ≡ true → (made.approved_commit ≡ commit) × (made.snapshot ≡ [])
    pub on_snapshot :
        has_secrets cmd.decl.secrets ≡ false
        → (made.approved_commit ≡ []) × (made.snapshot ≡ o.snapshot_ref)
    pub its_result : made.result ≡ (run o service).result
    pub failing : (e : JobError) → (run o service).result ≡ err e → ran.answer ≡ err (failed e)
    pub succeeding :
        (res : RunResult)
        → (run o service).result ≡ ok res
        → (res' : RunResult) × (ran.answer ≡ ok res')
          × (res'.exit_code ≡ res.exit_code)
          × (res'.outputs ≡ res.outputs)

  pub record IsRun (host : Host) (occurrence name commit : Text) (cmd : Resolved) (o : Options)
      (ran : Ran) : Type 0 where
    pub cfg : Settings
    pub allowed_as : IsAllowed host occurrence name commit cfg cmd o.secrets
    pub of_decl : (o.decl ≡ cmd.decl) × (o.prepare ≡ cmd.prepare)
    pub sent :
        (bundle : Text)
        → ((request o bundle).allowed_hosts ≡ cmd.egress)
          × ((request o bundle).secrets ≡ o.secrets)
          × ((request o bundle).setup_shell ≡ checkout_script o.snapshot_ref)
    pub result : WasRun o host.service occurrence commit cmd ran
    pub with_secrets : has_secrets cmd.decl.secrets ≡ true → Guarded host occurrence commit o ran
    pub without : has_secrets cmd.decl.secrets ≡ false → o.secrets ≡ []
