-- ===== src/Serve/Approvals.antt =====
-- serve/config.go: the approvals of a user and the values of secrets. `settings.local.json` is replaced by
-- one rename, so that a write that fails leaves it as it was; `saved` where it succeeds.
pub mod Commands
pub mod Hosts
use masuda.Common.{
  List, [], ◌∷◌, ◌++◌, map, keep, Option, none, some, Bool, true, false, ◌&&◌, ◌||◌, not,
  if◌then◌else◌, Text, codes, same, contains, lookup, insert,
}
use masuda.Common.{Result, ok, err, ◌>>=◌, ◌>>◌, refuse_if, or_err}
use masuda.Config.Decl.{
  SecretDecl, PrivilegedCommandDecl, Settings, LocalSettings, secret, effective_mode,
  mode_plaintext, reserved_secret,
}
use masuda.Config.Hash.{decl_hash}
use masuda.Config.Names.{valid_name}
use masuda.Config.Secrets.{sorted_commands, privileged_secrets_of}
use masuda.Privileged.Approval.{
  Approval, approved, not_approved, stale, approval_state, validate, Problem,
}
use masuda.Secrets.{SetStep, StoreError, Files, set, has}
use masuda.Serve.Result.{Code, invalid_argument, failed_precondition, internal, Reply}

-- `load`, from whether the repository is found and what its two files are read as.
unfoldable pub load :
    Bool → Option Settings → Option LocalSettings → Reply (Settings × LocalSettings)
load found cfg local = do
  refuse_if (not found) invalid_argument
  c ← or_err failed_precondition cfg
  l ← or_err failed_precondition local
  ok (c, l)

-- `saveLocal`.
unfoldable pub save_local : Bool → LocalSettings → Reply LocalSettings
save_local saved local = do refuse_if (not saved) internal; ok local

-- What changes is written, anything else is left alone.
unfoldable pub save_if : Bool → Bool → LocalSettings → LocalSettings → Reply LocalSettings
save_if false saved old local = ok old
save_if true saved old local = save_local saved local

abbrev without : Text → List Text → List Text
without x = keep (λ y. not (same y x))

-- `egressEntries`.
unfoldable pub egress_entries : Settings → LocalSettings → List (Text × Bool)
egress_entries cfg local = map (λ h. (h, contains local.egress_approved h)) cfg.egress

-- `ApproveEgress` behind `load`: the approvals on file after it.
unfoldable pub approve_egress : Bool → Settings → LocalSettings → Text → Reply LocalSettings
approve_egress saved cfg local h = do
  refuse_if (not (contains cfg.egress h)) invalid_argument
  save_if (not (contains local.egress_approved h)) saved local
      (record local { egress_approved = local.egress_approved ++ h ∷ [] })

-- `RejectEgress`.
unfoldable pub reject_egress : Bool → Settings → LocalSettings → Text → Reply LocalSettings
reject_egress saved cfg local h = do
  refuse_if (not (contains cfg.egress h) && not (contains local.egress_approved h)) invalid_argument
  save_if (contains local.egress_approved h) saved local
      (record local { egress_approved = without h local.egress_approved })

is_plaintext : SecretDecl → Bool
is_plaintext d = same (effective_mode d) mode_plaintext

-- `ApproveSecret`.
unfoldable pub approve_secret : Bool → Settings → LocalSettings → Text → Reply LocalSettings
unfolding is_plaintext
approve_secret saved cfg local name = do
  d ← or_err invalid_argument (secret cfg name)
  refuse_if (not (is_plaintext d)) invalid_argument
  save_if (not (contains local.secrets_approved name)) saved local
      (record local { secrets_approved = local.secrets_approved ++ name ∷ [] })

-- The `switch` of `RejectSecret`.
nothing_to_reject : Option SecretDecl → Bool → Bool
unfolding is_plaintext
nothing_to_reject none recorded = not recorded
nothing_to_reject (some d) recorded = not (is_plaintext d) && not recorded

-- `RejectSecret`.
unfoldable pub reject_secret : Bool → Settings → LocalSettings → Text → Reply LocalSettings
unfolding nothing_to_reject
reject_secret saved cfg local name = do
  refuse_if (nothing_to_reject (secret cfg name) (contains local.secrets_approved name))
      invalid_argument
  save_if (contains local.secrets_approved name) saved local
      (record local { secrets_approved = without name local.secrets_approved })

-- `ClaudeTokenName`.
unfoldable pub claude_token_name : LocalSettings → Text
claude_token_name local = if same local.claude_token [] then reserved_secret else local.claude_token

is_some_secret : Option SecretDecl → Bool
is_some_secret none = false
is_some_secret (some d) = true

named_in : Text → List SecretDecl → Bool
named_in name [] = false
named_in name (d ∷ ds) = same d.name name || named_in name ds

-- The names that `SetSecret` takes for a repository.
unfoldable pub may_set : Settings → LocalSettings → Text → Bool
unfolding is_some_secret named_in
may_set cfg local name =
    is_some_secret (secret cfg name)
    || named_in name (privileged_secrets_of cfg)
    || same name reserved_secret
    || same name (claude_token_name local)

stored : Result StoreError Files → Reply Files
stored (ok files) = ok files
stored (err e) = err internal

module _ (data_dir : Text) (repo_hash : Text → Text) where
  -- `SetSecret` for a repository, behind `load`, and `setUserSecret`.
  unfoldable pub set_secret :
      Option SetStep → Text → Settings → LocalSettings → Text → Text → Files → Reply Files
  unfolding stored
  set_secret fault root cfg local name value files = do
    refuse_if (not (may_set cfg local name)) invalid_argument
    refuse_if (same value []) invalid_argument
    stored (set data_dir repo_hash fault root name value files)

  unfoldable pub set_user_secret : Option SetStep → Text → Text → Files → Reply Files
  unfolding stored
  set_user_secret fault name value files = do
    refuse_if (not (valid_name name)) invalid_argument
    refuse_if (same value []) invalid_argument
    stored (set data_dir repo_hash fault [] name value files)

-- `PrivilegedCommandEntry`.
pub record CommandEntry : Type 0 where
  pub name : Text
  pub image : Text
  pub command : Text
  pub approved : Bool
  pub stale : Bool

is_approved : Approval → Bool
is_approved approved = true
is_approved not_approved = false
is_approved stale = false

is_stale : Approval → Bool
is_stale stale = true
is_stale approved = false
is_stale not_approved = false

command_entry : Text × PrivilegedCommandDecl → Approval → CommandEntry
unfolding is_approved is_stale
command_entry (name, d) state = record {
  name = name;
  image = d.image;
  command = d.command;
  approved = is_approved state;
  stale = is_stale state;
}

no_problem : List Problem → Reply (Unit {0})
no_problem [] = ok tt
no_problem (p ∷ ps) = err invalid_argument

-- `path.Match`, the hash of a declaration, and whether an entry has a Dockerfile.
module _ (path_match : Text → Text → Option Bool)
    (digest : PrivilegedCommandDecl → Text → Option Text) (image_exists : Text → Bool) where
  -- The loop of `privilegedEntries`.
  unfoldable pub entries_of :
      Text → LocalSettings → List (Text × PrivilegedCommandDecl) → Reply (List CommandEntry)
  unfolding command_entry
  entries_of prepare local [] = ok []
  entries_of prepare local ((name, d) ∷ cs) = do
    hash ← or_err internal (decl_hash digest d prepare)
    rest ← entries_of prepare local cs
    ok (
        command_entry (name, d)
          (approval_state hash (lookup name local.privileged_commands_approved))
        ∷ rest)

  -- `privilegedEntries`.
  unfoldable pub privileged_entries : Settings → LocalSettings → Reply (List CommandEntry)
  privileged_entries cfg local =
      entries_of cfg.prepare local (sorted_commands cfg.privileged_commands)

  -- `ApprovePrivilegedCommand` up to the write: the approvals on file after it.
  unfoldable pub record_approval : Bool → Settings → LocalSettings → Text → Reply LocalSettings
  unfolding no_problem
  record_approval saved cfg local name = do
    d ← or_err invalid_argument (lookup name cfg.privileged_commands)
    no_problem (validate path_match digest image_exists d)
    hash ← or_err internal (decl_hash digest d cfg.prepare)
    save_local saved (record local {
      privileged_commands_approved = insert name hash local.privileged_commands_approved;
    })

  -- The end of `ApprovePrivilegedCommand`; the list can fail once the approval is on file.
  listed :
      Settings → LocalSettings → Reply LocalSettings → LocalSettings × Reply (List CommandEntry)
  listed cfg local (err c) = (local, err c)
  listed cfg local (ok after) = (after, privileged_entries cfg after)

  -- `ApprovePrivilegedCommand`.
  unfoldable pub approve_command :
      Bool → Settings → LocalSettings → Text → LocalSettings × Reply (List CommandEntry)
  unfolding listed
  approve_command saved cfg local name = listed cfg local (record_approval saved cfg local name)
