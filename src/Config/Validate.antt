-- ===== src/Config/Validate.antt =====
-- internal/config/config.go: `Settings.Validate`, which runs on every settings file that is loaded. A
-- problem has what its message names. Whether a text is a JSON object is the parameter `is_object`.
pub mod Apart
use masuda.Common.{
  List, [], ◌∷◌, ◌++◌, Option, none, some, Bool, true, false, ◌&&◌, ◌||◌, not, if◌then◌else◌, map,
  Text, codes, same, contains, trim_space,
}
use masuda.Config.Names.{valid_name, valid_check_name, valid_remote_name, valid_host}
use masuda.Config.Decl.{
  SecretDecl, EnvFile, PrivilegedCommandDecl, AgentOverride, ImageDecl, Settings, effective_mode,
  secret, mode_placeholder, mode_plaintext, in_header, in_body, reserved_secret,
}
use masuda.Config.Egress.{host_allowed}
use masuda.Config.Paths.{clean, valid_env_path}

pub data Problem : Type 0 where
  bad_image : Text → Problem
  bad_host : Text → Problem
  bad_secret_name : Text → Problem
  reserved : Text → Problem
  declared_twice : Text → Problem
  needs_hosts : Text → Problem
  bad_mode : Text → Problem
  bad_place : Text → Problem
  bad_path : Text → Problem
  path_twice : Text → Problem
  bad_var : Text → Problem
  bad_name : Text → Problem
  secrets_with_inputs : Text → Problem
  not_placeholder : Text → Problem
  shared_with_agent : Text → Problem
  outside_egress : Text → Problem
  bad_remote : Text → Problem
  empty_override : Text → Problem
  empty_model : Text → Problem
  bad_effort : Text → Problem
  bad_claude_settings : Problem

unfoldable pub flag : Bool → Problem → List Problem
flag true p = p ∷ []
flag false p = []

-- The problems of each element, in order.
unfoldable pub each : {A : Type 0} → (A → List Problem) → List A → List Problem
each f [] = []
each f (x ∷ xs) = f x ++ each f xs

-- Several lists of problems, one after the other.
unfoldable pub all_of : List (List Problem) → List Problem
all_of [] = []
all_of (ps ∷ pss) = ps ++ all_of pss

unfoldable pub bad_hosts : List Text → List Problem
bad_hosts = each (λ h. flag (not (valid_host h)) (bad_host h))

name_problem : List Text → Text → List Problem
name_problem seen n =
    if not (valid_name n)
    then bad_secret_name n ∷ []
    else if same n reserved_secret
    then reserved n ∷ []
    else if contains seen n
    then declared_twice n ∷ []
    else []

mode_problem : SecretDecl → List Problem
mode_problem d =
    if same (effective_mode d) mode_placeholder
    then (elim d.hosts [ [] ↦ needs_hosts d.name ∷ [] | h ∷ hs ↦ [] ])
    else if same (effective_mode d) mode_plaintext
    then []
    else bad_mode d.mode ∷ []

-- `validateSecret`, with the names seen before.
unfoldable pub validate_secret : List Text → SecretDecl → List Problem
unfolding name_problem mode_problem
validate_secret seen d = all_of (
    name_problem seen d.name
    ∷ mode_problem d
    ∷ bad_hosts d.hosts
    ∷ each (λ p. flag (not (same p in_header) && not (same p in_body)) (bad_place p)) d.places
    ∷ [])

-- The loop over the secrets, the names seen first.
unfoldable pub validate_secrets : List Text → List SecretDecl → List Problem
validate_secrets seen [] = []
validate_secrets seen (d ∷ ds) =
    all_of (validate_secret seen d ∷ validate_secrets (d.name ∷ seen) ds ∷ [])

-- The loop over the generated files, the cleaned paths first.
unfoldable pub validate_env_files : List Text → List EnvFile → List Problem
validate_env_files seen [] = []
validate_env_files seen (f ∷ fs) = all_of (
    (if not (valid_env_path f.path)
      then bad_path f.path ∷ []
      else flag (contains seen (clean f.path)) (path_twice f.path))
    ∷ each (λ v. flag (not (valid_name v)) (bad_var v)) f.vars
    ∷ validate_env_files (clean f.path ∷ seen) fs
    ∷ [])

is_some : {A : Type 0} → Option A → Bool
is_some none = false
is_some (some a) = true

is_empty : {A : Type 0} → List A → Bool
is_empty [] = true
is_empty (x ∷ xs) = false

-- What is asked of a privileged command's secret beyond `validateSecret`.
unfoldable pub privileged_secret : Settings → PrivilegedCommandDecl → SecretDecl → List Problem
unfolding is_some
privileged_secret s d sd = all_of (
    flag (not (same (effective_mode sd) mode_placeholder)) (not_placeholder sd.name)
    ∷ flag (is_some (secret s sd.name)) (shared_with_agent sd.name)
    ∷ each (λ h. flag (not (host_allowed d.egress h)) (outside_egress h)) sd.hosts
    ∷ [])

unfoldable pub privileged_secrets :
    Settings → PrivilegedCommandDecl → List Text → List SecretDecl → List Problem
privileged_secrets s d own [] = []
privileged_secrets s d own (sd ∷ sds) = all_of (
    validate_secret own sd
    ∷ privileged_secret s d sd
    ∷ privileged_secrets s d (sd.name ∷ own) sds
    ∷ [])

unfoldable pub validate_command : Settings → Text × PrivilegedCommandDecl → List Problem
unfolding is_empty
validate_command s (name, d) = all_of (
    flag (not (valid_check_name name)) (bad_name name)
    ∷ bad_hosts d.egress
    ∷ flag (not (is_empty d.secrets) && not (is_empty d.inputs)) (secrets_with_inputs name)
    ∷ privileged_secrets s d [] d.secrets
    ∷ [])

efforts : List Text
efforts = map codes ("low" ∷ "medium" ∷ "high" ∷ "xhigh" ∷ "max" ∷ [])

validate_agent : Text × AgentOverride → List Problem
unfolding is_some efforts
validate_agent (name, o) = all_of (
    flag (not (is_some o.model) && not (is_some o.effort)) (empty_override name)
    ∷ (elim o.model [ none ↦ [] | some m ↦ flag (same (trim_space m) []) (empty_model name) ])
    ∷ (elim o.effort [ none ↦ [] | some e ↦ flag (not (contains efforts e)) (bad_effort e) ])
    ∷ [])

has_dots : Text → Bool
has_dots [] = false
has_dots (c ∷ []) = false
has_dots (c ∷ d ∷ s) = same (c ∷ d ∷ []) (codes "..") || has_dots (d ∷ s)

-- `Validate`: no problem means that the settings are accepted.
unfoldable pub validate_settings : (Text → Bool) → Settings → List Problem
unfolding validate_agent has_dots is_empty
validate_settings is_object s = all_of (
    flag (not (is_empty s.image) && not (valid_check_name s.image)) (bad_image s.image)
    ∷ bad_hosts s.egress
    ∷ validate_secrets [] s.secrets
    ∷ validate_env_files [] s.env_files
    ∷ each (λ c. flag (not (valid_check_name c.0)) (bad_name c.0)) s.checks
    ∷ each (validate_command s) s.privileged_commands
    ∷ each (λ i. flag (not (valid_check_name i.0)) (bad_name i.0)) s.images
    ∷ flag
        (not (is_empty s.publish_remote)
          && (not (valid_remote_name s.publish_remote) || has_dots s.publish_remote))
        (bad_remote s.publish_remote)
    ∷ each validate_agent s.agents
    ∷ flag (not (is_empty s.claude_settings) && not (is_object s.claude_settings))
        bad_claude_settings
    ∷ [])
