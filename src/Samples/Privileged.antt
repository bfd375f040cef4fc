-- ===== src/Samples/Privileged.antt =====
-- A settings file with one privileged command, its approval, and paths and output of such commands.
use masuda.Common.{
  ◌<◌, ◌≤◌, ◌≡◌, refl, ◌↔◌, ◌⊎◌, inl, List, [], ◌∷◌, ◌++◌, Option, some, Bool, true, false, ◌||◌,
  ◌∈◌, All, arith, length, take_last, Text, codes, same, lookup, trim_space, split, append_new,
  contains,
}
use masuda.Common.{ok}
use masuda.Common.Int.{pos}
use masuda.Config.Decl.{
  SecretDecl, PrivilegedCommandDecl, Settings, LocalSettings, effective_mode, secret,
}
use masuda.Config.Hash.{decl_hash}
use masuda.Config.Egress.{allowed_egress, host_allowed, one_allows, under_wildcard}
use masuda.Config.Validate.{
  validate_settings, all_of, flag, bad_hosts, each, validate_secrets, validate_env_files,
  validate_command, privileged_secrets, validate_secret, privileged_secret,
}
use masuda.Common.{cut_prefix}
use masuda.Config.Validate.Apart.{Apart, validate_settings-Apart}
use masuda.Privileged.Glob.{
  match_segs, validate_pattern, segments_error, segment_error, one_segment, seg_match,
}
use masuda.Privileged.Glob.Spec.{Matches, match_segs_iff}
use masuda.Privileged.Tail.{Bytes, TailBuffer, new_buffer, write, write_all, bytes, concat}
use masuda.Privileged.Tail.Exact.{bytes-write_all, write_forgets_truncation}
use masuda.Privileged.Approval.{Resolved, validate, resolve}
use masuda.Privileged.Approval.Gate.{IsApproved, resolve-IsApproved}
use masuda.Config.Names.{valid_check_name, valid_host, valid_name}

-- A `path.Match` for patterns that are `*` or have no wildcard.
abbrev pub glob : Text → Text → Option Bool
glob p n = some (same p (codes "*") || same p n)

abbrev pub digest : PrivilegedCommandDecl → Text → Option Text
digest d prepare = some (d.command ++ prepare)

abbrev pub has_image : Text → Bool
has_image image = same image (codes "default")

abbrev token : SecretDecl
token = record {
  name = codes "DEPLOY_TOKEN";
  hosts = codes "api.test" ∷ [];
  mode = [];
  places = [];
}

abbrev pub deploy : PrivilegedCommandDecl
deploy = record {
  description = codes "d";
  command = codes "make";
  image = codes "default";
  inputs = [];
  outputs = codes "out/**" ∷ [];
  timeout_seconds = pos 60;
  egress = codes "api.test" ∷ [];
  secrets = token ∷ [];
}

abbrev pub settings : Settings
settings = record {
  image = [];
  egress = codes "a.test" ∷ codes "b.test" ∷ [];
  secrets = [];
  env_files = [];
  privileged_commands = (codes "deploy", deploy) ∷ [];
  checks = [];
  prepare = codes "p";
  images = [];
  publish_remote = [];
  agents = [];
  claude_settings = [];
}

abbrev pub local : LocalSettings
local = record {
  egress_approved = codes "a.test" ∷ [];
  secrets_approved = [];
  privileged_commands_approved = (codes "deploy", codes "makep") ∷ [];
  claude_token = [];
}

abbrev resolved : Resolved
resolved = record {
  name = codes "deploy";
  decl = deploy;
  prepare = codes "p";
  hash = codes "makep";
  egress = codes "a.test" ∷ codes "api.test" ∷ [];
}

resolve_runs : resolve glob digest has_image settings local (codes "deploy") ≡ ok resolved
unfolding resolve lookup same validate trim_space valid_check_name validate_pattern segments_error
    split segment_error decl_hash append_new contains allowed_egress
resolve_runs = refl

resolve-IsApproved_example :
    IsApproved glob digest has_image settings local (codes "deploy") resolved
resolve-IsApproved_example =
    resolve-IsApproved glob digest has_image settings local (codes "deploy") resolved resolve_runs

is_valid : validate_settings (λ t. false) settings ≡ []
unfolding validate_settings all_of flag bad_hosts each valid_host cut_prefix split validate_secrets
    validate_env_files validate_command valid_check_name privileged_secrets validate_secret
    valid_name same contains effective_mode secret host_allowed one_allows under_wildcard
    privileged_secret
is_valid = refl

validate_settings-Apart_example :
    ((deploy.secrets ≡ []) ⊎ (deploy.inputs ≡ []))
    × ((sd : SecretDecl) → sd ∈ deploy.secrets → Apart settings deploy sd)
validate_settings-Apart_example =
    validate_settings-Apart (λ t. false) settings (codes "deploy") deploy is_valid (inl refl)

match_segs_iff_example :
    (match_segs glob
        (codes "src" ∷ codes "**" ∷ codes "*" ∷ [])
        (codes "src" ∷ codes "a" ∷ codes "b" ∷ [])
      ≡ true)
    ↔ Matches glob
        (codes "src" ∷ codes "**" ∷ codes "*" ∷ [])
        (codes "src" ∷ codes "a" ∷ codes "b" ∷ [])
match_segs_iff_example =
    match_segs_iff glob (codes "src" ∷ codes "**" ∷ codes "*" ∷ [])
      (codes "src" ∷ codes "a" ∷ codes "b" ∷ [])

-- Trailing stars need a segment of their own.
trailing_stars : match_segs glob (codes "src" ∷ codes "**" ∷ []) (codes "src" ∷ []) ≡ false
unfolding match_segs same one_segment seg_match
trailing_stars = refl

abbrev chunks : List Bytes
chunks = (1 ∷ 2 ∷ []) ∷ (3 ∷ 4 ∷ []) ∷ []

bytes-write_all_example : bytes (write_all (new_buffer 3) chunks) ≡ take_last 3 (concat chunks)
bytes-write_all_example = bytes-write_all 3 chunks

chunks_fit : All (λ (p : Bytes). length p ≤ 3) chunks
chunks_fit = (omega arith, (omega arith, tt))

abbrev empty_tail : TailBuffer
empty_tail = record { max = 1; buf = []; truncated = false }

write_forgets_truncation_example :
    ((write empty_tail (1 ∷ 2 ∷ 3 ∷ [])).truncated ≡ false)
    × (length (bytes (write empty_tail (1 ∷ 2 ∷ 3 ∷ [])))
        < length (empty_tail.buf ++ 1 ∷ 2 ∷ 3 ∷ []))
write_forgets_truncation_example =
    write_forgets_truncation empty_tail (1 ∷ 2 ∷ 3 ∷ []) refl (omega arith)
