-- ===== src/Privileged/Approval.antt =====
-- internal/privileged/privileged.go: `Validate`, `ApprovalOf` and `Resolve`. Error texts are left
-- out; an error is the kind that the code returns.
pub mod Gate
use masuda.Common.{
  ℕ, List, [], ◌∷◌, ◌++◌, Option, none, some, Bool, true, false, not, if◌then◌else◌, Text, codes,
  same, contains, trim_space, lookup, append_new,
}
use masuda.Common.{Result, ok, err, ◌>>=◌, or_err}
use masuda.Common.Int.{ℤ, pos, negsuc}
use masuda.Config.Names.{valid_check_name}
use masuda.Config.Decl.{PrivilegedCommandDecl, Settings, LocalSettings}
use masuda.Config.Egress.{allowed_egress}
use masuda.Config.Hash.{decl_hash}
use masuda.Privileged.Glob.{PatternError, validate_pattern}

pub data Problem : Type 0 where
  empty_command empty_image bad_image_name negative_timeout : Problem
  no_dockerfile : Text → Problem
  bad_input bad_output : Text → PatternError → Problem

pub data Approval : Type 0 where
  not_approved approved stale : Approval

pub data ResolveError : Type 0 where
  undeclared hash_failed unapproved changed : ResolveError
  invalid : List Problem → ResolveError

-- `Resolved`.
pub record Resolved : Type 0 where
  pub name : Text
  pub decl : PrivilegedCommandDecl
  pub prepare : Text
  pub hash : Text
  pub egress : List Text

abbrev when : Bool → Problem → List Problem
when true p = p ∷ []
when false p = []

is_negative : ℤ → Bool
is_negative (pos n) = false
is_negative (negsuc n) = true

-- `ApprovalOf`, from the hash of the declaration and the recorded approval.
unfoldable pub approval_state : Text → Option Text → Approval
approval_state hash none = not_approved
approval_state hash (some recorded) = if same recorded hash then approved else stale

abbrev pub checked :
    PrivilegedCommandDecl → List Problem → Result ResolveError PrivilegedCommandDecl
checked d [] = ok d
checked d (p ∷ ps) = err (invalid (p ∷ ps))

abbrev pub when_approved : Text → Approval → Result ResolveError Text
when_approved hash not_approved = err unapproved
when_approved hash stale = err changed
when_approved hash approved = ok hash

-- What stands outside the code: `path.Match`, the hash and whether an entry has a Dockerfile.
module _ (path_match : Text → Text → Option Bool)
    (digest : PrivilegedCommandDecl → Text → Option Text) (image_exists : Text → Bool) where
  image_problems : Text → List Problem
  image_problems image =
      if same image []
      then empty_image ∷ []
      else if not (valid_check_name image)
      then bad_image_name ∷ []
      else when (not (image_exists image)) (no_dockerfile image)

  pattern_problems : (Text → PatternError → Problem) → List Text → List Problem
  pattern_problems problem [] = []
  pattern_problems problem (p ∷ ps) = elim (validate_pattern path_match p) [
    | none ↦ pattern_problems problem ps
    | some e ↦ problem p e ∷ pattern_problems problem ps
  ]

  -- `Validate`: the problems that it lists.
  unfoldable pub validate : PrivilegedCommandDecl → List Problem
  unfolding image_problems pattern_problems is_negative
  validate d =
      when (same (trim_space d.command) []) empty_command
      ++ image_problems d.image
      ++ when (is_negative d.timeout_seconds) negative_timeout
      ++ pattern_problems bad_input d.inputs
      ++ pattern_problems bad_output d.outputs

  -- `Resolve`.
  unfoldable pub resolve : Settings → LocalSettings → Text → Result ResolveError Resolved
  unfolding approval_state
  resolve cfg local name = do
    found ← or_err undeclared (lookup name cfg.privileged_commands)
    decl ← checked found (validate found)
    computed ← or_err hash_failed (decl_hash digest decl cfg.prepare)
    hash ←
        when_approved computed
          (approval_state computed (lookup name local.privileged_commands_approved))
    ok (record {
      name = name;
      decl = decl;
      prepare = cfg.prepare;
      hash = hash;
      egress = append_new (allowed_egress cfg local) decl.egress;
    })
