-- ===== src/Secrets.antt =====
-- internal/secrets/secrets.go: the store of secret values on the host. The files under the data
-- directory are the list of their paths and contents; the hash of a repository's path is outside.
pub mod Store
use masuda.Common.{
  List, [], ◌∷◌, ◌++◌, Option, none, some, Bool, true, false, ◌&&◌, not, if◌then◌else◌, Text, codes,
  same, trim_space, lookup, insert,
}
use masuda.Common.{Result, ok, err, ◌>>=◌, ◌>>◌, refuse_if, or_err}
use masuda.Config.Names.{valid_name}

pub data StoreError : Type 0 where
  bad_name io_error : StoreError

-- The steps of `Set` on the file system, of which one may fail.
pub data SetStep : Type 0 where
  make_dir tighten_dir create_temp tighten_temp write_temp close_temp rename_temp : SetStep

abbrev pub Files : Type 0
Files = List (Text × Text)

abbrev slash : Text
slash = b'/' ∷ []

-- `UserScope`.
abbrev pub user_scope : Text
user_scope = codes "_user"

abbrev legacy_token_file : Text
legacy_token_file = codes "claude-oauth-token"

unfoldable pub fails : Option SetStep → Bool
fails none = false
fails (some s) = true

-- The data directory, a clean path, and `RepoHash`.
module _ (data_dir : Text) (repo_hash : Text → Text) where
  scope_of : Text → Text
  scope_of repo = if same repo [] then user_scope else repo_hash repo

  -- `Dir`.
  unfoldable pub dir_of : Text → Text
  unfolding scope_of
  dir_of repo = data_dir ++ (codes "/secrets/" ++ scope_of repo)

  -- `path`.
  unfoldable pub secret_path : Text → Text → Result StoreError Text
  secret_path repo name = do
    refuse_if (not (valid_name name)) bad_name
    ok (dir_of repo ++ (slash ++ name))

  -- `Set`: the files after it. The name appears by the rename at the end; a step that fails leaves
  -- the files as they were, since the temporary file is removed.
  unfoldable pub set : Option SetStep → Text → Text → Text → Files → Result StoreError Files
  unfolding fails
  set fault repo name value files = do
    p ← secret_path repo name
    refuse_if (fails fault) io_error
    ok (insert p value files)

  -- `Get`, where every file that is there can be read.
  unfoldable pub get_secret : Text → Text → Files → Result StoreError (Option Text)
  get_secret repo name files = do p ← secret_path repo name; ok (lookup p files)

  -- `Has`.
  unfoldable pub has : Text → Text → Files → Bool
  has repo name files = elim (get_secret repo name files) [
    | err e ↦ false
    | ok none ↦ false
    | ok (some v) ↦ true
  ]

  not_empty : Text → Option Text
  not_empty v = if same v [] then none else some v

  token_of : Option Text → Option Text
  unfolding not_empty
  token_of none = none
  token_of (some v) = not_empty (trim_space v)

  -- The second place, the user's own, is read where the first has no value and is another one.
  unfoldable pub in_user_scope : Option Text → Text → Text → Files → Result StoreError (Option Text)
  in_user_scope (some v) repo name files = ok (some v)
  in_user_scope none repo name files = if same repo [] then ok none else get_secret [] name files

  or_legacy : Option Text → Files → Option Text
  or_legacy (some v) files = some v
  or_legacy none files = lookup (data_dir ++ (slash ++ legacy_token_file)) files

  -- `ClaudeToken`; `none` where there is no token, or only an empty one.
  unfoldable pub claude_token : Text → Text → Files → Result StoreError (Option Text)
  unfolding token_of or_legacy
  claude_token repo name files = do
    own ← get_secret repo name files
    v ← in_user_scope own repo name files
    ok (token_of (or_legacy v files))
