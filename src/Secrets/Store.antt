-- ===== src/Secrets/Store.antt =====
-- What is read back from the store of secrets (internal/secrets/secrets.go).
use masuda.Common.{
  ◌≡◌, ◌≢◌, refl, ◌∙◌, ◌⊎◌, inl, inr, ◌∷◌, ◌++◌, Option, some, true, false, not, Bool-cases, Text,
  same, differs, same_refl, subst, insert, lookup-insert,
}
use masuda.Common.{ok, refuse_if, >>=-ok, refuse_if-ok, not-false, ok_inj}
use masuda.Config.Names.{valid_name, valid_name-slash}
use masuda.Common.Trim.{last_slash}
use masuda.Secrets.{bad_name, io_error, fails, Files, SetStep, dir_of, secret_path, set, get_secret}

module _ (data_dir : Text) (repo_hash : Text → Text) where
  path-ok :
      (repo name : Text) {p : Text}
      → secret_path data_dir repo_hash repo name ≡ ok p
      → (valid_name name ≡ true) × (dir_of data_dir repo_hash repo ++ b'/' ∷ name ≡ p)
  unfolding secret_path
  path-ok repo name h =
      let (_, e1, h1) = >>=-ok (refuse_if (not (valid_name name)) bad_name) _ h in
      (not-false _ (refuse_if-ok _ _ e1), ok_inj h1)

  -- What reads give after a `Set` that succeeded.
  pub record IsStored (repo name value : Text) (before after : Files) : Type 0 where
    pub read_back : get_secret data_dir repo_hash repo name after ≡ ok (some value)
    pub others_kept :
        (repo' name' : Text)
        → (dir_of data_dir repo_hash repo ≢ dir_of data_dir repo_hash repo') ⊎ (name ≢ name')
        → get_secret data_dir repo_hash repo' name' after
          ≡ get_secret data_dir repo_hash repo' name' before

  get_secret-insert :
      (p repo name value : Text) (files : Files)
      → (valid_name name ≡ true → same p (dir_of data_dir repo_hash repo ++ b'/' ∷ name) ≡ false)
      → get_secret data_dir repo_hash repo name (insert p value files)
        ≡ get_secret data_dir repo_hash repo name files
  unfolding get_secret secret_path
  get_secret-insert p repo name value files h = elim (Bool-cases (valid_name name)) [
    | inr e ↦ rw e refl
    | inl e ↦
        let other = h e in
        rw (e, lookup-insert p (dir_of data_dir repo_hash repo ++ b'/' ∷ name) value files, other)
          refl
  ]

  -- A value that was set is read back, and no other secret changes: neither another name's nor
  -- another repository's, nor one of the user, however the paths are built.
  pub set-IsStored :
      (fault : Option SetStep) (repo name value : Text) (files after : Files)
      → set data_dir repo_hash fault repo name value files ≡ ok after
      → IsStored repo name value files after
  unfolding set get_secret
  set-IsStored fault repo name value files after h =
      let (p, e1, h1) = >>=-ok (secret_path data_dir repo_hash repo name) _ h in
      let (_, e2, h2) = >>=-ok (refuse_if (fails fault) io_error) _ h1 in
      subst (IsStored repo name value files) (ok_inj h2) (stored p e1)
    where
      apart :
          (repo' name' : Text)
          → (dir_of data_dir repo_hash repo ≢ dir_of data_dir repo_hash repo') ⊎ (name ≢ name')
          → valid_name name ≡ true
          → valid_name name' ≡ true
          → dir_of data_dir repo_hash repo ++ b'/' ∷ name
            ≢ dir_of data_dir repo_hash repo' ++ b'/' ∷ name'
      apart repo' name' d v v' e =
          let (x, y) =
            last_slash _ _ name name' (valid_name-slash name v) (valid_name-slash name' v') e in
          elim d [ inl k ↦ k x | inr k ↦ k y ]

      stored :
          (p : Text)
          → secret_path data_dir repo_hash repo name ≡ ok p
          → IsStored repo name value files (insert p value files)
      stored p e = record {
        read_back = rw (e, lookup-insert p p value files, same_refl p) refl;
        others_kept = λ repo' name' d.
            let (v, eq) = path-ok repo name e in
            get_secret-insert p repo' name' value files
              λ v'. differs p _ λ k. apart repo' name' d v v' (eq ∙ k);
      }
