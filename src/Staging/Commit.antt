-- ===== src/Staging/Commit.antt =====
-- internal/staging/commit.go: which changes of the work tree reach the branch. Git and doublestar
-- are outside: `Git` has the git commands that the code runs, with what their manual says of them;
-- `glob` is `doublestar.Match`, with `none` for its error. Git commands that fail are left out, but
-- for `update-ref`, and so is the order of the paths.
pub mod Overlay
use masuda.Common.{
  ◌≡◌, ◌≢◌, ◌↔◌, List, [], ◌∷◌, ◌++◌, Option, none, some, Bool, true, false, not, ◌&&◌, ◌||◌,
  if◌then◌else◌, ◌==◌, ◌∈◌, keep, map, Text, same, lookup, contains, has_prefix,
}

-- Whether one of two paths would be a directory of the other.
unfoldable pub conflicts : Text → Text → Bool
conflicts p q = has_prefix p (q ++ b'/' ∷ []) || has_prefix q (p ++ b'/' ∷ [])

-- A tree gives each path its entry, the mode and the blob, where the path is there.
pub record Git : Type 1 where
  pub Tree : Type 0
  pub Entry : Type 0
  pub Commit : Type 0
  pub entry : Tree → Text → Option Entry
  -- `git diff-tree -r --name-only`: the paths at which two trees differ.
  pub diff_tree : Tree → Tree → List Text
  pub diff_tree_sound : (a b : Tree) (p : Text) → p ∈ diff_tree a b → entry a p ≢ entry b p
  pub diff_tree_complete : (a b : Tree) (p : Text) → ¬ (p ∈ diff_tree a b) → entry a p ≡ entry b p
  -- `git ls-tree -r` of some paths: the entries of those that are there.
  pub ls_tree : Tree → List Text → List (Text × Entry)
  pub lookup-ls_tree :
      (t : Tree) (ps : List Text) (p : Text) → p ∈ ps → lookup p (ls_tree t ps) ≡ entry t p
  -- No path is a directory of another one.
  pub tree_apart :
      (t : Tree) (p q : Text) {x y : Entry}
      → entry t p ≡ some x
      → entry t q ≡ some y
      → conflicts p q ≡ false
  -- `git read-tree`, `update-index --index-info` and `write-tree`: the tree with each listed path set
  -- to its entry, or taken out. An entry that is set replaces what is in the way of its path.
  pub update_index : Tree → List (Text × Option Entry) → Tree
  pub update_index_sets :
      (t : Tree) (f : Text → Option Entry) (ps : List Text) (p : Text)
      → ((q : Text) (e : Entry) → q ∈ ps → f q ≡ some e → conflicts p q ≡ false)
      → entry (update_index t (map (λ q. (q, f q)) ps)) p
        ≡ (if contains ps p then f p else entry t p)
  pub update_index_none :
      (t : Tree) (f : Text → Option Entry) (ps : List Text) (p : Text)
      → (if contains ps p then f p else entry t p) ≡ none
      → entry (update_index t (map (λ q. (q, f q)) ps)) p ≡ none
  pub update_index_replaces :
      (t : Tree) (f : Text → Option Entry) (ps : List Text) (p q : Text) (e : Entry)
      → contains ps p ≡ false
      → q ∈ ps
      → f q ≡ some e
      → conflicts p q ≡ true
      → entry (update_index t (map (λ q. (q, f q)) ps)) p ≡ none
  pub tree_of : Commit → Tree
  -- `git commit-tree`.
  pub commit_tree : Tree → Commit → Text → Commit
  pub tree_of-commit_tree :
      (t : Tree) (parent : Commit) (message : Text) → tree_of (commit_tree t parent message) ≡ t
  -- The comparison that `git update-ref` makes with the old value.
  pub same_commit : Commit → Commit → Bool
  pub same_commit_iff : (a b : Commit) → (same_commit a b ≡ true) ↔ (a ≡ b)

-- `CommitOptions`, but for the branch, the tree and the author.
pub record CommitOptions : Type 0 where
  pub allowed : List Text
  pub byproducts : List Text
  pub message : Text

-- `matchPath`.
unfoldable pub match_path : (Text → Text → Option Bool) → Text → List Text → Bool
match_path glob p [] = false
match_path glob p (pat ∷ pats) =
    same pat p || (elim (glob pat p) [ none ↦ false | some b ↦ b ]) || match_path glob p pats

ends_in_newline : Text → Bool
ends_in_newline [] = false
ends_in_newline (c ∷ []) = c == 10
ends_in_newline (c ∷ d ∷ s) = ends_in_newline (d ∷ s)

-- What `Commit` returns: the deviations, the old head, the new one, or the failure of `update-ref`.
pub data CommitResult (Commit : Type 0) : Type 0 where
  deviations : List Text → CommitResult Commit
  unchanged : CommitResult Commit
  committed : Commit → CommitResult Commit
  ref_moved : CommitResult Commit

module _ (glob : Text → Text → Option Bool) (g : Git) where
  open g use {
    Tree, Entry, Commit, diff_tree, ls_tree, update_index, tree_of, commit_tree, same_commit,
  }

  -- The switch over the changed paths: what is taken, and what deviates.
  unfoldable pub taken : CommitOptions → List Text → List Text
  taken o = keep (λ p. match_path glob p o.allowed)

  unfoldable pub deviating : CommitOptions → List Text → List Text
  deviating o =
      keep (λ p. not (match_path glob p o.allowed) && not (match_path glob p o.byproducts))

  -- `overlayTree`: each path gets its entry in the source tree, or is taken out.
  unfoldable pub overlay_tree : Tree → Tree → List Text → Tree
  overlay_tree base source paths =
      let present = ls_tree source paths in
      update_index base (map (λ p. (p, lookup p present)) paths)

  -- `git update-ref <branch> <commit> <head>` on what the branch then is.
  update_ref : Commit → Commit → Commit → CommitResult Commit × Commit
  update_ref new head branch =
      if same_commit branch head then (committed new, new) else (ref_moved, branch)

  abbrev write_commit :
      CommitOptions → Commit → Tree → Commit → List Text → CommitResult Commit × Commit
  write_commit o head wip branch [] = (unchanged, branch)
  write_commit o head wip branch (p ∷ ps) =
      update_ref
        (commit_tree (overlay_tree (tree_of head) wip (p ∷ ps)) head
          (if ends_in_newline o.message then o.message else o.message ++ 10 ∷ []))
        head branch

  abbrev commit_unless :
      CommitOptions → Commit → Tree → Commit → List Text → List Text → CommitResult Commit × Commit
  commit_unless o head wip branch (d ∷ ds) changed = (deviations (d ∷ ds), branch)
  commit_unless o head wip branch [] changed = write_commit o head wip branch (taken o changed)

  -- `Commit`: the head that was read, the tree of the work tree, and the branch as it is when the ref
  -- is moved; the result and the branch afterwards.
  unfoldable pub commit : CommitOptions → Commit → Tree → Commit → CommitResult Commit × Commit
  unfolding update_ref ends_in_newline
  commit o head wip branch =
      let changed = diff_tree (tree_of head) wip in
      commit_unless o head wip branch (deviating o changed) changed
