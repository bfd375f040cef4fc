-- ===== src/Staging/Commit/Overlay.antt =====
-- What a commit holds, and when the branch moves (internal/staging/commit.go).
use masuda.Common.{
  ◌≡◌, ◌≢◌, refl, subst, ◌↔◌, ◌⊎◌, inl, inr, List, [], ◌∷◌, Option, none, some, Bool, true, false,
  not, ◌&&◌, arith, ◌∈◌, mem-keep, keep-mem, Bool-cases, Text, contains, contains_iff, lookup,
}
use masuda.Staging.Commit.{
  conflicts, Git, CommitOptions, match_path, CommitResult, taken, deviating, overlay_tree,
  update_ref, write_commit, commit_unless, commit,
}

not_in : (xs : List Text) (p : Text) → contains xs p ≡ false → ¬ (p ∈ xs)
not_in xs p h m = let t = (contains_iff xs p).1 m in absurd (cc)

both_not : (a b : Bool) → (not a && not b) ≡ true → (a ≡ false) × (b ≡ false)
both_not a b h = ground arith

module _ (glob : Text → Text → Option Bool) (g : Git) where
  open g use {Tree, Commit, entry, diff_tree, ls_tree, tree_of, commit_tree, update_index}

  listed : Tree → List Text → Text → Option g.Entry
  listed source ps q = lookup q (ls_tree source ps)

  -- The tree that is committed.
  abbrev overlaid : CommitOptions → Tree → Tree → Tree
  overlaid o base wip = overlay_tree glob g base wip (taken glob g o (diff_tree base wip))

  -- A commit that was made: its parts relate the head, the work tree and the branch after it.
  pub record Committed (o : CommitOptions) (head : Commit) (wip : Tree) (branch c b' : Commit)
      : Type 0 where
    pub still_there : branch ≡ head
    pub moved : b' ≡ c
    pub holds : (p : Text) → match_path glob p o.allowed ≡ true → entry (tree_of c) p ≡ entry wip p
    pub keeps :
        (p : Text)
        → match_path glob p o.allowed ≡ false
        → ((q : Text) (y : g.Entry)
            → match_path glob q o.allowed ≡ true
            → entry wip q ≡ some y
            → conflicts p q ≡ false)
        → entry (tree_of c) p ≡ entry (tree_of head) p
    pub replaces :
        (p q : Text) (y : g.Entry)
        → match_path glob p o.allowed ≡ false
        → match_path glob q o.allowed ≡ true
        → entry wip q ≡ some y
        → conflicts p q ≡ true
        → entry (tree_of c) p ≡ none
    pub covered :
        (p : Text)
        → entry (tree_of head) p ≢ entry wip p
        → (match_path glob p o.allowed ≡ true) ⊎ (match_path glob p o.byproducts ≡ true)

  -- The paths that `commit` reports as deviations.
  abbrev pub Deviates : CommitOptions → Tree → Tree → Text → Type 0
  Deviates o base wip p =
      (entry base p ≢ entry wip p)
      × (match_path glob p o.allowed ≡ false)
      × (match_path glob p o.byproducts ≡ false)

  deviating_iff :
      (o : CommitOptions) (base wip : Tree) (p : Text)
      → (p ∈ deviating glob g o (diff_tree base wip)) ↔ Deviates o base wip p
  unfolding deviating
  deviating_iff o base wip p = (
    λ m.
        let (k, t) = mem-keep _ p (diff_tree base wip) m in
        let (a, b) = both_not (match_path glob p o.allowed) (match_path glob p o.byproducts) t in
        (g.diff_tree_sound base wip p k, a, b),
    λ (ne, a, b). elim (Bool-cases (contains (diff_tree base wip) p)) [
      | inl d ↦ keep-mem _ p (diff_tree base wip) ((contains_iff _ p).0 d) (rw a (rw b refl))
      | inr d ↦ absurd (ne (g.diff_tree_complete base wip p (not_in (diff_tree base wip) p d)))
    ],
  )

  write_commit-not_deviations :
      (o : CommitOptions) (head : Commit) (wip : Tree) (branch : Commit) (ps ds : List Text)
      {b' : Commit}
      → ¬ (write_commit glob g o head wip branch ps ≡ (CommitResult.deviations ds, b'))
  unfolding update_ref
  write_commit-not_deviations o head wip branch [] ds h = cc
  write_commit-not_deviations o head wip branch (p ∷ ps) ds h =
      elim (Bool-cases (g.same_commit branch head)) [
        | inl t ↦ cc (rw t at h)
        | inr t ↦ cc (rw t at h)
      ]

  commit_unless-deviations :
      (o : CommitOptions) (head : Commit) (wip : Tree) (branch : Commit) (es changed ds : List Text)
      {b' : Commit}
      → commit_unless glob g o head wip branch es changed ≡ (CommitResult.deviations ds, b')
      → (b' ≡ branch) × (es ≡ ds)
  commit_unless-deviations o head wip branch [] changed ds h =
      absurd (write_commit-not_deviations o head wip branch (taken glob g o changed) ds h)
  commit_unless-deviations o head wip branch (e ∷ es) changed ds h = (cc, cc)

  -- A commit that reports deviations leaves the branch where it is, and reports exactly the paths at
  -- which the work tree differs from the head and that are neither allowed nor byproducts.
  pub commit-deviations :
      (o : CommitOptions) (head : Commit) (wip : Tree) (branch b' : Commit) (ds : List Text)
      → commit glob g o head wip branch ≡ (CommitResult.deviations ds, b')
      → (b' ≡ branch) × ((p : Text) → (p ∈ ds) ↔ Deviates o (tree_of head) wip p)
  unfolding commit
  commit-deviations o head wip branch b' ds h =
      let (e, k) = commit_unless-deviations o head wip branch _ _ ds h in
      (
        e,
        λ p.
            subst (λ (es : List Text). (p ∈ es) ↔ Deviates o (tree_of head) wip p) k
              (deviating_iff o (tree_of head) wip p),
      )
