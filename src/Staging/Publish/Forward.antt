-- ===== src/Staging/Publish/Forward.antt =====
-- What publishing does to the real repository (internal/staging/publish.go).
use masuda.Common.{
  ◌≡◌, refl, ap, ◌∙◌, ◌⊎◌, inl, inr, [], Option, none, some, Bool, true, false, not, Text, same,
  same_iff, lookup,
}
use masuda.Common.{ok, refuse_if, or_err, >>=-ok, refuse_if-ok, or_err-ok, not-false}
use masuda.Staging.Publish.{
  Refs, Commands, no_branch, not_fetched, moved, diverged, branch_ref, check_head, Real,
  move_branch, forwarded, publish_local,
}

check_head-ok :
    (head : Option Text) (commit : Text) {u : Unit {0}}
    → check_head head commit ≡ ok u
    → head ≡ some commit
unfolding check_head
check_head-ok head commit h =
    let (x, e1, h1) = >>=-ok (or_err no_branch head) _ h in
    or_err-ok _ _ e1 ∙ ap some ((same_iff x commit).0 (not-false _ (refuse_if-ok _ _ h1)))

module _ (g : Commands) where
  -- The refs before and after publishing a commit on a branch.
  pub record IsForward (ref commit : Text) (before after : Refs) : Type 0 where
    pub at_commit :
        (lookup ref after ≡ some commit)
        ⊎ ((after ≡ before)
            × ((tip : Text) × (lookup ref before ≡ some tip) × (g.ancestor commit tip ≡ true)))
    pub forward :
        (old : Text)
        → lookup ref before ≡ some old
        → (g.ancestor old commit ≡ true) ⊎ (after ≡ before)
    pub others : (other : Text) → same ref other ≡ false → lookup other after ≡ lookup other before

  moved-IsForward :
      (ref commit : Text) (o : Option Text) (refs after : Refs)
      → lookup ref refs ≡ o
      → move_branch g o ref commit refs ≡ ok after
      → IsForward ref commit refs after
  unfolding move_branch
  moved-IsForward ref commit none refs after e h =
      let u = or_err-ok _ _ h in
      record {
        at_commit = inl (g.update_ref_sets ref commit [] refs after u);
        forward = λ old k. cc;
        others = λ other n. g.update_ref_keeps ref commit [] refs after other u n;
      }
  moved-IsForward ref commit (some old) refs after e h =
      let (_, e1, h1) = >>=-ok (refuse_if (not (g.ancestor old commit)) diverged) _ h in
      let u = or_err-ok _ _ h1 in
      let up : g.ancestor old commit ≡ true = not-false _ (refuse_if-ok _ _ e1) in
      record {
        at_commit = inl (g.update_ref_sets ref commit old refs after u);
        forward = λ was k.
            let eq : was ≡ old = cc in inl (ap (λ (c : Text). g.ancestor c commit) eq ∙ up);
        others = λ other n. g.update_ref_keeps ref commit old refs after other u n;
      }

  merged-IsForward :
      (ref commit : Text) (refs after : Refs)
      → g.merge_ff ref commit refs ≡ some after
      → IsForward ref commit refs after
  merged-IsForward ref commit refs after h = elim (g.merge_ff_moves ref commit refs after h) [
    | inl (at, up) ↦ record {
      at_commit = inl at;
      forward = λ old k. inl (up old k);
      others = λ other n. g.merge_ff_keeps ref commit refs after other h n;
    }
    | inr (still, tip) ↦ record {
      at_commit = inr (still, tip);
      forward = λ old k. inr still;
      others = λ other n. g.merge_ff_keeps ref commit refs after other h n;
    }
  ]

  forwarded-IsForward :
      (current : Bool) (ref commit : Text) (refs after : Refs)
      → forwarded g current ref commit refs ≡ ok after
      → IsForward ref commit refs after
  unfolding forwarded
  forwarded-IsForward true ref commit refs after h =
      merged-IsForward ref commit refs after (or_err-ok _ _ h)
  forwarded-IsForward false ref commit refs after h =
      moved-IsForward ref commit (lookup ref refs) refs after refl h

  -- Publishing succeeds only with the approved commit at the head of the staging branch, before and
  -- after the fetch. It then leaves the branch of the same name at that commit, which comes behind the
  -- branch's old head, or leaves everything as it was where the branch that is checked out already
  -- has the commit; no other ref changes.
  pub publish_local-IsForward :
      (head fetched : Option Text) (branch commit : Text) (real : Real) (after : Refs)
      → publish_local g head fetched branch commit real ≡ ok after
      → (head ≡ some commit)
        × (fetched ≡ some commit)
        × IsForward (branch_ref branch) commit real.refs after
  unfolding publish_local
  publish_local-IsForward head fetched branch commit real after h =
      let (_, e1, h1) = >>=-ok (check_head head commit) _ h in
      let (f, e2, h2) = >>=-ok (or_err not_fetched fetched) _ h1 in
      let (_, e3, h3) = >>=-ok (refuse_if (not (same f commit)) moved) _ h2 in
      (
        check_head-ok head commit e1,
        or_err-ok _ _ e2 ∙ ap some ((same_iff f commit).0 (not-false _ (refuse_if-ok _ _ e3))),
        forwarded-IsForward _ (branch_ref branch) commit real.refs after h3,
      )
