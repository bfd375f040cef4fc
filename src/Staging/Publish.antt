-- ===== src/Staging/Publish.antt =====
-- internal/staging/publish.go: `CheckHead`, `PublishLocal`, `PushRemote` and `RemoteURL`. Git is outside:
-- `Commands` has the commands that run in the real repository, with what their manual says of them.
-- A repository is the list of its refs and commits.
pub mod Forward
use masuda.Common.{
  ◌≡◌, ◌≢◌, ◌⊎◌, List, [], ◌∷◌, ◌++◌, Option, none, some, Bool, true, false, ◌||◌, not,
  if◌then◌else◌, Text, codes, same, has_prefix, lookup, trim_space,
}
use masuda.Common.{Result, ok, err, ◌>>=◌, ◌>>◌, refuse_if, or_err}

abbrev pub Refs : Type 0
Refs = List (Text × Text)

-- `merge --ff-only` moves the branch that is checked out to the commit, if it comes behind the old
-- head, or does nothing if it is part of it; `merge-base --is-ancestor`; and `update-ref` with the old
-- value, empty for none.
pub record Commands : Type 0 where
  pub ancestor : Text → Text → Bool
  pub merge_ff : Text → Text → Refs → Option Refs
  pub merge_ff_moves :
      (ref commit : Text) (refs after : Refs)
      → merge_ff ref commit refs ≡ some after
      → ((lookup ref after ≡ some commit)
          × ((old : Text) → lookup ref refs ≡ some old → ancestor old commit ≡ true))
        ⊎ ((after ≡ refs)
            × ((tip : Text) × (lookup ref refs ≡ some tip) × (ancestor commit tip ≡ true)))
  pub merge_ff_keeps :
      (ref commit : Text) (refs after : Refs) (other : Text)
      → merge_ff ref commit refs ≡ some after
      → same ref other ≡ false
      → lookup other after ≡ lookup other refs
  pub update_ref : Text → Text → Text → Refs → Option Refs
  pub update_ref_sets :
      (ref commit old : Text) (refs after : Refs)
      → update_ref ref commit old refs ≡ some after
      → lookup ref after ≡ some commit
  pub update_ref_keeps :
      (ref commit old : Text) (refs after : Refs) (other : Text)
      → update_ref ref commit old refs ≡ some after
      → same ref other ≡ false
      → lookup other after ≡ lookup other refs

pub data PublishError : Type 0 where
  no_branch not_approved not_fetched moved not_merged diverged not_updated bad_remote not_pushed :
      PublishError

-- `BranchRef`.
unfoldable pub branch_ref : Text → Text
branch_ref branch = codes "refs/heads/" ++ branch

-- `CheckHead`, from the head of the staging branch.
unfoldable pub check_head : Option Text → Text → Result PublishError (Unit {0})
check_head head commit = do h ← or_err no_branch head; refuse_if (not (same h commit)) not_approved

-- What the real repository holds: its refs, the short name of the branch that is checked out (empty
-- where `symbolic-ref` fails), and how `rev-parse` resolves the ref of a branch.
pub record Real : Type 0 where
  pub refs : Refs
  pub current : Text

module _ (g : Commands) where
  open g use {ancestor, merge_ff, update_ref}

  -- The end of `PublishLocal` on a branch that is not checked out, by its old head.
  unfoldable pub move_branch : Option Text → Text → Text → Refs → Result PublishError Refs
  move_branch none ref commit refs = or_err not_updated (update_ref ref commit [] refs)
  move_branch (some old) ref commit refs = do
    refuse_if (not (ancestor old commit)) diverged
    or_err not_updated (update_ref ref commit old refs)

  unfoldable pub forwarded : Bool → Text → Text → Refs → Result PublishError Refs
  forwarded true ref commit refs = or_err not_merged (merge_ff ref commit refs)
  forwarded false ref commit refs = move_branch (lookup ref refs) ref commit refs

  -- `PublishLocal`: the refs of the real repository after it; `fetched` is what `FETCH_HEAD` then
  -- resolves to. An error leaves the refs as they were.
  unfoldable pub publish_local :
      Option Text → Option Text → Text → Text → Real → Result PublishError Refs
  publish_local head fetched branch commit real = do
    check_head head commit
    f ← or_err not_fetched fetched
    refuse_if (not (same f commit)) moved
    forwarded (same (trim_space real.current) branch) (branch_ref branch) commit real.refs

-- `PushRemote`: the commit and the ref that are pushed; `pushed` where git succeeds.
unfoldable pub push_remote :
    Option Text → Bool → Text → Text → Text → Result PublishError (Text × Text)
push_remote head pushed url branch commit = do
  check_head head commit
  refuse_if (same url [] || has_prefix url (codes "-")) bad_remote
  refuse_if (not pushed) not_pushed
  ok (commit, branch_ref branch)

-- `RemoteURL`, from what git prints.
unfoldable pub remote_url : Text → Option Text → Result PublishError Text
remote_url name printed = do
  refuse_if (same name [] || has_prefix name (codes "-")) bad_remote
  out ← or_err not_fetched printed
  ok (trim_space out)
