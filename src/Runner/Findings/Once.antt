-- ===== src/Runner/Findings/Once.antt =====
-- Each finding becomes one comment on its commit (internal/runner/runner.go, `importFindings`).
use masuda.Common.{
  Option, ◌≡◌, ◌≢◌, ◌⊎◌, List, [], ◌∷◌, ◌++◌, ◌&&◌, not, Bool, ◌∈◌, Distinct, Text, same,
  if◌then◌else◌,
}
use masuda.Workspace.Comments.{Comment}
use masuda.Runner.Findings.{Finding}

-- A comment on the commit that a finding was made into.
abbrev is_finding : Text → Comment → Bool
is_finding commit c = same c.commit commit && not (same c.finding_id [])

-- The findings that the comments on a commit were made of.
unfoldable pub ids : Text → List Comment → List Text
ids commit [] = []
ids commit (c ∷ cs) = if is_finding commit c then c.finding_id ∷ ids commit cs else ids commit cs

module _ (who : Text → Option Text) (fill : Comment → Comment) where
  -- The finding and the commit stay as a comment is filled in.
  abbrev pub KeepsOrigin : Type 0
  KeepsOrigin = (c : Comment) → ((fill c).finding_id ≡ c.finding_id) × ((fill c).commit ≡ c.commit)

  -- The comments that are added for some findings.
  record IsAdded (commit : Text) (fs : List Finding) (old : List Text) (new : List Comment)
      : Type 0 where
    unseen : (id : Text) → id ∈ ids commit new → ¬ (id ∈ old)
    once : Distinct (ids commit new)
    all : (f : Finding) → f ∈ fs → f.id ≢ [] → (f.id ∈ old) ⊎ (f.id ∈ ids commit new)
    on : (c : Comment) → c ∈ new → c.commit ≡ commit

  -- All comments before and after an import of findings on a commit: those before stay, what is new
  -- is on the commit, and each finding that has an id has one comment there.
  pub record IsImported (commit : Text) (fs : List Finding) (before after : List Comment)
      : Type 0 where
    pub new : List Comment
    pub appended : after ≡ before ++ new
    pub on_commit : (c : Comment) → c ∈ new → c.commit ≡ commit
    pub all : (f : Finding) → f ∈ fs → f.id ≢ [] → f.id ∈ ids commit after
    pub once : Distinct (ids commit after)
