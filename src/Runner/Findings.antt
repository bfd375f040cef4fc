-- ===== src/Runner/Findings.antt =====
-- internal/runner/runner.go: `importFindings`, `OpenGate`, `OpenQuestion` and the committed steps. The
-- findings are as they were decoded; comments are all that there are, in their order.
pub mod Once
use masuda.Common.{
  keep, ℕ, List, [], ◌∷◌, ◌++◌, Option, none, some, Bool, true, false, ◌&&◌, ◌||◌, not,
  if◌then◌else◌, Text, codes, same, contains,
}
use masuda.Workspace.Comments.{Comment, of_commit}
use masuda.Workspace.Records.{GateRecord, add_gate}
use masuda.Workspace.Questions.{QuestionItem, QuestionRecord, add_question}

pub record Finding : Type 0 where
  pub id : Text
  pub file : Text
  pub line : ℕ
  pub severity : Text
  pub message : Text
  pub suggestion : Text

-- The keys of the map `seen`, from the comments that are there.
unfoldable pub seen : List Comment → List Text
seen [] = []
seen (c ∷ cs) = if same c.finding_id [] then seen cs else c.finding_id ∷ seen cs

author_of : Option Text → Text
author_of none = codes "reviewer"
author_of (some who) = who

-- `engine.GateRequest`.
pub record GateRequest : Type 0 where
  pub occurrence : Text
  pub gate : Text
  pub target : Text
  pub target_hash : Text
  pub subject : Text

opened : ℕ → GateRequest → Text → GateRecord
opened now g commit = record {
  occurrence = g.occurrence;
  seq = 0;
  gate = g.gate;
  target = g.target;
  target_hash = g.target_hash;
  subject = g.subject;
  staging_commit = commit;
  opened_at = now;
  decision = none;
}

-- `who` gives the group of `findingIDPattern`, and `fill` what `AddComment` fills in.
module _ (who : Text → Option Text) (fill : Comment → Comment) where
  -- The comment of a finding on a commit.
  unfoldable pub comment_of : Text → Finding → Comment
  unfolding author_of
  comment_of commit f = record {
    id = [];
    commit = commit;
    path = f.file;
    line = f.line;
    author = author_of (who f.id);
    body =
        if same f.suggestion [] then f.message else f.message ++ codes "\n\n提案: " ++ f.suggestion;
    severity = f.severity;
    time = 0;
    finding_id = f.id;
  }

  -- The loop of `importFindings`: the comments that it adds; `ids` are the keys of `seen`.
  unfoldable pub import_from : Text → List Finding → List Text → List Comment
  import_from commit [] ids = []
  import_from commit (f ∷ fs) ids =
      let passed_over = import_from commit fs ids in
      let taken = import_from commit fs (f.id ∷ ids) in
      if same f.id [] || contains ids f.id then passed_over else fill (comment_of commit f) ∷ taken

  -- `importFindings`: all comments after it. With no data there is nothing to do.
  unfoldable pub import_findings : Text → Option (List Finding) → List Comment → List Comment
  import_findings commit none cs = cs
  import_findings commit (some fs) cs =
      cs ++ import_from commit fs (seen (keep (of_commit commit) cs))

  -- `OpenGate` where git gives the commit that the target stands for: the comments of that commit and,
  -- unless the occurrence is refused, the gates after it.
  unfoldable pub open_gate :
      ℕ
      → GateRequest
      → Option Text
      → Option (List Finding)
      → List Comment
      → List GateRecord
      → List Comment × Option (GateRecord × List GateRecord)
  unfolding opened
  open_gate now g none fs cs dir = (cs, add_gate (opened now g []) dir)
  open_gate now g (some commit) fs cs dir =
      if same commit []
      then (cs, add_gate (opened now g commit) dir)
      else (import_findings commit fs cs, add_gate (opened now g commit) dir)

-- `OpenQuestion`.
unfoldable pub open_question :
    ℕ
    → Text
    → List QuestionItem
    → List QuestionRecord
    → Option (QuestionRecord × List QuestionRecord)
open_question now occ items dir =
    add_question
      (record {
        occurrence = occ;
        seq = 0;
        questions = items;
        opened_at = now;
        answers = none;
        answered_at = none;
        by_role = false;
        discarded_at = none;
      })
      dir
