-- ===== src/Serve/Gates.antt =====
-- serve/gates.go and serve/run.go: `GateService.Decide`, with `runCtl.decide` behind it. The engine
-- is outside: its names are the record `EngineNames`, its answer to `Decide` the parameter `engine`.
pub mod Safety
use masuda.Common.{
  ℕ, List, [], ◌∷◌, Option, none, some, Bool, true, false, ◌&&◌, not, if◌then◌else◌, Text, codes,
  same, contains,
}
use masuda.Workspace.Records.{GateRecord, DecisionRecord, latest_gate, save_gate}
use masuda.Serve.Feedback.{reject_feedback}
use masuda.Workspace.Comments.{Comment}
use masuda.Common.{ok, err, ◌>>=◌, ◌>>◌, refuse_if, or_err}
use masuda.Serve.Result.{
  EngineReply, accepted, not_implemented, refused, Code, invalid_argument, not_found,
  failed_precondition, internal, Reply,
}

-- The constants of the engine package.
pub record EngineNames : Type 0 where
  pub gate_triage : Text
  pub outcome_approved : Text
  pub outcome_rejected : Text

-- `engine.Decision`.
pub record Decision : Type 0 where
  pub outcome : Text
  pub comment : Text
  pub target_hash : Text
  pub approved_files : List Text

-- What the service finds of the workspace: its gates, the comments of a commit, and whether a run
-- is there to take the decision.
pub record Found : Type 0 where
  pub dir : List GateRecord
  pub comments : Text → List Comment
  pub running : Bool

is_decided : GateRecord → Bool
is_decided g = elim g.decision [ none ↦ false | some d ↦ true ]

abbrev pub code_of : EngineReply → Reply (Unit {0})
code_of accepted = ok tt
code_of refused = err failed_precondition
code_of not_implemented = err internal

module _ (names : EngineNames) where
  open names use {gate_triage, outcome_approved, outcome_rejected}

  -- `gateOutcomes`.
  unfoldable pub gate_outcomes : Text → List Text
  gate_outcomes gate =
      if same gate gate_triage
      then codes "dismiss" ∷ codes "halt" ∷ codes "redo" ∷ []
      else outcome_approved ∷ outcome_rejected ∷ []

  -- The decision that goes to the engine: a rejection carries the comments on the diff.
  unfoldable pub to_engine : (Text → List Comment) → GateRecord → Decision → Decision
  to_engine comments g d =
      if same d.outcome outcome_rejected && not (same g.staging_commit [])
      then record d { comment = reject_feedback d.comment (comments g.staging_commit) }
      else d

  -- The record with the decision as the human sent it.
  unfoldable pub decided : ℕ → Decision → GateRecord → GateRecord
  decided now d g = record g {
    decision = some (record {
      outcome = d.outcome;
      comment = d.comment;
      target_hash = d.target_hash;
      approved_files = d.approved_files;
      decided_at = now;
    });
  }

  -- `Decide`: the record that is returned and the directory of gates after it. An error leaves the
  -- directory as it was.
  unfoldable pub decide :
      (engine : Text → Decision → EngineReply) (now : ℕ) (workspace : Option Found)
      (occurrence : Text) (request : Option Decision)
      → Reply (GateRecord × List GateRecord)
  unfolding is_decided
  decide engine now workspace occurrence request = do
    d ← or_err invalid_argument request
    refuse_if (same d.outcome []) invalid_argument
    w ← or_err not_found workspace
    g ← or_err not_found (latest_gate occurrence w.dir)
    refuse_if (is_decided g) failed_precondition
    refuse_if (not (contains (gate_outcomes g.gate) d.outcome)) invalid_argument
    refuse_if (same d.outcome outcome_approved && not (same d.target_hash g.target_hash))
        failed_precondition
    refuse_if (not w.running) failed_precondition
    code_of (engine g.occurrence (to_engine w.comments g d))
    dir ← or_err internal (save_gate (decided now d g) w.dir)
    ok (decided now d g, dir)
