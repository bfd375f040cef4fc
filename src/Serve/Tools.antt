-- ===== src/Serve/Tools.antt =====
-- serve/run.go: the tools of the agent. `WriteOutput`, `ReportResult` with `waitingAgent`, `NextTask` from
-- the end of a run of `advance` on, `recordSubagent` and `continuesOf`. The engine and the checks of its
-- schemas are outside; the texts of refusals are their kinds.
pub mod Report
pub mod Continue
use masuda.Common.{
  List, [], ◌∷◌, ◌++◌, Option, none, some, Bool, true, false, not, if◌then◌else◌, Text, codes, same,
  contains, insert, trim_space,
}
use masuda.Common.{Result, ok, err, ◌>>=◌, ◌>>◌, refuse_if, or_err}
use masuda.Config.Names.{valid_occurrence}
use masuda.Serve.Reflect.{
  Names, Status, StatusKind, agent, at_gate, at_question, done, is_blocked, other, position_of,
}
use masuda.Runner.Data.{DataError, Files, check_occ, read_output, write_output}

-- `engine.AgentTask`, the fields that the code reads.
pub record Task : Type 0 where
  pub role : Text
  pub outputs : List Text
  pub continues : Text

-- What the engine's `Status` gives: its error, or the status with the task that it waits for.
pub record Awaited : Type 0 where
  pub status : Status
  pub task : Task

-- Why a tool refuses what the agent hands in; such an answer is no error of the call.
pub data Refusal : Type 0 where
  no_status not_awaited not_an_output : Refusal
  bad_content : List Text → Refusal
  not_written_yet : List Text → Refusal
  no_feedback refused_by_engine : Refusal

-- The answer of a tool: accepted, refused, or the call fails.
pub data Answer : Type 0 where
  taken : Answer
  turned_down : Refusal → Answer
  failed : DataError → Answer

-- What the host keeps for the tools: the files of the guest's outputs, those of the feedback by
-- occurrence, and the last feedback that was accepted.
pub record Desk : Type 0 where
  pub guest : Files
  pub feedback : List (Text × Text)
  pub end_feedback : Text

is_agent : StatusKind → Bool
is_agent agent = true
is_agent at_gate = false
is_agent at_question = false
is_agent done = false
is_agent is_blocked = false
is_agent (other k) = false

-- `waitingAgent`.
unfoldable pub waiting_agent : Option Awaited → Text → Result Refusal Task
unfolding is_agent
waiting_agent none occ = err no_status
waiting_agent (some a) occ = do
  refuse_if (not (is_agent a.status.kind)) not_awaited
  refuse_if (not (same a.status.occurrence occ)) not_awaited
  ok a.task

put_output : Result DataError Files → Desk → Answer × Desk
put_output (err e) desk = (failed e, desk)
put_output (ok guest) desk = (taken, record desk { guest = guest })

problems_or : List Text → Result Refusal (Unit {0})
problems_or [] = ok tt
problems_or (p ∷ ps) = err (bad_content (p ∷ ps))

-- The checks of `WriteOutput`; `problems` is `runner.Validate`.
unfoldable pub output_checked :
    (Text → Text → List Text) → Option Awaited → Text → Text → Text → Result Refusal (Unit {0})
unfolding problems_or
output_checked problems engine occ name content = do
  task ← waiting_agent engine occ
  refuse_if (not (contains task.outputs name)) not_an_output
  problems_or (problems name content)

written_output : Result Refusal (Unit {0}) → Bool → Text → Text → Text → Desk → Answer × Desk
unfolding put_output
written_output (err r) written occ name content desk = (turned_down r, desk)
written_output (ok u) written occ name content desk =
    put_output (write_output written occ name content desk.guest) desk

-- `WriteOutput`.
unfoldable pub write_tool :
    (Text → Text → List Text) → Option Awaited → Bool → Text → Text → Text → Desk → Answer × Desk
unfolding written_output
write_tool problems engine written occ name content desk =
    written_output (output_checked problems engine occ name content) written occ name content desk

add_missing : Text → Option Text → List Text → List Text
add_missing name none missing = name ∷ missing
add_missing name (some b) missing = missing

-- The outputs that are not in the guest yet.
unfoldable pub missing_outputs : Text → Files → List Text → Result DataError (List Text)
unfolding add_missing
missing_outputs occ guest [] = ok []
missing_outputs occ guest (name ∷ names) = do
  there ← read_output occ name guest
  missing ← missing_outputs occ guest names
  ok (add_missing name there missing)

-- `WriteFeedback` and `RemoveFeedback` on the files of the results; a blank text is not written.
unfoldable pub write_feedback : Text → Text → List (Text × Text) → Option (List (Text × Text))
write_feedback occ feedback files =
    if not (check_occ occ)
    then none
    else if same (trim_space feedback) []
    then some files
    else some (insert occ feedback files)

unfoldable pub remove_feedback : Text → List (Text × Text) → List (Text × Text)
remove_feedback occ [] = []
remove_feedback occ (f ∷ fs) =
    if same f.0 occ then remove_feedback occ fs else f ∷ remove_feedback occ fs

reported : Bool → Text → Text → Desk → Answer × Desk
reported false occ feedback desk =
    (turned_down refused_by_engine, record desk { feedback = remove_feedback occ desk.feedback })
reported true occ feedback desk = (taken, record desk { end_feedback = feedback })

with_feedback : Option (List (Text × Text)) → Bool → Text → Text → Desk → Answer × Desk
unfolding reported
with_feedback none takes occ feedback desk = (turned_down no_feedback, desk)
with_feedback (some files) takes occ feedback desk =
    reported takes occ feedback (record desk { feedback = files })

-- The report once nothing is missing: the feedback is written, and the engine is told.
unfoldable pub report : Bool → Text → Text → Desk → Answer × Desk
unfolding with_feedback
report takes occ feedback desk =
    with_feedback (write_feedback occ feedback desk.feedback) takes occ feedback desk

report_with : Result DataError (List Text) → Bool → Text → Text → Desk → Answer × Desk
report_with (err e) takes occ feedback desk = (failed e, desk)
report_with (ok []) takes occ feedback desk = report takes occ feedback desk
report_with (ok (m ∷ ms)) takes occ feedback desk = (turned_down (not_written_yet (m ∷ ms)), desk)

report_for : Result Refusal Task → Bool → Bool → Text → Text → Desk → Answer × Desk
unfolding report_with
report_for (err r) is_done takes occ feedback desk = (turned_down r, desk)
report_for (ok task) true takes occ feedback desk =
    report_with (missing_outputs occ desk.guest task.outputs) takes occ feedback desk
report_for (ok task) false takes occ feedback desk = report takes occ feedback desk

-- `ReportResult`: `outcome_done` is the engine's name, and `takes` its answer to the report.
unfoldable pub report_result :
    Text → Option Awaited → (Text → Text → Text → Bool) → Text → Text → Text → Desk → Answer × Desk
unfolding report_for
report_result outcome_done engine takes occ outcome feedback desk =
    report_for (waiting_agent engine occ) (same outcome outcome_done) (takes occ outcome feedback)
      occ feedback desk
