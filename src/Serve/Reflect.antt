-- ===== src/Serve/Reflect.antt =====
-- serve/run.go, `reflect`, `positionOf` and `wakesMainSession`: what becomes of the engine's status.
-- The engine is outside; of its status these are the fields that the code reads.
pub mod Agree
use masuda.Common.{
  List, [], ◌∷◌, ◌++◌, Option, none, some, Bool, true, false, if◌then◌else◌, Text, codes, same,
}
use masuda.Serve.Activity.Compute.{
  State, running, waiting_gate, waiting_question, finished, blocked, suspended,
}

pub data StatusKind : Type 0 where
  agent : StatusKind
  at_gate : StatusKind
  at_question : StatusKind
  done : StatusKind
  is_blocked : StatusKind
  other : Text → StatusKind

-- `engine.Status`: the agent's name and the gate's, where the status has a task or a gate.
pub record Status : Type 0 where
  pub kind : StatusKind
  pub occurrence : Text
  pub agent_name : Option Text
  pub gate : Option Text
  pub outcome : Text
  pub reason : Text

-- The fields of the workspace's `Meta` that `reflect` writes.
pub record Meta : Type 0 where
  pub state : State
  pub reason : Text
  pub outcome : Text
  pub position : Text

-- The engine's names: `OutcomeDone`, and the text of a kind, which `string(st.Kind)` gives.
pub record Names : Type 0 where
  pub outcome_done : Text
  pub kind_text : StatusKind → Text

at_occurrence : Text → Text → Text
at_occurrence what occ = what ++ (codes " (occ " ++ (occ ++ codes ")"))

named_at : Names → StatusKind → Text → Option Text → Text → Text
unfolding at_occurrence
named_at names kind what none occ = names.kind_text kind
named_at names kind what (some name) occ = at_occurrence (what ++ name) occ

position_of_kind : Names → StatusKind → Status → Text
unfolding named_at at_occurrence
position_of_kind names agent st = named_at names agent (codes "agent ") st.agent_name st.occurrence
position_of_kind names at_gate st = named_at names at_gate (codes "gate ") st.gate st.occurrence
position_of_kind names at_question st = at_occurrence (codes "question") st.occurrence
position_of_kind names done st = codes "done"
position_of_kind names is_blocked st = codes "blocked"
position_of_kind names (other k) st = names.kind_text (other k)

-- `positionOf`.
unfoldable pub position_of : Names → Status → Text
unfolding position_of_kind
position_of names st = position_of_kind names st.kind st

-- The reason of a workspace that is done: `feedback` is `lastFeedback`.
abbrev done_reason : Names → Status → Text → Text → Text
done_reason names st feedback old =
    if same st.outcome names.outcome_done then [] else if same feedback [] then old else feedback

-- The `switch` of `reflect` where the engine returned no error.
abbrev pub reflected : Names → StatusKind → Status → Text → Meta → Meta
reflected names agent st feedback w = record w {
  state = running;
  reason = [];
  position = position_of names st;
}
reflected names at_gate st feedback w = record w {
  state = waiting_gate;
  reason = [];
  position = position_of names st;
}
reflected names at_question st feedback w = record w {
  state = waiting_question;
  reason = [];
  position = position_of names st;
}
reflected names done st feedback w = record w {
  state = finished;
  outcome = st.outcome;
  reason = done_reason names st feedback w.reason;
  position = position_of names st;
}
reflected names is_blocked st feedback w = record w {
  state = blocked;
  reason = st.reason;
  position = position_of names st;
}
reflected names (other k) st feedback w = w

reflect_result : Names → Option Text → Status → Text → Meta → Meta
reflect_result names (some e) st feedback w = record w {
  state = suspended;
  reason = codes "engine: " ++ e;
}
reflect_result names none st feedback w = reflected names st.kind st feedback w

-- `reflect` on the metadata, without the clean-up of the machine and the log, with whether the context is over and the error of `advance`.
unfoldable pub reflect : Names → Bool → Option Text → Status → Text → Meta → Meta
unfolding reflect_result
reflect names true e st feedback w = w
reflect names false e st feedback w = reflect_result names e st feedback w

wakes_kind : StatusKind → Bool
wakes_kind agent = true
wakes_kind done = true
wakes_kind is_blocked = true
wakes_kind _ = false

-- `wakesMainSession`.
unfoldable pub wakes_main_session : Status → Option Text → Bool
unfolding wakes_kind
wakes_main_session st (some e) = false
wakes_main_session st none = wakes_kind st.kind
