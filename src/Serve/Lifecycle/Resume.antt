-- ===== src/Serve/Lifecycle/Resume.antt =====
-- serve/lifecycle.go: `Resume` with `discardAskedQuestions`.
pub mod Laws
pub mod Rollback
use masuda.Common.{
  ℕ, List, [], ◌∷◌, Option, none, some, Bool, true, false, ◌&&◌, not, if◌then◌else◌, Text, same,
}
use masuda.Common.{Result, ok, err, ◌>>=◌, ◌>>◌, refuse_if, or_err}
use masuda.Serve.Result.{Code, not_found, failed_precondition, internal, Reply}
use masuda.Serve.Activity.Compute.{State, starting, stopped, suspended, blocked}
use masuda.Serve.Reflect.{Meta}
use masuda.Workspace.Questions.{QuestionRecord, open_questions, save_question}
use masuda.Serve.Lifecycle.{Life, RunCtl, resumable, stop_run, set_state, Written, written_late}

-- The steps outside: the snapshot of the definitions, their loading, `planBoot` with the code of its
-- error, the sandbox service's answer, the writes of `workspace.json`, `newRunCtl`, the engine's
-- status (the question that it waits at, where it waits at one), and the removal of the agents' ids.
pub record ResumeSteps : Type 0 where
  pub has_definitions : Bool
  pub set_loaded : Bool
  pub plan : Option Code
  pub sandbox_ready : Option Code
  pub saved : Bool
  pub ctl_made : Bool
  pub status : Option (Option Text)
  pub now : ℕ
  pub ids_cleared : Bool
  pub restored : Bool

abbrev pub refused_with : Option Code → Reply (Unit {0})
refused_with none = ok tt
refused_with (some c) = err c

unfoldable pub is_blocked_state : State → Bool
is_blocked_state blocked = true
is_blocked_state _ = false

is_stopped : State → Bool
is_stopped stopped = true
is_stopped _ = false

unfoldable pub is_suspended : State → Bool
is_suspended suspended = true
is_suspended _ = false

has_run : Option RunCtl → Bool
has_run none = false
has_run (some c) = true

-- The checks of `Resume`, up to the first change.
unfoldable pub checks : ResumeSteps → Option RunCtl → State → Reply (Unit {0})
unfolding is_blocked_state is_stopped has_run
checks steps ctl s = do
  refuse_if (is_blocked_state s) failed_precondition
  refuse_if (not (resumable s)) failed_precondition
  refuse_if (is_stopped s && has_run ctl) failed_precondition
  refuse_if (not steps.has_definitions) failed_precondition
  refuse_if (not steps.set_loaded) failed_precondition
  refused_with steps.plan
  refused_with steps.sandbox_ready

-- The question that the engine itself waits at.
unfoldable pub fixed : Option Text → QuestionRecord → Bool
fixed none q = false
fixed (some occ) q = same occ q.occurrence

unfoldable pub discarded : ℕ → QuestionRecord → QuestionRecord
discarded now q = record q { discarded_at = some now }

-- The loop of `discardAskedQuestions`: the directory, and whether every write succeeded.
unfoldable pub discard :
    Option Text → ℕ → List QuestionRecord → List QuestionRecord → List QuestionRecord × Bool
discard at now [] dir = (dir, true)
discard at now (q ∷ qs) dir = elim (fixed at q) [
  | true ↦ discard at now qs dir
  | false ↦ elim (save_question (discarded now q) dir) [
    | none ↦ (dir, false)
    | some dir' ↦ discard at now qs dir'
  ]
]

unfoldable pub discard_asked :
    Option (Option Text) → ℕ → List QuestionRecord → List QuestionRecord × Bool
discard_asked none now dir = (dir, false)
discard_asked (some at) now dir = discard at now (open_questions dir) dir

unfoldable pub begun : Meta → Meta
begun w = record w { state = starting; reason = [] }

-- `w.State, w.Reason = prevState, prevReason` and the `Save` whose error is dropped.
unfoldable pub undone : Bool → Meta → Life → Life
undone true w l = record l { meta = some w; ctl = none }
undone false w l = record l { meta = some (begun w); ctl = none }

-- The rest of `Resume` behind `newRunCtl`.
unfoldable pub set_up : ResumeSteps → Meta → Life → List QuestionRecord × Bool → Life × Reply State
set_up steps w l (dir, false) =
    (undone steps.restored w (record l { questions = dir }), err internal)
set_up steps w l (dir, true) =
    if steps.ids_cleared
    then (
      record l {
        meta = some (begun w);
        ctl = some (record { booted = false; resumed = true });
        questions = dir;
        subagents = [];
      },
      ok starting,
    )
    else (undone steps.restored w (record l { questions = dir }), err internal)

-- `Resume` from its first `Save` on, with the workspace as it was read.
unfoldable pub resume_from : ResumeSteps → Option Meta → Life → Life × Reply State
unfolding set_up
resume_from steps none l = (l, err not_found)
resume_from steps (some w) l =
    if not steps.saved
    then (l, err internal)
    else if not steps.ctl_made
    then (undone steps.restored w l, err internal)
    else set_up steps w l (discard_asked steps.status steps.now l.questions)

-- What is there behind the checks: a suspended run is stopped, and `late` was written meanwhile.
unfoldable pub cleared : State → List Written → Life → Life
unfolding is_suspended
cleared s late l =
    if is_suspended s then stop_run late l else record l { meta = written_late late l.meta }

-- The workspace as `Resume` goes on with it: a suspended one is read again.
unfoldable pub read_again : Meta → Life → Option Meta
unfolding is_suspended
read_again w l = if is_suspended w.state then l.meta else some w

unfoldable pub checked_resume :
    Reply (Unit {0}) → ResumeSteps → Meta → List Written → Life → Life × Reply State
checked_resume (err c) steps w late l = (record l { meta = written_late late l.meta }, err c)
checked_resume (ok u) steps w late l =
    let l' = cleared w.state late l in resume_from steps (read_again w l') l'

unfoldable pub resume_of : Option Meta → ResumeSteps → List Written → Life → Life × Reply State
unfolding checked_resume
resume_of none steps late l = (l, err not_found)
resume_of (some w) steps late l = checked_resume (checks steps l.ctl w.state) steps w late l

-- `Resume`, with the state that it answers; `late` is what boots and advances write between its two
-- readings of the workspace, or up to its first `Save` where it reads once. The boot that it starts is
-- not part of it.
unfoldable pub resume : ResumeSteps → List Written → Life → Life × Reply State
unfolding resume_of
resume steps late l = resume_of l.meta steps late l
