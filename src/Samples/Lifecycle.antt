-- ===== src/Samples/Lifecycle.antt =====
-- A workspace that was stopped with open questions, and one that is suspended while an advance ends.
use masuda.Common.{
  List, Option, Bool, ℕ, ◌≡◌, ◌≢◌, refl, inl, inr, ap, same_iff, [], ◌∷◌, none, some, Bool, true,
  false, Text, codes, same, text_lt,
}
use masuda.Common.{ok, err}
use masuda.Serve.Result.{internal}
use masuda.Serve.Activity.Compute.{State, starting, stopped, suspended}
use masuda.Serve.Reflect.{Meta, Names, Status, agent, reflect}
use masuda.Workspace.Questions.{
  QuestionRecord, open_questions, questions, unanswered, save_question,
}
use masuda.Workspace.Questions.Files.{IsDirectory}
use masuda.Serve.Lifecycle.{
  Life, Written, reflects, active, resumable, stop_run, written_late, write_one, update,
}
use masuda.Serve.Lifecycle.Resume.{
  ResumeSteps, resume, checks, resume_from, cleared, discard_asked, discard, fixed, discarded,
  read_again, undone,
}
use masuda.Serve.Lifecycle.Resume.Laws.{IsSetUp, resume-IsSetUp}
use masuda.Config.Names.{valid_occurrence}

abbrev asked : Text → QuestionRecord
asked occ = record {
  occurrence = occ;
  seq = 1;
  questions = [];
  opened_at = 3;
  answers = none;
  answered_at = none;
  by_role = false;
  discarded_at = none;
}

abbrev meta : State → Meta
meta s = record { state = s; reason = codes "why"; outcome = []; position = [] }

abbrev life : State → Life
life s = record {
  meta = some (meta s);
  ctl = none;
  sandbox = false;
  questions = asked (codes "a1") ∷ asked (codes "b2") ∷ [];
  subagents = (codes "a1", codes "agent-1") ∷ [];
}

abbrev steps : Bool → ResumeSteps
steps cleared = record {
  has_definitions = true;
  set_loaded = true;
  plan = none;
  sandbox_ready = none;
  saved = true;
  ctl_made = true;
  status = some (some (codes "b2"));
  now = 9;
  ids_cleared = cleared;
  restored = true;
}

differ : same (codes "a1") (codes "b2") ≡ false
unfolding same
differ = refl

two_files : IsDirectory (life stopped).questions
two_files = (λ m. elim m [ inl e ↦ apart (ap (λ (k : Text × ℕ). k.0) e) | inr k ↦ k ], (λ m. m, tt))
  where
    apart : codes "a1" ≢ codes "b2"
    apart e = cc ((same_iff (codes "a1") (codes "b2")).1 e, differ)

resumes : (resume (steps true) [] (life stopped)).1 ≡ ok starting
unfolding resume checks resumable resume_from cleared discard_asked discard open_questions questions
    same text_lt unanswered fixed save_question valid_occurrence discarded read_again
resumes = refl

-- The question of an agent is closed, the one that the engine waits at stays.
resume-IsSetUp_example :
    ((w : Meta) × ((life stopped).meta ≡ some w) × (resumable w.state ≡ true))
    × IsSetUp (steps true) (resume (steps true) [] (life stopped)).0 starting
resume-IsSetUp_example = resume-IsSetUp (steps true) [] (life stopped) starting two_files resumes

abbrev names : Names
names = record { outcome_done = codes "done"; kind_text = λ k. codes "kind" }

abbrev at_task : Status
at_task = record {
  kind = agent;
  occurrence = codes "b2";
  agent_name = some (codes "impl");
  gate = none;
  outcome = [];
  reason = [];
}

-- An advance of the suspended run that ends during the checks, and ids that cannot be removed.
abbrev advance_ended : List Written
advance_ended = reflects names none at_task [] ∷ []

abbrev abandoned : Life
abandoned = (resume (steps false) advance_ended (life suspended)).0

fails : (resume (steps false) advance_ended (life suspended)).1 ≡ err internal
unfolding resume checks resumable resume_from cleared discard_asked discard open_questions questions
    stop_run written_late write_one update reflect read_again same text_lt unanswered fixed
    save_question valid_occurrence discarded
fails = refl

abbrev is_running : Option Meta → Bool
is_running none = false
is_running (some w) = active w.state

-- The workspace is left running, and has no run.
no_run : (is_running abandoned.meta ≡ true) × (abandoned.ctl ≡ none)
unfolding resume checks resumable resume_from cleared discard_asked discard open_questions questions
    stop_run written_late write_one update reflect active read_again same text_lt unanswered fixed
    save_question valid_occurrence discarded undone
no_run = (refl, refl)
