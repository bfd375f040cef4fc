-- ===== src/Serve/Questions.antt =====
-- serve/questions.go and serve/run.go: `QuestionService.Answer`, with `runCtl.answer` behind it. The
-- engine is outside: its answer to `Answer` is the parameter `engine`.
pub mod Complete
use masuda.Common.{
  ℕ, List, [], ◌∷◌, Option, none, some, Bool, true, false, ◌&&◌, ◌||◌, not, if◌then◌else◌, ◌==◌,
  Text, same, contains, lookup,
}
use masuda.Workspace.Questions.{QuestionItem, QuestionRecord, open_questions, save_question}
use masuda.Common.{ok, err, ◌>>=◌, ◌>>◌, refuse_if, or_err}
use masuda.Serve.Result.{
  EngineReply, accepted, not_implemented, refused, Code, invalid_argument, not_found,
  failed_precondition, internal, unimplemented, Reply,
}

-- `strings.Cut(got, "\n")`: what stands before the first newline, and whether there is one.
unfoldable pub cut_line : Text → Text × Bool
cut_line [] = ([], false)
cut_line (c ∷ s) =
    let (choice, note) = cut_line s in if c == 10 then ([], true) else (c ∷ choice, note)

-- One question of the loop in `checkAnswers`, with its answer.
unfoldable pub answer_fits : Bool → QuestionItem → Option Text → Bool
answer_fits by_role q none = false
answer_fits by_role q (some got) = elim q.options [
  | [] ↦ true
  | o ∷ os ↦
      let (choice, has_note) = cut_line got in
      not (has_note && not by_role) && contains (o ∷ os) choice
]

unfoldable pub answers_fit : Bool → List QuestionItem → List (Text × Text) → Bool
answers_fit by_role [] answers = true
answers_fit by_role (q ∷ qs) answers =
    answer_fits by_role q (lookup q.id answers) && answers_fit by_role qs answers

unfoldable pub was_asked : List QuestionItem → Text → Bool
was_asked [] id = false
was_asked (q ∷ qs) id = same q.id id || was_asked qs id

unfoldable pub all_asked : List QuestionItem → List (Text × Text) → Bool
all_asked qs [] = true
all_asked qs (a ∷ answers) = was_asked qs a.0 && all_asked qs answers

-- `checkAnswers`, true where it finds nothing wrong.
unfoldable pub check_answers : QuestionRecord → List (Text × Text) → Bool
check_answers rec answers =
    answers_fit rec.by_role rec.questions answers && all_asked rec.questions answers

-- What the service finds of the workspace: its questions, and whether a run is there.
pub record Asked : Type 0 where
  pub dir : List QuestionRecord
  pub running : Bool

-- The loop of `Answer` over the open questions.
unfoldable pub last_open :
    Text → Option QuestionRecord → List QuestionRecord → Option QuestionRecord
last_open occ found [] = found
last_open occ found (q ∷ qs) = last_open occ (if same q.occurrence occ then some q else found) qs

abbrev pub answer_code : EngineReply → Reply (Unit {0})
answer_code accepted = ok tt
answer_code refused = err failed_precondition
answer_code not_implemented = err unimplemented

unfoldable pub answered : ℕ → List (Text × Text) → QuestionRecord → QuestionRecord
answered now answers q = record q { answers = some answers; answered_at = some now }

-- `Answer`: the directory of questions after it. An error leaves the directory as it was.
unfoldable pub answer :
    (engine : Text → List (Text × Text) → EngineReply) (now : ℕ) (workspace : Option Asked)
    (occurrence : Text) (answers : List (Text × Text))
    → Reply (List QuestionRecord)
answer engine now workspace occurrence answers = do
  w ← or_err not_found workspace
  q ← or_err not_found (last_open occurrence none (open_questions w.dir))
  refuse_if (not (check_answers q answers)) invalid_argument
  refuse_if (not w.running) failed_precondition
  answer_code (engine q.occurrence answers)
  or_err internal (save_question (answered now answers q) w.dir)
