-- ===== src/Workspace/Questions.antt =====
-- internal/workspace/records.go: the records of questions, kept as those of gates are. Times are
-- numbers.
pub mod Files
use masuda.Common.{
  ℕ, ◌+◌, List, [], ◌∷◌, Option, none, some, Bool, true, false, ◌&&◌, if◌then◌else◌, ltb, leb, ◌==◌,
  keep, Text, same,
}
use masuda.Config.Names.{valid_occurrence}
use masuda.Common.{text_lt}

pub record QuestionItem : Type 0 where
  pub id : Text
  pub text : Text
  pub options : List Text

pub record QuestionRecord : Type 0 where
  pub occurrence : Text
  pub seq : ℕ
  pub questions : List QuestionItem
  pub opened_at : ℕ
  pub answers : Option (List (Text × Text))
  pub answered_at : Option ℕ
  pub by_role : Bool
  pub discarded_at : Option ℕ

-- The order of `questionsLocked`.
unfoldable pub before : QuestionRecord → QuestionRecord → Bool
before a b =
    if same a.occurrence b.occurrence then ltb a.seq b.seq else text_lt a.occurrence b.occurrence

unfoldable pub insert_sorted : QuestionRecord → List QuestionRecord → List QuestionRecord
unfolding before
insert_sorted q [] = q ∷ []
insert_sorted q (r ∷ rs) = if before r q then r ∷ insert_sorted q rs else q ∷ r ∷ rs

-- `Questions`.
unfoldable pub questions : List QuestionRecord → List QuestionRecord
unfolding insert_sorted
questions [] = []
questions (q ∷ qs) = insert_sorted q (questions qs)

-- `writeJSON` of a question's file.
unfoldable pub write_question : QuestionRecord → List QuestionRecord → List QuestionRecord
write_question q [] = q ∷ []
write_question q (r ∷ rs) =
    if same r.occurrence q.occurrence && r.seq == q.seq then q ∷ rs else r ∷ write_question q rs

-- The loop of `AddQuestion`.
next_question_seq : Text → ℕ → List QuestionRecord → ℕ
next_question_seq occ seq [] = seq
next_question_seq occ seq (o ∷ os) =
    next_question_seq occ (if same o.occurrence occ && leb seq o.seq then o.seq + 1 else seq) os

-- `AddQuestion`.
unfoldable pub add_question :
    QuestionRecord → List QuestionRecord → Option (QuestionRecord × List QuestionRecord)
unfolding next_question_seq
add_question q dir =
    if valid_occurrence q.occurrence
    then (let numbered = record q { seq = next_question_seq q.occurrence 1 (questions dir) } in
        some (numbered, write_question numbered dir))
    else none

-- `SaveQuestion`.
unfoldable pub save_question : QuestionRecord → List QuestionRecord → Option (List QuestionRecord)
save_question q dir = if valid_occurrence q.occurrence then some (write_question q dir) else none

unfoldable pub unanswered : QuestionRecord → Bool
unanswered q =
    (elim q.answers [ none ↦ true | some a ↦ false ])
    && (elim q.discarded_at [ none ↦ true | some t ↦ false ])

-- `OpenQuestions`.
unfoldable pub open_questions : List QuestionRecord → List QuestionRecord
open_questions dir = keep unanswered (questions dir)
