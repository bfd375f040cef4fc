-- ===== src/Serve/Questions/Complete.antt =====
-- Which answers are taken, and what has to hold before they are (serve/questions.go).
use masuda.Common.{
  ℕ, ◌≡◌, refl, sym, ap, subst, ◌∙◌, ◌↔◌, ◌⊎◌, inl, inr, List, [], ◌∷◌, Option, none, some, Bool,
  true, false, ◌&&◌, ◌||◌, not, arith, ◌∈◌, mem-keep, Bool-cases, Option-cases, Text, same,
  same_iff, contains, contains_iff, lookup,
}
use masuda.Workspace.Questions.{
  QuestionItem, QuestionRecord, open_questions, questions, unanswered, save_question,
  write_question,
}
use masuda.Common.{ok, refuse_if, or_err, >>=-ok, refuse_if-ok, or_err-ok, not-false}
use masuda.Serve.Result.{EngineReply, accepted, invalid_argument, not_found, failed_precondition}
use masuda.Serve.Questions.{
  cut_line, answer_fits, answers_fit, was_asked, all_asked, check_answers, Asked, last_open,
  answer_code, answered, answer,
}

-- An answer that fits its question: any text where there are no options, else one of the options on
-- its first line, with further lines only under a question that a role asked.
abbrev pub Fits : Bool → QuestionItem → Text → Type 0
Fits by_role q got =
    (q.options ≡ [])
    ⊎ (((cut_line got).0 ∈ q.options) × (((cut_line got).1 ≡ false) ⊎ (by_role ≡ true)))

abbrev pub Answered : Bool → List (Text × Text) → QuestionItem → Type 0
Answered by_role answers q = (got : Text) × (lookup q.id answers ≡ some got) × Fits by_role q got

both : (a b : Bool) → (a && b) ≡ true → (a ≡ true) × (b ≡ true)
both a b h = ground arith

fits_options :
    (by_role note : Bool) (options : List Text) (choice : Text)
    → ((elim options [ [] ↦ true | o ∷ os ↦ not (note && not by_role) && contains (o ∷ os) choice ])
        ≡ true)
      ↔ ((options ≡ []) ⊎ ((choice ∈ options) × ((note ≡ false) ⊎ (by_role ≡ true))))
fits_options by_role note [] choice = (λ h. inl refl, λ h. refl)
fits_options by_role note (o ∷ os) choice = ground (arith, contains_iff (o ∷ os) choice)

cons_iff :
    {A : Type 0} (P : A → Type 0) (x : A) (xs : List A) {a b : Bool}
    → ((a ≡ true) ↔ P x)
    → ((b ≡ true) ↔ ((y : A) → y ∈ xs → P y))
    → ((a && b) ≡ true) ↔ ((y : A) → y ∈ (x ∷ xs) → P y)
cons_iff P x xs {a} {b} here rest = (
  λ h y m.
      let (s, t) = both a b h in
      elim m [ inl e ↦ subst P (sym e) (here.0 s) | inr k ↦ rest.0 t y k ],
  λ h. rw (here.1 (h x (inl refl))) (rest.1 (λ y k. h y (inr k))),
)

answer_fits_iff :
    (by_role : Bool) (q : QuestionItem) (answers : List (Text × Text))
    → (answer_fits by_role q (lookup q.id answers) ≡ true) ↔ Answered by_role answers q
unfolding answer_fits
answer_fits_iff by_role q answers = elim (Option-cases (lookup q.id answers)) [
  | inl e ↦ (λ h. cc (rw (e, answer_fits) at h), λ (got, k, f). absurd (no_answer e k))
  | inr (got, e) ↦
      let fits = fits_options by_role (cut_line got).1 q.options (cut_line got).0 in
      (
        λ h. (got, e, fits.0 (rw (e, answer_fits) at h)),
        λ (other, k, f).
            rw (e, answer_fits) (fits.1 (subst (Fits by_role q) (same_answer (sym k ∙ e)) f)),
      )
]
  where
    no_answer : {o : Option Text} {got : Text} → o ≡ none → o ≡ some got → ⊥
    no_answer e k = cc

    same_answer : {a b : Text} → ◌≡◌ {A = Option Text} (some a) (some b) → a ≡ b
    same_answer e = cc

answers_fit_iff :
    (by_role : Bool) (qs : List QuestionItem) (answers : List (Text × Text))
    → (answers_fit by_role qs answers ≡ true)
      ↔ ((q : QuestionItem) → q ∈ qs → Answered by_role answers q)
unfolding answers_fit
answers_fit_iff by_role [] answers = (λ h q m. absurd m, λ h. refl)
answers_fit_iff by_role (q ∷ qs) answers =
    cons_iff (Answered by_role answers) q qs (answer_fits_iff by_role q answers)
      (answers_fit_iff by_role qs answers)

was_asked_iff :
    (qs : List QuestionItem) (id : Text)
    → (was_asked qs id ≡ true) ↔ ((q : QuestionItem) × (q ∈ qs) × (q.id ≡ id))
unfolding was_asked
was_asked_iff [] id = (λ h. cc, λ (q, m, e). absurd m)
was_asked_iff (q ∷ qs) id =
    let rest = was_asked_iff qs id in
    (
      λ h. elim (Bool-cases (same q.id id)) [
        | inl t ↦ (q, inl refl, (same_iff q.id id).0 t)
        | inr t ↦ let (x, m, e) = rest.0 (rw t at h) in (x, inr m, e)
      ],
      λ (x, m, e). elim m [
        | inl k ↦ rw ((same_iff q.id id).1 (ap (λ (y : QuestionItem). y.id) (sym k) ∙ e)) refl
        | inr k ↦ or_right _ _ (rest.1 (x, k, e))
      ],
    )
  where
    or_right : (a b : Bool) → b ≡ true → (a || b) ≡ true
    or_right a b h = ground arith

all_asked_iff :
    (qs : List QuestionItem) (answers : List (Text × Text))
    → (all_asked qs answers ≡ true)
      ↔ ((a : Text × Text) → a ∈ answers → (q : QuestionItem) × (q ∈ qs) × (q.id ≡ a.0))
unfolding all_asked
all_asked_iff qs [] = (λ h a m. absurd m, λ h. refl)
all_asked_iff qs (a ∷ answers) =
    cons_iff (λ x. (q : QuestionItem) × (q ∈ qs) × (q.id ≡ x.0)) a answers (was_asked_iff qs a.0)
      (all_asked_iff qs answers)

-- `checkAnswers` finds nothing wrong exactly where every question of the record has an answer that
-- fits it and every answer is to a question of the record.
pub check_answers_iff :
    (rec : QuestionRecord) (answers : List (Text × Text))
    → (check_answers rec answers ≡ true) ↔ (
        ((q : QuestionItem) → q ∈ rec.questions → Answered rec.by_role answers q)
        × ((a : Text × Text)
            → a ∈ answers
            → (q : QuestionItem) × (q ∈ rec.questions) × (q.id ≡ a.0)))
unfolding check_answers
check_answers_iff rec answers =
    let fit = answers_fit_iff rec.by_role rec.questions answers in
    let asked = all_asked_iff rec.questions answers in
    (λ h. let (a, b) = both _ _ h in (fit.0 a, asked.0 b), λ h. rw (fit.1 h.0) (asked.1 h.1))

last_open_sound :
    (occ : Text) (qs : List QuestionRecord) (found : Option QuestionRecord) (q : QuestionRecord)
    → last_open occ found qs ≡ some q
    → (found ≡ some q) ⊎ ((q ∈ qs) × (q.occurrence ≡ occ))
unfolding last_open
last_open_sound occ [] found q h = inl h
last_open_sound occ (r ∷ rs) found q h = elim (last_open_sound occ rs _ q h) [
  | inr (m, e) ↦ inr (inr m, e)
  | inl e ↦ elim (Bool-cases (same r.occurrence occ)) [
    | inr t ↦ inl (rw t at e)
    | inl t ↦
        let k : r ≡ q = same_record (rw t at e) in
        inr (
          inl (sym k),
          ap (λ (x : QuestionRecord). x.occurrence) (sym k) ∙ (same_iff r.occurrence occ).0 t,
        )
  ]
]
  where
    same_record : {a b : QuestionRecord} → ◌≡◌ {A = Option QuestionRecord} (some a) (some b) → a ≡ b
    same_record e = cc

found_open :
    (occ : Text) (dir : List QuestionRecord) (q : QuestionRecord)
    → last_open occ none (open_questions dir) ≡ some q
    → (q ∈ open_questions dir) × (q.occurrence ≡ occ)
found_open occ dir q h = elim (last_open_sound occ (open_questions dir) none q h) [
  | inl e ↦ cc
  | inr k ↦ k
]

open_questions-mem :
    (dir : List QuestionRecord) (q : QuestionRecord)
    → q ∈ open_questions dir
    → (q ∈ questions dir) × (unanswered q ≡ true)
unfolding open_questions
open_questions-mem dir q m = mem-keep unanswered q (questions dir) m

answer_code-ok : (r : EngineReply) {u : Unit {0}} → answer_code r ≡ ok u → r ≡ accepted
answer_code-ok EngineReply.accepted h = refl
answer_code-ok EngineReply.not_implemented h = cc
answer_code-ok EngineReply.refused h = cc

save_question-some :
    (q : QuestionRecord) (dir : List QuestionRecord) {dir' : List QuestionRecord}
    → save_question q dir ≡ some dir'
    → dir' ≡ write_question q dir
unfolding save_question
save_question-some q dir h = ground arith

-- Answers that took effect, and the directory after them.
pub record Saved (engine : Text → List (Text × Text) → EngineReply) (now : ℕ) (w : Asked)
    (occurrence : Text) (answers : List (Text × Text)) (q : QuestionRecord)
    (dir' : List QuestionRecord) : Type 0 where
  pub asked : q ∈ questions w.dir
  pub of_occurrence : q.occurrence ≡ occurrence
  pub was_open : unanswered q ≡ true
  pub complete : check_answers q answers ≡ true
  pub running : w.running ≡ true
  pub agreed : engine q.occurrence answers ≡ accepted
  pub written : dir' ≡ write_question (answered now answers q) w.dir

-- Answers are taken only for a question of that occurrence that is open, while the workspace runs,
-- where every question has a fitting answer and nothing else is answered; the engine has accepted
-- them, and the one record that changes is that question's.
pub answer-Saved :
    (engine : Text → List (Text × Text) → EngineReply) (now : ℕ) (workspace : Option Asked)
    (occurrence : Text) (answers : List (Text × Text)) (dir' : List QuestionRecord)
    → answer engine now workspace occurrence answers ≡ ok dir'
    → (w : Asked) × (q : QuestionRecord) × (workspace ≡ some w)
      × Saved engine now w occurrence answers q dir'
unfolding answer
answer-Saved engine now workspace occurrence answers dir' h =
    let (w, e1, h1) = >>=-ok (or_err not_found workspace) _ h in
    let (q, e2, h2) =
      >>=-ok (or_err not_found (last_open occurrence none (open_questions w.dir))) _ h1 in
    let (_, e3, h3) = >>=-ok (refuse_if (not (check_answers q answers)) invalid_argument) _ h2 in
    let (_, e4, h4) = >>=-ok (refuse_if (not w.running) failed_precondition) _ h3 in
    let (_, e5, h5) = >>=-ok (answer_code (engine q.occurrence answers)) _ h4 in
    let (m, e) = found_open occurrence w.dir q (or_err-ok _ _ e2) in
    let (k, u) = open_questions-mem w.dir q m in
    (
      w,
      q,
      or_err-ok _ _ e1,
      record {
        asked = k;
        of_occurrence = e;
        was_open = u;
        complete = not-false _ (refuse_if-ok _ _ e3);
        running = not-false _ (refuse_if-ok _ _ e4);
        agreed = answer_code-ok _ e5;
        written = save_question-some _ w.dir (or_err-ok _ _ h5);
      },
    )
