-- ===== src/Serve/Lifecycle/Resume/Laws.antt =====
-- What `Resume` leaves behind where it succeeds (serve/lifecycle.go).
use masuda.Common.{
  ℕ, ◌≡◌, refl, ap, sym, subst, inl, inr, arith, List, [], ◌∷◌, Option, none, some, Bool, true,
  false, not, if_either, Bool-cases, Option-cases, ◌∈◌, Text,
}
use masuda.Common.{ok, err, refuse_if, >>=-ok, refuse_if-ok, not-false, ok_inj}
use masuda.Serve.Result.{failed_precondition, Reply}
use masuda.Serve.Activity.Compute.{State, starting}
use masuda.Serve.Reflect.{Meta}
use masuda.Config.Names.{valid_occurrence}
use masuda.Workspace.Questions.{
  QuestionRecord, write_question, save_question, unanswered, open_questions,
}
use masuda.Workspace.Questions.Files.{
  key, IsDirectory, mem-write_question, write_question-IsDirectory, mem-open_questions,
  open_questions-mem,
}
use masuda.Serve.Lifecycle.{Life, RunCtl, resumable, stop_run, Written}
use masuda.Serve.Lifecycle.Resume.{
  ResumeSteps, checks, fixed, discarded, discard, discard_asked, begun, set_up, resume_from,
  cleared, checked_resume, resume_of, resume, is_suspended, is_blocked_state,
}

-- Every question of the directory that is open and not the engine's own is still to come.
abbrev Left : Option Text → List QuestionRecord → List QuestionRecord → Type 0
Left at qs dir = (q : QuestionRecord) → q ∈ dir → unanswered q ≡ true → fixed at q ≡ false → q ∈ qs

save_question-some :
    (q : QuestionRecord) (dir : List QuestionRecord) {dir' : List QuestionRecord}
    → save_question q dir ≡ some dir'
    → write_question q dir ≡ dir'
unfolding save_question
save_question-some q dir h = elim (Bool-cases (valid_occurrence q.occurrence)) [
  | inl e ↦ cc (rw e at h)
  | inr e ↦ absurd (cc (rw e at h))
]

discarded-answered : (now : ℕ) (q : QuestionRecord) → unanswered (discarded now q) ≡ false
unfolding unanswered discarded
discarded-answered now q = ground (arith, Option-cases q.answers)

Left-write :
    (at : Option Text) (now : ℕ) (q : QuestionRecord) (qs dir : List QuestionRecord)
    → IsDirectory dir
    → Left at (q ∷ qs) dir
    → Left at qs (write_question (discarded now q) dir)
unfolding discarded
Left-write at now q qs dir d h x m u f = elim (mem-write_question x (discarded now q) dir d m) [
  | inl e ↦ let closed = discarded-answered now q in absurd (cc (ap unanswered e, closed, u))
  | inr (k, apart) ↦ elim (h x k u f) [ inl e ↦ absurd (apart (ap key e)) | inr t ↦ t ]
]

discard-Left :
    (at : Option Text) (now : ℕ) (qs dir : List QuestionRecord)
    → IsDirectory dir
    → Left at qs dir
    → (discard at now qs dir).1 ≡ true
    → Left at [] (discard at now qs dir).0
unfolding discard
discard-Left at now [] dir d h k = h
discard-Left at now (q ∷ qs) dir d h k = elim (Bool-cases (fixed at q)) [
  | inl e ↦ rw (e, discard) (discard-Left at now qs dir d (skip e) (rw (e, discard) at k))
  | inr e ↦ elim (Option-cases (save_question (discarded now q) dir)) [
    | inl n ↦ absurd (cc (rw (e, n, discard) at k))
    | inr (dir', s) ↦
        rw (e, s, discard)
          (let w = save_question-some (discarded now q) dir s in
            discard-Left at now qs dir' (subst IsDirectory w (write_question-IsDirectory _ dir d))
              (subst (Left at qs) w (Left-write at now q qs dir d h)) (rw (e, s, discard) at k))
  ]
]
  where
    skip : fixed at q ≡ true → Left at qs dir
    skip e x m u f = elim (h x m u f) [ inl p ↦ absurd (cc (ap (fixed at) p, e, f)) | inr t ↦ t ]

-- A workspace that Resume has set up: it is starting with a new run and without agents' ids, and of
-- its questions only the one that the engine itself waits at is open.
pub record IsSetUp (steps : ResumeSteps) (l : Life) (s : State) : Type 0 where
  pub before : Meta
  pub answered : s ≡ starting
  pub begins : l.meta ≡ some (begun before)
  pub new_run : l.ctl ≡ some (record { booted = false; resumed = true })
  pub forgotten : l.subagents ≡ []
  pub engine_at : Option Text
  pub asked_engine : steps.status ≡ some engine_at
  pub only_fixed : (q : QuestionRecord) → q ∈ open_questions l.questions → fixed engine_at q ≡ true

abbrev set_life : Meta → List QuestionRecord → Life → Life
set_life w dir l = record l {
  meta = some (begun w);
  ctl = some (record { booted = false; resumed = true });
  questions = dir;
  subagents = [];
}

set_up-ok :
    (steps : ResumeSteps) (w : Meta) (l : Life) (dir : List QuestionRecord) (all : Bool) {s : State}
    → (set_up steps w l (dir, all)).1 ≡ ok s
    → (all ≡ true) × ((set_up steps w l (dir, all)).0 ≡ set_life w dir l) × (s ≡ starting)
unfolding set_up
set_up-ok steps w l dir false h = cc
set_up-ok steps w l dir true h = elim (Bool-cases steps.ids_cleared) [
  | inl e ↦ (refl, rw e refl, sym (ok_inj (rw e at h)))
  | inr e ↦ absurd (cc (rw e at h))
]

only_fixed-of :
    (at : Option Text) (now : ℕ) (dir : List QuestionRecord)
    → IsDirectory dir
    → (discard at now (open_questions dir) dir).1 ≡ true
    → (q : QuestionRecord) → q ∈ open_questions (discard at now (open_questions dir) dir).0
    → fixed at q ≡ true
only_fixed-of at now dir d all q m =
    let (k, u) = mem-open_questions q _ m in
    let left =
      discard-Left at now (open_questions dir) dir d (λ x n v f. open_questions-mem x dir n v)
        all in
    elim (Bool-cases (fixed at q)) [ inl e ↦ e | inr e ↦ absurd (left q k u e) ]

set_up-IsSetUp :
    (steps : ResumeSteps) (w : Meta) (l : Life) (status : Option (Option Text)) (s : State)
    → steps.status ≡ status
    → IsDirectory l.questions
    → (set_up steps w l (discard_asked status steps.now l.questions)).1 ≡ ok s
    → IsSetUp steps (set_up steps w l (discard_asked status steps.now l.questions)).0 s
unfolding discard_asked
set_up-IsSetUp steps w l none s e d h = absurd (cc ((set_up-ok steps w l l.questions false h).0))
set_up-IsSetUp steps w l (some at) s e d h =
    let done : List QuestionRecord × Bool =
      discard at steps.now (open_questions l.questions) l.questions in
    let (all, life, answer) = set_up-ok steps w l done.0 done.1 h in
    subst (λ (x : Life). IsSetUp steps x s) (sym life)
      (record {
        before = w;
        answered = answer;
        begins = refl;
        new_run = refl;
        forgotten = refl;
        engine_at = at;
        asked_engine = e;
        only_fixed = only_fixed-of at steps.now l.questions d all;
      })

resume_from-IsSetUp :
    (steps : ResumeSteps) (m : Option Meta) (l : Life) (s : State)
    → IsDirectory l.questions
    → (resume_from steps m l).1 ≡ ok s
    → IsSetUp steps (resume_from steps m l).0 s
unfolding resume_from
resume_from-IsSetUp steps none l s d h = cc
resume_from-IsSetUp steps (some w) l s d h = elim (Bool-cases steps.saved) [
  | inr f ↦ absurd (cc (rw f at h))
  | inl t ↦ elim (Bool-cases steps.ctl_made) [
    | inr f ↦ absurd (cc (rw (t, f) at h))
    | inl t' ↦ simp (t, t') (set_up-IsSetUp steps w l steps.status s refl d (rw (t, t') at h))
  ]
]

stop-questions :
    (late : List Written) (s : State) (l : Life) → (cleared s late l).questions ≡ l.questions
unfolding cleared stop_run
stop-questions late s l =
    if_either (λ (x : Life). x.questions ≡ l.questions) (is_suspended s) refl refl

checks-resumable :
    (steps : ResumeSteps) (ctl : Option RunCtl) (s : State) {u : Unit {0}}
    → checks steps ctl s ≡ ok u
    → resumable s ≡ true
unfolding checks
checks-resumable steps ctl s h =
    let (_, e1, h1) = >>=-ok (refuse_if (is_blocked_state s) failed_precondition) _ h in
    let (_, e2, h2) = >>=-ok (refuse_if (not (resumable s)) failed_precondition) _ h1 in
    not-false _ (refuse_if-ok _ _ e2)

checked-IsSetUp :
    (c : Reply (Unit {0})) (steps : ResumeSteps) (w : Meta) (late : List Written) (l : Life)
    (s : State)
    → IsDirectory l.questions
    → (checked_resume c steps w late l).1 ≡ ok s
    → ((u : Unit {0}) × (c ≡ ok u)) × IsSetUp steps (checked_resume c steps w late l).0 s
unfolding checked_resume
checked-IsSetUp (err c) steps w late l s d h = cc
checked-IsSetUp (ok u) steps w late l s d h = (
  (u, refl),
  resume_from-IsSetUp steps _ (cleared w.state late l) s
      (subst IsDirectory (sym (stop-questions late w.state l)) d) h,
)

resume_of-IsSetUp :
    (m : Option Meta) (steps : ResumeSteps) (late : List Written) (l : Life) (s : State)
    → IsDirectory l.questions
    → (resume_of m steps late l).1 ≡ ok s
    → ((w : Meta) × (m ≡ some w) × (resumable w.state ≡ true))
      × IsSetUp steps (resume_of m steps late l).0 s
unfolding resume_of
resume_of-IsSetUp none steps late l s d h = cc
resume_of-IsSetUp (some w) steps late l s d h =
    let ((u, e), done) = checked-IsSetUp _ steps w late l s d h in
    ((w, refl, checks-resumable steps l.ctl w.state e), done)

-- A Resume that succeeds was asked for a stopped or suspended workspace. It leaves it starting with a
-- new run, forgets the ids of the agents of the machine before, and closes every open question but
-- the one that the engine itself waits at; the questions are in files of different names.
pub resume-IsSetUp :
    (steps : ResumeSteps) (late : List Written) (l : Life) (s : State)
    → IsDirectory l.questions
    → (resume steps late l).1 ≡ ok s
    → ((w : Meta) × (l.meta ≡ some w) × (resumable w.state ≡ true))
      × IsSetUp steps (resume steps late l).0 s
unfolding resume
resume-IsSetUp steps late l s d h = resume_of-IsSetUp l.meta steps late l s d h
