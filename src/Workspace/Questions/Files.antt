-- ===== src/Workspace/Questions/Files.antt =====
-- The files of the questions (internal/workspace/records.go): one for each occurrence and number.
use masuda.Common.{
  ℕ, ◌≡◌, ◌≢◌, ap, sym, ◌∙◌, ◌⊎◌, inl, inr, arith, List, [], ◌∷◌, true, false, ◌&&◌, ◌==◌,
  Bool-cases, map, ◌∈◌, Distinct, Text, same, same_iff, mem-keep, keep-mem, subst,
}
use masuda.Workspace.Questions.{
  QuestionRecord, before, insert_sorted, questions, write_question, unanswered, open_questions,
}

-- What names the file of a question.
abbrev pub key : QuestionRecord → Text × ℕ
key q = (q.occurrence, q.seq)

-- No two files have one name.
abbrev pub IsDirectory : List QuestionRecord → Type 0
IsDirectory dir = Distinct (map key dir)

mem-insert_sorted :
    (q r : QuestionRecord) (rs : List QuestionRecord) → q ∈ insert_sorted r rs → (q ≡ r) ⊎ (q ∈ rs)
unfolding insert_sorted
mem-insert_sorted q r [] m = m
mem-insert_sorted q r (s ∷ rs) m = elim (Bool-cases (before s r)) [
  | inl e ↦ elim (rw e at m) [
    | inl k ↦ inr (inl k)
    | inr k ↦ elim (mem-insert_sorted q r rs k) [ inl a ↦ inl a | inr b ↦ inr (inr b) ]
  ]
  | inr e ↦ rw e at m
]

mem-questions : (q : QuestionRecord) (dir : List QuestionRecord) → q ∈ questions dir → q ∈ dir
unfolding questions
mem-questions q [] m = m
mem-questions q (r ∷ dir) m = elim (mem-insert_sorted q r (questions dir) m) [
  | inl e ↦ inl e
  | inr k ↦ inr (mem-questions q dir k)
]

insert_sorted-mem :
    (q r : QuestionRecord) (rs : List QuestionRecord) → (q ≡ r) ⊎ (q ∈ rs) → q ∈ insert_sorted r rs
unfolding insert_sorted
insert_sorted-mem q r [] m = m
insert_sorted-mem q r (s ∷ rs) m = elim (Bool-cases (before s r)) [
  | inl e ↦ rw e (elim m [
    | inl k ↦ inr (insert_sorted-mem q r rs (inl k))
    | inr (inl k) ↦ inl k
    | inr (inr k) ↦ inr (insert_sorted-mem q r rs (inr k))
  ])
  | inr e ↦ rw e m
]

questions-mem : (q : QuestionRecord) (dir : List QuestionRecord) → q ∈ dir → q ∈ questions dir
unfolding questions
questions-mem q [] m = m
questions-mem q (r ∷ dir) m =
    insert_sorted-mem q r (questions dir)
      (elim m [ inl e ↦ inl e | inr k ↦ inr (questions-mem q dir k) ])

-- What is open is in the directory and unanswered, and the other way round.
pub mem-open_questions :
    (q : QuestionRecord) (dir : List QuestionRecord)
    → q ∈ open_questions dir
    → (q ∈ dir) × (unanswered q ≡ true)
unfolding open_questions
mem-open_questions q dir m =
    let (k, u) = mem-keep unanswered q (questions dir) m in (mem-questions q dir k, u)

pub open_questions-mem :
    (q : QuestionRecord) (dir : List QuestionRecord)
    → q ∈ dir
    → unanswered q ≡ true
    → q ∈ open_questions dir
unfolding open_questions
open_questions-mem q dir m u = keep-mem unanswered q (questions dir) (questions-mem q dir m) u

same_key :
    (q r : QuestionRecord)
    → (same r.occurrence q.occurrence && r.seq == q.seq) ≡ true
    → key r ≡ key q
same_key q r h =
    let occ : r.occurrence ≡ q.occurrence = ground (arith, same_iff r.occurrence q.occurrence, h) in
    let num : r.seq ≡ q.seq = ground (arith, h) in cc

other_key :
    (q r : QuestionRecord)
    → (same q.occurrence r.occurrence && q.seq == r.seq) ≡ false
    → key q ≢ key r
other_key q r h e =
    let occ : q.occurrence ≡ r.occurrence = ap (λ (k : Text × ℕ). k.0) e in
    let num : q.seq ≡ r.seq = ap (λ (k : Text × ℕ). k.1) e in
    let test = (same_iff q.occurrence r.occurrence).1 occ in
    let number : (q.seq == r.seq) ≡ true = ground (arith, num) in cc

mem-key : (q : QuestionRecord) (dir : List QuestionRecord) → q ∈ dir → key q ∈ map key dir
mem-key q [] m = m
mem-key q (r ∷ dir) m = elim m [ inl e ↦ inl (ap key e) | inr k ↦ inr (mem-key q dir k) ]

-- Writing a file leaves the others.
pub mem-write_question :
    (q r : QuestionRecord) (dir : List QuestionRecord)
    → IsDirectory dir
    → q ∈ write_question r dir
    → (q ≡ r) ⊎ ((q ∈ dir) × (key q ≢ key r))
unfolding write_question
mem-write_question q r [] d m = elim m [ inl e ↦ inl e | inr k ↦ absurd k ]
mem-write_question q r (s ∷ dir) d m =
    elim (Bool-cases (same s.occurrence r.occurrence && s.seq == r.seq)) [
      | inl e ↦ elim (rw e at m) [
        | inl k ↦ inl k
        | inr k ↦ inr (
          inr k,
          λ p. d.0 (subst (λ n. n ∈ map key dir) (p ∙ sym (same_key r s e)) (mem-key q dir k)),
        )
      ]
      | inr e ↦ elim (rw e at m) [
        | inl k ↦ inr (inl k, λ p. other_key s r e (ap key (sym k) ∙ p))
        | inr k ↦ elim (mem-write_question q r dir d.1 k) [
          | inl a ↦ inl a
          | inr b ↦ inr (inr b.0, b.1)
        ]
      ]
    ]

map-write_question :
    (r : QuestionRecord) (dir : List QuestionRecord) (k : Text × ℕ)
    → k ∈ map key (write_question r dir)
    → (k ≡ key r) ⊎ (k ∈ map key dir)
unfolding write_question
map-write_question r [] k m = m
map-write_question r (s ∷ dir) k m =
    elim (Bool-cases (same s.occurrence r.occurrence && s.seq == r.seq)) [
      | inl e ↦ elim (rw e at m) [ inl a ↦ inl a | inr b ↦ inr (inr b) ]
      | inr e ↦ elim (rw e at m) [
        | inl a ↦ inr (inl a)
        | inr b ↦ elim (map-write_question r dir k b) [ inl c ↦ inl c | inr d ↦ inr (inr d) ]
      ]
    ]

-- The directory keeps one file for each name.
pub write_question-IsDirectory :
    (r : QuestionRecord) (dir : List QuestionRecord)
    → IsDirectory dir
    → IsDirectory (write_question r dir)
unfolding write_question
write_question-IsDirectory r [] d = (λ m. m, tt)
write_question-IsDirectory r (s ∷ dir) d =
    elim (Bool-cases (same s.occurrence r.occurrence && s.seq == r.seq)) [
      | inl e ↦ rw e (subst (λ (k : Text × ℕ). ¬ (k ∈ map key dir)) (same_key r s e) d.0, d.1)
      | inr e ↦ rw e (
        λ m. elim (map-write_question r dir (key s) m) [
          | inl a ↦ other_key s r e a
          | inr b ↦ d.0 b
        ],
        write_question-IsDirectory r dir d.1,
      )
    ]
