-- ===== src/Serve/Tools/Continue.antt =====
-- serve/run.go: whom the next task continues. `NextTask` records the id that the session reports under
-- the task that it was handed last; `records/subagents.json` is a map from occurrences to ids.
use masuda.Common.{
  ◌≡◌, ◌≢◌, sym, ap, ◌∙◌, List, [], Option, none, some, Bool-cases, inl, inr, Text, codes, same,
  same_iff, differs, lookup, insert, lookup-insert, if◌then◌else◌,
}
use masuda.Config.Names.{valid_occurrence}
use masuda.Serve.Reflect.{
  Names, Status, StatusKind, agent, at_gate, at_question, done, is_blocked, other, position_of,
}
use masuda.Serve.Tools.{Task}

abbrev pub Ids : Type 0
Ids = List (Text × Text)

-- `SetSubagentID`.
unfoldable pub set_subagent_id : Text → Text → Ids → Option Ids
set_subagent_id occ id ids = if valid_occurrence occ then some (insert occ id ids) else none

-- `recordSubagent`, from the id reported and `lastTask`.
unfoldable pub record_subagent : Text → Text → Ids → Option Ids
record_subagent agent_id last ids =
    if same agent_id []
    then some ids
    else if same last []
    then some ids
    else set_subagent_id last agent_id ids

-- The `continues` of the answer: the occurrence, with the id if there is one.
pub record Continues : Type 0 where
  pub occurrence : Text
  pub agent_id : Option Text

given_id : Option Text → Option Text
given_id none = none
given_id (some id) = if same id [] then none else some id

-- `continuesOf`.
unfoldable pub continues_of : Task → Ids → Option Continues
unfolding given_id
continues_of t ids =
    if same t.continues []
    then none
    else some (record { occurrence = t.continues; agent_id = given_id (lookup t.continues ids) })

-- What `next_task` answers.
pub data NextAnswer : Type 0 where
  task_for : (occurrence role : Text) (continues : Option Continues) → NextAnswer
  all_done : (outcome : Text) → NextAnswer
  dead_end : (reason : Text) → NextAnswer
  waiting : (reason position : Text) → NextAnswer

waits_for : Text → Option Text → Text
waits_for triage none = codes "gate"
waits_for triage (some gate) = if same gate triage then codes "triage" else codes "gate"

-- `waitingOf`; `triage` is the engine's name of that gate.
unfoldable pub waiting_reason : Text → StatusKind → Option Text → Text
unfolding waits_for
waiting_reason triage at_question gate = codes "question"
waiting_reason triage agent gate = waits_for triage gate
waiting_reason triage at_gate gate = waits_for triage gate
waiting_reason triage done gate = waits_for triage gate
waiting_reason triage is_blocked gate = waits_for triage gate
waiting_reason triage (other k) gate = waits_for triage gate

-- The `switch` of `NextTask` on the status, with what `waiting` says where no more time is left; the
-- second part is `lastTask` after it.
unfoldable pub answer_of_kind :
    Names → Text → StatusKind → Status → Task → Ids → Text → NextAnswer × Text
answer_of_kind names triage agent st t ids last =
    (task_for st.occurrence t.role (continues_of t ids), st.occurrence)
answer_of_kind names triage done st t ids last = (all_done st.outcome, last)
answer_of_kind names triage is_blocked st t ids last = (dead_end st.reason, last)
answer_of_kind names triage at_gate st t ids last =
    (waiting (waiting_reason triage at_gate st.gate) (position_of names st), last)
answer_of_kind names triage at_question st t ids last =
    (waiting (waiting_reason triage at_question st.gate) (position_of names st), last)
answer_of_kind names triage (other k) st t ids last =
    (waiting (waiting_reason triage (other k) st.gate) (position_of names st), last)

recorded :
    (agent_id occ : Text) (ids : Ids) {after : Ids}
    → agent_id ≢ []
    → occ ≢ []
    → record_subagent agent_id occ ids ≡ some after
    → insert occ agent_id ids ≡ after
unfolding record_subagent set_subagent_id
recorded agent_id occ ids n m h = elim (Bool-cases (valid_occurrence occ)) [
  | inl e ↦ cc (rw (differs agent_id [] n, differs occ [] m, e) at h)
  | inr e ↦ absurd (cc (rw (differs agent_id [] n, differs occ [] m, e) at h))
]

-- An id that the session reports for the task it was handed last is what a later task that continues
-- that one is told, and no other task is told another id because of it.
pub continues_of-record_subagent :
    (agent_id occ : Text) (ids after : Ids) (t : Task)
    → agent_id ≢ []
    → occ ≢ []
    → t.continues ≢ []
    → record_subagent agent_id occ ids ≡ some after
    → (t.continues ≡ occ
        → continues_of t after ≡ some (record { occurrence = occ; agent_id = some agent_id }))
      × (t.continues ≢ occ → continues_of t after ≡ continues_of t ids)
unfolding continues_of given_id
continues_of-record_subagent agent_id occ ids after t n m k h = (told, λ d. ap shown (other d))
  where
    read :
        lookup t.continues after
        ≡ (if same occ t.continues then some agent_id else lookup t.continues ids)
    read =
        ap (lookup t.continues) (sym (recorded agent_id occ ids n m h))
        ∙ lookup-insert occ t.continues agent_id ids

    shown : Option Text → Option Continues
    shown id =
        if same t.continues []
        then none
        else some (record { occurrence = t.continues; agent_id = given_id id })

    other : t.continues ≢ occ → lookup t.continues after ≡ lookup t.continues ids
    other d =
        read
        ∙ ap (λ b. if b then some agent_id else lookup t.continues ids)
            (differs occ t.continues λ e. d (sym e))

    here : t.continues ≡ occ → lookup t.continues after ≡ some agent_id
    here e =
        read
        ∙ ap (λ b. if b then some agent_id else lookup t.continues ids)
            ((same_iff occ t.continues).1 (sym e))

    told :
        t.continues ≡ occ
        → continues_of t after ≡ some (record { occurrence = occ; agent_id = some agent_id })
    told e =
        ap shown (here e)
        ∙ rw (differs t.continues [] k, differs agent_id [] n)
            (ap (λ (o : Text). some (record { occurrence = o; agent_id = some agent_id })) e)
