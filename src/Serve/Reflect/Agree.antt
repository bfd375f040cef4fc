-- ===== src/Serve/Reflect/Agree.antt =====
-- The answer of `wakesMainSession` against the state that clients see (serve/run.go).
use masuda.Common.{◌≡◌, refl, ◌↔◌, ◌⊎◌, inl, inr, Option, none, some, true, false, Text}
use masuda.Serve.Activity.Compute.{
  State, running, waiting_gate, waiting_question, finished, blocked, suspended,
}
use masuda.Serve.Reflect.{
  StatusKind, agent, at_gate, at_question, done, is_blocked, other, Status, Meta, Names, reflected,
  reflect, reflect_result, wakes_kind, wakes_main_session,
}

-- A state in which there is a next task for the session to fetch, or an end to hear of.
abbrev pub Settled : State → Type 0
Settled s = (s ≡ running) ⊎ (s ≡ finished) ⊎ (s ≡ blocked)

-- A kind of status that the code tells apart.
abbrev pub Known : StatusKind → Type 0
Known (other k) = ⊥
Known _ = Unit

gate-not-Settled : ¬ Settled waiting_gate
gate-not-Settled (inl e) = cc
gate-not-Settled (inr (inl e)) = cc
gate-not-Settled (inr (inr e)) = cc

question-not-Settled : ¬ Settled waiting_question
question-not-Settled (inl e) = cc
question-not-Settled (inr (inl e)) = cc
question-not-Settled (inr (inr e)) = cc

suspended-not-Settled : ¬ Settled suspended
suspended-not-Settled (inl e) = cc
suspended-not-Settled (inr (inl e)) = cc
suspended-not-Settled (inr (inr e)) = cc

kind_wakes_iff :
    (names : Names) (kind : StatusKind) (st : Status) (feedback : Text) (w : Meta)
    → Known kind
    → (wakes_kind kind ≡ true) ↔ Settled (reflected names kind st feedback w).state
unfolding wakes_kind
kind_wakes_iff names agent st f w k = (λ h. inl refl, λ h. refl)
kind_wakes_iff names at_gate st f w k = (λ h. cc, λ h. absurd (gate-not-Settled h))
kind_wakes_iff names at_question st f w k = (λ h. cc, λ h. absurd (question-not-Settled h))
kind_wakes_iff names done st f w k = (λ h. inr (inl refl), λ h. refl)
kind_wakes_iff names is_blocked st f w k = (λ h. inr (inr refl), λ h. refl)
kind_wakes_iff names (other x) st f w k = absurd k

result_wakes_iff :
    (names : Names) (e : Option Text) (st : Status) (feedback : Text) (w : Meta)
    → Known st.kind
    → (wakes_main_session st e ≡ true) ↔ Settled (reflect_result names e st feedback w).state
unfolding wakes_main_session reflect_result
result_wakes_iff names none st f w k = kind_wakes_iff names st.kind st f w k
result_wakes_iff names (some e) st f w k = (λ h. cc, λ h. absurd (suspended-not-Settled h))

-- While the context of the run lasts, and for a status of a kind that the engine has,
-- `wakesMainSession` answers true exactly where the state that `reflect` writes for the same status
-- and error is running, done or blocked: not at a gate or a question, nor after an error.
pub wakes_main_session_iff :
    (names : Names) (e : Option Text) (st : Status) (feedback : Text) (w : Meta)
    → Known st.kind
    → (wakes_main_session st e ≡ true) ↔ Settled (reflect names false e st feedback w).state
unfolding reflect
wakes_main_session_iff names e st f w k = result_wakes_iff names e st f w k
