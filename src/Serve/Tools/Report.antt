-- ===== src/Serve/Tools/Report.antt =====
-- When a report of the agent is taken, and what a refused one leaves (serve/run.go, `ReportResult`).
use masuda.Common.{
  ◌≡◌, ◌≢◌, refl, sym, ap, subst, ◌∙◌, inl, inr, List, [], ◌∷◌, Option, none, some, Bool, true,
  false, not, ◌∈◌, Text, same, same_iff,
}
use masuda.Common.{Result, ok, err, refuse_if, >>=-ok, refuse_if-ok, not-false, ok_inj}
use masuda.Serve.Reflect.{StatusKind, agent}
use masuda.Runner.Data.{DataError, Files, read_output}
use masuda.Serve.Tools.{
  Task, Awaited, Refusal, not_awaited, Answer, taken, Desk, is_agent, waiting_agent, add_missing,
  missing_outputs, reported, with_feedback, report, report_with, report_for, report_result,
}

-- The outputs that the agent has written.
abbrev pub IsWritten : Text → Files → List Text → Type 0
IsWritten occ guest names =
    (name : Text) → name ∈ names → (b : Text) × (read_output occ name guest ≡ ok (some b))

-- A report that was taken: the engine waits for that task of an agent and takes the report, and what
-- counts as done has all its outputs; only the feedback changes.
pub record IsTaken (outcome_done : Text) (engine : Option Awaited) (takes : Bool)
    (occ outcome feedback : Text) (before after : Desk) : Type 0 where
  pub awaited : Awaited
  pub from_engine : engine ≡ some awaited
  pub is_task : (awaited.status.kind ≡ agent) × (awaited.status.occurrence ≡ occ)
  pub whole : outcome ≡ outcome_done → IsWritten occ before.guest awaited.task.outputs
  pub agreed : takes ≡ true
  pub remembered : after.end_feedback ≡ feedback
  pub guest_kept : after.guest ≡ before.guest

is_agent-agent : (k : StatusKind) → is_agent k ≡ true → k ≡ agent
unfolding is_agent
is_agent-agent agent h = refl
is_agent-agent StatusKind.at_gate h = cc
is_agent-agent StatusKind.at_question h = cc
is_agent-agent StatusKind.done h = cc
is_agent-agent StatusKind.is_blocked h = cc
is_agent-agent (StatusKind.other k) h = cc

waiting_agent-ok :
    (engine : Option Awaited) (occ : Text) {task : Task}
    → waiting_agent engine occ ≡ ok task
    → (a : Awaited) × (engine ≡ some a)
      × (a.status.kind ≡ agent)
      × (a.status.occurrence ≡ occ)
      × (a.task ≡ task)
unfolding waiting_agent
waiting_agent-ok none occ h = cc
waiting_agent-ok (some a) occ h =
    let (_, e1, h1) = >>=-ok (refuse_if (not (is_agent a.status.kind)) not_awaited) _ h in
    let (_, e2, h2) = >>=-ok (refuse_if (not (same a.status.occurrence occ)) not_awaited) _ h1 in
    (
      a,
      refl,
      is_agent-agent a.status.kind (not-false _ (refuse_if-ok _ _ e1)),
      (same_iff a.status.occurrence occ).0 (not-false _ (refuse_if-ok _ _ e2)),
      ok_inj h2,
    )

add_missing-nil :
    (name : Text) (there : Option Text) (missing : List Text)
    → add_missing name there missing ≡ []
    → ((b : Text) × (there ≡ some b)) × (missing ≡ [])
unfolding add_missing
add_missing-nil name none missing h = cc
add_missing-nil name (some b) missing h = ((b, refl), h)

missing_outputs-IsWritten :
    (occ : Text) (guest : Files) (names : List Text)
    → missing_outputs occ guest names ≡ ok []
    → IsWritten occ guest names
unfolding missing_outputs
missing_outputs-IsWritten occ guest [] h name m = absurd m
missing_outputs-IsWritten occ guest (n ∷ names) h name m =
    let (there, e1, h1) = >>=-ok (read_output occ n guest) _ h in
    let (missing, e2, h2) = >>=-ok (missing_outputs occ guest names) _ h1 in
    let ((b, e3), e4) = add_missing-nil n there missing (ok_inj h2) in
    elim m [
      | inl e ↦
          (b, ap (λ (x : Text). read_output occ x guest) e ∙ e1 ∙ ap (λ (o : Option Text). ok o) e3)
      | inr k ↦
          missing_outputs-IsWritten occ guest names (e2 ∙ ap (λ (l : List Text). ok l) e4) name k
    ]

-- What a report does to the desk, whichever way it ends.
abbrev Reported : Bool → Text → Desk → Answer × Desk → Type 0
Reported takes feedback desk r =
    (r.1.guest ≡ desk.guest)
    × (r.0 ≡ taken → (takes ≡ true) × (r.1.end_feedback ≡ feedback))
    × (r.0 ≢ taken → r.1.end_feedback ≡ desk.end_feedback)

with_feedback-Reported :
    (files : Option (List (Text × Text))) (takes : Bool) (occ feedback : Text) (desk : Desk)
    → Reported takes feedback desk (with_feedback files takes occ feedback desk)
unfolding with_feedback reported
with_feedback-Reported none takes occ feedback desk = (refl, λ h. cc, λ h. refl)
with_feedback-Reported (some files) true occ feedback desk =
    (refl, λ h. (refl, refl), λ h. absurd (h refl))
with_feedback-Reported (some files) false occ feedback desk = (refl, λ h. cc, λ h. refl)

report_with-Reported :
    (m : Result DataError (List Text)) (takes : Bool) (occ feedback : Text) (desk : Desk)
    → Reported takes feedback desk (report_with m takes occ feedback desk)
      × ((report_with m takes occ feedback desk).0 ≡ taken → m ≡ ok [])
unfolding report_with report
report_with-Reported (err e) takes occ feedback desk = ((refl, λ h. cc, λ h. refl), λ h. cc)
report_with-Reported (ok []) takes occ feedback desk =
    (with_feedback-Reported _ takes occ feedback desk, λ h. refl)
report_with-Reported (ok (n ∷ ns)) takes occ feedback desk = ((refl, λ h. cc, λ h. refl), λ h. cc)

report_for-Reported :
    (r : Result Refusal Task) (is_done takes : Bool) (occ feedback : Text) (desk : Desk)
    → Reported takes feedback desk (report_for r is_done takes occ feedback desk)
      × ((report_for r is_done takes occ feedback desk).0 ≡ taken
          → (task : Task) × (r ≡ ok task)
            × (is_done ≡ true → missing_outputs occ desk.guest task.outputs ≡ ok []))
unfolding report_for report
report_for-Reported (err r) is_done takes occ feedback desk = ((refl, λ h. cc, λ h. refl), λ h. cc)
report_for-Reported (ok task) true takes occ feedback desk =
    let (k, m) =
      report_with-Reported (missing_outputs occ desk.guest task.outputs) takes occ feedback desk in
    (k, λ h. (task, refl, λ e. m h))
report_for-Reported (ok task) false takes occ feedback desk =
    (with_feedback-Reported _ takes occ feedback desk, λ h. (task, refl, λ e. cc))

-- A report is taken only while the engine waits for that very task of an agent and takes the report,
-- and one that says `done` only if every output of the task is in the guest; its feedback is then the
-- last one. A report that is not taken leaves the last feedback as it was, and none touches the
-- outputs.
pub report_result-IsTaken :
    (outcome_done : Text) (engine : Option Awaited) (takes : Text → Text → Text → Bool)
    (occ outcome feedback : Text) (desk : Desk)
    → let r = report_result outcome_done engine takes occ outcome feedback desk in
      (r.0 ≡ taken
        → IsTaken outcome_done engine (takes occ outcome feedback) occ outcome feedback desk r.1)
      × (r.0 ≢ taken → (r.1.end_feedback ≡ desk.end_feedback) × (r.1.guest ≡ desk.guest))
unfolding report_result
report_result-IsTaken outcome_done engine takes occ outcome feedback desk =
    let ((kept, done, refused), how) =
      report_for-Reported (waiting_agent engine occ) (same outcome outcome_done)
        (takes occ outcome feedback) occ feedback desk in
    (
      λ h.
          let (task, e, there) = how h in
          let (a, from, kind, at, its) = waiting_agent-ok engine occ e in
          record {
            awaited = a;
            from_engine = from;
            is_task = (kind, at);
            whole = λ d.
                subst (λ (t : Task). IsWritten occ desk.guest t.outputs) (sym its)
                  (missing_outputs-IsWritten occ desk.guest task.outputs
                    (there ((same_iff outcome outcome_done).1 d)));
            agreed = (done h).0;
            remembered = (done h).1;
            guest_kept = kept;
          },
      λ h. (refused h, kept),
    )
