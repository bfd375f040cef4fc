-- ===== src/Samples/Serve.antt =====
-- A bus of events, a wait for the next task, a gate's decision and the answers to a question.
use masuda.Common.{
  ◌<◌, ◌-◌, ℕ, ◌≡◌, refl, ◌≤◌, ◌↔◌, List, [], ◌∷◌, Option, none, some, Bool, true, false, not, ◌&&◌,
  if◌then◌else◌, ltb, ◌==◌, ◌∈◌, length, Text, codes, same, lookup, contains,
}
use masuda.Workspace.Records.{
  GateRecord, latest_gate, last_of, gates, insert_sorted, save_gate, write_file,
}
use masuda.Workspace.Questions.{
  QuestionItem, QuestionRecord, open_questions, questions, unanswered, save_question,
  write_question,
}
use masuda.Common.{ok}
use masuda.Serve.Result.{EngineReply, accepted}
use masuda.Serve.Wake.{
  new_ctl, count_event, request_wake, mark_waiting, RunCtl, begin_wake, end_wake, wake_retry_after,
}
use masuda.Serve.Wake.Delivery.{System, start, Step, Reach, event_is_delivered, wake_sends_bounded}
use masuda.Serve.Events.{resume, beyond_latest, too_old, snapshot, watch_start}
use masuda.Serve.Events.Resend.{after_all, watch_start-after_all}
use masuda.Workspace.Comments.{Comment}
use masuda.Serve.Gates.{EngineNames, Decision, Found, decide, decided, gate_outcomes}
use masuda.Serve.Gates.Safety.{Taken, decide-Taken}
use masuda.Serve.Questions.{
  Asked, check_answers, answer, last_open, answers_fit, answer_fits, cut_line, all_asked, was_asked,
  answered,
}
use masuda.Serve.Questions.Complete.{Answered, Saved, check_answers_iff, answer-Saved}
use masuda.Config.Names.{valid_occurrence}

abbrev published : List (Text × ℕ)
published = (codes "w", 7) ∷ (codes "v", 8) ∷ (codes "w", 9) ∷ []

abbrev meanwhile : List (List (Text × ℕ))
meanwhile = ((codes "w", 4) ∷ []) ∷ ((codes "v", 5) ∷ (codes "w", 6) ∷ []) ∷ []

watch_start-after_all_example : watch_start 1 (after_all 1 published) ≡ (
    if ltb (length published) 1
    then beyond_latest
    else if not (1 == 0) && ltb 1 (length published - 1)
    then too_old
    else if 1 == 0
    then snapshot (length published)
    else resume 1)
watch_start-after_all_example = watch_start-after_all 1 1 published

-- `next_task` reads the counter, an event comes, its request is made too early, and then `next_task`
-- returns `waiting`, notices the event and makes its own request.
abbrev ctl_after : Bool → Bool → RunCtl
ctl_after waiting want = record {
  seq = 1;
  waiting = waiting;
  want_wake = want;
  waking = false;
  wake_sends = 0;
  wake_sent_at = 0;
}

abbrev at_event : System
at_event = record { ctl = ctl_after false false; seen = 0; pending = 1; fresh = true; woken = 0 }

abbrev at_early : System
at_early = record { ctl = ctl_after false false; seen = 0; pending = 0; fresh = true; woken = 0 }

abbrev at_mark : System
at_mark = record { ctl = ctl_after true false; seen = 0; pending = 1; fresh = true; woken = 0 }

abbrev at_late : System
at_late = record { ctl = ctl_after true true; seen = 0; pending = 0; fresh = true; woken = 0 }

reached : Reach start at_late
unfolding start new_ctl count_event request_wake mark_waiting
reached =
    Reach.next {t = at_mark}
      (Reach.next {t = at_early}
        (Reach.next {t = at_event} (Reach.next Reach.here (Step.event start))
          (Step.request at_event 0 refl))
        (Step.mark at_early))
      (Step.request at_mark 0 refl)

event_is_delivered_example :
    (at_late.ctl.want_wake ≡ true)
    × (at_late.ctl.waking ≡ false
        → at_late.woken ≡ 0
        → (now : ℕ) → begin_wake now at_late.ctl ≡ some (record (at_late.ctl) { waking = true }))
    × (at_late.ctl.waking ≡ false
        → at_late.woken < 3
        → (now : ℕ) → wake_retry_after ≤ now - at_late.ctl.wake_sent_at
        → begin_wake now at_late.ctl ≡ some (record (at_late.ctl) { waking = true }))
    × (at_late.woken < 2
        → (sent : Bool) (ended now : ℕ) → wake_retry_after ≤ now - ended
        → wake_retry_after ≤ now - at_late.ctl.wake_sent_at
        → begin_wake now (end_wake sent ended at_late.ctl)
          ≡ some (record (end_wake sent ended at_late.ctl) { waking = true }))
event_is_delivered_example = event_is_delivered {s = at_late} reached refl refl refl

wake_sends_bounded_example : at_late.woken ≤ 3
wake_sends_bounded_example = wake_sends_bounded {s = at_late} reached

abbrev note : Comment
note = record {
  id = codes "c-1";
  commit = codes "1";
  path = codes "a.go";
  line = 3;
  author = codes "agent";
  body = codes "x";
  severity = [];
  time = 1;
  finding_id = [];
}

abbrev names : EngineNames
names = record {
  gate_triage = codes "triage";
  outcome_approved = codes "approved";
  outcome_rejected = codes "rejected";
}

abbrev agrees : Text → Decision → EngineReply
agrees occ d = accepted

abbrev gate : GateRecord
gate = record {
  occurrence = codes "o1";
  seq = 1;
  gate = codes "diff";
  target = [];
  target_hash = codes "h";
  subject = [];
  staging_commit = [];
  opened_at = 1;
  decision = none;
}

abbrev approval : Decision
approval = record {
  outcome = codes "approved";
  comment = [];
  target_hash = codes "h";
  approved_files = [];
}

abbrev found : Found
found = record { dir = gate ∷ []; comments = λ c. []; running = true }

abbrev approved_gate : GateRecord
approved_gate = record gate {
  decision = some (record {
    outcome = codes "approved";
    comment = [];
    target_hash = codes "h";
    approved_files = [];
    decided_at = 9;
  });
}

decide_runs :
    decide names agrees 9 (some found) (codes "o1") (some approval)
    ≡ ok (approved_gate, approved_gate ∷ [])
unfolding decide same latest_gate last_of gates insert_sorted contains gate_outcomes save_gate
    valid_occurrence decided write_file
decide_runs = refl

decide-Taken_example :
    (w : Found) × (d : Decision) × (g : GateRecord) × (◌≡◌ {A = Option Found} (some found) (some w))
    × (◌≡◌ {A = Option Decision} (some approval) (some d))
    × Taken names agrees 9 w (codes "o1") d g approved_gate (approved_gate ∷ [])
decide-Taken_example =
    decide-Taken names agrees 9 (some found) (codes "o1") (some approval) approved_gate
      (approved_gate ∷ []) decide_runs

abbrev question : QuestionRecord
question = record {
  occurrence = codes "o2";
  seq = 1;
  questions = record { id = codes "q"; text = []; options = codes "yes" ∷ codes "no" ∷ [] } ∷ [];
  opened_at = 1;
  answers = none;
  answered_at = none;
  by_role = true;
  discarded_at = none;
}

-- An option with a note on its second line.
abbrev replies : List (Text × Text)
replies = (codes "q", codes "yes\nsoon") ∷ []

abbrev takes : Text → List (Text × Text) → EngineReply
takes occ answers = accepted

abbrev asked : Asked
asked = record { dir = question ∷ []; running = true }

abbrev answered_question : QuestionRecord
answered_question = record question { answers = some replies; answered_at = some 9 }

answer_runs : answer takes 9 (some asked) (codes "o2") replies ≡ ok (answered_question ∷ [])
unfolding answer last_open open_questions questions unanswered same check_answers answers_fit
    answer_fits cut_line contains lookup all_asked was_asked answered save_question write_question
    valid_occurrence
answer_runs = refl

answer-Saved_example :
    (w : Asked) × (q : QuestionRecord) × (◌≡◌ {A = Option Asked} (some asked) (some w))
    × Saved takes 9 w (codes "o2") replies q (answered_question ∷ [])
answer-Saved_example =
    answer-Saved takes 9 (some asked) (codes "o2") replies (answered_question ∷ []) answer_runs

check_answers_iff_example : (check_answers question replies ≡ true) ↔ (
    ((q : QuestionItem) → q ∈ question.questions → Answered question.by_role replies q)
    × ((a : Text × Text)
        → a ∈ replies
        → (q : QuestionItem) × (q ∈ question.questions) × (q.id ≡ a.0)))
check_answers_iff_example = check_answers_iff question replies
