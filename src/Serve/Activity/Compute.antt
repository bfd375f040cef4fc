-- ===== src/Serve/Activity/Compute.antt =====
-- serve/activity.go: the kind of activity that is shown for a workspace, and the patrol's interval.
use masuda.Common.{
  ℕ, ◌+◌, ◌/◌, List, [], ◌∷◌, Option, none, some, true, false, not, ◌&&◌, if◌then◌else◌, ltb, ◌==◌,
  Text, same,
}
use masuda.Serve.Activity.{
  Activity, InflightReq, drop_inflight_before, inflight_stale, second, liveness_every,
}

-- `workspace.State`.
pub data State : Type 0 where
  starting : State
  running : State
  waiting_gate : State
  waiting_question : State
  stopped : State
  finished : State
  blocked : State
  suspended : State

-- `apiv1.ActivityKind`.
pub data ActivityKind : Type 0 where
  idle : ActivityKind
  at_gate : ActivityKind
  at_question : ActivityKind
  is_dead : ActivityKind
  auth_rejected : ActivityKind
  working : ActivityKind
  waiting_input : ActivityKind
  stalled : ActivityKind

-- `apiv1.Activity`, but for the text that goes with a rejected token.
pub record Shown : Type 0 where
  pub kind : ActivityKind
  pub last_activity : Option ℕ
  pub resource_warning : Text
  pub input_wait : Text
  pub detail : Text

-- The last `switch` of `compute`, for a workspace that is running, with the copy of the activity and
-- what is in flight.
unfoldable pub running_kind : Activity → List (ℕ × InflightReq) → ℕ → ℕ → ActivityKind
running_kind cp inflight stall_after now =
    if cp.dead
    then is_dead
    else if not (cp.auth_rejected == 0)
    then auth_rejected
    else if not (elim inflight [ [] ↦ true | r ∷ rs ↦ false ])
    then working
    else if not (same cp.input_wait [])
    then waiting_input
    else if ltb 0 stall_after && ltb (cp.last + stall_after) now
    then stalled
    else working

shown : ActivityKind → Activity → Shown
shown kind cp = record {
  kind = kind;
  last_activity = some cp.last;
  resource_warning = cp.resource_warning;
  input_wait = [];
  detail = [];
}

unobserved : ActivityKind → Shown
unobserved kind = record {
  kind = kind;
  last_activity = none;
  resource_warning = [];
  input_wait = [];
  detail = [];
}

of_unobserved : State → ActivityKind
of_unobserved waiting_gate = at_gate
of_unobserved waiting_question = at_question
of_unobserved s = idle

-- `compute`, with the copy `cp` and the activity `act` whose stale requests are dropped.
of_observed : State → Activity → Activity → ℕ → ℕ → Shown
of_observed running cp act stall_after now =
    record (shown (running_kind cp act.inflight stall_after now) cp) {
      input_wait = cp.input_wait;
      detail = cp.detail;
    }
of_observed starting cp act stall_after now = record (shown idle cp) { detail = cp.detail }
of_observed waiting_gate cp act stall_after now = shown at_gate cp
of_observed waiting_question cp act stall_after now = shown at_question cp
of_observed s cp act stall_after now = record (shown idle cp) { resource_warning = [] }

-- `compute`: what is shown, and the activity afterwards.
unfoldable pub compute : State → Option Activity → ℕ → ℕ → Shown × Option Activity
unfolding of_unobserved unobserved of_observed shown
compute state none stall_after now = (unobserved (of_unobserved state), none)
compute state (some act) stall_after now =
    let dropped = drop_inflight_before inflight_stale now act in
    (of_observed state act dropped stall_after now, some dropped)

-- The settings of one run, `c.plan.stallAfter`, or 0.
unfoldable pub shortest_of : ℕ → List ℕ → ℕ
shortest_of shortest [] = shortest
shortest_of shortest (s ∷ ss) = shortest_of (if ltb 0 s && ltb s shortest then s else shortest) ss

-- A quarter of a threshold, but no less than a second and no more than `livenessEvery`.
unfoldable pub tick_of : ℕ → ℕ
tick_of shortest =
    let quarter = shortest / 4 in
    let at_least = if ltb quarter second then second else quarter in
    if ltb liveness_every at_least then liveness_every else at_least

-- `patrolTick`.
unfoldable pub patrol_tick : ℕ → ℕ → List ℕ → ℕ
patrol_tick override default plans =
    tick_of (if ltb 0 override then override else shortest_of default plans)

-- `stallFor`, with the run's own setting or 0.
unfoldable pub stall_for : ℕ → ℕ → ℕ → ℕ
stall_for override default plan =
    if ltb 0 override then override else if ltb 0 plan then plan else default
