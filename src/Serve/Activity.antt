-- ===== src/Serve/Activity.antt =====
-- serve/activity.go: what the host knows of a workspace's agent, and the activity that it reports.
-- Times and durations are nanoseconds; each closure that `update` runs under the lock is one step.
pub mod Compute
pub mod Observe
pub mod Patrol
pub mod Silence
pub mod Death
use masuda.Common.{
  ℕ, ◌+◌, ◌*◌, ◌/◌, List, [], ◌∷◌, ◌++◌, Option, none, some, Bool, true, false, not, ◌&&◌, ◌||◌,
  if◌then◌else◌, ltb, leb, ◌==◌, keep, Text, codes, same, has_prefix,
}

-- `apiv1.HttpActivity`.
pub record HttpActivity : Type 0 where
  pub method : Text
  pub host : Text
  pub path : Text
  pub status : ℕ
  pub duration_ms : ℕ
  pub denied : Bool

pub record InflightReq : Type 0 where
  pub http : HttpActivity
  pub started : ℕ

-- `activity`; the requests in flight are a map by their id.
pub record Activity : Type 0 where
  pub last : ℕ
  pub inflight : List (ℕ × InflightReq)
  pub input_wait : Text
  pub detail : Text
  pub dead : Bool
  pub auth_rejected : ℕ
  pub resource_warning : Text

abbrev pub second : ℕ
second = 1000000000

abbrev pub inflight_stale : ℕ
inflight_stale = 120 * second

abbrev idle_prompt_after : ℕ
idle_prompt_after = 60 * second

abbrev pub liveness_every : ℕ
liveness_every = 30 * second

-- `reset`.
unfoldable pub fresh : ℕ → Activity
fresh now = record {
  last = now;
  inflight = [];
  input_wait = [];
  detail = [];
  dead = false;
  auth_rejected = 0;
  resource_warning = [];
}

-- `dropInflightBefore(now.Add(-age))`: what started at that time or before it goes.
unfoldable pub drop_inflight_before : ℕ → ℕ → Activity → Activity
drop_inflight_before age now act = record (act) {
  inflight = keep (λ r. ltb now (r.1.started + age)) act.inflight;
}

abbrev pub claude_api_host : Text
claude_api_host = codes "api.anthropic.com"

-- What a response says of the token: the status that rejects it, 0 where it was accepted.
auth_verdict : HttpActivity → Option ℕ
auth_verdict h =
    if not (same h.host claude_api_host) || not (has_prefix h.path (codes "/v1/messages"))
    then none
    else if h.status == 401 || h.status == 403
    then some h.status
    else if leb 200 h.status && ltb h.status 300
    then some 0
    else none

abbrev set_auth : Option ℕ → Activity → Activity
set_auth none act = act
set_auth (some status) act = record (act) { auth_rejected = status }

-- `observeClaudeAuth`.
unfoldable pub observe_claude_auth : HttpActivity → Activity → Activity
unfolding auth_verdict
observe_claude_auth h act = set_auth (auth_verdict h) act

-- The agent is found to be gone.
abbrev mark_dead : Bool → Text → Activity → Activity
mark_dead false why act = act
mark_dead true why act = record (act) { dead = true; detail = why }

-- `touch`.
unfoldable pub touch : Text → ℕ → Activity → Activity
touch detail now act = record (act) {
  last = now;
  input_wait = [];
  detail = if same detail [] then act.detail else detail;
}

-- `hookInput`.
pub record HookInput : Type 0 where
  pub event : Text
  pub notification_type : Text
  pub message : Text
  pub tool_name : Text

-- `notificationWait`.
unfoldable pub notification_wait : Text → Text
notification_wait t =
    if same t (codes "idle_prompt")
    then codes "idle"
    else if same t (codes "permission_prompt")
    then codes "permission"
    else if same t (codes "elicitation_dialog")
    then codes "question"
    else []

set_wait : Text → Activity → Activity
set_wait [] act = act
set_wait (c ∷ wait) act = record (act) { input_wait = c ∷ wait }

drop_if : Bool → ℕ → Activity → Activity
unfolding drop_inflight_before
drop_if false now act = act
drop_if true now act = drop_inflight_before idle_prompt_after now act

set_message : Text → Activity → Activity
set_message [] act = act
set_message (c ∷ message) act = record (act) { detail = c ∷ message }

-- The cases of the `switch` in `observeHook`.
pub data HookEvent : Type 0 where
  notification : HookEvent
  post_tool_use : HookEvent
  permission_request : HookEvent
  turn_end : HookEvent
  session_end : HookEvent
  other : HookEvent

hook_event : Text → HookEvent
hook_event e =
    if same e (codes "Notification")
    then notification
    else if same e (codes "PostToolUse")
    then post_tool_use
    else if same e (codes "PermissionRequest")
    then permission_request
    else if same e (codes "Stop") || same e (codes "SubagentStop")
    then turn_end
    else if same e (codes "SessionEnd")
    then session_end
    else other

on_hook : HookEvent → HookInput → ℕ → Activity → Activity
unfolding set_wait drop_if set_message notification_wait
on_hook notification i now act = set_message i.message (
    drop_if (same i.notification_type (codes "idle_prompt")) now
      (set_wait (notification_wait i.notification_type) act))
on_hook post_tool_use i now act = touch (codes "tool " ++ i.tool_name) now act
on_hook permission_request i now act =
    touch (codes "permission denied: tool " ++ i.tool_name) now act
on_hook turn_end i now act = record (act) {
  last = now;
  detail = codes "turn ended (" ++ i.event ++ codes ")";
}
on_hook session_end i now act = mark_dead true (codes "claude session ended") act
on_hook other i now act = act

-- The update of `observeHook`.
unfoldable pub observe_hook : HookInput → ℕ → Activity → Activity
unfolding on_hook hook_event
observe_hook i now act = on_hook (hook_event i.event) i now act

-- The sandbox's events that `watchSandbox` reads; of a change of state, whether the new one is
-- stopped or failed, and its name.
pub data SandboxEvent : Type 0 where
  http_started : ℕ → Text → Text → Text → SandboxEvent
  http_finished : ℕ → ℕ → ℕ → SandboxEvent
  http_denied : Text → Text → SandboxEvent
  state_changed : Bool → Text → Text → SandboxEvent

find_request : ℕ → List (ℕ × InflightReq) → Option InflightReq
find_request id [] = none
find_request id ((i, r) ∷ rs) = if i == id then some r else find_request id rs

without_request : ℕ → List (ℕ × InflightReq) → List (ℕ × InflightReq)
without_request id = keep (λ r. not (r.0 == id))

-- The request that ended, with its start's method, host and path where that is known.
finished : Option InflightReq → ℕ → ℕ → HttpActivity
finished none status ms = record {
  method = [];
  host = [];
  path = [];
  status = status;
  duration_ms = ms;
  denied = false;
}
finished (some r) status ms = record {
  method = r.http.method;
  host = r.http.host;
  path = r.http.path;
  status = status;
  duration_ms = ms;
  denied = false;
}

started_request : Text → Text → Text → ℕ → InflightReq
started_request method host path now = record {
  http = record {
    method = method;
    host = host;
    path = path;
    status = 0;
    duration_ms = 0;
    denied = false;
  };
  started = now;
}

-- The updates of `watchSandbox`; `live` is `ctx.Err() == nil`.
unfoldable pub observe_sandbox : Bool → SandboxEvent → ℕ → Activity → Activity
unfolding find_request without_request finished started_request
observe_sandbox live (http_started id method host path) now act = touch [] now (record (act) {
  inflight = (id, started_request method host path now) ∷ without_request id act.inflight;
})
observe_sandbox live (http_finished id status ms) now act =
    let seen = observe_claude_auth (finished (find_request id act.inflight) status ms) act in
    touch [] now (record (seen) { inflight = without_request id seen.inflight })
observe_sandbox live (http_denied host reason) now act = record (act) {
  detail = codes "denied " ++ host ++ codes ": " ++ reason;
}
observe_sandbox live (state_changed over name detail) now act =
    mark_dead (over && live) (codes "sandbox " ++ name ++ codes " " ++ detail) act

-- The update of `patrol` for a run whose tmux session is or is not alive.
unfoldable pub observe_liveness : Bool → Activity → Activity
observe_liveness alive = mark_dead (not alive) (codes "tmux session claude-work is gone")
