-- ===== src/Serve/Activity/Observe.antt =====
-- The updates of an activity, as one type, and the activities that they lead to (serve/activity.go).
use masuda.Common.{ℕ, ◌≤◌, List, [], ◌∷◌, Bool, Text}
use masuda.Serve.Activity.{
  Activity, HookInput, SandboxEvent, fresh, drop_inflight_before, inflight_stale, observe_hook,
  observe_sandbox, observe_liveness,
}

-- A hook of the guest, an event of the sandbox, a check of the tmux session, a call of `compute`, and
-- a warning that `checkResources` sets.
pub data Observation : Type 0 where
  hook : HookInput → Observation
  sandbox : Bool → SandboxEvent → Observation
  liveness : Bool → Observation
  computed : Observation
  warning : Text → Observation

unfoldable pub observe : Observation → ℕ → Activity → Activity
observe (hook i) now act = observe_hook i now act
observe (sandbox live e) now act = observe_sandbox live e now act
observe (liveness alive) now act = observe_liveness alive act
observe computed now act = drop_inflight_before inflight_stale now act
observe (warning text) now act = record (act) { resource_warning = text }

-- The activities that a workspace's run comes to, with the time of the last update.
pub data Reached : ℕ → Activity → Type 0 where
  start : (t : ℕ) → Reached t (fresh t)
  after :
      {t : ℕ} {act : Activity} (t' : ℕ) (o : Observation)
      → Reached t act
      → t ≤ t'
      → Reached t' (observe o t' act)

-- Observations with their times, from the first on.
unfoldable pub observe_all : List (ℕ × Observation) → Activity → Activity
observe_all [] act = act
observe_all ((t, o) ∷ os) act = observe_all os (observe o t act)
