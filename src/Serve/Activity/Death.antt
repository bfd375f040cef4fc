-- ===== src/Serve/Activity/Death.antt =====
-- What makes an agent count as dead, and that it stays so (serve/activity.go).
use masuda.Common.{
  ℕ, ◌≡◌, refl, sym, ◌∙◌, ◌↔◌, List, [], ◌∷◌, Option, none, some, Bool, true, false, not, ◌&&◌,
  ◌||◌, arith, Text, codes,
}
use masuda.Serve.Activity.{
  Activity, InflightReq, HookInput, HookEvent, http_started, http_finished, http_denied,
  state_changed, fresh, drop_inflight_before, inflight_stale, touch, hook_event, on_hook,
  observe_hook, observe_sandbox, observe_liveness, observe_claude_auth, set_auth, mark_dead,
  set_wait, drop_if, set_message,
}
use masuda.Serve.Activity.Observe.{Observation, observe, observe_all}
use masuda.Serve.Activity.Compute.{running, is_dead, compute, running_kind}

-- The observations that say that the agent is gone: the guest's session ended, the sandbox stopped or
-- failed while it was watched, or the tmux session is not there.
unfoldable pub says_gone : Observation → Bool
unfolding hook_event
says_gone (Observation.hook i) = elim (hook_event i.event) [
  | HookEvent.session_end ↦ true
  | _ ↦ false
]
says_gone (Observation.sandbox live (state_changed over name detail)) = over && live
says_gone (Observation.sandbox live _) = false
says_gone (Observation.liveness alive) = not alive
says_gone Observation.computed = false
says_gone (Observation.warning text) = false

unfoldable pub some_says_gone : List (ℕ × Observation) → Bool
some_says_gone [] = false
some_says_gone ((t, o) ∷ os) = says_gone o || some_says_gone os

dead-mark_dead :
    (b : Bool) (why : Text) (act : Activity) → (mark_dead b why act).dead ≡ (act.dead || b)
dead-mark_dead false why act = ground arith
dead-mark_dead true why act = ground arith

dead-set_wait : (w : Text) (act : Activity) → (set_wait w act).dead ≡ act.dead
unfolding set_wait
dead-set_wait [] act = refl
dead-set_wait (c ∷ w) act = refl

dead-drop_if : (b : Bool) (now : ℕ) (act : Activity) → (drop_if b now act).dead ≡ act.dead
unfolding drop_if drop_inflight_before
dead-drop_if false now act = refl
dead-drop_if true now act = refl

dead-set_message : (m : Text) (act : Activity) → (set_message m act).dead ≡ act.dead
unfolding set_message
dead-set_message [] act = refl
dead-set_message (c ∷ m) act = refl

dead-set_auth : (s : Option ℕ) (act : Activity) → (set_auth s act).dead ≡ act.dead
dead-set_auth none act = refl
dead-set_auth (some v) act = refl

or_false : (b : Bool) → b ≡ (b || false)
or_false b = ground arith

dead-on_hook :
    (e : HookEvent) (i : HookInput) (now : ℕ) (act : Activity)
    → (on_hook e i now act).dead
      ≡ (act.dead || (elim e [ HookEvent.session_end ↦ true | _ ↦ false ]))
unfolding on_hook touch
dead-on_hook HookEvent.notification i now act =
    dead-set_message i.message _ ∙ dead-drop_if _ now _ ∙ dead-set_wait _ act ∙ or_false act.dead
dead-on_hook HookEvent.post_tool_use i now act = or_false act.dead
dead-on_hook HookEvent.permission_request i now act = or_false act.dead
dead-on_hook HookEvent.turn_end i now act = or_false act.dead
dead-on_hook HookEvent.session_end i now act =
    dead-mark_dead true (codes "claude session ended") act
dead-on_hook HookEvent.other i now act = or_false act.dead

dead-observe :
    (o : Observation) (now : ℕ) (act : Activity)
    → (observe o now act).dead ≡ (act.dead || says_gone o)
unfolding observe says_gone observe_hook observe_liveness observe_sandbox observe_claude_auth touch
    drop_inflight_before
dead-observe (Observation.hook i) now act = dead-on_hook (hook_event i.event) i now act
dead-observe (Observation.sandbox live (http_started id method host path)) now act =
    or_false act.dead
dead-observe (Observation.sandbox live (http_finished id status ms)) now act =
    dead-set_auth _ act ∙ or_false act.dead
dead-observe (Observation.sandbox live (http_denied host reason)) now act = or_false act.dead
dead-observe (Observation.sandbox live (state_changed over name detail)) now act =
    dead-mark_dead (over && live) _ act
dead-observe (Observation.liveness alive) now act = dead-mark_dead (not alive) _ act
dead-observe Observation.computed now act = or_false act.dead
dead-observe (Observation.warning text) now act = or_false act.dead

dead-observe_all :
    (os : List (ℕ × Observation)) (act : Activity)
    → (observe_all os act).dead ≡ (act.dead || some_says_gone os)
unfolding observe_all some_says_gone
dead-observe_all [] act = or_false act.dead
dead-observe_all ((t, o) ∷ os) act =
    dead-observe_all os (observe o t act) ∙ ground (arith, dead-observe o t act)

running_kind-is_dead :
    (act : Activity) (rs : List (ℕ × InflightReq)) (stall_after now : ℕ)
    → (running_kind act rs stall_after now ≡ is_dead) ↔ (act.dead ≡ true)
unfolding running_kind
running_kind-is_dead act rs stall_after now = ground arith

-- A workspace that runs is shown as dead exactly where, since its run began, some observation said
-- that the agent was gone; whatever comes after that, activity of any kind included, does not take it
-- back.
pub compute-is_dead_iff :
    (start : ℕ) (os : List (ℕ × Observation)) (stall_after now : ℕ)
    → ((compute running (some (observe_all os (fresh start))) stall_after now).0.kind ≡ is_dead)
      ↔ (some_says_gone os ≡ true)
unfolding compute fresh
compute-is_dead_iff start os stall_after now =
    let act = observe_all os (fresh start) in
    let (shown, gone) =
      running_kind-is_dead act (drop_inflight_before inflight_stale now act).inflight stall_after
        now in
    let e : act.dead ≡ some_says_gone os = dead-observe_all os (fresh start) in
    (λ h. sym e ∙ shown h, λ h. gone (e ∙ h))
