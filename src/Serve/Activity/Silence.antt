-- ===== src/Serve/Activity/Silence.antt =====
-- A request whose end is never seen does not hide that the agent is silent (serve/activity.go).
use masuda.Common.{
  ℕ, ◌≡◌, ◌≢◌, refl, sym, subst, ◌+◌, ◌≤◌, ◌<◌, List, [], ◌∷◌, Option, none, some, Bool, true,
  false, not, ◌&&◌, arith, All, All-map, All-keep, keep, Text,
}
use masuda.Serve.Activity.{
  Activity, InflightReq, HookInput, SandboxEvent, http_started, http_finished, http_denied,
  state_changed, fresh, drop_inflight_before, inflight_stale, find_request, finished,
  started_request, touch, observe_hook, observe_sandbox, observe_liveness, HookEvent, on_hook,
  set_wait, drop_if, set_message, auth_verdict, set_auth, mark_dead, observe_claude_auth,
  without_request,
}
use masuda.Serve.Activity.Observe.{Observation, observe, Reached}
use masuda.Serve.Activity.Compute.{running, working, compute, running_kind}

-- Nothing in flight started after the last activity, and that is not after `t`.
Ordered : ℕ → Activity → Type 0
Ordered t act = (act.last ≤ t) × All (λ (r : ℕ × InflightReq). r.1.started ≤ act.last) act.inflight

Ordered-later : (t t' : ℕ) (act : Activity) → t ≤ t' → Ordered t act → Ordered t' act
unfolding Ordered
Ordered-later t t' act h o = (omega (arith, o.0), o.1)

-- An update that sets the last activity to now, and one that leaves it.
Ordered-now :
    (now : ℕ) (act act' : Activity)
    → Ordered now act
    → act'.last ≡ now
    → act'.inflight ≡ act.inflight
    → Ordered now act'
unfolding Ordered
Ordered-now now act act' o e k =
    (omega (arith, e), rw k (All-map (λ r h. omega (arith, h, e, o.0)) act.inflight o.1))

Ordered-kept :
    (t : ℕ) (act act' : Activity)
    → Ordered t act
    → act'.last ≡ act.last
    → act'.inflight ≡ act.inflight
    → Ordered t act'
unfolding Ordered
Ordered-kept t act act' o e k = rw e (rw k o)

drop_inflight_before-Ordered :
    (age now t : ℕ) (act : Activity) → Ordered t act → Ordered t (drop_inflight_before age now act)
unfolding drop_inflight_before Ordered
drop_inflight_before-Ordered age now t act o = (o.0, All-keep _ _ act.inflight o.1)

Ordered-started :
    (now : ℕ) (act : Activity)
    → Ordered now act
    → All (λ (r : ℕ × InflightReq). r.1.started ≤ now) act.inflight
unfolding Ordered
Ordered-started now act o = All-map (λ r h. omega (arith, h, o.0)) act.inflight o.1

mark_dead-Ordered :
    (dead : Bool) (why : Text) (t : ℕ) (act : Activity)
    → Ordered t act
    → Ordered t (mark_dead dead why act)
mark_dead-Ordered false why t act o = o
mark_dead-Ordered true why t act o = Ordered-kept t act _ o refl refl

set_wait-Ordered : (w : Text) (t : ℕ) (act : Activity) → Ordered t act → Ordered t (set_wait w act)
unfolding set_wait
set_wait-Ordered [] t act o = o
set_wait-Ordered (c ∷ w) t act o = Ordered-kept t act _ o refl refl

drop_if-Ordered :
    (b : Bool) (now : ℕ) (act : Activity) → Ordered now act → Ordered now (drop_if b now act)
unfolding drop_if
drop_if-Ordered false now act o = o
drop_if-Ordered true now act o = drop_inflight_before-Ordered _ now now act o

set_message-Ordered :
    (m : Text) (t : ℕ) (act : Activity) → Ordered t act → Ordered t (set_message m act)
unfolding set_message
set_message-Ordered [] t act o = o
set_message-Ordered (c ∷ m) t act o = Ordered-kept t act _ o refl refl

on_hook-Ordered :
    (e : HookEvent) (i : HookInput) (now : ℕ) (act : Activity)
    → Ordered now act
    → Ordered now (on_hook e i now act)
unfolding on_hook touch
on_hook-Ordered HookEvent.notification i now act o =
    set_message-Ordered i.message now _ (drop_if-Ordered _ now _ (set_wait-Ordered _ now act o))
on_hook-Ordered HookEvent.post_tool_use i now act o = Ordered-now now act _ o refl refl
on_hook-Ordered HookEvent.permission_request i now act o = Ordered-now now act _ o refl refl
on_hook-Ordered HookEvent.turn_end i now act o = Ordered-now now act _ o refl refl
on_hook-Ordered HookEvent.session_end i now act o = mark_dead-Ordered true _ now act o
on_hook-Ordered HookEvent.other i now act o = o

set_auth-inflight : (s : Option ℕ) (act : Activity) → (set_auth s act).inflight ≡ act.inflight
set_auth-inflight none act = refl
set_auth-inflight (some v) act = refl

observe_sandbox-Ordered :
    (live : Bool) (e : SandboxEvent) (now : ℕ) (act : Activity)
    → Ordered now act
    → Ordered now (observe_sandbox live e now act)
unfolding observe_sandbox observe_claude_auth touch without_request started_request Ordered
observe_sandbox-Ordered live (http_started id method host path) now act o =
    (omega arith, (omega arith, All-keep _ _ act.inflight (Ordered-started now act o)))
observe_sandbox-Ordered live (http_finished id status ms) now act o =
    let verdict = auth_verdict (finished (find_request id act.inflight) status ms) in
    (
      omega arith,
      All-keep (λ (r : ℕ × InflightReq). r.1.started ≤ now) _ (set_auth verdict act).inflight
          (subst (All (λ (r : ℕ × InflightReq). r.1.started ≤ now))
            (sym (set_auth-inflight verdict act)) (Ordered-started now act o)),
    )
observe_sandbox-Ordered live (http_denied host reason) now act o = o
observe_sandbox-Ordered live (state_changed over name detail) now act o =
    mark_dead-Ordered (over && live) _ now act o

observe-Ordered :
    (o : Observation) (now : ℕ) (act : Activity) → Ordered now act → Ordered now (observe o now act)
unfolding observe observe_liveness observe_hook
observe-Ordered (Observation.hook i) now act h = on_hook-Ordered _ i now act h
observe-Ordered (Observation.sandbox live e) now act h = observe_sandbox-Ordered live e now act h
observe-Ordered (Observation.liveness alive) now act h = mark_dead-Ordered (not alive) _ now act h
observe-Ordered Observation.computed now act h = drop_inflight_before-Ordered _ now now act h
observe-Ordered (Observation.warning text) now act h = Ordered-kept now _ _ h refl refl

Reached-Ordered : (t : ℕ) (act : Activity) → Reached t act → Ordered t act
unfolding Ordered fresh
Reached-Ordered _ _ (Reached.start t) = (omega arith, tt)
Reached-Ordered _ _ (Reached.after {t} {act} t' o r h) =
    observe-Ordered o t' act (Ordered-later t t' act h (Reached-Ordered t act r))

keep-none : {A : Type 0} (p : A → Bool) (xs : List A) → All (λ x. p x ≡ false) xs → keep p xs ≡ []
keep-none p [] h = refl
keep-none p (x ∷ xs) h = rw h.0 (keep-none p xs h.1)

drop_inflight_before-none :
    (age now t : ℕ) (act : Activity)
    → Ordered t act
    → act.last + age ≤ now
    → (drop_inflight_before age now act).inflight ≡ []
unfolding drop_inflight_before Ordered
drop_inflight_before-none age now t act o h =
    keep-none _ act.inflight (All-map (λ r k. ground (arith, k, h)) act.inflight o.1)

running_kind-silent :
    (cp : Activity) (stall_after now : ℕ)
    → 0 < stall_after
    → cp.last + stall_after < now
    → running_kind cp [] stall_after now ≢ working
unfolding running_kind
running_kind-silent cp stall_after now h k = λ e. ground (arith, h, k, e)

-- In a workspace that runs, an agent of which nothing was seen for longer than the threshold, and for
-- as long as a request counts as in flight, is not shown as working: whatever hooks, requests and
-- checks came before, with ends that never came among them.
pub silence-not_working :
    (t : ℕ) (act : Activity) (stall_after now : ℕ)
    → Reached t act
    → 0 < stall_after
    → act.last + stall_after < now
    → act.last + inflight_stale ≤ now
    → (compute running (some act) stall_after now).0.kind ≢ working
unfolding compute
silence-not_working t act stall_after now r h k l = λ e.
    running_kind-silent act stall_after now h k (
      subst (λ rs. running_kind act rs stall_after now ≡ working)
        (drop_inflight_before-none inflight_stale now t act (Reached-Ordered t act r) l) e)
