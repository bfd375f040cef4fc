-- ===== src/Samples/Activity.antt =====
-- An agent whose request never ends, and one that is gone.
use masuda.Common.{ℕ, ◌≡◌, ◌≢◌, refl, ◌↔◌, List, [], ◌∷◌, some, true, false, arith, codes}
use masuda.Serve.Activity.{Activity, http_started, fresh, observe_sandbox, touch}
use masuda.Serve.Activity.Observe.{Observation, observe, Reached, observe_all}
use masuda.Serve.Activity.Compute.{running, working, is_dead, compute}
use masuda.Serve.Activity.Silence.{silence-not_working}
use masuda.Serve.Activity.Death.{some_says_gone, compute-is_dead_iff}

abbrev request : Observation
request =
    Observation.sandbox true
      (http_started 7 (codes "POST") (codes "api.anthropic.com") (codes "/v1/messages"))

abbrev requested : Activity
requested = observe request 5 (fresh 0)

reached : Reached 5 requested
reached = Reached.after 5 request (Reached.start 0) (omega arith)

last_is_5 : requested.last ≡ 5
unfolding observe observe_sandbox touch
last_is_5 = refl

silence-not_working_example :
    (compute running (some requested) 600000000000 900000000000).0.kind ≢ working
silence-not_working_example =
    silence-not_working 5 requested 600000000000 900000000000 reached (omega arith)
      (omega (arith, last_is_5)) (omega (arith, last_is_5))

abbrev trace : List (ℕ × Observation)
trace = (3, Observation.liveness true) ∷ (4, Observation.liveness false) ∷ (5, request) ∷ []

compute-is_dead_iff_example :
    ((compute running (some (observe_all trace (fresh 0))) 600 9).0.kind ≡ is_dead)
    ↔ (some_says_gone trace ≡ true)
compute-is_dead_iff_example = compute-is_dead_iff 0 trace 600 9
