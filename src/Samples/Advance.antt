-- ===== src/Samples/Advance.antt =====
-- Two callers of one loop, and a status at a gate.
use masuda.Common.{◌≡◌, refl, ◌≤◌, ◌↔◌, [], none, true, false, arith, ◌∈◌, length, codes}
use masuda.Serve.Activity.Compute.{running}
use masuda.Serve.Advance.{AdvanceState, idle, kick, take}
use masuda.Serve.Advance.Progress.{one_advance, kick_completes}
use masuda.Serve.Advance.Steps.{LoopStep, Step, Reach, Loops}
use masuda.Serve.Reflect.{done, Status, Meta, Names, reflect, wakes_main_session}
use masuda.Serve.Reflect.Agree.{Settled, wakes_main_session_iff}

-- The second call comes while the first run goes on.
abbrev after_two : AdvanceState
after_two = (kick (take 0 (kick idle).1)).1

one_at_top : (kick idle).1.tops ≡ 1
unfolding kick idle
one_at_top = refl

reached : Reach after_two
reached =
    Reach.next
      (Reach.next (Reach.next Reach.here (Step.kicked idle))
        (Step.looped (LoopStep.took (kick idle).1 0 one_at_top)))
      (Step.kicked (take 0 (kick idle).1))

one_advance_example : length after_two.busy ≤ 1
one_advance_example = one_advance {s = after_two} reached

two_made : after_two.made ≡ 2
unfolding kick take idle
two_made = refl

kick_completes_example : (t : AdvanceState) × Loops after_two t × (1 ∈ t.done)
kick_completes_example = kick_completes {s = after_two} reached 1 (omega (arith, two_made))

abbrev names : Names
names = record { outcome_done = codes "done"; kind_text = λ k. codes "kind" }

abbrev ended : Status
ended = record {
  kind = done;
  occurrence = codes "o1";
  agent_name = none;
  gate = none;
  outcome = codes "needs_human";
  reason = [];
}

abbrev meta : Meta
meta = record { state = running; reason = []; outcome = []; position = [] }

wakes_main_session_iff_example :
    (wakes_main_session ended none ≡ true)
    ↔ Settled (reflect names false none ended (codes "why") meta).state
wakes_main_session_iff_example = wakes_main_session_iff names none ended (codes "why") meta tt
