-- ===== src/Serve/Advance.antt =====
-- serve/run.go, `kick` and `advanceLoop`: the runs of `advance` that callers ask for, one at a time
-- and behind their backs. A run is a number; each function is one section under `advMu`. The direct
-- calls of `advance` by `decide`, `answer` and `boot`, which `c.mu` serialises, are not part of it.
pub mod Steps
pub mod Progress
use masuda.Common.{ℕ, suc, ◌+◌, List, [], ◌∷◌, Option, none, some, Bool, true, false, if◌then◌else◌}

-- `advRunning` and `advNext`; how many runs were made, how many loops stand at the top of their `for`,
-- the runs whose `advance` is going on, those whose `done` is closed, and whether the context is over.
pub record AdvanceState : Type 0 where
  pub running : Bool
  pub next : Option ℕ
  pub made : ℕ
  pub tops : ℕ
  pub busy : List ℕ
  pub done : List ℕ
  pub stopped : Bool

unfoldable pub idle : AdvanceState
idle = record {
  running = false;
  next = none;
  made = 0;
  tops = 0;
  busy = [];
  done = [];
  stopped = false;
}

abbrev run_of : ℕ → Option ℕ → ℕ
run_of made none = made
run_of made (some r) = r

abbrev made_with : ℕ → Option ℕ → ℕ
made_with made none = made + 1
made_with made (some r) = made

abbrev loops_with : Bool → ℕ → ℕ
loops_with true tops = tops
loops_with false tops = suc tops

-- `kick`: the run that it returns, and the state; it starts a loop where none runs.
unfoldable pub kick : AdvanceState → ℕ × AdvanceState
kick s = (
  run_of s.made s.next,
  record s {
    running = true;
    next = some (run_of s.made s.next);
    made = made_with s.made s.next;
    tops = loops_with s.running s.tops;
  },
)

abbrev take_run : ℕ → AdvanceState → Option ℕ → Bool → AdvanceState
take_run tops s none stopped = record s { running = false; tops = tops }
take_run tops s (some r) true = record s {
  running = false;
  next = none;
  tops = tops;
  done = r ∷ s.done;
}
take_run tops s (some r) false = record s { next = none; tops = tops; busy = r ∷ s.busy }

-- The section at the top of the `for`, which leaves `tops` other loops there.
unfoldable pub take : ℕ → AdvanceState → AdvanceState
take tops s = take_run tops s s.next s.stopped

-- `advance` has returned for `r`, and `done` is closed.
unfoldable pub finish : ℕ → List ℕ → AdvanceState → AdvanceState
finish r rs s = record s { tops = suc s.tops; busy = rs; done = r ∷ s.done }

-- The context of the run is over.
unfoldable pub stop : AdvanceState → AdvanceState
stop s = record s { stopped = true }
