-- ===== src/Serve/Lifecycle/Resume/Rollback.antt =====
-- What `Resume` leaves behind where it fails (serve/lifecycle.go).
use masuda.Common.{◌≡◌, ◌⊎◌, List, Option}
use masuda.Common.{err}
use masuda.Serve.Result.{Code, Reply}
use masuda.Serve.Activity.Compute.{State}
use masuda.Serve.Reflect.{Meta}
use masuda.Serve.Lifecycle.{Life, Written, written_late}

-- How `workspace.json` and the agents' ids look after a Resume that failed.
abbrev pub RolledBack : List Written → Life → Life → Type 0
RolledBack late l l' =
    ((l'.meta ≡ l.meta) ⊎ (l'.meta ≡ written_late late l.meta)) × (l'.subagents ≡ l.subagents)

-- A result that, where it is an error, has the workspace's file as it was or as it was read, and the
-- ids as they were.
abbrev Undone : Option Meta → Life → Life × Reply State → Type 0
Undone m l r =
    (c : Code)
    → r.1 ≡ err c
    → ((r.0.meta ≡ m) ⊎ (r.0.meta ≡ l.meta)) × (r.0.subagents ≡ l.subagents)
