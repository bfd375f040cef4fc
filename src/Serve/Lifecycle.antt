-- ===== src/Serve/Lifecycle.antt =====
-- serve/lifecycle.go: stopping, resuming and removing one workspace, and the recovery when the process
-- starts. These operations exclude each other by `lifeMu`. Boots and advances do not take it: what
-- they write to `workspace.json` while an operation is under way is part of its input. Exports, keys
-- and events are left out.
pub mod Resume
use masuda.Common.{
  List, [], ◌∷◌, ◌++◌, Option, none, some, Bool, true, false, ◌&&◌, ◌||◌, not, if◌then◌else◌, Text,
  codes, map,
}
use masuda.Common.{Result, ok, err}
use masuda.Serve.Result.{Code, not_found, failed_precondition, internal, Reply}
use masuda.Serve.Activity.Compute.{
  State, starting, running, waiting_gate, waiting_question, stopped, finished, blocked, suspended,
}
use masuda.Serve.Reflect.{Meta, Names, Status, reflect}
use masuda.Workspace.Questions.{QuestionRecord}

-- The run of a workspace (`runCtl`): whether its guest is ready, and whether it was set up by Resume.
pub record RunCtl : Type 0 where
  pub booted : Bool
  pub resumed : Bool

-- A workspace and what the process holds for it: `workspace.json`, the run, the sandbox, and of the
-- records the questions and the agents' ids.
pub record Life : Type 0 where
  pub meta : Option Meta
  pub ctl : Option RunCtl
  pub sandbox : Bool
  pub questions : List QuestionRecord
  pub subagents : List (Text × Text)

-- `active`.
unfoldable pub active : State → Bool
active starting = true
active running = true
active waiting_gate = true
active waiting_question = true
active stopped = false
active finished = false
active blocked = false
active suspended = false

-- `resumable`.
unfoldable pub resumable : State → Bool
resumable stopped = true
resumable suspended = true
resumable starting = false
resumable running = false
resumable waiting_gate = false
resumable waiting_question = false
resumable finished = false
resumable blocked = false

-- `bootFailedReason`.
abbrev pub boot_failed_reason : Text
boot_failed_reason = codes "sandbox boot failed: "

-- `update`: a workspace that is gone is left alone, and so is one whose file cannot be written.
unfoldable pub update : Bool → (Meta → Meta) → Option Meta → Option Meta
update saved f none = none
update true f (some w) = some (f w)
update false f (some w) = some w

unfoldable pub boot_failed : Text → Meta → Meta
boot_failed why w = record w { state = suspended; reason = boot_failed_reason ++ why }

-- What boots and advances of the run write while an operation is under way: the reason of a boot that
-- failed (`bootSandbox`), or the result of an advance whose context was not cancelled when `reflect`
-- looked.
pub data Written : Type 0 where
  boot_fails : (why : Text) → Written
  reflects : Names → Option Text → Status → (feedback : Text) → Written

unfoldable pub write_one : Written → Meta → Meta
write_one (boot_fails why) = boot_failed why
write_one (reflects names e st feedback) = reflect names false e st feedback

unfoldable pub written_late : List Written → Option Meta → Option Meta
written_late [] meta = meta
written_late (x ∷ xs) meta = written_late xs (update true (write_one x) meta)

-- `stopRun`.
unfoldable pub stop_run : List Written → Life → Life
stop_run late l = record l { meta = written_late late l.meta; ctl = none; sandbox = false }

abbrev pub set_state : State → Meta → Meta
set_state s w = record w { state = s }

-- The end of `Stop`, behind the second `lookup`.
stop_saved : Bool → Bool → Option Meta → Life → Life × Reply State
stop_saved saved was_blocked none l = (l, err not_found)
stop_saved saved true (some w) l = (l, ok w.state)
stop_saved true false (some w) l = (record l { meta = some (set_state stopped w) }, ok stopped)
stop_saved false false (some w) l = (l, err internal)

stop_in : State → Bool → List Written → Life → Life × Reply State
unfolding stop_saved
stop_in stopped saved late l = (l, ok stopped)
stop_in finished saved late l = (l, err failed_precondition)
stop_in blocked saved late l = stop_saved saved true (stop_run late l).meta (stop_run late l)
stop_in _ saved late l = stop_saved saved false (stop_run late l).meta (stop_run late l)

pub stop_of : Option Meta → Bool → List Written → Life → Life × Reply State
unfolding stop_in
stop_of none saved late l = (l, err not_found)
stop_of (some w) saved late l = stop_in w.state saved late l

-- `Stop`, with the state that it answers; `saved` where the file is written.
unfoldable pub stop : Bool → List Written → Life → Life × Reply State
unfolding stop_of
stop saved late l = stop_of l.meta saved late l

-- How far `RemoveKeepExports` comes: the listing of the directory or the removal of `workspace.json`
-- fails, another file cannot be removed, or all but the exports is gone.
pub data Removal : Type 0 where
  untouched half whole : Removal

removed_as : Removal → Life → Life × Reply (Unit {0})
removed_as untouched l = (l, err internal)
removed_as half l = (record l { meta = none }, err internal)
removed_as whole l = (record l { meta = none; questions = []; subagents = [] }, ok tt)

pub remove_of : Option Meta → Removal → Bool → List Written → Life → Life × Reply (Unit {0})
unfolding removed_as
remove_of none removal force late l = (l, err not_found)
remove_of (some w) removal force late l =
    if active w.state && not force
    then (l, err failed_precondition)
    else removed_as removal (stop_run late l)

-- `Remove`.
unfoldable pub remove : Removal → Bool → List Written → Life → Life × Reply (Unit {0})
unfolding remove_of
remove removal force late l = remove_of l.meta removal force late l

interrupted : Meta → Meta
interrupted w = if active w.state then set_state stopped w else w

-- `recoverInterrupted` on one workspace of a process that starts: no run is there, and the sandbox of
-- a workspace that was active is destroyed.
unfoldable pub recovered : Option Meta → Life → Life
unfolding interrupted
recovered none l = record l { ctl = none }
recovered (some w) l = record l {
  meta = some (interrupted w);
  ctl = none;
  sandbox = l.sandbox && not (active w.state);
}

unfoldable pub recover : List Life → List Life
recover = map (λ l. recovered l.meta l)
