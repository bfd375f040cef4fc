-- ===== src/Serve/Events.antt =====
-- serve/events.go: the numbered events, the buffer that is kept for resending, and `Watch`, whose
-- start and whose calls of `since` are sections of their own. `B` is what an event carries beside its
-- number and workspace; `size` is `eventBufferSize`.
pub mod Resend
use masuda.Common.{
  ℕ, ◌+◌, ◌≤◌, List, [], ◌∷◌, ◌++◌, Bool, true, false, ◌&&◌, ◌||◌, not, if◌then◌else◌, ltb, ◌==◌,
  length, take_last, keep, Text, same,
}

abbrev pub event_buffer_size : ℕ
event_buffer_size = 10000

pub record Event (B : Type 0) : Type 0 where
  pub seq : ℕ
  pub workspace_id : Text
  pub body : B

pub record EventBus (B : Type 0) : Type 0 where
  pub seq : ℕ
  pub events : List (Event B)

pub data WatchStart : Type 0 where
  beyond_latest too_old : WatchStart
  -- The current state is sent first, then what follows this number.
  snapshot : ℕ → WatchStart
  resume : ℕ → WatchStart

module _ {B : Type 0} where
  unfoldable pub new_bus : EventBus B
  new_bus = record { seq = 0; events = [] }

  -- `publishLocked`.
  unfoldable pub publish : ℕ → Text → B → EventBus B → EventBus B
  publish size id body e =
      let events = e.events ++ record { seq = e.seq + 1; workspace_id = id; body = body } ∷ [] in
      record {
        seq = e.seq + 1;
        events = if ltb size (length events) then take_last size events else events;
      }

  -- The test of `since`.
  abbrev pub wanted : ℕ → Text → Event B → Bool
  wanted seq id ev =
      ltb seq ev.seq && (same id [] || same ev.workspace_id id || same ev.workspace_id [])

  -- `since`, with the number to go on from.
  unfoldable pub since : ℕ → Text → EventBus B → List (Event B) × ℕ
  since seq id e = (keep (wanted seq id) e.events, e.seq)

  unfoldable pub publish_all : ℕ → EventBus B → List (Text × B) → EventBus B
  publish_all size e [] = e
  publish_all size e ((id, body) ∷ ds) = publish_all size (publish size id body e) ds

  -- The loop of `Watch` from `next` on, with what others publish before each of its calls of `since`:
  -- all that it sends, and its `next` afterwards. Each call is a section of its own.
  unfoldable pub watch_loop :
      ℕ → Text → ℕ → EventBus B → List (List (Text × B)) → List (Event B) × ℕ
  watch_loop size id next e [] = ([], next)
  watch_loop size id next e (ds ∷ rounds) =
      let e' = publish_all size e ds in
      let (evs, head) = since next id e' in
      let (later, last) = watch_loop size id head e' rounds in (evs ++ later, last)

  abbrev oldest_of : ℕ → List (Event B) → ℕ
  oldest_of seq [] = seq + 1
  oldest_of seq (ev ∷ evs) = ev.seq

  -- `window`.
  unfoldable pub window : EventBus B → ℕ × ℕ
  window e = (oldest_of e.seq e.events, e.seq)

  -- The tests at the start of `Watch`.
  unfoldable pub watch_start : ℕ → EventBus B → WatchStart
  unfolding window
  watch_start after e =
      let (oldest, head) = window e in
      if ltb head after
      then beyond_latest
      else if not (after == 0) && ltb (after + 1) oldest
      then too_old
      else if after == 0
      then snapshot head
      else resume after
