-- ===== src/Serve/Wake/Delivery.antt =====
-- No wake-up is lost between an event and a `next_task` that returns `waiting`, in any interleaving
-- of the sections of serve/run.go and serve/wake.go.
use masuda.Common.{
  ℕ, suc, ◌+◌, ◌≤◌, ◌<◌, ◌≡◌, refl, ◌⊎◌, ◌-◌, some, inl, inr, Bool, true, false, if◌then◌else◌,
  arith,
}
use masuda.Serve.Wake.{
  wake_max_sends, wake_retry_after, RunCtl, new_ctl, count_event, request_wake, mark_waiting,
  undelivered, clear_waiting, begin_wake, end_wake,
}

-- The control state, what `next_task` last read as `seen`, the requests that goroutines have still to
-- make, whether an event that wakes came after that reading, and how many sendings to the session have
-- succeeded since `next_task` last arrived.
pub record System : Type 0 where
  pub ctl : RunCtl
  pub seen : ℕ
  pub pending : ℕ
  pub fresh : Bool
  pub woken : ℕ

unfoldable pub start : System
start = record { ctl = new_ctl; seen = 0; pending = 0; fresh = false; woken = 0 }

-- A section that one of the goroutines runs.
pub data Step : System → System → Type 0 where
  -- `next_task` arrives.
  arrive : (s : System) → Step s (record s { ctl = clear_waiting s.ctl; woken = 0 })
  -- `next_task` reads `currentSeq`.
  look : (s : System) → Step s (record s { seen = s.ctl.seq; fresh = false })
  -- An event that does not wake (`bump(false)`).
  count : (s : System) → Step s (record s { ctl = count_event s.ctl })
  -- An event that wakes: `bump(true)` counts it, and its request is still to come.
  event :
      (s : System)
      → Step s (record s { ctl = count_event s.ctl; pending = s.pending + 1; fresh = true })
  -- One of the requests is made.
  request :
      (s : System) (n : ℕ)
      → s.pending ≡ suc n
      → Step s (record s { ctl = request_wake s.ctl; pending = n })
  -- `next_task` returns `waiting`.
  mark :
      (s : System)
      → Step s (record s {
        ctl = (mark_waiting s.seen s.ctl).0;
        pending = if (mark_waiting s.seen s.ctl).1 then s.pending + 1 else s.pending;
      })
  -- The answer of `next_task` did not reach the guest.
  lose : (s : System) → Step s (record s { ctl = undelivered s.ctl; pending = s.pending + 1 })
  -- `tryWake` passes its test and sends.
  send :
      (s : System) (now : ℕ) (c : RunCtl)
      → begin_wake now s.ctl ≡ some c
      → Step s (record s { ctl = c })
  -- `tryWake` comes back from sending.
  finish :
      (s : System) (sent : Bool) (now : ℕ)
      → s.ctl.waking ≡ true
      → Step s (record s {
        ctl = end_wake sent now s.ctl;
        woken = if sent then s.woken + 1 else s.woken;
      })

pub data Reach (s : System) : System → Type 0 where
  here : Reach s s
  next : {t u : System} → Reach s t → Step t u → Reach s u

record Inv (s : System) : Type 0 where
  -- What was read is no later than the counter, and earlier where an event came since.
  read : s.seen ≤ s.ctl.seq
  later : s.fresh ≡ true → s.seen < s.ctl.seq
  -- An event since the reading is not lost on a session that was told to wait.
  kept : s.fresh ≡ true → s.ctl.waiting ≡ true → (s.ctl.want_wake ≡ true) ⊎ (0 < s.pending)
  counted : s.woken ≡ s.ctl.wake_sends
  bounded : s.ctl.wake_sends ≤ wake_max_sends
  in_flight : s.ctl.waking ≡ true → s.ctl.wake_sends < wake_max_sends

Step-Inv : {s t : System} → Step s t → Inv s → Inv t
unfolding clear_waiting count_event request_wake mark_waiting undelivered begin_wake end_wake
Step-Inv (arrive s) v = record {
  read = v.read;
  later = v.later;
  kept = λ f w. cc;
  counted = refl;
  bounded = omega arith;
  in_flight = λ w. omega arith;
}
Step-Inv (look s) v = ground arith
Step-Inv (count s) v = ground arith
Step-Inv (event s) v = ground arith
Step-Inv (request s n e) v = ground arith
Step-Inv (mark s) v = ground arith
Step-Inv (lose s) v = ground arith
Step-Inv (send s now c e) v = ground arith
Step-Inv (finish s true now w) v = ground arith
Step-Inv (finish s false now w) v = ground arith

start-Inv : Inv start
unfolding start new_ctl
start-Inv = record {
  read = omega arith;
  later = λ f. cc;
  kept = λ f w. cc;
  counted = refl;
  bounded = omega arith;
  in_flight = λ w. cc;
}

Reach-Inv : {s : System} → Reach start s → Inv s
Reach-Inv here = start-Inv
Reach-Inv (next r st) = Step-Inv st (Reach-Inv r)

begin_wake-passes :
    (now : ℕ) (c : RunCtl)
    → c.waiting ≡ true
    → c.want_wake ≡ true
    → c.waking ≡ false
    → c.wake_sends < wake_max_sends
    → (c.wake_sends ≡ 0) ⊎ (wake_retry_after ≤ now - c.wake_sent_at)
    → begin_wake now c ≡ some (record c { waking = true })
unfolding begin_wake
begin_wake-passes now c w k i m z = ground arith

-- A send that ends, with success or without, gives way to the next.
ended-passes :
    (sent : Bool) (ended now : ℕ) (c : RunCtl)
    → c.waiting ≡ true
    → c.want_wake ≡ true
    → c.wake_sends < 2
    → wake_retry_after ≤ now - ended
    → wake_retry_after ≤ now - c.wake_sent_at
    → begin_wake now (end_wake sent ended c)
      ≡ some (record (end_wake sent ended c) { waking = true })
unfolding end_wake
ended-passes true ended now c w k n e f =
    begin_wake-passes now _ w k refl (omega (arith, n)) (inr e)
ended-passes false ended now c w k n e f =
    begin_wake-passes now _ w k refl (omega (arith, n)) (inr f)

-- In every reachable state: where an event that wakes came after `next_task` read the counter, and
-- the session has been told to wait, and every request has been made, then a wake is wanted. If
-- moreover no wake is in flight, `tryWake` passes its test at any time where none has been sent since
-- `next_task` arrived, and where fewer than three have been, once a minute has passed since the last.
-- A send in flight holds it up only until it ends, with success or without: where fewer than two had
-- been sent before, `tryWake` passes its test again once a minute has passed since that end and since
-- the last sending that succeeded.
pub event_is_delivered :
    {s : System}
    → Reach start s
    → s.fresh ≡ true
    → s.ctl.waiting ≡ true
    → s.pending ≡ 0
    → (s.ctl.want_wake ≡ true)
      × (s.ctl.waking ≡ false
          → s.woken ≡ 0
          → (now : ℕ) → begin_wake now s.ctl ≡ some (record (s.ctl) { waking = true }))
      × (s.ctl.waking ≡ false
          → s.woken < 3
          → (now : ℕ) → wake_retry_after ≤ now - s.ctl.wake_sent_at
          → begin_wake now s.ctl ≡ some (record (s.ctl) { waking = true }))
      × (s.woken < 2
          → (sent : Bool) (ended now : ℕ) → wake_retry_after ≤ now - ended
          → wake_retry_after ≤ now - s.ctl.wake_sent_at
          → begin_wake now (end_wake sent ended s.ctl)
            ≡ some (record (end_wake sent ended s.ctl) { waking = true }))
event_is_delivered {s} r f w p = (
  wanted,
  λ idle n now.
      begin_wake-passes now s.ctl w wanted idle (omega (arith, n, same))
        (inl (omega (arith, n, same))),
  λ idle n now late. begin_wake-passes now s.ctl w wanted idle (omega (arith, n, same)) (inr late),
  λ n sent ended now. ended-passes sent ended now s.ctl w wanted (omega (arith, n, same)),
)
  where
    same : s.woken ≡ s.ctl.wake_sends
    same = (Reach-Inv r).counted

    wanted : s.ctl.want_wake ≡ true
    wanted = ground (arith, (Reach-Inv r).kept f w)

-- However the sections interleave, at most three sendings to a session succeed from one arrival of
-- `next_task` to the next.
pub wake_sends_bounded : {s : System} → Reach start s → s.woken ≤ 3
wake_sends_bounded r = omega (arith, (Reach-Inv r).counted, (Reach-Inv r).bounded)
