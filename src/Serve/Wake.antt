-- ===== src/Serve/Wake.antt =====
-- serve/run.go and serve/wake.go: when the main session in the guest is woken. Each function is one
-- section under `seqMu`. Times are nanoseconds; the 64-bit counter of events does not wrap.
pub mod Delivery
use masuda.Common.{
  ℕ, ◌+◌, ◌-◌, ◌*◌, Option, none, some, Bool, true, false, ◌&&◌, ◌||◌, not, if◌then◌else◌, ltb, leb,
  ◌==◌,
}

abbrev pub wake_retry_after : ℕ
wake_retry_after = 60 * 1000000000

abbrev pub wake_max_sends : ℕ
wake_max_sends = 3

-- The fields of `runCtl` that `seqMu` guards.
pub record RunCtl : Type 0 where
  pub seq : ℕ
  pub waiting : Bool
  pub want_wake : Bool
  pub waking : Bool
  pub wake_sends : ℕ
  pub wake_sent_at : ℕ

unfoldable pub new_ctl : RunCtl
new_ctl = record {
  seq = 0;
  waiting = false;
  want_wake = false;
  waking = false;
  wake_sends = 0;
  wake_sent_at = 0;
}

-- `bump`, up to the request.
unfoldable pub count_event : RunCtl → RunCtl
count_event c = record c { seq = c.seq + 1 }

-- `requestWake`: it asks only after `waiting` was returned.
unfoldable pub request_wake : RunCtl → RunCtl
request_wake c = record c { want_wake = c.waiting || c.want_wake }

-- `markWaiting`: the second part is `missed`, whether it goes on to request a wake.
unfoldable pub mark_waiting : ℕ → RunCtl → RunCtl × Bool
mark_waiting seen c = (record c { waiting = true }, not (c.seq == seen))

-- `undelivered`, up to the request.
pub undelivered : RunCtl → RunCtl
undelivered c = record c { waiting = true }

-- `clearWaiting`.
pub clear_waiting : RunCtl → RunCtl
clear_waiting c = record c { waiting = false; want_wake = false; wake_sends = 0 }

-- The early return of `tryWake`.
pub no_wake_now : ℕ → RunCtl → Bool
no_wake_now now c =
    not c.waiting
    || not c.want_wake
    || c.waking
    || leb wake_max_sends c.wake_sends
    || (ltb 0 c.wake_sends && ltb (now - c.wake_sent_at) wake_retry_after)

-- The first section of `tryWake`; `none` is the early return.
pub begin_wake : ℕ → RunCtl → Option RunCtl
unfolding no_wake_now
begin_wake now c = if no_wake_now now c then none else some (record c { waking = true })

-- Its second section, after `sendWake`.
pub end_wake : Bool → ℕ → RunCtl → RunCtl
end_wake true now c = record c { waking = false; wake_sends = c.wake_sends + 1; wake_sent_at = now }
end_wake false now c = record c { waking = false }
