-- ===== src/Privileged/Job/Timeout.antt =====
-- The time that a privileged command is given (internal/privileged/privileged.go, `Run`).
use masuda.Common.{ℕ, ◌*◌, ◌≤◌, ◌<◌, ◌≡◌, ◌⊎◌, arith}
use masuda.Common.Int.{pos}
use masuda.Privileged.Job.{duration, milliseconds, timeout_ms}

-- A number of seconds that fits a duration is asked for in milliseconds, up to what fits 32 bits; no
-- number of seconds stands for an hour.
pub timeout_ms_exact :
    (s : ℕ)
    → s ≤ 9223372036
    → ((s ≡ 0) × (timeout_ms (pos s) ≡ 3600000))
      ⊎ ((0 < s) × (s ≤ 4294967) × (timeout_ms (pos s) ≡ s * 1000))
      ⊎ ((4294967 < s) × (timeout_ms (pos s) ≡ 4294967295))
unfolding timeout_ms duration milliseconds
timeout_ms_exact s h = ground arith
