-- ===== src/Serve/Disk/Warning.antt =====
-- When the warning on the disk is given, and what is counted (serve/disk.go).
use masuda.Common.{
  ℕ, ◌+◌, ◌≤◌, ◌<◌, ◌≡◌, ◌↔◌, refl, arith, List, [], ◌∷◌, Option, none, some, Bool, true, false,
  ltb, if_either,
}
use masuda.Serve.Disk.{
  DiskUsage, Visit, walk_error, no_file, stat_error, file, is_under_exports, counted, measure,
  measure_disk, nothing_used, check_disk, over_after,
}

-- The last measure that did not fail.
pub last_measured : Option DiskUsage → List (Option DiskUsage) → Option DiskUsage
last_measured u [] = u
last_measured u (none ∷ ms) = last_measured u ms
last_measured u (some v ∷ ms) = last_measured (some v) ms

is_over : ℕ → Option DiskUsage → Bool
is_over limit none = false
is_over limit (some u) = ltb limit u.workspaces

over_after-last :
    (limit : ℕ) (u : Option DiskUsage) (ms : List (Option DiskUsage))
    → over_after limit (is_over limit u) ms ≡ is_over limit (last_measured u ms)
unfolding over_after check_disk last_measured is_over
over_after-last limit u [] = refl
over_after-last limit u (none ∷ ms) = over_after-last limit u ms
over_after-last limit u (some v ∷ ms) = over_after-last limit (some v) ms

-- The state of the disk before a measure: below the limit, or not known yet.
abbrev pub WasBelow : ℕ → Option DiskUsage → Type 0
WasBelow limit none = Unit
WasBelow limit (some u) = u.workspaces ≤ limit

below_iff : (limit : ℕ) (u : Option DiskUsage) → (is_over limit u ≡ false) ↔ WasBelow limit u
unfolding is_over
below_iff limit none = (λ h. tt, λ h. refl)
below_iff limit (some u) = (λ h. ground (arith, h), λ h. ground (arith, h))

-- After any measures, some of which may have failed, the next one warns exactly if it is over the
-- limit and the last one that did not fail was not.
pub check_disk_iff :
    (limit : ℕ) (ms : List (Option DiskUsage)) (u : DiskUsage)
    → ((check_disk limit (some u) (over_after limit false ms)).1 ≡ true)
      ↔ ((limit < u.workspaces) × WasBelow limit (last_measured none ms))
unfolding check_disk is_over
check_disk_iff limit ms u =
    let flag = over_after-last limit none ms in
    let below = below_iff limit (last_measured none ms) in
    (
      λ h. (ground (arith, h), below.0 (ground (arith, h, flag))),
      λ h. ground (arith, below.1 h.1, flag, h.0),
    )

exports_within :
    (vs : List Visit) (u : DiskUsage) {v : DiskUsage}
    → u.exports ≤ u.workspaces
    → measure vs u ≡ some v
    → v.exports ≤ v.workspaces
unfolding measure counted
exports_within [] u h e = ground (arith, e, h)
exports_within (walk_error true ∷ vs) u h e = exports_within vs u h e
exports_within (walk_error false ∷ vs) u h e = cc
exports_within (no_file ∷ vs) u h e = exports_within vs u h e
exports_within (stat_error true ∷ vs) u h e = exports_within vs u h e
exports_within (stat_error false ∷ vs) u h e = cc
exports_within (file rel size ∷ vs) u h e =
    exports_within vs (counted rel size u)
      (if_either (λ (n : ℕ). n ≤ u.workspaces + size) (is_under_exports rel) (omega (arith, h))
        (omega (arith, h)))
      e

-- What the exports take is part of what the workspaces take.
pub measure_disk-exports :
    (vs : List Visit) (v : DiskUsage) → measure_disk vs ≡ some v → v.exports ≤ v.workspaces
unfolding measure_disk
measure_disk-exports vs v e = exports_within vs nothing_used (omega arith) e
