-- ===== src/Serve/Activity/Patrol.antt =====
-- How often the patrol looks (`patrolTick`, serve/activity.go).
use masuda.Common.{
  ℕ, ◌≡◌, ◌*◌, ◌≤◌, ◌<◌, ◌⊎◌, inl, inr, List, [], ◌∷◌, ◌&&◌, if◌then◌else◌, arith, ltb, ◌∈◌,
}
use masuda.Serve.Activity.{second, liveness_every}
use masuda.Serve.Activity.Compute.{shortest_of, tick_of, patrol_tick}

shortest_of-le : (s : ℕ) (ps : List ℕ) → shortest_of s ps ≤ s
unfolding shortest_of
shortest_of-le s [] = omega arith
shortest_of-le s (p ∷ ps) = ground (arith, shortest_of-le (if ltb 0 p && ltb p s then p else s) ps)

shortest_of-mem : (s : ℕ) (ps : List ℕ) (p : ℕ) → p ∈ ps → 0 < p → shortest_of s ps ≤ p
unfolding shortest_of
shortest_of-mem s [] p m h = absurd m
shortest_of-mem s (q ∷ ps) p (inl e) h =
    ground (arith, e, h, shortest_of-le (if ltb 0 q && ltb q s then q else s) ps)
shortest_of-mem s (q ∷ ps) p (inr m) h =
    shortest_of-mem (if ltb 0 q && ltb q s then q else s) ps p m h

tick_of_bounds :
    (s : ℕ)
    → (second ≤ tick_of s)
      × (tick_of s ≤ liveness_every)
      × ((tick_of s ≡ second) ⊎ (4 * tick_of s ≤ s))
unfolding tick_of
tick_of_bounds s = ground arith

-- The interval of the patrol is between one second and 30 seconds; and where `serve` was given no
-- threshold, it is at most a quarter of the threshold of each run that has one, or one second.
patrol_tick_bounds :
    (override default : ℕ) (plans : List ℕ)
    → (second ≤ patrol_tick override default plans)
      × (patrol_tick override default plans ≤ liveness_every)
      × ((p : ℕ)
          → p ∈ plans
          → 0 < p
          → override ≡ 0
          → (patrol_tick override default plans ≡ second)
            ⊎ (4 * patrol_tick override default plans ≤ p))
unfolding patrol_tick
patrol_tick_bounds override default plans =
    let s = if ltb 0 override then override else shortest_of default plans in
    let (low, high, near) = tick_of_bounds s in
    (low, high, λ p m h e. within (tick_of s) s p near (none_given p m h e))
  where
    none_given :
        (p : ℕ)
        → p ∈ plans
        → 0 < p
        → override ≡ 0
        → (if ltb 0 override then override else shortest_of default plans) ≤ p
    none_given p m h e = ground (arith, e, shortest_of-mem default plans p m h)

    within : (t s p : ℕ) → (t ≡ second) ⊎ (4 * t ≤ s) → s ≤ p → (t ≡ second) ⊎ (4 * t ≤ p)
    within t s p (inl e) k = inl e
    within t s p (inr l) k = inr (omega (arith, l, k))
