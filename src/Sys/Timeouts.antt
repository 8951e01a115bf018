-- ===== src/Sys/Timeouts.antt =====
-- How long `Poll::poll` of sys.rs lets the poller wait.
use calloop.Common.{
  ℕ, ◌-◌, ◌≤◌, ◌≡◌, ◌⊎◌, inl, inr, refl, Option, none, some, List, [], ◌∷◌, All, arith,
  Option-cases, min,
}
use calloop.Wheel.{TimeoutData, TimerWheel, next_deadline}
use calloop.Wheel.Expiry.{NotBefore, next_deadline_earliest, next_deadline_none}
use calloop.Sys.{adjust_timeout, time_left}

-- The time from `before` to each deadline is `t` or more.
abbrev pub LeavesAtLeast : ℕ → ℕ → List TimeoutData → Type 0
LeavesAtLeast t before = All (λ d. t ≤ d.deadline - before)

leaves :
    (before u : ℕ) (ds : List TimeoutData) (t : ℕ)
    → t ≤ u - before
    → NotBefore u ds
    → LeavesAtLeast t before ds
leaves before u [] t h k = tt
leaves before u (d ∷ ds) t h k = (omega arith, leaves before u ds t h k.1)

-- The wait lasts neither beyond the caller's timeout nor beyond the first deadline of the wheel,
-- and has no limit only if the caller set none and no timer is registered.
pub adjust_timeout_bounds :
    (timeout : Option ℕ) (before : ℕ) (w : TimerWheel)
    → ((t : ℕ) × (adjust_timeout timeout (time_left before (next_deadline w)) ≡ some t)
        × ((u : ℕ) → timeout ≡ some u → t ≤ u)
        × LeavesAtLeast t before w.heap)
      ⊎ ((adjust_timeout timeout (time_left before (next_deadline w)) ≡ none)
          × (timeout ≡ none)
          × (w.heap ≡ []))
unfolding adjust_timeout
adjust_timeout_bounds none before w = elim (Option-cases (next_deadline w)) [
  | inl e ↦ inr (ground arith, refl, next_deadline_none w e)
  | inr (u, e) ↦ inl (
    u - before,
    ground arith,
    λ v q. absurd (ground arith),
    leaves before u w.heap (u - before) (omega arith) (next_deadline_earliest w u e),
  )
]
adjust_timeout_bounds (some v) before w = elim (Option-cases (next_deadline w)) [
  | inl e ↦ inl (v, ground arith, λ u q. ground arith, rw (next_deadline_none w e) tt)
  | inr (u, e) ↦ inl (
    min v (u - before),
    ground arith,
    λ x q. ground arith,
    leaves before u w.heap (min v (u - before)) (omega arith) (next_deadline_earliest w u e),
  )
]
