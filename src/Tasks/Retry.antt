-- ===== src/Tasks/Retry.antt =====
-- The attempt budget and the exponential backoff of `TaskRetry` in vyuh/src/tasks/config.rs.
pub mod Backoff
use vyuh.Prelude.{
  ℕ, zero, suc, ◌*◌, ◌-◌, Bool, String, ◌==◌, leb, min, if◌then◌else◌, Result, ok, ok_or, and_then,
  task_execution_error,
}
use vyuh.Prelude.Int.{ℤ, to_unsigned, saturate}
use vyuh.Tasks.Types.{TaskRetry, duration_max}

abbrev unsigned_attempts : ℤ → Result ℕ
unsigned_attempts a =
    ok_or (to_unsigned a) (task_execution_error "task attempt count cannot be negative")

unfoldable pub exhausted : TaskRetry → ℤ → Result Bool
exhausted policy attempts =
    and_then (unsigned_attempts attempts) λ n. ok (leb policy.max_attempts n)

-- One pass of the loop: `delay.saturating_mul(2).min(self.max_delay)`.
abbrev doubled : ℕ → ℕ → ℕ
doubled limit delay = min (saturate duration_max (delay * 2)) limit

-- The loop over the rounds that are left, which stops at the limit.
delay_loop : ℕ → ℕ → ℕ → ℕ
delay_loop zero limit delay = delay
delay_loop (suc rounds) limit delay =
    let next = doubled limit delay in
    let rest = delay_loop rounds limit next in if next == limit then next else rest

pub delay : TaskRetry → ℤ → Result ℕ
delay policy attempts =
    and_then (unsigned_attempts attempts)
      λ n. ok (delay_loop (n - 1) policy.max_delay policy.initial_delay)
