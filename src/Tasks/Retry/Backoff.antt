-- ===== src/Tasks/Retry/Backoff.antt =====
-- The delay loop against its closed form.
use native.Mathlib.Nat.{pow-suc, pow-succ'}
use vyuh.Prelude.{
  ℕ, zero, suc, ◌*◌, ◌-◌, ◌^◌, ◌≤◌, min, ◌≡◌, refl, inl, inr, ok, arith, leb, ◌==◌, if◌then◌else◌,
  Bool-cases, ap, ◌∙◌, false, true,
}
use vyuh.Prelude.Int.{pos}
use vyuh.Tasks.Types.{TaskRetry, duration_max}
use vyuh.Tasks.Retry.{delay_loop, doubled, delay}

doubled_lem : (limit d : ℕ) → limit ≤ duration_max → doubled limit d ≡ min (d * 2) limit
doubled_lem limit d h = ground arith

pow_pos : (n : ℕ) → 1 ≤ 2 ^ n
pow_pos zero = omega arith
pow_pos (suc n) = omega (arith, pow-suc 2 n, pow_pos n)

-- Once at the limit, doubling stays there.
min_double : (limit x p : ℕ) → min x limit ≡ limit → 1 ≤ p → min (x * p) limit ≡ limit
min_double limit x p h k = grind arith

pow_shift : (d n : ℕ) → d * 2 ^ suc n ≡ d * 2 * 2 ^ n
pow_shift d n = grind (arith, pow-succ' 2 n)

stopped :
    (n limit d : ℕ)
    → limit ≤ duration_max
    → (doubled limit d == limit) ≡ true
    → doubled limit d ≡ min (d * 2 ^ suc (suc n)) limit
stopped n limit d h e = ground (
  arith,
  doubled_lem limit d h,
  pow_shift d (suc n),
  min_double limit (d * 2) (2 ^ suc n),
  pow_pos (suc n),
)

carried :
    (n limit d : ℕ)
    → limit ≤ duration_max
    → (doubled limit d == limit) ≡ false
    → min (doubled limit d * 2 ^ suc n) limit ≡ min (d * 2 ^ suc (suc n)) limit
carried n limit d h e =
    let below : doubled limit d ≡ d * 2 = ground (arith, doubled_lem limit d h) in
    rw (below, pow_shift d (suc n))

-- The loop with its early stop doubles `n + 1` times below the limit.
delay_loop_lem :
    (n limit d : ℕ) → limit ≤ duration_max → delay_loop (suc n) limit d ≡ min (d * 2 ^ suc n) limit
unfolding delay_loop
delay_loop_lem zero limit d h = ground (arith, doubled_lem limit d h)
delay_loop_lem (suc n) limit d h = elim (Bool-cases (doubled limit d == limit)) [
  | inl e ↦ rw (e, delay_loop) (stopped n limit d h e)
  | inr e ↦ rw (e, delay_loop) (delay_loop_lem n limit (doubled limit d) h ∙ carried n limit d h e)
]

-- After `n` completed invocations the next attempt waits `initial_delay` when `n` is at most one,
-- and otherwise `initial_delay` doubled `n - 1` times, cut off at `max_delay`: the loop with its
-- saturating products and its early stop computes that closed form for every policy whose cap is a
-- duration.
pub delay-closed_form :
    (policy : TaskRetry) (n : ℕ)
    → policy.max_delay ≤ duration_max
    → delay policy (pos n)
      ≡ ok (
          if leb n 1
          then policy.initial_delay
          else min (policy.initial_delay * 2 ^ (n - 1)) policy.max_delay)
unfolding delay delay_loop
delay-closed_form policy zero h = refl
delay-closed_form policy (suc zero) h = refl
delay-closed_form policy (suc (suc n)) h =
    let count : suc (suc n) - 1 ≡ suc n = omega arith in
    let far : leb (suc (suc n)) 1 ≡ false = ground arith in
    rw (count, far) (ap ok (delay_loop_lem n policy.max_delay policy.initial_delay h))
