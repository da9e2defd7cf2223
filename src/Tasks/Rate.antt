-- ===== src/Tasks/Rate.antt =====
-- The fixed-point token bucket of vyuh/src/tasks/rate.rs that the stores share, its reservation in
-- vyuh/src/tasks/store/memory/store.rs, and the rate check of vyuh/src/tasks/config.rs. Tokens are
-- counted in millionths.
pub mod Steps
pub mod Refill
pub mod Window
pub mod Sequence
pub mod Drift
use vyuh.Prelude.{
  ℕ, ◌+◌, ◌-◌, ◌*◌, ◌/◌, max, min, Option, none, some, String, Bool, leb, ltb, ◌==◌, not,
  if◌then◌else◌, ◌||◌, Exec, pure, raise, modify, lift, ◌>>=◌, ◌>>◌, invalid_config, Result, ok,
  err, ok_or, Done,
}
use vyuh.Prelude.Int.{
  ℤ, pos, negsuc, leb_ℤ, saturate, saturating_add, saturating_sub, i64_max, i128_max, u64_max,
  usize_max, pos_part,
}
use vyuh.Tasks.Types.{TaskRate}
use vyuh.Tasks.Externals.{Externals}

abbrev token_scale : ℕ
token_scale = 1000000

pub record RateBucket : Type 0 where
  pub tokens_micros : ℤ
  pub updated_at : ℕ

abbrev period_micros : TaskRate → ℕ
period_micros rate = rate.period / 1000

-- `burst_tokens`
abbrev burst_tokens : TaskRate → ℕ
burst_tokens rate = saturate i64_max (rate.burst * token_scale)

unfoldable pub full_bucket : TaskRate → ℕ → RateBucket
full_bucket rate now = record { tokens_micros = pos (burst_tokens rate); updated_at = now }

-- The rejection test of `validate_rate`.
unfoldable pub is_invalid_rate : TaskRate → Bool
is_invalid_rate rate =
    rate.permits == 0 || rate.burst == 0 || period_micros rate == 0 || ltb u64_max rate.period

-- `(now - at).num_microseconds().unwrap_or_default().max(0)`
abbrev elapsed_micros : ℕ → ℕ → ℕ
elapsed_micros now at = if leb ((now - at) / 1000) i64_max then (now - at) / 1000 else 0

module _ (x : Externals) where
  -- The clock moves on by the time that the credited tokens take, cut down to a microsecond.
  unfoldable pub advance_clock : ℕ → ℕ → TaskRate → Exec RateBucket Done
  advance_clock credited period rate b =
      let denominator = saturate i128_max (rate.permits * token_scale) in
      let consumed = saturate i128_max (credited * period) / max denominator 1 in
      if leb consumed i64_max
      then elim (x.checked_add_signed b.updated_at (consumed * 1000)) [
        | none ↦ (err (invalid_config "task rate timestamp overflowed"), b)
        | some at ↦ (ok tt, record b { updated_at = at })
      ]
      else (err (invalid_config "task rate interval is too large"), b)

  unfoldable pub apply_credit : ℕ → ℕ → TaskRate → ℕ → Exec RateBucket Done
  apply_credit credited period rate now b =
      let credit = saturate i64_max credited in
      let replenished = saturating_add b.tokens_micros credit in
      if leb_ℤ (pos (burst_tokens rate)) replenished
      then (ok tt, record { tokens_micros = pos (burst_tokens rate); updated_at = now })
      else if ltb 0 credit
      then advance_clock credit period rate (record b { tokens_micros = replenished })
      else (ok tt, b)

  unfoldable pub refill : TaskRate → ℕ → Exec RateBucket Done
  refill rate now b =
      if leb (period_micros rate) i128_max
      then (let period = max (period_micros rate) 1 in
          let elapsed = elapsed_micros now b.updated_at in
          let scaled =
            saturate i128_max (saturate i128_max (elapsed * rate.permits) * token_scale) in
          apply_credit (scaled / period) period rate now b)
      else (err (invalid_config "task rate period is too large"), b)

-- `usize::try_from(tokens / TOKEN_SCALE).unwrap_or(usize::MAX)`
abbrev whole_tokens : ℤ → ℕ
whole_tokens (pos n) = n / token_scale
whole_tokens (negsuc n) = if (n + 1) / token_scale == 0 then 0 else usize_max

-- `i64::try_from(permits).unwrap_or(i64::MAX).saturating_mul(TOKEN_SCALE)`
abbrev permit_tokens : ℕ → ℕ
permit_tokens permits = saturate i64_max (saturate i64_max permits * token_scale)

unfoldable pub take_permits : ℕ → Exec RateBucket ℕ
take_permits limit b =
    let permits = min (whole_tokens b.tokens_micros) limit in
    (
      ok permits,
      record b { tokens_micros = saturating_sub b.tokens_micros (permit_tokens permits) },
    )

-- The delay until one whole token, less the time that has already accrued. The numerator is what
-- the source computes before it subtracts one: at a zero rate and period that would be negative,
-- and is refused.
unfoldable pub permit_delay : ℤ → TaskRate → ℕ → Option ℕ
permit_delay tokens rate accrued =
    let missing = token_scale - pos_part tokens in
    let denominator = saturate i128_max (rate.permits * token_scale) in
    let product = saturate i128_max (missing * rate.period) in
    let nanos = saturate i128_max (product + denominator - 1) / max denominator 1 in
    if leb_ℤ (pos token_scale) tokens
    then none
    else if not (leb rate.period i128_max) || product + denominator == 0 || ltb u64_max nanos
    then none
    else some (nanos - accrued)

unfoldable pub next_permit : ℤ → TaskRate → ℕ → ℕ → Option ℕ
unfolding permit_delay
next_permit tokens rate refill_at now = permit_delay tokens rate (now - refill_at)

-- The bucket's share of `reserve_permits`: refill, then take.
unfoldable pub reserve : Externals → TaskRate → ℕ → ℕ → Exec RateBucket ℕ
reserve x rate now limit = do refill x rate now; take_permits limit
