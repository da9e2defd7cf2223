-- ===== src/Tasks/Rate/Drift.antt =====
-- Where a refill credits the same microsecond more than once.
use native.Mathlib.Nat.{add-zero, div-eq_of_lt, div-eq_of_lt-le}
use vyuh.Prelude.{
  ℕ, zero, suc, ◌+◌, ◌*◌, ◌/◌, ◌<◌, ◌≡◌, arith, some, max, leb, false, true, ok, Exec, pure, ◌∙◌,
  ap, ◌>>◌, Done,
}
use vyuh.Prelude.Int.{pos, leb_ℤ, saturating_add, i128_max}
use vyuh.Tasks.Types.{TaskRate}
use vyuh.Tasks.Externals.{Externals}
use vyuh.Tasks.Rate.{
  token_scale, RateBucket, period_micros, burst_tokens, elapsed_micros, advance_clock, apply_credit,
  refill,
}
use vyuh.Tasks.Rate.Steps.{IsRate, per_micro, scaled_lem, burst_tokens_lem, consumed, consumed_lem}

abbrev bucket : ℕ → ℕ → RateBucket
bucket t at = record { tokens_micros = pos t; updated_at = at }

-- `n` refills at one and the same time.
pub refill_times : Externals → TaskRate → ℕ → ℕ → Exec RateBucket Done
refill_times x rate now zero = pure tt
refill_times x rate now (suc n) = do refill x rate now; refill_times x rate now n

module _ (x : Externals) (rate : TaskRate) (v : IsRate rate) (at : ℕ)
    (stays : x.checked_add_signed at 0 ≡ some at) (above : period_micros rate < per_micro rate)
    (below : per_micro rate < 2 * period_micros rate) where
  one_credit : 1 * rate.permits * token_scale / period_micros rate ≡ 1
  one_credit = div-eq_of_lt-le {k = 1} (period_micros rate) (omega arith) (omega arith)

  no_time : consumed 1 rate ≡ 0
  no_time = consumed_lem rate v 1 (omega arith) ∙ div-eq_of_lt (omega arith)

  advance_none :
      (t : ℕ) → advance_clock x 1 (period_micros rate) rate (bucket t at) ≡ (ok tt, bucket t at)
  unfolding advance_clock
  advance_none t = rw (no_time, stays)

  apply_one :
      (t : ℕ)
      → t + 1 < rate.burst * token_scale
      → apply_credit x 1 (period_micros rate) rate (at + 1000) (bucket t at)
        ≡ (ok tt, bucket (t + 1) at)
  unfolding apply_credit
  apply_one t room =
      let sum : saturating_add (pos t) 1 ≡ pos (t + 1) = ground (arith, burst_tokens_lem rate v) in
      let short : leb_ℤ (pos (burst_tokens rate)) (saturating_add (pos t) 1) ≡ false =
        ground (arith, burst_tokens_lem rate v) in
      rw (short, sum) (advance_none (t + 1))

  refill_one :
      (t : ℕ)
      → t + 1 < rate.burst * token_scale
      → refill x rate (at + 1000) (bucket t at) ≡ (ok tt, bucket (t + 1) at)
  unfolding refill
  refill_one t room =
      let wide : leb (period_micros rate) i128_max ≡ true = ground arith in
      let period : max (period_micros rate) 1 ≡ period_micros rate = ground arith in
      let micro : elapsed_micros (at + 1000) at ≡ 1 = ground arith in
      rw (wide, period, micro, scaled_lem 1 rate v (omega arith), one_credit) (apply_one t room)

  -- At a rate that gives more than one and less than two millionths of a token in a microsecond, a
  -- refill one microsecond after the bucket's clock credits one millionth and leaves the clock
  -- where it was. So `n` refills at that one time credit `n` millionths, below the burst.
  pub refill_times_credit :
      (n t : ℕ)
      → t + n < rate.burst * token_scale
      → refill_times x rate (at + 1000) n (bucket t at) ≡ (ok tt, bucket (t + n) at)
  unfolding refill_times
  refill_times_credit zero t room = rw add-zero
  refill_times_credit (suc n) t room =
      rw (refill_one t (omega arith), refill_times)
        (refill_times_credit n (t + 1) (omega arith) ∙ ap (λ k. (ok tt, bucket k at)) (omega arith))
