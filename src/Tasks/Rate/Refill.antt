-- ===== src/Tasks/Rate/Refill.antt =====
-- A refill and a reservation keep the bucket within its burst and within its rate.
use native.Mathlib.Nat.{div-mul-le_self}
use vyuh.Prelude.{
  ℕ, ◌+◌, ◌*◌, ◌/◌, ◌≤◌, ◌≡◌, arith, max, leb, ltb, inl, inr, ok, Result, refl, subst, ap, Done,
  Bool-cases, true,
}
use vyuh.Prelude.Int.{pos, leb_ℤ, saturate, saturating_add, i64_max, i128_max}
use vyuh.Tasks.Types.{TaskRate}
use vyuh.Tasks.Externals.{Externals, ClockLaws}
use vyuh.Tasks.Rate.{
  token_scale, RateBucket, period_micros, burst_tokens, elapsed_micros, apply_credit, refill,
}
use vyuh.Tasks.Rate.Steps.{
  IsRate, IsBucket, per_micro, Credited, mul_mono, scaled_lem, burst_tokens_lem, advance_clock-ok,
  advance-Credited,
}

abbrev bucket : ℕ → ℕ → RateBucket
bucket t at = record { tokens_micros = pos t; updated_at = at }

filled_lem :
    (t q e burst at now p d : ℕ)
    → burst ≤ t + q
    → q * p ≤ e * d
    → at + 1000 * e ≤ now
    → 1000 * (burst * p) + at * d ≤ 1000 * (t * p) + now * d + 1000 * d
filled_lem t q e burst at now p d full cost room =
    let gain : burst * p ≤ (t + q) * p = mul_mono burst p (t + q) p full (omega arith) in
    let time : (at + 1000 * e) * d ≤ now * d =
      mul_mono (at + 1000 * e) d now d room (omega arith) in
    omega arith

module _ (x : Externals) (laws : ClockLaws x) (rate : TaskRate) (v : IsRate rate) where
  filled-Credited :
      (now e q t at : ℕ)
      → IsBucket rate now (bucket t at)
      → q * period_micros rate ≤ e * per_micro rate
      → at + 1000 * e ≤ now
      → burst_tokens rate ≤ t + q
      → Credited rate now (bucket t at) (bucket (burst_tokens rate) now)
  filled-Credited now e q t at w cost room full = record {
    bucket = record {
      nonneg = refl;
      capped = omega (arith, burst_tokens_lem rate v);
      past = omega arith;
    };
    later = w.past;
    grows = omega (arith, burst_tokens_lem rate v, w.capped);
    paid =
        filled_lem t q e (burst_tokens rate) at now (period_micros rate) (per_micro rate) full cost
          room;
  }

  still-Credited : (now : ℕ) (b : RateBucket) → IsBucket rate now b → Credited rate now b b
  still-Credited now b w = record {
    bucket = w;
    later = omega arith;
    grows = omega arith;
    paid = omega arith;
  }

  landed :
      {now : ℕ} {b b1 b' : RateBucket}
      → ◌≡◌ {A = Result Done × RateBucket} (ok tt, b1) (ok tt, b')
      → Credited rate now b b1
      → Credited rate now b b'
  landed {now} {b} e w = subst (λ c. Credited rate now b c) (ap (λ p. p.1) e) w

  apply-Credited :
      (now e c t at : ℕ) {b' : RateBucket}
      → IsBucket rate now (bucket t at)
      → c * period_micros rate ≤ e * per_micro rate
      → at + 1000 * e ≤ now
      → apply_credit x c (period_micros rate) rate now (bucket t at) ≡ (ok tt, b')
      → Credited rate now (bucket t at) b'
  unfolding apply_credit
  apply-Credited now e c t at w cost room h =
      let q : ℕ = saturate i64_max c in
      let less : q * period_micros rate ≤ c * period_micros rate =
        mul_mono q (period_micros rate) c (period_micros rate) (ground arith) (omega arith) in
      elim (Bool-cases (leb_ℤ (pos (burst_tokens rate)) (saturating_add (pos t) q))) [
        | inl full ↦
            landed (rw full at h)
              (filled-Credited now e q t at w (omega (arith, less)) room (ground arith))
        | inr short ↦ elim (Bool-cases (ltb 0 q)) [
          | inl more ↦
              let sum : saturating_add (pos t) q ≡ pos (t + q) = ground arith in
              advance-Credited x laws rate v now e q (bucket t at) w (ground arith)
                (omega (arith, less)) room (ground (arith, burst_tokens_lem rate v))
                (advance_clock-ok x laws rate q (bucket (t + q) at) (rw (short, more, sum) at h))
          | inr none_left ↦ landed (rw (short, none_left) at h) (still-Credited now (bucket t at) w)
        ]
      ]

  pub refill-Credited :
      (now t at : ℕ) {b' : RateBucket}
      → IsBucket rate now (bucket t at)
      → refill x rate now (bucket t at) ≡ (ok tt, b')
      → Credited rate now (bucket t at) b'
  unfolding refill
  refill-Credited now t at w h =
      let e : ℕ = elapsed_micros now at in
      let c : ℕ = e * rate.permits * token_scale / period_micros rate in
      let wide : leb (period_micros rate) i128_max ≡ true = ground arith in
      let period : max (period_micros rate) 1 ≡ period_micros rate = ground arith in
      let scaled = scaled_lem e rate v (ground arith) in
      apply-Credited now e c t at w
        (omega (arith, div-mul-le_self (e * rate.permits * token_scale) (period_micros rate)))
        (ground arith) (rw (wide, period, scaled) at h)
