-- ===== src/Tasks/Rate/Steps.antt =====
-- One refill and one reservation of a bucket.
use native.Mathlib.Nat.{div-add-mod, mod-lt, div-mul-le_self}
use native.Mathlib.Decide.{dec_le}
use vyuh.Prelude.{ℕ, ◌+◌, ◌*◌, ◌/◌, ◌≤◌, ◌<◌, ◌≡◌, arith, max, Option-cases, inl, inr, ok}
use vyuh.Prelude.Int.{pos, saturate, pos_part, neg_part, i64_max, i128_max, u64_max}
use vyuh.Tasks.Types.{TaskRate}
use vyuh.Tasks.Externals.{Externals, ClockLaws}
use vyuh.Tasks.Rate.{token_scale, RateBucket, period_micros, burst_tokens, advance_clock}

abbrev u32_max : ℕ
u32_max = 4294967295

-- A rate that passes `validate_rate`, with its numbers in the ranges of their types.
pub record IsRate (rate : TaskRate) : Type 0 where
  pub permits_pos : 1 ≤ rate.permits
  pub permits_fit : rate.permits ≤ u32_max
  pub burst_fit : rate.burst ≤ u32_max
  pub period_pos : 1 ≤ period_micros rate
  pub period_fit : rate.period ≤ u64_max

-- The bucket holds between no token and a full burst, and its clock is not ahead.
pub record IsBucket (rate : TaskRate) (now : ℕ) (b : RateBucket) : Type 0 where
  pub nonneg : neg_part b.tokens_micros ≡ 0
  pub capped : pos_part b.tokens_micros ≤ rate.burst * token_scale
  pub past : b.updated_at ≤ now

-- The millionths of a token that one microsecond gives, times the period.
abbrev pub per_micro : TaskRate → ℕ
per_micro rate = rate.permits * token_scale

-- The tokens of a bucket in the unit in which a nanosecond is worth `per_micro`.
abbrev pub worth : TaskRate → RateBucket → ℕ
worth rate b = 1000 * (pos_part b.tokens_micros * period_micros rate)

-- A refill gives no more than the time by which it moves the clock, and one microsecond beyond.
pub record Credited (rate : TaskRate) (now : ℕ) (b b' : RateBucket) : Type 0 where
  pub bucket : IsBucket rate now b'
  pub later : b.updated_at ≤ b'.updated_at
  pub grows : pos_part b.tokens_micros ≤ pos_part b'.tokens_micros
  pub paid :
      worth rate b' + b.updated_at * per_micro rate
      ≤ worth rate b + b'.updated_at * per_micro rate + 1000 * per_micro rate

pub mul_mono : (a b c d : ℕ) → a ≤ c → b ≤ d → a * b ≤ c * d
mul_mono a b c d h k = grind arith

pub burst_tokens_lem :
    (rate : TaskRate) → IsRate rate → burst_tokens rate ≡ rate.burst * token_scale
burst_tokens_lem rate v = ground arith

pub scaled_lem :
    (e : ℕ) (rate : TaskRate)
    → IsRate rate
    → e ≤ i64_max
    → saturate i128_max (saturate i128_max (e * rate.permits) * token_scale)
      ≡ e * rate.permits * token_scale
scaled_lem e rate v h = ground (arith, mul_mono e rate.permits i64_max u32_max)

spent_lem :
    (c : ℕ) (rate : TaskRate)
    → IsRate rate
    → c ≤ i64_max
    → saturate i128_max (c * period_micros rate) ≡ c * period_micros rate
spent_lem c rate v h = ground (arith, mul_mono c (period_micros rate) i64_max u64_max)

-- Division cut down loses less than one divisor.
lt_div_suc : (n d : ℕ) → 1 ≤ d → n < (n / d + 1) * d
lt_div_suc n d h = grind (arith, div-add-mod n d, mod-lt n h)

le_of_mul_le : (k e d : ℕ) → 1 ≤ d → k * d ≤ e * d → k ≤ e
le_of_mul_le k e d h l = elim (dec_le k e) [
  | yes p ↦ p
  | no p ↦ absurd (too_much (mul_mono (e + 1) d k d (omega arith) (omega arith)))
]
  where
    too_much : (e + 1) * d ≤ k * d → ⊥
    too_much q = omega arith

div_le_of : (n e d : ℕ) → 1 ≤ d → n ≤ e * d → n / d ≤ e
div_le_of n e d h l = le_of_mul_le (n / d) e d h (omega (arith, div-mul-le_self n d))

paid_lem :
    (t c at k p d : ℕ)
    → c * p < (k + 1) * d
    → 1000 * ((t + c) * p) + at * d ≤ 1000 * (t * p) + (at + k * 1000) * d + 1000 * d
paid_lem t c at k p d h = omega arith

abbrev pub consumed : ℕ → TaskRate → ℕ
consumed c rate =
    saturate i128_max (c * period_micros rate)
    / max (saturate i128_max (rate.permits * token_scale)) 1

pub consumed_lem :
    (rate : TaskRate)
    → IsRate rate
    → (c : ℕ) → c ≤ i64_max
    → consumed c rate ≡ c * period_micros rate / per_micro rate
consumed_lem rate v c h =
    let scale : max (saturate i128_max (rate.permits * token_scale)) 1 ≡ per_micro rate =
      ground arith in
    rw (spent_lem c rate v h, scale)

module _ (x : Externals) (laws : ClockLaws x) (rate : TaskRate) where
  pub advance_clock-ok :
      (c : ℕ) (b : RateBucket) {b' : RateBucket}
      → advance_clock x c (period_micros rate) rate b ≡ (ok tt, b')
      → (b'.tokens_micros ≡ b.tokens_micros)
        × (b'.updated_at ≡ b.updated_at + consumed c rate * 1000)
  unfolding advance_clock
  advance_clock-ok c b h =
      elim (Option-cases (x.checked_add_signed b.updated_at (consumed c rate * 1000))) [
        | inl e ↦ ground arith
        | inr (r, e) ↦ ground (arith, laws.add_exact b.updated_at (consumed c rate * 1000) e)
      ]

module _ (x : Externals) (laws : ClockLaws x) (rate : TaskRate) (v : IsRate rate) where
  pub advance-Credited :
      (now e c : ℕ) (b : RateBucket) {b' : RateBucket}
      → IsBucket rate now b
      → c ≤ i64_max
      → c * period_micros rate ≤ e * per_micro rate
      → b.updated_at + 1000 * e ≤ now
      → pos_part b.tokens_micros + c ≤ rate.burst * token_scale
      → (b'.tokens_micros ≡ pos (pos_part b.tokens_micros + c))
        × (b'.updated_at ≡ b.updated_at + consumed c rate * 1000)
      → Credited rate now b b'
  advance-Credited now e c b {b'} w small cost room fits h =
      let k : ℕ = c * period_micros rate / per_micro rate in
      let moved : b'.updated_at ≡ b.updated_at + k * 1000 =
        ground (arith, h, consumed_lem rate v c small) in
      let scale : 1 ≤ per_micro rate = ground arith in
      let within : k ≤ e = div_le_of (c * period_micros rate) e (per_micro rate) scale cost in
      let short : c * period_micros rate < (k + 1) * per_micro rate =
        lt_div_suc (c * period_micros rate) (per_micro rate) scale in
      record {
        bucket = record {
          nonneg = ground (arith, h);
          capped = ground (arith, h);
          past = ground (arith, moved, within);
        };
        later = ground (arith, moved);
        grows = ground (arith, h);
        paid =
            rw (h.0, moved)
              (paid_lem (pos_part b.tokens_micros) c b.updated_at k (period_micros rate)
                (per_micro rate) short);
      }
