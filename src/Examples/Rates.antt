-- ===== src/Examples/Rates.antt =====
-- Rates and retries at work.
use vyuh.Prelude.{ℕ, ◌*◌, ◌≡◌, List, [], ◌∷◌, ok, refl, arith}
use vyuh.Prelude.Int.{pos}
use vyuh.Tasks.Types.{TaskRate, nanos}
use vyuh.Tasks.Retry.{delay}
use vyuh.Tasks.Retry.Backoff.{delay-closed_form}
use vyuh.Tasks.Rate.{RateBucket, reserve, refill, advance_clock, apply_credit, take_permits}
use vyuh.Tasks.Rate.Steps.{IsRate}
use vyuh.Tasks.Rate.Window.{Reserved, reserve-Reserved}
use vyuh.Tasks.Rate.Drift.{refill_times, refill_times_credit}
use vyuh.Examples.Data.{world, world_clock, patient, five_a_second}

five_a_second-IsRate : IsRate five_a_second
five_a_second-IsRate = record {
  permits_pos = omega arith;
  permits_fit = omega arith;
  burst_fit = omega arith;
  period_pos = omega arith;
  period_fit = omega arith;
}

delay-closed_form_example : delay patient (pos 4) ≡ ok (40 * nanos)
delay-closed_form_example = delay-closed_form patient 4 (omega arith)

abbrev calls : List (ℕ × ℕ)
calls = (1000, 1) ∷ (nanos, 5) ∷ []

abbrev first_bucket : RateBucket
first_bucket = record { tokens_micros = pos 1500000; updated_at = 0 }

reserve-Reserved_example :
    Reserved five_a_second 1000000 4 first_bucket 1
      (record { tokens_micros = pos 505000; updated_at = 1000000 })
unfolding reserve refill advance_clock apply_credit take_permits
reserve-Reserved_example =
    reserve-Reserved world world_clock five_a_second five_a_second-IsRate 1000000 4 first_bucket
      (record { nonneg = refl; capped = omega arith; past = omega arith }) refl

-- A rate that gives one and a half millionths of a token in a microsecond.
abbrev odd_rate : TaskRate
odd_rate = record { permits = 3; period = 2 * nanos; burst = 2 }

refill_times_credit_example :
    refill_times world odd_rate 1000 7 (record { tokens_micros = pos 0; updated_at = 0 })
    ≡ (ok tt, record { tokens_micros = pos 7; updated_at = 0 })
refill_times_credit_example =
    refill_times_credit world odd_rate
      (record {
        permits_pos = omega arith;
        permits_fit = omega arith;
        burst_fit = omega arith;
        period_pos = omega arith;
        period_fit = omega arith;
      })
      0 refl (omega arith) (omega arith) 7 0 (omega arith)
