-- ===== src/Tasks/Rate/Window.antt =====
-- The permits that any sequence of reservations gets from one bucket.
use mathlib.Core.Path.{subst₂}
use vyuh.Prelude.{
  ℕ, ◌+◌, ◌*◌, ◌/◌, ◌-◌, ◌≤◌, ◌≡◌, arith, min, ok, refl, subst, ap, bind-ok, sym, ◌∙◌, ok_eq,
}
use vyuh.Prelude.Int.{ℤ, pos, negsuc, saturating_sub, pos_part, neg_part, i64_max}
use vyuh.Tasks.Types.{TaskRate}
use vyuh.Tasks.Externals.{Externals, ClockLaws}
use vyuh.Tasks.Rate.{
  token_scale, RateBucket, period_micros, refill, take_permits, reserve, permit_tokens,
}
use vyuh.Tasks.Rate.Steps.{IsRate, IsBucket, per_micro, worth, Credited}
use vyuh.Tasks.Rate.Refill.{refill-Credited}

abbrev bucket : ℕ → ℕ → RateBucket
bucket t at = record { tokens_micros = pos t; updated_at = at }

-- A reservation: what is granted is paid from the bucket and from the time that has passed.
pub record Reserved (rate : TaskRate) (now limit : ℕ) (b : RateBucket) (m : ℕ) (b' : RateBucket)
    : Type 0 where
  pub bucket : IsBucket rate now b'
  pub within : m ≤ limit
  pub later : b.updated_at ≤ b'.updated_at
  pub paid :
      worth rate b' + 1000 * (m * token_scale * period_micros rate) + b.updated_at * per_micro rate
      ≤ worth rate b + b'.updated_at * per_micro rate + 1000 * per_micro rate

permit_tokens_lem :
    (m t : ℕ) → m * token_scale ≤ t → t ≤ i64_max → permit_tokens m ≡ m * token_scale
permit_tokens_lem m t h k = ground arith

-- Taking permits from a bucket within its burst takes exactly their tokens.
take_permits_lem :
    (rate : TaskRate) (limit t at : ℕ)
    → IsRate rate
    → t ≤ rate.burst * token_scale
    → take_permits limit (bucket t at) ≡ (
      ok (min (t / token_scale) limit),
      bucket (t - min (t / token_scale) limit * token_scale) at,
    )
unfolding take_permits
take_permits_lem rate limit t at v h =
    let m : ℕ = min (t / token_scale) limit in
    let enough : m * token_scale ≤ t = omega arith in
    let taken : saturating_sub (pos t) (permit_tokens m) ≡ pos (t - m * token_scale) =
      rw (permit_tokens_lem m t enough (omega arith)) (ground arith) in
    rw taken

taken_lem : (t r s p : ℕ) → r + s ≡ t → r * p + s * p ≡ t * p
taken_lem t r s p e = omega (arith, ap (λ (k : ℕ). k * p) e)

whole_bucket :
    (b : RateBucket)
    → neg_part b.tokens_micros ≡ 0
    → b ≡ bucket (pos_part b.tokens_micros) b.updated_at
whole_bucket b h =
    λ i. record { tokens_micros = pos_of b.tokens_micros h i; updated_at = b.updated_at }
  where
    pos_of : (z : ℤ) → neg_part z ≡ 0 → z ≡ pos (pos_part z)
    pos_of (pos n) e = refl
    pos_of (negsuc n) e = absurd (omega arith)

module _ (x : Externals) (laws : ClockLaws x) (rate : TaskRate) (v : IsRate rate) where
  taken-Reserved :
      (now limit : ℕ) (b c : RateBucket) (t at : ℕ)
      → c ≡ bucket t at
      → Credited rate now b c
      → Reserved rate now limit b
          (min (t / token_scale) limit)
          (bucket (t - min (t / token_scale) limit * token_scale) at)
  taken-Reserved now limit b c t at e w =
      let m : ℕ = min (t / token_scale) limit in
      let split =
        taken_lem t (t - m * token_scale) (m * token_scale) (period_micros rate) (omega arith) in
      let w' : Credited rate now b (bucket t at) = subst (Credited rate now b) e w in
      record {
        bucket = record {
          nonneg = refl;
          capped = omega (arith, w'.bucket.capped);
          past = w'.bucket.past;
        };
        within = omega arith;
        later = w'.later;
        paid = omega (arith, w'.paid, split);
      }

  take_after :
      (now limit : ℕ) (b c : RateBucket) {m : ℕ} {b' : RateBucket}
      → Credited rate now b c
      → take_permits limit c ≡ (ok m, b')
      → Reserved rate now limit b m b'
  take_after now limit b c {m} {b'} w h =
      let t : ℕ = pos_part c.tokens_micros in
      let whole : c ≡ bucket t c.updated_at = whole_bucket c w.bucket.nonneg in
      let taken = take_permits_lem rate limit t c.updated_at v w.bucket.capped in
      let same = sym taken ∙ ap (take_permits limit) (sym whole) ∙ h in
      let granted : min (t / token_scale) limit ≡ m = ok_eq _ _ (ap (λ r. r.0) same) in
      subst₂ (Reserved rate now limit b) granted (ap (λ r. r.1) same)
        (taken-Reserved now limit b c t c.updated_at whole w)

  reserve-Reserved_at :
      (now limit t at : ℕ) {m : ℕ} {b' : RateBucket}
      → IsBucket rate now (bucket t at)
      → reserve x rate now limit (bucket t at) ≡ (ok m, b')
      → Reserved rate now limit (bucket t at) m b'
  unfolding reserve
  reserve-Reserved_at now limit t at {m} {b'} w h =
      let (done, c, filled, taken) = bind-ok (refill x rate now) (λ _. take_permits limit) _ h in
      take_after now limit (bucket t at) c (refill-Credited x laws rate v now t at w filled) taken

  -- A reservation that succeeds, of a bucket that is between no token and its burst and whose clock is
  -- not after the time of the call, keeps it so, does not move its clock back, grants at most what is
  -- asked, and pays for the grant from the tokens at hand and from the time by which it moves the
  -- clock, up to one microsecond.
  pub reserve-Reserved :
      (now limit : ℕ) (b : RateBucket) {m : ℕ} {b' : RateBucket}
      → IsBucket rate now b
      → reserve x rate now limit b ≡ (ok m, b')
      → Reserved rate now limit b m b'
  reserve-Reserved now limit b {m} {b'} w h =
      let whole = whole_bucket b w.nonneg in
      subst (λ c. Reserved rate now limit c m b') (sym whole)
        (reserve-Reserved_at now limit (pos_part b.tokens_micros) b.updated_at
          (subst (IsBucket rate now) whole w)
          (subst (λ c. reserve x rate now limit c ≡ (ok m, b')) whole h))
