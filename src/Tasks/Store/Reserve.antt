-- ===== src/Tasks/Store/Reserve.antt =====
-- The reservation of permits and the claim of one lane's state:
-- vyuh/src/tasks/store/memory/store.rs.
use mathlib.Core.Option
use vyuh.Prelude.{
  ℕ, ltb, ◌==◌, if◌then◌else◌, String, Bool, Option, none, some, any, unwrap_or, is_some_and,
  lookup, insert, text_key, Result, ok, err, ok_or, Exec, pure, ◌>>=◌, unknown_lane,
}
use vyuh.Tasks.Externals.{Externals}
use vyuh.Tasks.Types.{TaskKind, TaskRate, TaskRetry, TaskStoreConf, same_kind, find_lane}
use vyuh.Tasks.Rate.{full_bucket, reserve, next_permit}
use vyuh.Tasks.Store.State.{MemoryState, Turn, LaneClaim, LanePoll}
use vyuh.Tasks.Store.Queries.{task_deadline, effective_lane_wake}
use vyuh.Tasks.Store.Claim.{claim_lane}

unfoldable pub configured_rate : MemoryState → String → Result (Option TaskRate)
configured_rate s lane =
    ok_or (Option.map (λ c. c.global_rate) (Option.bind s.conf λ conf. find_lane conf lane))
      (unknown_lane lane)

unfoldable pub configured_retry : MemoryState → String → Result TaskRetry
configured_retry s lane =
    ok_or (Option.map (λ c. c.retry) (Option.bind s.conf λ conf. find_lane conf lane))
      (unknown_lane lane)

abbrev Permits : Type 0
Permits = ℕ × Option ℕ

-- The reservation at a lane's bucket, which is made full where there is none.
unfoldable pub reserve_bucket : Externals → String → ℕ → TaskRate → ℕ → Exec MemoryState Permits
reserve_bucket x lane limit rate now s =
    let bucket = unwrap_or (lookup lane s.rates) (full_bucket rate now) in
    let (r, b) = reserve x rate now limit bucket in
    let s' : MemoryState = record s { rates = insert lane b s.rates } in
    elim r [
      | err e ↦ (err e, s')
      | ok permits ↦ (ok (permits, next_permit b.tokens_micros rate b.updated_at now), s')
    ]

unfoldable pub reserve_permits :
    Externals → String → ℕ → Option TaskRate → ℕ → Exec MemoryState Permits
unfolding reserve_bucket
reserve_permits x lane limit none now = pure (limit, none)
reserve_permits x lane limit (some rate) now =
    if limit == 0 then pure (0, none) else reserve_bucket x lane limit rate now

-- An action on the state alone.
abbrev pub on_state {ℓ} : {A : Type ℓ} → Exec MemoryState A → Exec Turn A
on_state m turn = let (r, s) = m turn.state in (r, record turn { state = s })

pub record ClaimReservation : Type 0 where
  pub claim : LaneClaim
  pub permits : ℕ
  pub rate_wake : Option ℕ
  pub candidates : ℕ

abbrev pub reservation : LaneClaim → ℕ → Permits → ClaimReservation
reservation claim candidates (permits, wake) = record {
  claim = claim;
  permits = permits;
  rate_wake = wake;
  candidates = candidates;
}

abbrev has_flows : Option TaskStoreConf → Bool
has_flows conf = is_some_and conf λ c. any (λ h. same_kind h.1 TaskKind.flow) c.handlers

-- The wake hint comes from the state after the claim.
abbrev with_wake : ClaimReservation → ℕ → LanePoll → Turn → LanePoll
with_wake r now poll turn = record poll {
  next_wake_in =
      effective_lane_wake (ltb r.permits r.candidates) r.rate_wake
        (task_deadline turn.state.tasks r.claim.lane now) (has_flows turn.state.conf);
}

unfoldable pub claim_lane_state : ℕ → ClaimReservation → ℕ → Exec Turn LanePoll
claim_lane_state runner r now = do
  poll ← claim_lane runner r.claim r.permits now
  (λ turn. (ok (with_wake r now poll turn), turn))
