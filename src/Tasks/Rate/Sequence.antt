-- ===== src/Tasks/Rate/Sequence.antt =====
-- Reservations in sequence: the rate limit that a bucket enforces over any window of time.
use vyuh.Prelude.{ℕ, ◌+◌, ◌≤◌, List, [], ◌∷◌, Exec, pure, ◌>>=◌}
use vyuh.Tasks.Types.{TaskRate}
use vyuh.Tasks.Externals.{Externals}
use vyuh.Tasks.Rate.{RateBucket, reserve}

-- One call of `reserve`: its time and its limit.
abbrev Call : Type 0
Call = ℕ × ℕ

-- The calls in turn, with the sum of what they grant.
unfoldable pub reserve_all : Externals → TaskRate → List Call → Exec RateBucket ℕ
reserve_all x rate [] = pure 0
reserve_all x rate ((now, limit) ∷ calls) = do
  m ← reserve x rate now limit
  rest ← reserve_all x rate calls
  pure (m + rest)

-- The times of the calls do not go back, from `start` to `end`.
abbrev InOrder : ℕ → List Call → ℕ → Type 0
InOrder start [] end = start ≤ end
InOrder start ((now, limit) ∷ calls) end = (start ≤ now) × InOrder now calls end
