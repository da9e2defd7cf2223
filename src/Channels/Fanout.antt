-- ===== src/Channels/Fanout.antt =====
-- The ids of the fanout envelopes that were delivered last: vyuh/src/channels/runtime.rs
-- (`FanoutDedup`).
pub mod Tracked
pub mod Recent
use vyuh.Prelude.{
  ℕ, ltb, ◌==◌, Bool, true, false, not, if◌then◌else◌, List, [], ◌∷◌, ◌++◌, filter, any, length,
}

abbrev pub fanout_dedup_limit : ℕ
fanout_dedup_limit = 2048

pub record FanoutDedup : Type 0 where
  pub ids : List ℕ
  pub known : List ℕ

abbrev pub no_deliveries : FanoutDedup
no_deliveries = record { ids = []; known = [] }

abbrev pub contains : ℕ → List ℕ → Bool
contains id ids = any (λ x. x == id) ids

abbrev pub forget : List ℕ → FanoutDedup → FanoutDedup
forget [] d = d
forget (expired ∷ ids) d = record { ids = ids; known = filter (λ x. not (x == expired)) d.known }

unfoldable pub seen_or_insert : ℕ → FanoutDedup → Bool × FanoutDedup
seen_or_insert id d =
    let added : FanoutDedup = record { ids = d.ids ++ id ∷ []; known = id ∷ d.known } in
    if contains id d.known then (true, d) else (
      false,
      (if ltb fanout_dedup_limit (length added.ids) then forget added.ids added else added),
    )
