-- ===== src/Channels/Log.antt =====
-- The replay log of one channel: vyuh/src/channels/log.rs.
pub mod Newest
use vyuh.Prelude.{ℕ, suc, ltb, ◌==◌, if◌then◌else◌, List, [], ◌∷◌, ◌++◌, filter, take, length}
use vyuh.Channels.Types.{ChannelEvent}

module _ {D : Type 0} where
  -- The loop that pops from the front while there are too many.
  abbrev pub pop_front : ℕ → List (ChannelEvent D) → List (ChannelEvent D)
  pop_front limit [] = []
  pop_front limit (e ∷ events) =
      let rest = pop_front limit events in
      if ltb limit (suc (length events)) then rest else e ∷ events

  unfoldable pub append : ChannelEvent D → ℕ → List (ChannelEvent D) → List (ChannelEvent D)
  append event limit events = if limit == 0 then events else pop_front limit (events ++ event ∷ [])

  unfoldable pub after : ℕ → ℕ → List (ChannelEvent D) → List (ChannelEvent D)
  after cursor limit events = take limit (filter (λ e. ltb cursor e.id) events)
