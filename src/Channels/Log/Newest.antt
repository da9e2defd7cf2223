-- ===== src/Channels/Log/Newest.antt =====
-- What a log keeps of the events that were appended to it: vyuh/src/channels/log.rs.
use vyuh.Prelude.{
  ℕ, zero, suc, ◌-◌, ◌≤◌, ltb, ◌==◌, ◌≡◌, refl, sym, ap, ◌∙◌, inl, inr, true, Bool-cases, List, [],
  ◌∷◌, ◌++◌, drop, take, filter, length, length-append, arith,
}
use mathlib.Core.List.{append-nil, append_assoc}
use vyuh.Channels.Types.{ChannelEvent}
use vyuh.Channels.Log.{pop_front, append, after}

module _ {D : Type 0} where
  abbrev pub append_all : ℕ → List (ChannelEvent D) → List (ChannelEvent D) → List (ChannelEvent D)
  append_all limit [] events = events
  append_all limit (e ∷ es) events = append_all limit es (append e limit events)

  drop-nil : (n : ℕ) → drop {A = ChannelEvent D} n [] ≡ []
  drop-nil zero = refl
  drop-nil (suc n) = refl

  -- The last `limit` of them.
  abbrev pub newest : ℕ → List (ChannelEvent D) → List (ChannelEvent D)
  newest limit events = drop (length events - limit) events

  pop_front-newest :
      (limit : ℕ) (events : List (ChannelEvent D)) → pop_front limit events ≡ newest limit events
  pop_front-newest limit [] = sym (drop-nil (0 - limit))
  pop_front-newest limit (e ∷ events) = elim (Bool-cases (ltb limit (suc (length events)))) [
    | inl h ↦
        let more : suc (length events) - limit ≡ suc (length events - limit) = ground arith in
        rw (h, more) (pop_front-newest limit events)
    | inr h ↦ let fits : suc (length events) - limit ≡ 0 = ground arith in rw (h, fits) refl
  ]

  pub length-pop_front-le :
      (limit : ℕ) (events : List (ChannelEvent D)) → length (pop_front limit events) ≤ limit
  length-pop_front-le limit [] = omega arith
  length-pop_front-le limit (e ∷ events) = ground (arith, length-pop_front-le limit events)

  nil-of_length : (events : List (ChannelEvent D)) → length events ≤ 0 → events ≡ []
  nil-of_length [] h = refl
  nil-of_length (e ∷ events) h = absurd (omega arith)

  pop_front-snoc :
      (limit : ℕ) (events : List (ChannelEvent D)) (e : ChannelEvent D)
      → pop_front limit (pop_front limit events ++ e ∷ []) ≡ pop_front limit (events ++ e ∷ [])
  pop_front-snoc limit [] e = refl
  pop_front-snoc limit (x ∷ events) e = elim (Bool-cases (ltb limit (suc (length events)))) [
    | inl h ↦
        let longer : ltb limit (suc (length (events ++ e ∷ []))) ≡ true =
          ground (arith, length-append events (e ∷ [])) in
        rw (h, longer) (pop_front-snoc limit events e)
    | inr h ↦ rw h refl
  ]

  append-pop_front :
      (limit : ℕ) (e : ChannelEvent D) (events : List (ChannelEvent D))
      → append e limit (pop_front limit events) ≡ pop_front limit (events ++ e ∷ [])
  unfolding append
  append-pop_front limit e events = elim (Bool-cases (limit == 0)) [
    | inl h ↦ rw h (empties h events ∙ sym (empties h (events ++ e ∷ [])))
    | inr h ↦ rw h (pop_front-snoc limit events e)
  ]
    where
      empties : (limit == 0) ≡ true → (es : List (ChannelEvent D)) → pop_front limit es ≡ []
      empties h es =
          let short = length-pop_front-le limit es in
          nil-of_length (pop_front limit es) (ground arith)

  append_all-pop_front :
      (limit : ℕ) (es events : List (ChannelEvent D))
      → append_all limit es (pop_front limit events) ≡ pop_front limit (events ++ es)
  append_all-pop_front limit [] events = ap (pop_front limit) (sym (append-nil events))
  append_all-pop_front limit (e ∷ es) events =
      ap (append_all limit es) (append-pop_front limit e events)
      ∙ append_all-pop_front limit es (events ++ e ∷ [])
      ∙ ap (pop_front limit) (append_assoc events (e ∷ []) es)

  pub length-append-le :
      (e : ChannelEvent D) (limit : ℕ) (events : List (ChannelEvent D))
      → length events ≤ limit
      → length (append e limit events) ≤ limit
  unfolding append
  length-append-le e limit events h = ground (arith, length-pop_front-le limit (events ++ e ∷ []))

  -- A log holds the newest events that were appended to it, in their order, as many as its limit
  -- allows, and a reconnection is answered with the first of those that are newer than its cursor.
  pub append_all-newest :
      (limit cursor replay_limit : ℕ) (events : List (ChannelEvent D))
      → (append_all limit events [] ≡ newest limit events)
        × (after cursor replay_limit (append_all limit events [])
            ≡ take replay_limit (filter (λ e. ltb cursor e.id) (newest limit events)))
        × (length (append_all limit events []) ≤ limit)
  unfolding after
  append_all-newest limit cursor replay_limit events =
      let kept = append_all-pop_front limit events [] in
      let same = kept ∙ pop_front-newest limit events in
      (
        same,
        ap (λ log. take replay_limit (filter (λ e. ltb cursor e.id) log)) same,
        rw kept (length-pop_front-le limit events),
      )
