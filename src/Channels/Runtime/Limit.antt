-- ===== src/Channels/Runtime/Limit.antt =====
-- Whom `open_user` turns away: vyuh/src/channels/runtime.rs.
use vyuh.Prelude.{
  ℕ, ◌≤◌, max, arith, leb, Bool, true, false, not, ◌&&◌, if◌then◌else◌, Bool-cases, Option-cases,
  ◌≡◌, refl, ◌∙◌, inl, inr, Option, none, some, is_some, is_none, is_none_or, is_some_and, List, [],
  length, lookup, contains_key, unwrap_or, HashMap,
}
use vyuh.Prelude.Bytes.{Bytes, bytes_key}
use vyuh.Channels.Types.{
  ChannelTarget, ChannelEvent, ChannelError, ChannelResult, ok, err, DeliverySpec, Mpsc,
  wrapping_suc,
}
use vyuh.Channels.State.{
  ChannelState, LocalChannelState, channel_at, channels_of, ensure_channel_limit, replace_policy,
}
use vyuh.Channels.Runtime.{SubscriptionRuntime, open_user, open_in}
use vyuh.Channels.Runtime.Sound.{Sound, replaced}

abbrev pub is_ok {ℓ} : {A : Type ℓ} → ChannelResult A → Bool
is_ok (ok a) = true
is_ok (err e) = false

-- The channel is a new one, and its user has as many as the limit, or one where that is none.
abbrev pub too_many : {V D S : Type 0} → ℕ → ChannelTarget → LocalChannelState V D S → Bool
too_many limit t s = is_none (channel_at t s) && leb (max limit 1) (length (channels_of t.user s))

ensure_channel_limit_lem :
    {V D S : Type 0} (limit : ℕ) (t : ChannelTarget) (s : LocalChannelState V D S)
    → ((cs : HashMap Bytes (ChannelState V D S)) → lookup t.user s.users ≡ some cs → 1 ≤ length cs)
    → ensure_channel_limit s t limit
      ≡ (if too_many limit t s then err (ChannelError.channel_limit_exceeded limit) else ok tt)
ensure_channel_limit_lem {V} {D} {S} limit t s peopled = of (lookup t.user s.users) peopled
  where
    known :
        (n : ℕ) (o : Option (ChannelState V D S))
        → 1 ≤ n
        → ◌≡◌ {A = ChannelResult (Unit {0})}
            (if is_some o
              then ok tt
              else if leb limit n
              then err (ChannelError.channel_limit_exceeded limit)
              else ok tt)
            (if is_none o && leb (max limit 1) n
              then err (ChannelError.channel_limit_exceeded limit)
              else ok tt)
    known n none h = let same : leb limit n ≡ leb (max limit 1) n = ground arith in rw same refl
    known n (some c) h = refl

    of :
        (o : Option (HashMap Bytes (ChannelState V D S)))
        → ((cs : HashMap Bytes (ChannelState V D S)) → o ≡ some cs → 1 ≤ length cs)
        → ◌≡◌ {A = ChannelResult (Unit {0})}
            (if is_none_or o (λ cs. contains_key t.channel cs)
              then ok tt
              else if is_some_and o (λ cs. leb limit (length cs))
              then err (ChannelError.channel_limit_exceeded limit)
              else ok tt)
            (if is_none (lookup t.channel (unwrap_or o []))
                && leb (max limit 1) (length (unwrap_or o []))
              then err (ChannelError.channel_limit_exceeded limit)
              else ok tt)
    of none h = let room : leb (max limit 1) 0 ≡ false = ground arith in rw room refl
    of (some cs) h = known (length cs) (lookup t.channel cs) (h cs refl)

module _ {V D S Q : Type 0} (queue : Mpsc (ChannelEvent D) S) where
  -- What is asked of an answer, and of the runtime after it, where `refused` says to turn away.
  abbrev pub Answered :
      {A : Type 0}
      → Bool
      → SubscriptionRuntime V D S Q
      → ChannelResult A × SubscriptionRuntime V D S Q
      → Type 0
  Answered refused rt answer =
      (is_ok answer.0 ≡ not refused)
      × ((if refused then answer else (err limited, turned_away)) ≡ (err limited, turned_away))
    where
      limited : ChannelError
      limited = ChannelError.channel_limit_exceeded rt.conf.max_channels_per_user

      turned_away : SubscriptionRuntime V D S Q
      turned_away = record rt { next_session = wrapping_suc rt.next_session }

  open_in-ok :
      (t : ChannelTarget) (session cursor : ℕ) (s : LocalChannelState V D S)
      (rt : SubscriptionRuntime V D S Q)
      → is_some (channel_at t s) ≡ true
      → is_ok (open_in queue t session cursor s rt).0 ≡ true
  open_in-ok t session cursor s rt h = elim (Option-cases (channel_at t s)) [
    | inl e ↦ let q : false ≡ true = rw e at h in cc
    | inr (c, e) ↦ rw (open_in, e) refl
  ]

  -- In a sound runtime the opening of a channel fails exactly where the channel is new and its user
  -- has as many as the limit, or one where the limit is 0; then the limit is the answer and nothing but
  -- the count of sessions has changed. So a user's first channel is opened also where the limit is 0.
  pub open_user-Answered :
      (t : ChannelTarget) (ds : List (DeliverySpec V D)) (cursor : Option ℕ)
      (rt : SubscriptionRuntime V D S Q)
      → Sound rt.conf rt.state
      → Answered
          (too_many rt.conf.max_channels_per_user t rt.state)
          rt
          (open_user queue t.user t.channel ds cursor rt)
  unfolding open_user
  open_user-Answered t ds cursor rt h =
      let limit = rt.conf.max_channels_per_user in
      let checked = ensure_channel_limit_lem limit t rt.state (h.bounded.peopled t.user) in
      elim (Bool-cases (too_many limit t rt.state)) [
        | inl e ↦
            let refused : ensure_channel_limit rt.state t limit
                ≡ err (ChannelError.channel_limit_exceeded limit) =
              checked ∙ rw e refl in
            rw (e, open_user, refused) (refl, refl)
        | inr e ↦
            let fits : ensure_channel_limit rt.state t limit ≡ ok tt = checked ∙ rw e refl in
            let (_, there) = replaced rt.conf t ds rt.state fits h in
            rw (e, open_user, fits)
              (
                open_in-ok t rt.next_session (unwrap_or cursor 0) (replace_policy t ds rt.state)
                    (record rt { next_session = wrapping_suc rt.next_session }) there,
                refl,
              )
      ]
