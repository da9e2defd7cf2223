-- ===== src/Channels/Runtime/Sound.antt =====
-- What each operation of channels keeps: vyuh/src/channels/runtime.rs.
use vyuh.Prelude.{
  ℕ, ◌≤◌, ◌==◌, true, not, ◌||◌, Bool-cases, Option-cases, ◌≡◌, refl, sym, ap, ◌⊎◌, ◌∙◌, subst, inl,
  inr, Option, some, is_some, is_none, is_none_or, is_some_and, List, [], ◌∷◌, length, lookup,
  remove, insert, contains_key, unwrap_or, number_key,
}
use vyuh.Prelude.Bytes.{Bytes}
use vyuh.Channels.Types.{
  ChannelConf, ChannelTarget, ChannelEvent, ChannelError, ChannelResult, ok, err, wrapping_suc,
  DeliveryTarget, DeliverySpec, DebounceKey, PendingPayload, FanoutEnvelope, Mpsc,
}
use vyuh.Channels.Log.Newest.{length-append-le}
use vyuh.Channels.Fanout.Tracked.{Tracked, seen_or_insert-Tracked}
use vyuh.Channels.State.{
  ChannelState, LocalChannelState, channel_at, put_channel, accept, append_to, ensure_channel_limit,
  replace_policy, renew, remove_indexes, add_delivery, add_deliveries, append_event as append_in,
}
use vyuh.Channels.State.Indexed.{Indexed, put-Indexed, replace_policy-Indexed}
use vyuh.Channels.State.Sound.{
  Bounded, put-Bounded, replace_policy-Bounded, ensure_channel_limit-Room,
}
use vyuh.Channels.Runtime.{
  SubscriptionRuntime, deliver_debounced, open_user, open_in, remove_session, fanout_codec,
}

module _ {V D S : Type 0} (conf : ChannelConf) where
  pub record Sound (s : LocalChannelState V D S) : Type 0 where
    pub indexed : Indexed s
    pub bounded : Bounded conf s
    pub tracked : Tracked s.delivered_fanout

  -- A write of a channel that keeps its rules.
  pub put-Sound :
      (t : ChannelTarget) (c c' : ChannelState V D S) (s : LocalChannelState V D S)
      → channel_at t s ≡ some c
      → c'.rules ≡ c.rules
      → length c'.log ≤ conf.retention_events
      → Sound s
      → Sound (put_channel t c' s)
  put-Sound t c c' s here same short h = record {
    indexed =
        put-Indexed t c' s
          (λ type_id.
            ap (λ q. contains_key type_id q) same
            ∙ ap (λ o. is_some_and o (λ d. contains_key type_id d.rules)) (sym here))
          h.indexed;
    bounded = put-Bounded conf t c' s (inl (ap is_some here)) short h.bounded;
    tracked = h.tracked;
  }

  added_lem :
      (t : ChannelTarget) (ds : List (DeliverySpec V D)) (s : LocalChannelState V D S)
      → (add_deliveries t ds s).delivered_fanout ≡ s.delivered_fanout
  added_lem t [] s = refl
  added_lem t (d ∷ ds) s = added_lem t ds (add_delivery t d s)

  delivered_lem :
      (t : ChannelTarget) (ds : List (DeliverySpec V D)) (s : LocalChannelState V D S)
      → (replace_policy t ds s).delivered_fanout ≡ s.delivered_fanout
  unfolding replace_policy
  delivered_lem t ds s = added_lem t ds (renew t (remove_indexes t s))

  pub replaced :
      (t : ChannelTarget) (ds : List (DeliverySpec V D)) (s : LocalChannelState V D S)
      → ensure_channel_limit s t conf.max_channels_per_user ≡ ok tt
      → Sound s
      → Sound (replace_policy t ds s) × (is_some (channel_at t (replace_policy t ds s)) ≡ true)
  replaced t ds s fits h =
      let (b, there) =
        replace_policy-Bounded conf t ds s (ensure_channel_limit-Room conf t s fits) h.bounded in
      (
        record {
          indexed = replace_policy-Indexed t ds s h.indexed;
          bounded = b;
          tracked = subst Tracked (sym (delivered_lem t ds s)) h.tracked;
        },
        there,
      )

  module _ (queue : Mpsc (ChannelEvent D) S) where
    pub accept-Sound :
        (t : ChannelTarget) (c : ChannelState V D S) (event : ChannelEvent D)
        (s : LocalChannelState V D S)
        → channel_at t s ≡ some c
        → Sound s
        → Sound (put_channel t (accept queue conf.retention_events event c) s)
    accept-Sound t c event s here h =
        put-Sound t c (accept queue conf.retention_events event c) s here refl
          (length-append-le event conf.retention_events c.log (h.bounded.retained t c here)) h

    append_to-Sound :
        (event : ChannelEvent D) (t : DeliveryTarget) (s : LocalChannelState V D S)
        → Sound s
        → Sound (append_to queue conf.retention_events event t s)
    append_to-Sound event t s h = elim (Option-cases (channel_at t.channel s)) [
      | inl e ↦ rw (append_to, e) h
      | inr (c, e) ↦ elim (Bool-cases (c.generation == t.generation)) [
        | inl f ↦ rw (append_to, e, f) (accept-Sound t.channel c event s e h)
        | inr f ↦ rw (append_to, e, f) h
      ]
    ]

    pub append_event-Sound :
        (ts : List DeliveryTarget) (event : ChannelEvent D) (s : LocalChannelState V D S)
        → Sound s
        → Sound (append_in queue conf.retention_events ts event s)
    unfolding append_in
    append_event-Sound [] event s h = h
    append_event-Sound (t ∷ ts) event s h =
        append_event-Sound ts event (append_to queue conf.retention_events event t s)
          (append_to-Sound event t s h)

-- A runtime that keeps its configuration and a sound state.
abbrev pub Kept : {V D S Q : Type 0} → ChannelConf → SubscriptionRuntime V D S Q → Type 0
Kept conf rt = (rt.conf ≡ conf) × Sound conf rt.state

module _ {V D S Q : Type 0} (queue : Mpsc (ChannelEvent D) S) where
  pub deliver_debounced-Sound :
      (key : DebounceKey) (payload : PendingPayload D) (now : ℕ) (rt : SubscriptionRuntime V D S Q)
      → Sound rt.conf rt.state
      → Kept rt.conf (deliver_debounced queue key payload now rt)
  unfolding deliver_debounced
  deliver_debounced-Sound key payload now rt h =
      elim (Option-cases (channel_at key.target.channel rt.state)) [
        | inl e ↦ rw (deliver_debounced, e) (refl, h)
        | inr (c, e) ↦
            elim (Bool-cases (
              not (c.generation == key.target.generation)
              || is_none_or (lookup key.type_id c.rules) (λ rule. is_none rule.debounce))) [
                | inl f ↦ rw (deliver_debounced, e, f) (refl, h)
                | inr f ↦
                    rw (deliver_debounced, e, f)
                      (refl, accept-Sound rt.conf queue key.target.channel c _ rt.state e h)
              ]
      ]

  pub remove_session-Sound :
      (t : ChannelTarget) (id : ℕ) (rt : SubscriptionRuntime V D S Q)
      → Sound rt.conf rt.state
      → Kept rt.conf (remove_session t id rt)
  unfolding remove_session
  remove_session-Sound t id rt h = elim (Option-cases (channel_at t rt.state)) [
    | inl e ↦ rw (remove_session, e) (refl, h)
    | inr (c, e) ↦
        rw (remove_session, e)
          (
            refl,
            put-Sound rt.conf t c (record c { sessions = remove id c.sessions }) rt.state e refl
                (h.bounded.retained t c e) h,
          )
  ]

  pub fanout_codec-Sound :
      (envelope : FanoutEnvelope) (rt : SubscriptionRuntime V D S Q)
      → Sound rt.conf rt.state
      → Kept rt.conf (fanout_codec envelope rt).1
  fanout_codec-Sound envelope rt h = (
    refl,
    record {
      indexed = record {
        agrees = h.indexed.agrees;
        keyed = h.indexed.keyed;
        distinct = h.indexed.distinct;
      };
      bounded = record {
        limited = h.bounded.limited;
        retained = h.bounded.retained;
        peopled = h.bounded.peopled;
      };
      tracked = seen_or_insert-Tracked envelope.delivery_id rt.state.delivered_fanout h.tracked;
    },
  )

  pub open_user-Sound :
      (user channel : Bytes) (ds : List (DeliverySpec V D)) (cursor : Option ℕ)
      (rt : SubscriptionRuntime V D S Q)
      → Sound rt.conf rt.state
      → Kept rt.conf (open_user queue user channel ds cursor rt).1
  unfolding open_user
  open_user-Sound user channel ds cursor rt h =
      elim (fits-cases (ensure_channel_limit rt.state target rt.conf.max_channels_per_user)) [
        | inl (e, f) ↦ rw (open_user, f) (refl, h)
        | inr f ↦
            let (next, there) = replaced rt.conf target ds rt.state f h in
            rw (open_user, f) (opened (replace_policy target ds rt.state) next)
      ]
    where
      target : ChannelTarget
      target = record { user = user; channel = channel }

      fits-cases : (r : ChannelResult (Unit {0})) → ((e : ChannelError) × (r ≡ err e)) ⊎ (r ≡ ok tt)
      fits-cases (ok u) = inr refl
      fits-cases (err e) = inl (e, refl)

      opened :
          (s : LocalChannelState V D S)
          → Sound rt.conf s
          → Kept rt.conf
              (open_in queue target rt.next_session
                (unwrap_or cursor 0)
                s
                (record rt { next_session = wrapping_suc rt.next_session })).1
      opened s k = elim (Option-cases (channel_at target s)) [
        | inl e ↦ rw (open_in, e) (refl, k)
        | inr (c, e) ↦
            rw (open_in, e)
              (
                refl,
                put-Sound rt.conf target c
                    (record c { sessions = insert rt.next_session _ c.sessions }) s e refl
                    (k.bounded.retained target c e) k,
              )
      ]
