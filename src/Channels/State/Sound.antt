-- ===== src/Channels/State/Sound.antt =====
-- What always holds of the local state of channels: vyuh/src/channels/runtime.rs.
use vyuh.Prelude.{
  ℕ, ◌+◌, ◌≤◌, leb, max, Bool, true, false, if◌then◌else◌, Bool-cases, Option-cases, ◌≡◌, refl, sym,
  ap, ◌∙◌, subst, ◌⊎◌, inl, inr, Option, none, some, some_eq, is_some, is_none_or, is_some_and,
  List, [], ◌∷◌, length, lookup, insert, contains_key, unwrap_or, number_key, HashMap, arith,
}
use vyuh.Prelude.Maps.{lookup-insert, length-remove-le, length-remove-lt}
use vyuh.Prelude.Bytes.{Bytes, bytes_key, bytes_laws, same_bytes}
use vyuh.Channels.Types.{
  ChannelConf, ChannelTarget, same_target, same_target_refl, DeliverySpec, ok, err, ChannelError,
  ChannelResult,
}
use vyuh.Channels.State.{
  ChannelState, LocalChannelState, default_channel, channels_of, channel_at, put_channel,
  ensure_channel_limit, remove_indexes, add_delivery, add_deliveries, renew, add_rule,
  index_delivery, replace_policy,
}
use vyuh.Channels.State.Places.{channels_of-put, channel_at-put}

abbrev pub channel_bound : ChannelConf → ℕ
channel_bound conf = max conf.max_channels_per_user 1

module _ {V D S : Type 0} (conf : ChannelConf) where
  -- The bounds on what one state keeps.
  pub record Bounded (s : LocalChannelState V D S) : Type 0 where
    pub limited : (user : Bytes) → length (channels_of user s) ≤ channel_bound conf
    pub retained :
        (t : ChannelTarget) (c : ChannelState V D S)
        → channel_at t s ≡ some c
        → length c.log ≤ conf.retention_events
    pub peopled :
        (user : Bytes) (cs : HashMap Bytes (ChannelState V D S))
        → lookup user s.users ≡ some cs
        → 1 ≤ length cs

  -- A channel that is there, or room for one more.
  abbrev pub Room : ChannelTarget → LocalChannelState V D S → Type 0
  Room t s =
      (is_some (channel_at t s) ≡ true) ⊎ (length (channels_of t.user s) + 1 ≤ channel_bound conf)

  length-insert-le :
      (key : Bytes) (c : ChannelState V D S) (m : HashMap Bytes (ChannelState V D S))
      → length m ≤ channel_bound conf
      → (contains_key key m ≡ true) ⊎ (length m + 1 ≤ channel_bound conf)
      → length (insert key c m) ≤ channel_bound conf
  length-insert-le key c m h (inl there) = omega (arith, length-remove-lt key m there)
  length-insert-le key c m h (inr room) = omega (arith, length-remove-le key m)

  pub put-Bounded :
      (t : ChannelTarget) (c : ChannelState V D S) (s : LocalChannelState V D S)
      → Room t s
      → length c.log ≤ conf.retention_events
      → Bounded s
      → Bounded (put_channel t c s)
  put-Bounded t c s room short b = record {
    limited = λ user.
        subst (λ cs. length cs ≤ channel_bound conf) (sym (channels_of-put t c s user))
          (elim (Bool-cases (same_bytes t.user user)) [
            | inl e ↦
                rw e (length-insert-le t.channel c (channels_of t.user s) (b.limited t.user) room)
            | inr e ↦ rw e (b.limited user)
          ]);
    retained = λ other d h.
        let found = sym (channel_at-put t other c s) ∙ h in
        elim (Bool-cases (same_target t other)) [
          | inl e ↦
              subst (λ x. length x.log ≤ conf.retention_events) (some_eq c d (rw e at found)) short
          | inr e ↦ b.retained other d (rw e at found)
        ];
    peopled = λ user cs h.
        let own = insert t.channel c (channels_of t.user s) in
        let found = sym (lookup-insert t.user user own s.users) ∙ h in
        elim (Bool-cases (same_bytes t.user user)) [
          | inl e ↦ subst (λ m. 1 ≤ length m) (some_eq own cs (rw e at found)) (omega arith)
          | inr e ↦ b.peopled user cs (rw e at found)
        ];
  }

  own_log :
      (t : ChannelTarget) (s : LocalChannelState V D S)
      → Bounded s
      → length (unwrap_or (channel_at t s) default_channel).log ≤ conf.retention_events
  own_log t s b = elim (Option-cases (channel_at t s)) [
    | inl e ↦ rw e (omega arith)
    | inr (c, e) ↦ rw e (b.retained t c e)
  ]

  there_after_put :
      (t : ChannelTarget) (c : ChannelState V D S) (s : LocalChannelState V D S)
      → is_some (channel_at t (put_channel t c s)) ≡ true
  there_after_put t c s = ap is_some (channel_at-put t t c s) ∙ rw (same_target_refl t) refl

  add_deliveries-Bounded :
      (t : ChannelTarget) (ds : List (DeliverySpec V D)) (s : LocalChannelState V D S)
      → is_some (channel_at t s) ≡ true
      → Bounded s
      → Bounded (add_deliveries t ds s) × (is_some (channel_at t (add_deliveries t ds s)) ≡ true)
  add_deliveries-Bounded t [] s there b = (b, there)
  add_deliveries-Bounded t (d ∷ ds) s there b =
      let step : Bounded (add_delivery t d s) =
        put-Bounded t _ (index_delivery t d s) (inl there) (own_log t s b)
          (record { limited = b.limited; retained = b.retained; peopled = b.peopled }) in
      add_deliveries-Bounded t ds (add_delivery t d s)
        (there_after_put t (add_rule d (unwrap_or (channel_at t s) default_channel))
          (index_delivery t d s))
        step

  pub replace_policy-Bounded :
      (t : ChannelTarget) (ds : List (DeliverySpec V D)) (s : LocalChannelState V D S)
      → Room t s
      → Bounded s
      → Bounded (replace_policy t ds s) × (is_some (channel_at t (replace_policy t ds s)) ≡ true)
  unfolding replace_policy
  replace_policy-Bounded t ds s room b =
      let renewed : Bounded (renew t (remove_indexes t s)) =
        put-Bounded t _ (remove_indexes t s) room (own_log t s b)
          (record { limited = b.limited; retained = b.retained; peopled = b.peopled }) in
      add_deliveries-Bounded t ds (renew t (remove_indexes t s))
        (there_after_put t _ (remove_indexes t s)) renewed

  -- What the check before a new policy ensures.
  pub ensure_channel_limit-Room :
      (t : ChannelTarget) (s : LocalChannelState V D S)
      → ensure_channel_limit s t conf.max_channels_per_user ≡ ok tt
      → Room t s
  ensure_channel_limit-Room t s h = of (lookup t.user s.users) h
    where
      fits :
          (n limit : ℕ) (there : Bool)
          → ◌≡◌ {A = ChannelResult (Unit {0})}
              (if there
                then ok tt
                else if leb limit n
                then err (ChannelError.channel_limit_exceeded limit)
                else ok tt)
              (ok tt)
          → (there ≡ true) ⊎ (n + 1 ≤ max limit 1)
      fits n limit true h = inl refl
      fits n limit false h = elim (Bool-cases (leb limit n)) [
        | inl e ↦
            let clash : ◌≡◌ {A = ChannelResult (Unit {0})}
                (err (ChannelError.channel_limit_exceeded limit)) (ok tt) =
              rw e at h in
            cc
        | inr e ↦ inr (ground arith)
      ]

      of :
          (o : Option (HashMap Bytes (ChannelState V D S)))
          → ◌≡◌ {A = ChannelResult (Unit {0})}
              (if is_none_or o (λ cs. contains_key t.channel cs)
                then ok tt
                else if is_some_and o (λ cs. leb conf.max_channels_per_user (length cs))
                then err (ChannelError.channel_limit_exceeded conf.max_channels_per_user)
                else ok tt)
              (ok tt)
          → (is_some (lookup t.channel (unwrap_or o [])) ≡ true)
            ⊎ (length (unwrap_or o []) + 1 ≤ channel_bound conf)
      of none h = inr (omega arith)
      of (some cs) h = fits (length cs) conf.max_channels_per_user (contains_key t.channel cs) h
