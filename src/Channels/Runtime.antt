-- ===== src/Channels/Runtime.antt =====
-- The operations of channels: vyuh/src/channels/runtime.rs. A queue of tokio is a parameter, with its
-- sending end a part of the state; the clock is an argument.
pub mod Sound
pub mod Reach
pub mod Reopen
pub mod Limit
use vyuh.Prelude.{
  ℕ, zero, suc, ltb, ◌==◌, ◌||◌, Bool, true, false, not, if◌then◌else◌, Option, none, some, is_none,
  is_none_or, unwrap_or, List, [], ◌∷◌, map, filter, is_empty, length, max, HashMap, lookup, remove,
  insert, number_key,
}
use vyuh.Prelude.Bytes.{Bytes, ascii, bytes_key}
use vyuh.Channels.Types.{
  ChannelError, ChannelResult, ok, err, ◌>>=◌, ChannelConf, ChannelEvent, ChannelTarget,
  DeliveryTarget, DebounceKey, PendingPayload, DebounceInput, DeliveryRule, DeliverySpec,
  SignalCodec, FanoutEnvelope, TrySend, Mpsc, wrapping_suc,
}
use vyuh.Channels.Fanout.{seen_or_insert}
use vyuh.Channels.Log.{after}
use vyuh.Channels.State.{
  ChannelState, LocalChannelState, default_state, channel_at, put_channel, ensure_channel_limit,
  replace_policy, channel_rule, accept, append_event as append_in,
}

-- `Q` is the sending end of the queue of debounced deliveries.
pub record SubscriptionRuntime (V D S Q : Type 0) : Type 0 where
  pub conf : ChannelConf
  pub next_event : ℕ
  pub next_session : ℕ
  pub state : LocalChannelState V D S
  pub beacon_channels : HashMap ℕ Bytes
  pub debounce_tx : Q

pub record ChannelOpen (D S : Type 0) : Type 0 where
  pub replay : List (ChannelEvent D)
  pub receiver : S
  pub target : ChannelTarget
  pub id : ℕ

module _ {V D S Q : Type 0} where
  abbrev pub set_state :
      LocalChannelState V D S → SubscriptionRuntime V D S Q → SubscriptionRuntime V D S Q
  set_state s rt = record rt { state = s }

  -- `next_event.fetch_add(1)`
  abbrev pub take_event_id : SubscriptionRuntime V D S Q → ℕ × SubscriptionRuntime V D S Q
  take_event_id rt = (rt.next_event, record rt { next_event = wrapping_suc rt.next_event })

  abbrev pub beacon_channel : ℕ → SubscriptionRuntime V D S Q → Option Bytes
  beacon_channel operation rt = lookup operation rt.beacon_channels

  -- The drop of a receiver.
  unfoldable pub remove_session :
      ChannelTarget → ℕ → SubscriptionRuntime V D S Q → SubscriptionRuntime V D S Q
  remove_session target id rt = elim (channel_at target rt.state) [
    | none ↦ rt
    | some channel ↦
        set_state
          (put_channel target (record channel { sessions = remove id channel.sessions }) rt.state)
          rt
  ]

  -- None where the envelope was delivered before, or nobody here decodes its signal.
  abbrev pub fanout_codec :
      FanoutEnvelope
      → SubscriptionRuntime V D S Q
      → Option (SignalCodec V D) × SubscriptionRuntime V D S Q
  fanout_codec envelope rt =
      let (seen, delivered) = seen_or_insert envelope.delivery_id rt.state.delivered_fanout in
      let rt' = set_state (record rt.state { delivered_fanout = delivered }) rt in
      (if seen then none else lookup envelope.signal_key rt.state.codecs, rt')

  module _ (queue : Mpsc (ChannelEvent D) S) where
    abbrev pub append_event :
        List DeliveryTarget
        → ChannelEvent D
        → SubscriptionRuntime V D S Q
        → SubscriptionRuntime V D S Q
    append_event targets event rt =
        set_state (append_in queue rt.conf.retention_events targets event rt.state) rt

    unfoldable pub deliver_debounced :
        DebounceKey
        → PendingPayload D
        → ℕ
        → SubscriptionRuntime V D S Q
        → SubscriptionRuntime V D S Q
    deliver_debounced key payload now rt = elim (channel_at key.target.channel rt.state) [
      | none ↦ rt
      | some channel ↦
          let (id, rt') = take_event_id rt in
          if not (channel.generation == key.target.generation)
            || is_none_or (lookup key.type_id channel.rules) (λ rule. is_none rule.debounce)
          then rt
          else set_state
              (put_channel key.target.channel
                (accept queue rt.conf.retention_events
                  (record {
                    id = id;
                    event_type = payload.event_type;
                    data_ = payload.data_;
                    created_at = now;
                  })
                  channel)
                rt.state)
              rt'
    ]

    abbrev pub open_in :
        ChannelTarget
        → ℕ
        → ℕ
        → LocalChannelState V D S
        → SubscriptionRuntime V D S Q
        → ChannelResult (ChannelOpen D S) × SubscriptionRuntime V D S Q
    open_in target session cursor s rt = elim (channel_at target s) [
      | none ↦ (err ChannelError.backend_unavailable, set_state s rt)
      | some channel ↦
          let sender = queue.channel (max rt.conf.subscriber_queue 1) in
          (
            ok (record {
              replay = after cursor rt.conf.replay_limit channel.log;
              receiver = sender;
              target = target;
              id = session;
            }),
            set_state
                (put_channel target
                  (record channel { sessions = insert session sender channel.sessions }) s)
                rt,
          )
    ]

    unfoldable pub open_user :
        Bytes
        → Bytes
        → List (DeliverySpec V D)
        → Option ℕ
        → SubscriptionRuntime V D S Q
        → ChannelResult (ChannelOpen D S) × SubscriptionRuntime V D S Q
    open_user user_key channel_key deliveries cursor rt =
        let target : ChannelTarget = record { user = user_key; channel = channel_key } in
        let rt' = record rt { next_session = wrapping_suc rt.next_session } in
        elim (ensure_channel_limit rt.state target rt.conf.max_channels_per_user) [
          | err e ↦ (err e, rt')
          | ok u ↦
              open_in target rt.next_session (unwrap_or cursor 0)
                (replace_policy target deliveries rt.state) rt'
        ]

    module _ (debounces : Mpsc (DebounceInput D) Q) where
      abbrev pub new : ChannelConf → HashMap ℕ Bytes → SubscriptionRuntime V D S Q
      new conf beacon_channels = record {
        conf = conf;
        next_event = 1;
        next_session = 1;
        state = default_state;
        beacon_channels = beacon_channels;
        debounce_tx = debounces.channel (max conf.retention_events 1);
      }
