-- ===== src/Channels/State.antt =====
-- The local state of channels and its policies: vyuh/src/channels/runtime.rs. The order in which a
-- hash map or a hash set shows its elements, which the program does not rely on, is the list's.
pub mod Places
pub mod Targets
pub mod Indexed
pub mod Sound
use vyuh.Prelude.{
  ℕ, leb, ◌==◌, ◌&&◌, ◌||◌, Bool, true, false, not, if◌then◌else◌, Option, none, some, is_none_or,
  is_some_and, List, [], ◌∷◌, ◌++◌, map, filter, any, is_empty, length, HashMap, lookup, remove,
  insert, contains_key, unwrap_or, number_key,
}
use vyuh.Prelude.Bytes.{Bytes, bytes_key}
use vyuh.Channels.Types.{
  ChannelError, ChannelResult, ok, err, ChannelEvent, ChannelTarget, same_target, DeliveryTarget,
  DeliveryRule, DeliverySpec, SignalCodec, TrySend, Mpsc, wrapping_suc,
}
use vyuh.Channels.Fanout.{FanoutDedup, no_deliveries}
use vyuh.Channels.Log.{append}

-- `S` is the sending end of a session's queue.
pub record ChannelState (V D S : Type 0) : Type 0 where
  pub generation : ℕ
  pub rules : HashMap ℕ (DeliveryRule V)
  pub log : List (ChannelEvent D)
  pub sessions : HashMap ℕ S

pub record LocalChannelState (V D S : Type 0) : Type 0 where
  pub users : HashMap Bytes (HashMap Bytes (ChannelState V D S))
  pub type_index : HashMap ℕ (List ChannelTarget)
  pub codecs : HashMap Bytes (SignalCodec V D)
  pub delivered_fanout : FanoutDedup

abbrev pub remove_target : ChannelTarget → List ChannelTarget → List ChannelTarget
remove_target target targets = filter (λ t. not (same_target t target)) targets

abbrev pub contains_target : ChannelTarget → List ChannelTarget → Bool
contains_target target targets = any (λ t. same_target t target) targets

abbrev pub insert_target : ChannelTarget → List ChannelTarget → List ChannelTarget
insert_target target targets = if contains_target target targets then targets else target ∷ targets

abbrev pub remove_all : {S : Type 0} → List ℕ → HashMap ℕ S → HashMap ℕ S
remove_all [] sessions = sessions
remove_all (id ∷ ids) sessions = remove_all ids (remove id sessions)

module _ {D S : Type 0} (queue : Mpsc (ChannelEvent D) S) where
  -- The ids of the sessions that did not take the event, and all sessions after the attempt.
  abbrev pub offer : ChannelEvent D → HashMap ℕ S → List ℕ × HashMap ℕ S
  offer event [] = ([], [])
  offer event ((id, sender) ∷ sessions) =
      let (closed, rest) = offer event sessions in
      let (answer, sender') = queue.try_send event sender in
      elim answer [
        | TrySend.sent ↦ (closed, (id, sender') ∷ rest)
        | TrySend.full ↦ (id ∷ closed, (id, sender') ∷ rest)
        | TrySend.closed ↦ (id ∷ closed, (id, sender') ∷ rest)
      ]

module _ {V D S : Type 0} where
  abbrev pub default_state : LocalChannelState V D S
  default_state = record {
    users = [];
    type_index = [];
    codecs = [];
    delivered_fanout = no_deliveries;
  }

  abbrev pub default_channel : ChannelState V D S
  default_channel = record { generation = 0; rules = []; log = []; sessions = [] }

  -- What `users.entry(user).or_default()` is.
  abbrev pub channels_of : Bytes → LocalChannelState V D S → HashMap Bytes (ChannelState V D S)
  channels_of user s = unwrap_or (lookup user s.users) []

  abbrev pub channel_at : ChannelTarget → LocalChannelState V D S → Option (ChannelState V D S)
  channel_at target s = lookup target.channel (channels_of target.user s)

  -- A write through `channel_mut` or through the entries of a channel.
  abbrev pub put_channel :
      ChannelTarget → ChannelState V D S → LocalChannelState V D S → LocalChannelState V D S
  put_channel target channel s = record s {
    users = insert target.user (insert target.channel channel (channels_of target.user s)) s.users;
  }

  abbrev pub ensure_channel_limit :
      LocalChannelState V D S → ChannelTarget → ℕ → ChannelResult (Unit {0})
  ensure_channel_limit s target limit =
      let channels = lookup target.user s.users in
      if is_none_or channels (λ cs. contains_key target.channel cs)
      then ok tt
      else if is_some_and channels (λ cs. leb limit (length cs))
      then err (ChannelError.channel_limit_exceeded limit)
      else ok tt

  abbrev pub remove_indexes : ChannelTarget → LocalChannelState V D S → LocalChannelState V D S
  remove_indexes target s = record s {
    type_index =
        filter (λ e. not (is_empty e.1)) (map (λ e. (e.0, remove_target target e.1)) s.type_index);
  }

  abbrev pub index_delivery :
      ChannelTarget → DeliverySpec V D → LocalChannelState V D S → LocalChannelState V D S
  index_delivery target delivery s =
      let targets = unwrap_or (lookup delivery.type_id s.type_index) [] in
      let codec : SignalCodec V D = record {
        type_id = delivery.type_id;
        decoder = delivery.decoder;
      } in
      record s {
        type_index = insert delivery.type_id (insert_target target targets) s.type_index;
        codecs = insert delivery.signal_key codec s.codecs;
      }

  abbrev pub add_rule : DeliverySpec V D → ChannelState V D S → ChannelState V D S
  add_rule delivery channel =
      let rule : DeliveryRule V = record {
        predicate = delivery.predicate;
        debounce = delivery.debounce;
      } in
      record channel { rules = insert delivery.type_id rule channel.rules }

  -- One delivery of the loop of `replace_policy`.
  abbrev pub add_delivery :
      ChannelTarget → DeliverySpec V D → LocalChannelState V D S → LocalChannelState V D S
  add_delivery target delivery s =
      put_channel target (add_rule delivery (unwrap_or (channel_at target s) default_channel))
        (index_delivery target delivery s)

  abbrev pub add_deliveries :
      ChannelTarget → List (DeliverySpec V D) → LocalChannelState V D S → LocalChannelState V D S
  add_deliveries target [] s = s
  add_deliveries target (d ∷ ds) s = add_deliveries target ds (add_delivery target d s)

  -- The channel under its next generation, without rules.
  abbrev pub renew : ChannelTarget → LocalChannelState V D S → LocalChannelState V D S
  renew target s =
      let channel = unwrap_or (channel_at target s) default_channel in
      put_channel target
        (record channel { generation = wrapping_suc channel.generation; rules = [] }) s

  unfoldable pub replace_policy :
      ChannelTarget → List (DeliverySpec V D) → LocalChannelState V D S → LocalChannelState V D S
  replace_policy target deliveries s =
      add_deliveries target deliveries (renew target (remove_indexes target s))

  abbrev pub channel_rule :
      LocalChannelState V D S → ChannelTarget → ℕ → Bool → Option (DeliveryTarget × DeliveryRule V)
  channel_rule s target type_id attached_only = elim (channel_at target s) [
    | none ↦ none
    | some channel ↦
        if attached_only && is_empty channel.sessions
        then none
        else elim (lookup type_id channel.rules) [
          | none ↦ none
          | some rule ↦ some (record { channel = target; generation = channel.generation }, rule)
        ]
  ]

  module _ (queue : Mpsc (ChannelEvent D) S) where
    abbrev pub send_live : ChannelEvent D → ChannelState V D S → ChannelState V D S
    send_live event channel =
        let (closed, sessions) = offer queue event channel.sessions in
        record channel { sessions = remove_all closed sessions }

    -- An accepted event is kept in the log and offered to the sessions.
    abbrev pub accept : ℕ → ChannelEvent D → ChannelState V D S → ChannelState V D S
    accept retention event channel =
        send_live event (record channel { log = append event retention channel.log })

    abbrev pub append_to :
        ℕ → ChannelEvent D → DeliveryTarget → LocalChannelState V D S → LocalChannelState V D S
    append_to retention event target s = elim (channel_at target.channel s) [
      | none ↦ s
      | some channel ↦
          if not (channel.generation == target.generation)
          then s
          else put_channel target.channel (accept retention event channel) s
    ]

    -- The loop of `append_event`.
    unfoldable pub append_event :
        ℕ → List DeliveryTarget → ChannelEvent D → LocalChannelState V D S → LocalChannelState V D S
    append_event retention [] event s = s
    append_event retention (target ∷ targets) event s =
        append_event retention targets event (append_to retention event target s)
