-- ===== src/Channels/Publish.antt =====
-- Publications: vyuh/src/channels/runtime.rs. The JSON of a value is a parameter, the clock an argument.
pub mod Chosen
pub mod Appending
pub mod Delivery
use vyuh.Prelude.{
  ℕ, zero, suc, ltb, ◌==◌, ◌||◌, Bool, true, false, not, if◌then◌else◌, Option, none, some, is_none,
  is_none_or, unwrap_or, List, [], ◌∷◌, map, filter, is_empty, length, max, HashMap, lookup, remove,
  insert, number_key,
}
use vyuh.Prelude.Bytes.{Bytes, ascii, bytes_key}
use vyuh.Channels.Types.{
  ChannelError, ChannelResult, ok, err, ◌>>=◌, ChannelConf, ChannelEvent, ChannelTarget,
  DeliveryTarget, DebounceKey, PendingPayload, DebounceInput, DeliveryRule, DeliverySpec,
  SignalCodec, FanoutEnvelope, TrySend, Mpsc, wrapping_suc,
}
use vyuh.Channels.Fanout.{seen_or_insert}
use vyuh.Channels.Log.{after}
use vyuh.Channels.State.{
  ChannelState, LocalChannelState, default_state, channel_at, put_channel, ensure_channel_limit,
  replace_policy, channel_rule, accept, append_event as append_in,
}
use vyuh.Channels.Runtime.{
  SubscriptionRuntime, set_state, take_event_id, append_event, fanout_codec,
}

pub record AcceptedChannel : Type 0 where
  pub target : DeliveryTarget
  pub debounce : Option ℕ

-- serde_json on a signal's value.
pub record Json (V D : Type 0) : Type 0 where
  pub to_value : V → ChannelResult D
  pub to_vec : D → ChannelResult Bytes
  pub from_str : Bytes → ChannelResult D

-- An erased signal, an error of whose encoding is a `Serialization` already.
pub record DataBox (V D : Type 0) : Type 0 where
  pub payload_type_id : ℕ
  pub as_any : V
  pub to_json : Option (ChannelResult D)
  pub schema_name : Option Bytes

abbrev pub sanitize_event_type : Bytes → Bytes
sanitize_event_type name = map (λ b. if b == 13 || b == 10 then 95 else b) name

abbrev pub filter_map {ℓ κ} : {A : Type ℓ} {B : Type κ} → (A → Option B) → List A → List B
filter_map f [] = []
filter_map f (x ∷ xs) = elim (f x) [ none ↦ filter_map f xs | some y ↦ y ∷ filter_map f xs ]

abbrev pub accepting : {V : Type 0} → V → DeliveryTarget × DeliveryRule V → Option AcceptedChannel
accepting value (target, rule) =
    if rule.predicate value
    then some (record { target = target; debounce = rule.debounce })
    else none

abbrev pub immediate : List AcceptedChannel → List DeliveryTarget
immediate accepted = map (λ a. a.target) (filter (λ a. is_none a.debounce) accepted)

abbrev box_json : {V D : Type 0} → DataBox V D → ChannelResult D
box_json payload = elim payload.to_json [
  | none ↦ err (ChannelError.serialization (ascii "payload is not serializable"))
  | some answer ↦ answer
]

abbrev box_event_type : {V D : Type 0} → DataBox V D → ChannelResult Bytes
box_event_type payload = elim payload.schema_name [
  | none ↦ err (ChannelError.serialization (ascii "payload schema is not available"))
  | some name ↦ ok (sanitize_event_type name)
]

module _ {V D S Q : Type 0} (json : Json V D) where
  abbrev pub validate_payload_size : D → SubscriptionRuntime V D S Q → ChannelResult (Unit {0})
  validate_payload_size value rt = json.to_vec value >>= λ bytes.
      if ltb rt.conf.max_message_bytes (length bytes)
      then err (ChannelError.message_too_large rt.conf.max_message_bytes (length bytes))
      else ok tt

module _ {D Q : Type 0} (debounces : Mpsc (DebounceInput D) Q) where
  abbrev pub enqueue_debounce :
      DeliveryTarget → ℕ → ℕ → PendingPayload D → Q → ChannelResult (Unit {0}) × Q
  enqueue_debounce target type_id window payload tx =
      let key : DebounceKey = record { target = target; type_id = type_id } in
      let (answer, tx') =
        debounces.try_send (record { key = key; window = window; payload = payload }) tx in
      (
        elim answer [
          | TrySend.sent ↦ ok tt
          | TrySend.full ↦ err ChannelError.debounce_queue_full
          | TrySend.closed ↦ err ChannelError.backend_unavailable
        ],
        tx',
      )

  -- The loop of `publish_value`, which ends at the first delivery that is not taken.
  abbrev pub enqueue_all :
      List AcceptedChannel → ℕ → PendingPayload D → Q → ChannelResult (Unit {0}) × Q
  enqueue_all [] type_id payload tx = (ok tt, tx)
  enqueue_all (accepted ∷ rest) type_id payload tx = elim accepted.debounce [
    | none ↦ enqueue_all rest type_id payload tx
    | some window ↦
        let (answer, tx') = enqueue_debounce accepted.target type_id window payload tx in
        elim answer [ ok u ↦ enqueue_all rest type_id payload tx' | err e ↦ (err e, tx') ]
  ]

module _ {V D S Q : Type 0} where
  abbrev pub delivery_candidates :
      ℕ → Bool → SubscriptionRuntime V D S Q → List (DeliveryTarget × DeliveryRule V)
  delivery_candidates type_id attached_only rt =
      filter_map (λ target. channel_rule rt.state target type_id attached_only)
        (unwrap_or (lookup type_id rt.state.type_index) [])

  unfoldable pub candidates_any : ℕ → V → Bool → SubscriptionRuntime V D S Q → List AcceptedChannel
  candidates_any type_id value attached_only rt =
      filter_map (accepting value) (delivery_candidates type_id attached_only rt)

  module _ (queue : Mpsc (ChannelEvent D) S) where
    -- What follows the loop: the targets without a window get the event.
    abbrev pub publish_immediate :
        List DeliveryTarget
        → PendingPayload D
        → ℕ
        → SubscriptionRuntime V D S Q
        → SubscriptionRuntime V D S Q
    publish_immediate targets payload now rt =
        let (id, rt') = take_event_id rt in
        if is_empty targets
        then rt
        else append_event queue targets
            (record {
              id = id;
              event_type = payload.event_type;
              data_ = payload.data_;
              created_at = now;
            })
            rt'

    abbrev pub finish_publication :
        List DeliveryTarget
        → PendingPayload D
        → ℕ
        → SubscriptionRuntime V D S Q
        → ChannelResult (Unit {0}) × Q
        → ChannelResult (Unit {0}) × SubscriptionRuntime V D S Q
    finish_publication targets payload now rt (ok u, tx) =
        (ok tt, publish_immediate targets payload now (record rt { debounce_tx = tx }))
    finish_publication targets payload now rt (err e, tx) = (err e, record rt { debounce_tx = tx })

    module _ (debounces : Mpsc (DebounceInput D) Q) where
      unfoldable pub publish_value :
          List AcceptedChannel
          → ℕ
          → Bytes
          → D
          → ℕ
          → SubscriptionRuntime V D S Q
          → ChannelResult (Unit {0}) × SubscriptionRuntime V D S Q
      publish_value accepted type_id event_type data' now rt =
          let payload : PendingPayload D = record { event_type = event_type; data_ = data' } in
          finish_publication (immediate accepted) payload now rt
            (enqueue_all debounces accepted type_id payload rt.debounce_tx)

      -- `if accepted.is_empty() { return Ok(()) }`, and then what the caller does with the JSON.
      abbrev pub offered :
          List AcceptedChannel
          → ChannelResult (D × Bytes)
          → ℕ
          → ℕ
          → SubscriptionRuntime V D S Q
          → ChannelResult (Unit {0}) × SubscriptionRuntime V D S Q
      offered accepted (ok (data', event_type)) type_id now rt =
          if is_empty accepted
          then (ok tt, rt)
          else publish_value accepted type_id event_type data' now rt
      offered accepted (err e) type_id now rt = (if is_empty accepted then ok tt else err e, rt)

      module _ (json : Json V D) where
        unfoldable pub publish_signal :
            ℕ
            → Bytes
            → V
            → ℕ
            → SubscriptionRuntime V D S Q
            → ChannelResult (Unit {0}) × SubscriptionRuntime V D S Q
        publish_signal type_id schema_name value now rt =
            offered (candidates_any type_id value false rt)
              (json.to_value value >>= λ data'. validate_payload_size json data' rt >>= λ _.
                ok (data', sanitize_event_type schema_name))
              type_id now rt

        unfoldable pub publish_box :
            DataBox V D
            → ℕ
            → SubscriptionRuntime V D S Q
            → ChannelResult (Unit {0}) × SubscriptionRuntime V D S Q
        publish_box payload now rt =
            offered (candidates_any payload.payload_type_id payload.as_any false rt)
              (box_json payload >>= λ data'. validate_payload_size json data' rt >>= λ _.
                box_event_type payload >>= λ event_type. ok (data', event_type))
              payload.payload_type_id now rt

        -- What a decoded envelope is published to: only channels with a session.
        abbrev ingest_value :
            SignalCodec V D
            → FanoutEnvelope
            → D
            → ℕ
            → SubscriptionRuntime V D S Q
            → ChannelResult (Unit {0}) × SubscriptionRuntime V D S Q
        ingest_value codec envelope payload now rt = elim (codec.decoder payload) [
          | err e ↦ (err e, rt)
          | ok value ↦
              offered (candidates_any codec.type_id value true rt)
                (validate_payload_size json payload rt >>= λ _. ok (payload, envelope.event_type))
                codec.type_id now rt
        ]

        unfoldable pub ingest_fanout :
            FanoutEnvelope
            → ℕ
            → SubscriptionRuntime V D S Q
            → ChannelResult (Unit {0}) × SubscriptionRuntime V D S Q
        ingest_fanout envelope now rt =
            let (codec, rt') = fanout_codec envelope rt in
            elim codec [
              | none ↦ (ok tt, rt')
              | some codec' ↦ elim (json.from_str envelope.payload) [
                | err e ↦ (err e, rt')
                | ok payload ↦ ingest_value codec' envelope payload now rt'
              ]
            ]
