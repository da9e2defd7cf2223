-- ===== src/Channels/Publish/Delivery.antt =====
-- What a publication does to each channel: vyuh/src/channels/runtime.rs.
use vyuh.Prelude.{
  ℕ, ◌&&◌, Bool, true, false, if◌then◌else◌, Bool-cases, Option-cases, ◌≡◌, refl, sym, ap, ◌∙◌,
  subst, inl, inr, is_empty, List, [], ◌∷◌, filter, lookup, number_key,
}
use vyuh.Prelude.Bytes.{Bytes}
use vyuh.Channels.Types.{
  ChannelResult, ok, err, ◌>>=◌, ChannelTarget, same_target, same_target→eq, target_key,
  target_laws, ChannelEvent, DeliveryTarget, DebounceInput, PendingPayload, Mpsc, wrapping_suc,
}
use vyuh.Channels.Log.{append}
use vyuh.Channels.State.{LocalChannelState, channel_at, contains_target}
use vyuh.Channels.State.Targets.{DistinctTargets, targets_in}
use vyuh.Channels.State.Indexed.{Indexed, has_rule}
use vyuh.Channels.Runtime.{SubscriptionRuntime, append_event}
use vyuh.Channels.Publish.{
  AcceptedChannel, Json, immediate, candidates_any, enqueue_all, publish_immediate,
  finish_publication, publish_value, publish_signal, validate_payload_size, sanitize_event_type,
  offered,
}
use vyuh.Channels.Publish.Chosen.{log_at, takes, chosen, channels-chosen, chosen-Current}
use vyuh.Channels.Publish.Appending.{channels, append_event_lem}

and_false : (b : Bool) → (b && false) ≡ false
and_false true = refl
and_false false = refl

module _ (p : ChannelTarget → Bool) where
  contains_target-filter :
      (t : ChannelTarget) (ts : List ChannelTarget)
      → contains_target t (filter p ts) ≡ (contains_target t ts && p t)
  contains_target-filter t [] = refl
  contains_target-filter t (x ∷ ts) = elim (Bool-cases (same_target x t)) [
    | inl e ↦ elim (Bool-cases (p x)) [
      | inl f ↦ rw (f, e) (sym (ap p (sym (same_target→eq x t e)) ∙ f))
      | inr f ↦
          let no : p t ≡ false = ap p (sym (same_target→eq x t e)) ∙ f in
          rw (f, e)
            (contains_target-filter t ts
              ∙ ap (λ b. contains_target t ts && b) no
              ∙ and_false (contains_target t ts)
              ∙ sym no)
    ]
    | inr e ↦ elim (Bool-cases (p x)) [
      | inl f ↦ rw (f, e) (contains_target-filter t ts)
      | inr f ↦ rw (f, e) (contains_target-filter t ts)
    ]
  ]

  DistinctTargets-filter :
      (ts : List ChannelTarget) → DistinctTargets ts → DistinctTargets (filter p ts)
  DistinctTargets-filter [] u = tt
  DistinctTargets-filter (x ∷ ts) (fresh, u) = elim (Bool-cases (p x)) [
    | inl f ↦ rw f ((contains_target-filter x ts ∙ rw fresh refl), DistinctTargets-filter ts u)
    | inr f ↦ rw f (DistinctTargets-filter ts u)
  ]

module _ {V D S : Type 0} (type_id : ℕ) (value : V) (s : LocalChannelState V D S) where
  abbrev targets : List DeliveryTarget
  targets = chosen type_id value s (targets_in type_id s.type_index)

  ruled :
      (t : ChannelTarget)
      → (has_rule type_id t s && takes type_id value s t) ≡ takes type_id value s t
  ruled t = elim (Option-cases (channel_at t s)) [
    | inl e ↦ rw (has_rule, takes, e) refl
    | inr (c, e) ↦ elim (Option-cases (lookup type_id c.rules)) [
      | inl f ↦ rw (has_rule, takes, e, f) refl
      | inr (rule, f) ↦ rw (has_rule, takes, e, f) refl
    ]
  ]

  -- The targets of a publication are the channels that take the value, each once.
  targets-takes :
      Indexed s
      → (t : ChannelTarget) → contains_target t (channels targets) ≡ takes type_id value s t
  targets-takes i t =
      let ts = targets_in type_id s.type_index in
      ap (contains_target t) (channels-chosen type_id value s ts)
      ∙ contains_target-filter (takes type_id value s) t ts
      ∙ ap (λ b. b && takes type_id value s t) (i.agrees type_id t)
      ∙ ruled t

  targets-Distinct : Indexed s → DistinctTargets (channels targets)
  targets-Distinct i =
      let ts = targets_in type_id s.type_index in
      subst DistinctTargets (sym (channels-chosen type_id value s ts))
        (DistinctTargets-filter (takes type_id value s) ts (i.distinct type_id))

module _ {V D S Q : Type 0} where
  -- What a publication of this event does to the log of each channel.
  abbrev pub Published :
      ℕ → V → ChannelEvent D → SubscriptionRuntime V D S Q → SubscriptionRuntime V D S Q → Type 0
  Published type_id value event rt rt' =
      (t : ChannelTarget)
      → log_at t rt'.state ≡ (
          if takes type_id value rt.state t
          then append event rt.conf.retention_events (log_at t rt.state)
          else log_at t rt.state)

  abbrev pub event_of : PendingPayload D → ℕ → SubscriptionRuntime V D S Q → ChannelEvent D
  event_of payload now rt = record {
    id = rt.next_event;
    event_type = payload.event_type;
    data_ = payload.data_;
    created_at = now;
  }

module _ {V D S Q : Type 0} (queue : Mpsc (ChannelEvent D) S) where
  unpublished :
      (type_id : ℕ) (value : V) (event : ChannelEvent D) (rt : SubscriptionRuntime V D S Q)
      → Indexed rt.state
      → targets type_id value rt.state ≡ []
      → Published type_id value event rt rt
  unpublished type_id value event rt i none_chosen t =
      let no : takes type_id value rt.state t ≡ false =
        sym (targets-takes type_id value rt.state i t)
        ∙ ap (λ ds. contains_target t (channels ds)) none_chosen in
      rw no refl

  publish_immediate-Published :
      (type_id : ℕ) (value : V) (payload : PendingPayload D) (now : ℕ)
      (rt : SubscriptionRuntime V D S Q)
      → Indexed rt.state
      → Published type_id value
          (event_of payload now rt)
          rt
          (publish_immediate queue (targets type_id value rt.state) payload now rt)
  publish_immediate-Published type_id value payload now rt i = elim (Bool-cases (is_empty ds)) [
    | inl e ↦
        subst (Published type_id value event rt) {x = rt}
          {y = publish_immediate queue ds payload now rt} (sym (rw (publish_immediate, e) refl))
          (unpublished type_id value event rt i (nil-of_empty ds e))
    | inr e ↦
        subst (Published type_id value event rt) {x = published}
          {y = publish_immediate queue ds payload now rt} (sym (rw (publish_immediate, e) refl))
          appended
  ]
    where
      ds : List DeliveryTarget
      ds = targets type_id value rt.state

      event : ChannelEvent D
      event = event_of payload now rt

      nil-of_empty : (xs : List DeliveryTarget) → is_empty xs ≡ true → xs ≡ []
      nil-of_empty [] h = refl
      nil-of_empty (x ∷ xs) h = cc

      published : SubscriptionRuntime V D S Q
      published =
          append_event queue ds event (record rt { next_event = wrapping_suc rt.next_event })

      appended : Published type_id value event rt published
      appended t =
          append_event_lem queue rt.conf.retention_events event ds rt.state t
            (chosen-Current type_id value rt.state (targets_in type_id rt.state.type_index))
            (targets-Distinct type_id value rt.state i)
          ∙ ap
              (λ b.
                if b
                then append event rt.conf.retention_events (log_at t rt.state)
                else log_at t rt.state)
              (targets-takes type_id value rt.state i t)

  finish_publication-Published :
      (type_id : ℕ) (value : V) (payload : PendingPayload D) (now : ℕ)
      (rt : SubscriptionRuntime V D S Q) (x : ChannelResult (Unit {0}) × Q)
      → Indexed rt.state
      → (finish_publication queue (targets type_id value rt.state) payload now rt x).0 ≡ ok tt
      → Published type_id value
          (event_of payload now rt)
          rt
          (finish_publication queue (targets type_id value rt.state) payload now rt x).1
  finish_publication-Published type_id value payload now rt (ok u, tx) i h =
      publish_immediate-Published type_id value payload now (record rt { debounce_tx = tx }) i
  finish_publication-Published type_id value payload now rt (err e, tx) i h = cc

  offered-Published :
      (debounces : Mpsc (DebounceInput D) Q) (type_id : ℕ) (value : V) (data' : D)
      (event_type : Bytes) (now : ℕ) (rt : SubscriptionRuntime V D S Q)
      → Indexed rt.state
      → let answer =
          offered queue debounces
            (candidates_any type_id value false rt)
            (ok (data', event_type))
            type_id
            now
            rt in
        answer.0 ≡ ok tt
        → Published type_id value
            (event_of (record { event_type = event_type; data_ = data' }) now rt)
            rt
            answer.1
  unfolding candidates_any publish_value
  offered-Published debounces type_id value data' event_type now rt i h =
      elim (Bool-cases (is_empty accepted)) [
        | inl e ↦
            subst (λ x. Published type_id value event rt x.1) {x = (ok tt, rt)} {y = answer}
              (sym (rw (offered, e) refl))
              (unpublished type_id value event rt i (ap immediate (nil-of_empty accepted e)))
        | inr e ↦
            let same : answer ≡ published = rw (offered, e) refl in
            subst (λ x. Published type_id value event rt x.1) (sym same)
              (finish_publication-Published type_id value payload now rt
                (enqueue_all debounces accepted type_id payload rt.debounce_tx) i
                (ap (λ x. x.0) (sym same) ∙ h))
      ]
    where
      accepted : List AcceptedChannel
      accepted = candidates_any type_id value false rt

      payload : PendingPayload D
      payload = record { event_type = event_type; data_ = data' }

      event : ChannelEvent D
      event = event_of payload now rt

      answer : ChannelResult (Unit {0}) × SubscriptionRuntime V D S Q
      answer = offered queue debounces accepted (ok (data', event_type)) type_id now rt

      published : ChannelResult (Unit {0}) × SubscriptionRuntime V D S Q
      published = publish_value queue debounces accepted type_id event_type data' now rt

      nil-of_empty : (xs : List AcceptedChannel) → is_empty xs ≡ true → xs ≡ []
      nil-of_empty [] q = refl
      nil-of_empty (x ∷ xs) q = cc

  -- A published value that is encoded and of an allowed size, and whose debounced deliveries were all
  -- queued, is appended to the log of exactly the channels that have a rule for its type that accepts
  -- it without a window, and the log of every other channel stays as it was, provided that the index
  -- agrees with the rules.
  pub publish_signal-Published :
      (debounces : Mpsc (DebounceInput D) Q) (json : Json V D) (type_id : ℕ) (schema_name : Bytes)
      (value : V) (data' : D) (now : ℕ) (rt : SubscriptionRuntime V D S Q)
      → Indexed rt.state
      → json.to_value value ≡ ok data'
      → validate_payload_size json data' rt ≡ ok tt
      → (publish_signal queue debounces json type_id schema_name value now rt).0 ≡ ok tt
      → Published type_id value
          (event_of (record { event_type = sanitize_event_type schema_name; data_ = data' }) now rt)
          rt
          (publish_signal queue debounces json type_id schema_name value now rt).1
  unfolding publish_signal publish_value
  publish_signal-Published debounces json type_id schema_name value data' now rt i enc fits h =
      let encoded : (json.to_value value >>= λ d.
      validate_payload_size json d rt >>= λ _. ok (d, sanitize_event_type schema_name))
          ≡ ok (data', sanitize_event_type schema_name) =
        rw (enc, fits) refl in
      let same =
        ap (λ x. offered queue debounces (candidates_any type_id value false rt) x type_id now rt)
          encoded in
      subst
        (λ x.
          Published type_id value
            (event_of (record { event_type = sanitize_event_type schema_name; data_ = data' }) now
              rt)
            rt x.1)
        (sym same)
        (offered-Published debounces type_id value data' (sanitize_event_type schema_name) now rt i
          (ap (λ x. x.0) (sym same) ∙ h))
