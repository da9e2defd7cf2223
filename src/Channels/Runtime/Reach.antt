-- ===== src/Channels/Runtime/Reach.antt =====
-- The runs of channels, whatever tasks use them at once: vyuh/src/channels/runtime.rs.
use vyuh.Prelude.{
  Bool-cases, inl, inr, is_empty, ℕ, ◌≡◌, refl, sym, ◌∙◌, subst, Option, some, List, HashMap, arith,
}
use vyuh.Prelude.Bytes.{Bytes}
use vyuh.Channels.Types.{
  ChannelConf, ChannelTarget, ChannelEvent, ChannelResult, ok, err, DeliveryTarget, DeliverySpec,
  DebounceKey, DebounceInput, PendingPayload, FanoutEnvelope, Mpsc,
}
use vyuh.Channels.Fanout.Recent.{no_deliveries-Tracked}
use vyuh.Channels.State.{default_state, ChannelState, channel_at, put_channel}
use vyuh.Channels.Runtime.{
  SubscriptionRuntime, set_state, take_event_id, append_event, deliver_debounced, open_user,
  remove_session, fanout_codec, new,
}
use vyuh.Channels.Publish.{
  AcceptedChannel, enqueue_all, immediate, finish_publication, publish_value,
}
use vyuh.Channels.Runtime.Sound.{
  Kept, Sound, put-Sound, append_event-Sound, deliver_debounced-Sound, open_user-Sound,
  remove_session-Sound, fanout_codec-Sound,
}

module _ {V D S Q : Type 0} (queue : Mpsc (ChannelEvent D) S) where
  -- What one task does between two others: each step is made under the lock, or is an atomic
  -- counter, or is the queues' own.
  pub data Step : SubscriptionRuntime V D S Q → SubscriptionRuntime V D S Q → Type 0 where
    opened :
        {rt : SubscriptionRuntime V D S Q} (user channel : Bytes)
        (deliveries : List (DeliverySpec V D)) (cursor : Option ℕ)
        → Step rt (open_user queue user channel deliveries cursor rt).1
    allocated : {rt : SubscriptionRuntime V D S Q} → Step rt (take_event_id rt).1
    appended :
        {rt : SubscriptionRuntime V D S Q} (targets : List DeliveryTarget) (event : ChannelEvent D)
        → Step rt (append_event queue targets event rt)
    delivered :
        {rt : SubscriptionRuntime V D S Q} (key : DebounceKey) (payload : PendingPayload D)
        (now : ℕ)
        → Step rt (deliver_debounced queue key payload now rt)
    dropped :
        {rt : SubscriptionRuntime V D S Q} (target : ChannelTarget) (id : ℕ)
        → Step rt (remove_session target id rt)
    ingested :
        {rt : SubscriptionRuntime V D S Q} (envelope : FanoutEnvelope)
        → Step rt (fanout_codec envelope rt).1
    queued : {rt : SubscriptionRuntime V D S Q} (tx : Q) → Step rt (record rt { debounce_tx = tx })
    received :
        {rt : SubscriptionRuntime V D S Q} (target : ChannelTarget) (channel : ChannelState V D S)
        (sessions : HashMap ℕ S)
        → channel_at target rt.state ≡ some channel
        → Step rt
            (set_state (put_channel target (record channel { sessions = sessions }) rt.state) rt)

  pub data Reach (rt : SubscriptionRuntime V D S Q) : SubscriptionRuntime V D S Q → Type 0 where
    started : Reach rt rt
    next : {rt' rt'' : SubscriptionRuntime V D S Q} → Reach rt rt' → Step rt' rt'' → Reach rt rt''

  Step-Kept :
      {rt rt' : SubscriptionRuntime V D S Q}
      → Step rt rt'
      → Sound rt.conf rt.state
      → Kept rt.conf rt'
  Step-Kept {rt} (Step.opened user channel ds cursor) h =
      open_user-Sound queue user channel ds cursor rt h
  Step-Kept {rt} Step.allocated h = (refl, h)
  Step-Kept {rt} (Step.appended ts event) h =
      (refl, append_event-Sound rt.conf queue ts event rt.state h)
  Step-Kept {rt} (Step.delivered key payload now) h =
      deliver_debounced-Sound queue key payload now rt h
  Step-Kept {rt} (Step.dropped t id) h = remove_session-Sound queue t id rt h
  Step-Kept {rt} (Step.ingested envelope) h = fanout_codec-Sound queue envelope rt h
  Step-Kept {rt} (Step.queued tx) h = (refl, h)
  Step-Kept {rt} (Step.received t c sessions here) h = (
    refl,
    put-Sound rt.conf t c (record c { sessions = sessions }) rt.state here refl
        (h.bounded.retained t c here) h,
  )

  pub Reach-Kept :
      {conf : ChannelConf} {rt rt' : SubscriptionRuntime V D S Q}
      → Reach rt rt'
      → Kept conf rt
      → Kept conf rt'
  Reach-Kept Reach.started h = h
  Reach-Kept {conf} (Reach.next {rt'} {rt''} before step) h =
      let (same, k) = Reach-Kept before h in
      let (same', k') = Step-Kept step (subst (λ c. Sound c rt'.state) (sym same) k) in
      (same' ∙ same, subst (λ c. Sound c rt''.state) same k')

  -- However the tasks that open, publish, deliver and close follow one another, a runtime keeps no more
  -- channels for a user than its configuration allows, or one where that is none, and no more
  -- events in a log than are to be retained; the index shows for each type exactly the channels with
  -- a rule for it, each once; and the ids of the delivered envelopes are at most 2048.
  pub Reach-Sound :
      (debounces : Mpsc (DebounceInput D) Q) (conf : ChannelConf) (beacons : HashMap ℕ Bytes)
      (rt : SubscriptionRuntime V D S Q)
      → Reach (new queue debounces conf beacons) rt
      → (rt.conf ≡ conf) × Sound conf rt.state
  Reach-Sound debounces conf beacons rt run = Reach-Kept run (refl, start)
    where
      start : Sound {V = V} {D = D} {S = S} conf default_state
      start = record {
        indexed = record { agrees = λ type_id t. refl; keyed = tt; distinct = λ type_id. tt };
        bounded = record {
          limited = λ user. omega arith;
          retained = λ t c h. cc;
          peopled = λ user cs h. cc;
        };
        tracked = no_deliveries-Tracked;
      }

  -- A publication is a sequence of such steps, between which other tasks may make theirs.
  pub publish_value-Reach :
      (debounces : Mpsc (DebounceInput D) Q) (accepted : List AcceptedChannel) (type_id : ℕ)
      (event_type : Bytes) (data' : D) (now : ℕ) (rt : SubscriptionRuntime V D S Q)
      → Reach rt (publish_value queue debounces accepted type_id event_type data' now rt).1
  unfolding publish_value
  publish_value-Reach debounces accepted type_id event_type data' now rt =
      of (enqueue_all debounces accepted type_id payload rt.debounce_tx)
    where
      payload : PendingPayload D
      payload = record { event_type = event_type; data_ = data' }

      of :
          (x : ChannelResult (Unit {0}) × Q)
          → Reach rt (finish_publication queue (immediate accepted) payload now rt x).1
      of (ok u, tx) = elim (Bool-cases (is_empty (immediate accepted))) [
        | inl e ↦ rw e (Reach.next Reach.started (Step.queued tx))
        | inr e ↦ rw e (
            Reach.next (Reach.next (Reach.next Reach.started (Step.queued tx)) Step.allocated)
              (Step.appended (immediate accepted) _))
      ]
      of (err e, tx) = Reach.next Reach.started (Step.queued tx)
