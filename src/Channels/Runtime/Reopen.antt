-- ===== src/Channels/Runtime/Reopen.antt =====
-- A channel that is opened again: vyuh/src/channels/runtime.rs.
use vyuh.Prelude.{ℕ, ◌≡◌, refl, ◌∙◌, Option, some, List, [], ◌∷◌, number_key}
use vyuh.Prelude.Bytes.{Bytes, bytes_key}
use vyuh.Channels.Types.{
  ChannelTarget, same_target_refl, ChannelEvent, ChannelResult, ok, DeliveryTarget, DeliverySpec,
  PendingPayload, Mpsc, wrapping_suc,
}
use vyuh.Channels.State.{
  ChannelState, LocalChannelState, channel_at, put_channel, append_event as append_in,
}
use vyuh.Channels.State.Places.{channel_at-put}
use vyuh.Channels.Runtime.{
  SubscriptionRuntime, ChannelOpen, append_event, deliver_debounced, open_user,
}

module _ {V D S : Type 0} where
  pub channel_at-put_self :
      (t : ChannelTarget) (c : ChannelState V D S) (s : LocalChannelState V D S)
      → channel_at t (put_channel t c s) ≡ some c
  channel_at-put_self t c s = channel_at-put t t c s ∙ rw (same_target_refl t) refl

  -- The channel is there with this generation and this log.
  record Stands (t : ChannelTarget) (generation : ℕ) (log : List (ChannelEvent D))
      (s : LocalChannelState V D S) : Type 0 where
    channel : ChannelState V D S
    there : channel_at t s ≡ some channel
    generation_eq : channel.generation ≡ generation
    log_eq : channel.log ≡ log

module _ {V D S Q : Type 0} (queue : Mpsc (ChannelEvent D) S) where
  -- The channel is there, with the next generation.
  abbrev Renewed : ChannelTarget → ChannelState V D S → SubscriptionRuntime V D S Q → Type 0
  Renewed t c rt =
      (c' : ChannelState V D S) × (channel_at t rt.state ≡ some c')
      × (c'.generation ≡ wrapping_suc c.generation)

  -- A channel that is opened over and over, each time with rules and a cursor.
  abbrev pub openings :
      ChannelTarget
      → List (List (DeliverySpec V D) × Option ℕ)
      → SubscriptionRuntime V D S Q
      → SubscriptionRuntime V D S Q
  openings t [] rt = rt
  openings t (o ∷ os) rt = openings t os (open_user queue t.user t.channel o.0 o.1 rt).1

  -- What is asked of the answer to the first opening and of the runtime after the last.
  abbrev pub Reopened :
      ChannelTarget
      → ℕ
      → List (ChannelEvent D)
      → ℕ
      → ℕ
      → PendingPayload D
      → ChannelEvent D
      → ChannelResult (ChannelOpen D S)
      → SubscriptionRuntime V D S Q
      → Type 0
  Reopened t g replay type_id now payload event answered rt =
      let old : DeliveryTarget = record { channel = t; generation = g } in
      ((answer : ChannelOpen D S) × (answered ≡ ok answer) × (answer.replay ≡ replay))
      × (deliver_debounced queue (record { target = old; type_id = type_id }) payload now rt ≡ rt)
      × (append_event queue (old ∷ []) event rt ≡ rt)
