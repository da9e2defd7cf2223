-- ===== src/Channels/Publish/Appending.antt =====
-- What the append of one event does to each channel: vyuh/src/channels/runtime.rs.
use vyuh.Prelude.{
  ℕ, false, if◌then◌else◌, Bool-cases, Option-cases, ◌≡◌, refl, ap, ◌∙◌, subst, inl, inr, Option,
  none, some, some_eq, List, [], ◌∷◌, map, All, number_key, eq→==,
}
use vyuh.Channels.Types.{
  ChannelTarget, same_target, same_target→eq, target_key, target_laws, ChannelEvent, DeliveryTarget,
  Mpsc,
}
use vyuh.Channels.Log.{append}
use vyuh.Channels.State.{
  ChannelState, LocalChannelState, channel_at, put_channel, contains_target, accept, append_to,
  append_event as append_in,
}
use vyuh.Channels.State.Places.{channel_at-put}
use vyuh.Channels.State.Targets.{DistinctTargets}
use vyuh.Channels.Publish.Chosen.{log_at, generation_at, Current}

abbrev pub channels : List DeliveryTarget → List ChannelTarget
channels ds = map (λ d. d.channel) ds

module _ {V D S : Type 0} (queue : Mpsc (ChannelEvent D) S) (retention : ℕ)
    (event : ChannelEvent D) where
  append_to-put :
      (d : DeliveryTarget) (c : ChannelState V D S) (s : LocalChannelState V D S)
      → channel_at d.channel s ≡ some c
      → Current s d
      → append_to queue retention event d s
        ≡ put_channel d.channel (accept queue retention event c) s
  append_to-put d c s e h =
      let same : some c.generation ≡ some d.generation = rw (generation_at, e) at h in
      let current = eq→== c.generation d.generation (some_eq _ _ same) in
      rw (append_to, e, current) refl

  -- One turn of the loop: the log of the target's channel grows, and every generation stays.
  append_to-Current :
      (d : DeliveryTarget) (s : LocalChannelState V D S) (t : ChannelTarget)
      → Current s d
      → (log_at t (append_to queue retention event d s)
          ≡ (if same_target d.channel t then append event retention (log_at t s) else log_at t s))
        × (generation_at t (append_to queue retention event d s) ≡ generation_at t s)
  append_to-Current d s t h = elim (Option-cases (channel_at d.channel s)) [
    | inl e ↦ absurd (nothing (rw (generation_at, e) at h))
    | inr (c, e) ↦
        let c' = accept queue retention event c in
        let put = append_to-put d c s e h in
        let found = ap (channel_at t) put ∙ channel_at-put d.channel t c' s in
        elim (Bool-cases (same_target d.channel t)) [
          | inl q ↦
              let own : channel_at t s ≡ some c =
                subst (λ x. channel_at x s ≡ some c) (same_target→eq d.channel t q) e in
              let new : channel_at t (append_to queue retention event d s) ≡ some c' =
                rw q at found in
              rw q ((rw (log_at, new, own) refl), (rw (generation_at, new, own) refl))
          | inr q ↦
              let kept : channel_at t (append_to queue retention event d s) ≡ channel_at t s =
                rw q at found in
              rw q (ap log_of kept, ap generation_of kept)
        ]
  ]
    where
      nothing : ◌≡◌ {A = Option ℕ} none (some d.generation) → ⊥
      nothing q = cc

      log_of : Option (ChannelState V D S) → List (ChannelEvent D)
      log_of o = elim o [ none ↦ [] | some c ↦ c.log ]

      generation_of : Option (ChannelState V D S) → Option ℕ
      generation_of o = elim o [ none ↦ none | some c ↦ some c.generation ]

  All-Current :
      (d : DeliveryTarget) (s : LocalChannelState V D S) (ds : List DeliveryTarget)
      → Current s d
      → All (Current s) ds
      → All (Current (append_to queue retention event d s)) ds
  All-Current d s [] h k = tt
  All-Current d s (x ∷ ds) h (k, ks) =
      ((append_to-Current d s x.channel h).1 ∙ k, All-Current d s ds h ks)

  pub append_event_lem :
      (ds : List DeliveryTarget) (s : LocalChannelState V D S) (t : ChannelTarget)
      → All (Current s) ds
      → DistinctTargets (channels ds)
      → log_at t (append_in queue retention ds event s) ≡ (
          if contains_target t (channels ds)
          then append event retention (log_at t s)
          else log_at t s)
  unfolding append_in
  append_event_lem [] s t k u = refl
  append_event_lem (d ∷ ds) s t (k, ks) (fresh, u) =
      let (log, _) = append_to-Current d s t k in
      let rest =
        append_event_lem ds (append_to queue retention event d s) t (All-Current d s ds k ks) u in
      elim (Bool-cases (same_target d.channel t)) [
        | inl q ↦
            let once : contains_target t (channels ds) ≡ false =
              subst (λ x. contains_target x (channels ds) ≡ false) (same_target→eq d.channel t q)
                fresh in
            let last : log_at t
                  (append_in queue retention ds event (append_to queue retention event d s))
                ≡ log_at t (append_to queue retention event d s) =
              rw once at rest in
            rw q (last ∙ log ∙ rw q refl)
        | inr q ↦
            let same : log_at t (append_to queue retention event d s) ≡ log_at t s = rw q at log in
            rw q (
              rest
              ∙ ap (λ l. if contains_target t (channels ds) then append event retention l else l)
                  same)
      ]
