-- ===== src/Channels/Publish/Chosen.antt =====
-- The channels that a signal is published to: vyuh/src/channels/runtime.rs.
use vyuh.Prelude.{
  ℕ, ◌&&◌, Bool, true, false, if◌then◌else◌, Bool-cases, Option-cases, ◌≡◌, refl, sym, ap, ◌∙◌,
  subst, ◌⊎◌, inl, inr, Option, none, some, is_some_and, is_none, List, [], ◌∷◌, map, filter,
  lookup, number_key, All,
}
use vyuh.Channels.Types.{
  ChannelTarget, target_key, target_laws, ChannelEvent, DeliveryTarget, DeliveryRule,
}
use vyuh.Channels.State.{LocalChannelState, channel_at, channel_rule}
use vyuh.Channels.Publish.{AcceptedChannel, filter_map, accepting, immediate}

module _ {ℓ κ} {A : Type ℓ} {B : Type κ} (f : A → Option B) where
  filter_map-none : (x : A) (xs : List A) → f x ≡ none → filter_map f (x ∷ xs) ≡ filter_map f xs
  filter_map-none x xs h =
      ap (λ o. elim o [ none ↦ filter_map f xs | some y ↦ y ∷ filter_map f xs ]) h

  filter_map-some :
      (x : A) (xs : List A) (y : B) → f x ≡ some y → filter_map f (x ∷ xs) ≡ y ∷ filter_map f xs
  filter_map-some x xs y h =
      ap (λ o. elim o [ none ↦ filter_map f xs | some z ↦ z ∷ filter_map f xs ]) h

immediate-cons :
    (a : AcceptedChannel) (as' : List AcceptedChannel)
    → immediate (a ∷ as') ≡ (if is_none a.debounce then a.target ∷ immediate as' else immediate as')
immediate-cons a as' = elim (Bool-cases (is_none a.debounce)) [
  | inl e ↦ rw e refl
  | inr e ↦ rw e refl
]

module _ {V D S : Type 0} where
  abbrev pub log_at : ChannelTarget → LocalChannelState V D S → List (ChannelEvent D)
  log_at t s = elim (channel_at t s) [ none ↦ [] | some c ↦ c.log ]

  abbrev pub generation_at : ChannelTarget → LocalChannelState V D S → Option ℕ
  generation_at t s = elim (channel_at t s) [ none ↦ none | some c ↦ some c.generation ]

  -- The channel has a rule for the type that accepts the value without a window.
  abbrev pub takes : ℕ → V → LocalChannelState V D S → ChannelTarget → Bool
  takes type_id value s t = is_some_and (channel_at t s) (λ c.
      is_some_and (lookup type_id c.rules) (λ rule. rule.predicate value && is_none rule.debounce))

  abbrev pub Current : LocalChannelState V D S → DeliveryTarget → Type 0
  Current s d = generation_at d.channel s ≡ some d.generation

  abbrev pub chosen : ℕ → V → LocalChannelState V D S → List ChannelTarget → List DeliveryTarget
  chosen type_id value s ts =
      immediate (filter_map (accepting value) (filter_map (λ t. channel_rule s t type_id false) ts))

  module _ (type_id : ℕ) (value : V) (s : LocalChannelState V D S) where
    Taken : ChannelTarget → List ChannelTarget → Type 0
    Taken t ts =
        (g : ℕ) × (takes type_id value s t ≡ true)
        × (generation_at t s ≡ some g)
        × (chosen type_id value s (t ∷ ts)
            ≡ record { channel = t; generation = g } ∷ chosen type_id value s ts)

    Left : ChannelTarget → List ChannelTarget → Type 0
    Left t ts =
        (takes type_id value s t ≡ false)
        × (chosen type_id value s (t ∷ ts) ≡ chosen type_id value s ts)

    rule_of : ChannelTarget → Option (DeliveryTarget × DeliveryRule V)
    rule_of t = channel_rule s t type_id false

    unruled :
        (t : ChannelTarget) (ts : List ChannelTarget)
        → rule_of t ≡ none
        → chosen type_id value s (t ∷ ts) ≡ chosen type_id value s ts
    unfolding rule_of
    unruled t ts h =
        ap (λ xs. immediate (filter_map (accepting value) xs)) (filter_map-none rule_of t ts h)

    ruled :
        (t : ChannelTarget) (ts : List ChannelTarget) (d : DeliveryTarget) (rule : DeliveryRule V)
        → rule_of t ≡ some (d, rule)
        → chosen type_id value s (t ∷ ts) ≡ (
            if rule.predicate value && is_none rule.debounce
            then d ∷ chosen type_id value s ts
            else chosen type_id value s ts)
    unfolding rule_of
    ruled t ts d rule h =
        ap (λ xs. immediate (filter_map (accepting value) xs))
          (filter_map-some rule_of t ts (d, rule) h)
        ∙ elim (Bool-cases (rule.predicate value)) [
          | inl p ↦
              ap immediate (
                filter_map-some (accepting value) (d, rule) (filter_map rule_of ts)
                  (record { target = d; debounce = rule.debounce }) (rw (accepting, p) refl))
              ∙ immediate-cons (record { target = d; debounce = rule.debounce })
                  (filter_map (accepting value) (filter_map rule_of ts))
              ∙ rw p refl
          | inr p ↦
              ap immediate (
                filter_map-none (accepting value) (d, rule) (filter_map rule_of ts)
                  (rw (accepting, p) refl))
              ∙ rw p refl
        ]

    rule_cases : (t : ChannelTarget) (ts : List ChannelTarget) → Taken t ts ⊎ Left t ts
    unfolding Taken Left rule_of
    rule_cases t ts = elim (Option-cases (channel_at t s)) [
      | inl e ↦ inr ((rw (takes, e) refl), unruled t ts (rw (rule_of, channel_rule, e) refl))
      | inr (c, e) ↦ elim (Option-cases (lookup type_id c.rules)) [
        | inl f ↦
            inr ((rw (takes, e, f) refl), unruled t ts (rw (rule_of, channel_rule, e, f) refl))
        | inr (rule, f) ↦
            let all =
              ruled t ts (record { channel = t; generation = c.generation }) rule
                (rw (rule_of, channel_rule, e, f) refl) in
            let same : takes type_id value s t ≡ (rule.predicate value && is_none rule.debounce) =
              rw (takes, e, f) refl in
            elim (Bool-cases (rule.predicate value && is_none rule.debounce)) [
              | inl p ↦ inl (c.generation, same ∙ p, (rw (generation_at, e) refl), all ∙ rw p refl)
              | inr p ↦ inr (same ∙ p, all ∙ rw p refl)
            ]
      ]
    ]

    pub channels-chosen :
        (ts : List ChannelTarget)
        → map (λ (d : DeliveryTarget). d.channel) (chosen type_id value s ts)
          ≡ filter (takes type_id value s) ts
    unfolding Taken Left
    channels-chosen [] = refl
    channels-chosen (t ∷ ts) = elim (rule_cases t ts) [
      | inl (g, e, here, all) ↦
          ap (λ ds. map (λ d. d.channel) ds) all
          ∙ ap (λ rest. t ∷ rest) (channels-chosen ts)
          ∙ rw e refl
      | inr (e, all) ↦ ap (λ ds. map (λ d. d.channel) ds) all ∙ channels-chosen ts ∙ rw e refl
    ]

    pub chosen-Current : (ts : List ChannelTarget) → All (Current s) (chosen type_id value s ts)
    unfolding Taken Left
    chosen-Current [] = tt
    chosen-Current (t ∷ ts) = elim (rule_cases t ts) [
      | inl (g, e, here, all) ↦ subst (All (Current s)) (sym all) (here, chosen-Current ts)
      | inr (e, all) ↦ subst (All (Current s)) (sym all) (chosen-Current ts)
    ]
