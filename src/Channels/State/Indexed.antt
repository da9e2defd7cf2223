-- ===== src/Channels/State/Indexed.antt =====
-- The index of the channels that a type of signal is delivered to: vyuh/src/channels/runtime.rs.
use vyuh.Prelude.{
  ℕ, ◌==◌, ◌||◌, ◌&&◌, Bool, true, false, not, if◌then◌else◌, Bool-cases, ◌≡◌, refl, sym, ap, ◌∙◌,
  subst, inl, inr, Option, none, some, is_some, is_some_and, List, [], ◌∷◌, lookup, contains_key,
  unwrap_or, number_key, arith, ==→eq,
}
use vyuh.Prelude.Maps.{
  Unique, Unique-map, Unique-filter, Unique-insert, lookup-insert as lookup-insert_lem, number_laws,
}
use vyuh.Channels.Types.{
  ChannelTarget, same_target, target_key, target_laws, same_target→eq, DeliverySpec, DeliveryRule,
}
use vyuh.Channels.State.{
  ChannelState, LocalChannelState, default_channel, channel_at, put_channel, remove_target,
  contains_target, insert_target, remove_indexes, add_delivery, add_deliveries, renew,
  replace_policy,
}
use vyuh.Channels.State.Places.{channel_at-put}
use vyuh.Channels.State.Targets.{
  DistinctTargets, DistinctTargets-remove, DistinctTargets-insert, contains-remove, contains-insert,
  targets_in, targets_in-without,
}

module _ {V D S : Type 0} where
  abbrev pub is_indexed : ℕ → ChannelTarget → LocalChannelState V D S → Bool
  is_indexed type_id t s = contains_target t (targets_in type_id s.type_index)

  abbrev pub has_rule : ℕ → ChannelTarget → LocalChannelState V D S → Bool
  has_rule type_id t s = is_some_and (channel_at t s) (λ c. contains_key type_id c.rules)

  -- The index shows for each type the channels that have a rule for it, each once.
  pub record Indexed (s : LocalChannelState V D S) : Type 0 where
    pub agrees : (type_id : ℕ) (t : ChannelTarget) → is_indexed type_id t s ≡ has_rule type_id t s
    pub keyed : Unique s.type_index
    pub distinct : (type_id : ℕ) → DistinctTargets (targets_in type_id s.type_index)

  has_rule-put :
      (t other : ChannelTarget) (c : ChannelState V D S) (s : LocalChannelState V D S) (type_id : ℕ)
      → has_rule type_id other (put_channel t c s)
        ≡ (if same_target t other then contains_key type_id c.rules else has_rule type_id other s)
  has_rule-put t other c s type_id =
      ap (λ o. is_some_and o (λ d. contains_key type_id d.rules)) (channel_at-put t other c s)
      ∙ elim (Bool-cases (same_target t other)) [ inl e ↦ rw e refl | inr e ↦ rw e refl ]

  -- A channel that is written with rules for the same types.
  pub put-Indexed :
      (t : ChannelTarget) (c : ChannelState V D S) (s : LocalChannelState V D S)
      → ((type_id : ℕ) → contains_key type_id c.rules ≡ has_rule type_id t s)
      → Indexed s
      → Indexed (put_channel t c s)
  put-Indexed t c s same i = record {
    agrees = λ type_id other.
        i.agrees type_id other
        ∙ sym (
            has_rule-put t other c s type_id ∙ elim (Bool-cases (same_target t other)) [
              | inl e ↦
                  rw e (same type_id ∙ ap (λ q. has_rule type_id q s) (same_target→eq t other e))
              | inr e ↦ rw e refl
            ]);
    keyed = i.keyed;
    distinct = i.distinct;
  }

  pub renew-Indexed :
      (t : ChannelTarget) (s : LocalChannelState V D S)
      → Indexed s
      → Indexed (renew t (remove_indexes t s))
  renew-Indexed t s i = record {
    agrees = λ type_id other.
        ap (contains_target other) (targets_in-without type_id t s.type_index i.keyed)
        ∙ contains-remove t other (targets_in type_id s.type_index)
        ∙ ap (λ q. q && not (same_target t other)) (i.agrees type_id other)
        ∙ left (has_rule type_id other s) (same_target t other)
        ∙ sym (has_rule-put t other _ (remove_indexes t s) type_id);
    keyed = Unique-filter _ _ (Unique-map (remove_target t) s.type_index i.keyed);
    distinct = λ type_id.
        subst DistinctTargets (sym (targets_in-without type_id t s.type_index i.keyed))
          (DistinctTargets-remove t (targets_in type_id s.type_index) (i.distinct type_id));
  }
    where
      left : (h b : Bool) → (h && not b) ≡ (if b then false else h)
      left h true = ground arith
      left h false = ground arith

  rules_lem :
      (type_id : ℕ) (t : ChannelTarget) (s : LocalChannelState V D S)
      → contains_key type_id (unwrap_or (channel_at t s) default_channel).rules
        ≡ has_rule type_id t s
  rules_lem type_id t s = of (channel_at t s)
    where
      of :
          (o : Option (ChannelState V D S))
          → contains_key type_id (unwrap_or o default_channel).rules
            ≡ is_some_and o (λ c. contains_key type_id c.rules)
      of none = refl
      of (some c) = refl

  module _ (t : ChannelTarget) (d : DeliverySpec V D) (s : LocalChannelState V D S) where
    abbrev own : List ChannelTarget
    own = insert_target t (targets_in d.type_id s.type_index)

    targets_in-add :
        (type_id : ℕ)
        → targets_in type_id (add_delivery t d s).type_index
          ≡ (if d.type_id == type_id then own else targets_in type_id s.type_index)
    targets_in-add type_id =
        ap (λ o. unwrap_or o []) (lookup-insert_lem d.type_id type_id own s.type_index)
        ∙ elim (Bool-cases (d.type_id == type_id)) [ inl e ↦ rw e refl | inr e ↦ rw e refl ]

    is_indexed-add :
        (type_id : ℕ) (other : ChannelTarget)
        → is_indexed type_id other (add_delivery t d s)
          ≡ (((d.type_id == type_id) && same_target t other) || is_indexed type_id other s)
    is_indexed-add type_id other =
        ap (contains_target other) (targets_in-add type_id)
        ∙ elim (Bool-cases (d.type_id == type_id)) [
          | inl e ↦ rw e (
              contains-insert t other (targets_in d.type_id s.type_index)
              ∙ ap (λ q. same_target t other || is_indexed q other s) (==→eq d.type_id type_id e))
          | inr e ↦ rw e refl
        ]

    has_rule-add :
        (type_id : ℕ) (other : ChannelTarget)
        → has_rule type_id other (add_delivery t d s)
          ≡ (((d.type_id == type_id) && same_target t other) || has_rule type_id other s)
    has_rule-add type_id other =
        let rules = (unwrap_or (channel_at t s) default_channel).rules in
        let rule : DeliveryRule V = record { predicate = d.predicate; debounce = d.debounce } in
        has_rule-put t other _ s type_id ∙ elim (Bool-cases (same_target t other)) [
          | inl e ↦ rw e (
              ap is_some (lookup-insert_lem d.type_id type_id rule rules)
              ∙ either rule (d.type_id == type_id) (lookup type_id rules)
              ∙ ap (λ q. ((d.type_id == type_id) && true) || q)
                  (rules_lem type_id t s
                    ∙ ap (λ q. has_rule type_id q s) (same_target→eq t other e)))
          | inr e ↦ rw e (neither (d.type_id == type_id) (has_rule type_id other s))
        ]
      where
        either :
            {A : Type 0} (a : A) (b : Bool) (o : Option A)
            → is_some (if b then some a else o) ≡ ((b && true) || is_some o)
        either a true o = refl
        either a false o = refl

        neither : (b h : Bool) → h ≡ ((b && false) || h)
        neither true h = refl
        neither false h = refl

    pub add_delivery-Indexed : Indexed s → Indexed (add_delivery t d s)
    add_delivery-Indexed i = record {
      agrees = λ type_id other.
          is_indexed-add type_id other
          ∙ ap (λ q. ((d.type_id == type_id) && same_target t other) || q) (i.agrees type_id other)
          ∙ sym (has_rule-add type_id other);
      keyed = Unique-insert d.type_id own s.type_index i.keyed;
      distinct = λ type_id.
          subst DistinctTargets (sym (targets_in-add type_id))
            (elim (Bool-cases (d.type_id == type_id)) [
              | inl e ↦ rw e (
                  DistinctTargets-insert t (targets_in d.type_id s.type_index)
                    (i.distinct d.type_id))
              | inr e ↦ rw e (i.distinct type_id)
            ]);
    }

  add_deliveries-Indexed :
      (t : ChannelTarget) (ds : List (DeliverySpec V D)) (s : LocalChannelState V D S)
      → Indexed s
      → Indexed (add_deliveries t ds s)
  add_deliveries-Indexed t [] s i = i
  add_deliveries-Indexed t (d ∷ ds) s i =
      add_deliveries-Indexed t ds (add_delivery t d s) (add_delivery-Indexed t d s i)

  pub replace_policy-Indexed :
      (t : ChannelTarget) (ds : List (DeliverySpec V D)) (s : LocalChannelState V D S)
      → Indexed s
      → Indexed (replace_policy t ds s)
  unfolding replace_policy
  replace_policy-Indexed t ds s i =
      add_deliveries-Indexed t ds (renew t (remove_indexes t s)) (renew-Indexed t s i)
