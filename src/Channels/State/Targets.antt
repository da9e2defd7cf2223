-- ===== src/Channels/State/Targets.antt =====
-- Sets of targets, and the index of them by types: vyuh/src/channels/runtime.rs.
use vyuh.Prelude.{
  ℕ, ◌==◌, ◌||◌, ◌&&◌, Bool, true, false, not, Bool-cases, ◌≡◌, refl, sym, ap, ◌∙◌, subst, inl, inr,
  none, List, [], ◌∷◌, map, filter, is_empty, HashMap, lookup, unwrap_or, number_key, arith, ==→eq,
}
use vyuh.Prelude.Maps.{same-false, Unique, lookup-map-none, lookup-filter-none, number_laws}
use vyuh.Channels.Types.{ChannelTarget, same_target, target_key, target_laws, same_target→eq}
use vyuh.Channels.State.{remove_target, contains_target, insert_target}

abbrev pub DistinctTargets : List ChannelTarget → Type 0
DistinctTargets [] = Unit
DistinctTargets (t ∷ ts) = (contains_target t ts ≡ false) × DistinctTargets ts

pub contains-remove :
    (t other : ChannelTarget) (ts : List ChannelTarget)
    → contains_target other (remove_target t ts)
      ≡ (contains_target other ts && not (same_target t other))
contains-remove t other [] = refl
contains-remove t other (x ∷ ts) = elim (Bool-cases (same_target x t)) [
  | inl e ↦
      let moved : same_target x other ≡ same_target t other =
        ap (λ q. same_target q other) (same_target→eq x t e) in
      rw e (contains-remove t other ts ∙ taken _ _ _ moved)
  | inr e ↦ elim (Bool-cases (same_target x other)) [
    | inl f ↦
        let apart : same_target t other ≡ false =
          ap (λ q. same_target t q) (sym (same_target→eq x other f)) ∙ same-false x t e in
        rw (e, f, apart) refl
    | inr f ↦ rw (e, f) (contains-remove t other ts)
  ]
]
  where
    taken : (r x y : Bool) → x ≡ y → (r && not y) ≡ ((x || r) && not y)
    taken r x y e = ground arith

pub DistinctTargets-remove :
    (t : ChannelTarget) (ts : List ChannelTarget)
    → DistinctTargets ts
    → DistinctTargets (remove_target t ts)
DistinctTargets-remove t [] d = tt
DistinctTargets-remove t (x ∷ ts) (fresh, d) = elim (Bool-cases (same_target x t)) [
  | inl e ↦ rw e (DistinctTargets-remove t ts d)
  | inr e ↦ rw e ((contains-remove t x ts ∙ (rw fresh refl)), DistinctTargets-remove t ts d)
]

pub contains-insert :
    (t other : ChannelTarget) (ts : List ChannelTarget)
    → contains_target other (insert_target t ts) ≡ (same_target t other || contains_target other ts)
contains-insert t other ts = elim (Bool-cases (contains_target t ts)) [
  | inl e ↦ elim (Bool-cases (same_target t other)) [
    | inl f ↦ rw (e, f) (ap (λ q. contains_target q ts) (sym (same_target→eq t other f)) ∙ e)
    | inr f ↦ rw (e, f) refl
  ]
  | inr e ↦ rw e refl
]

pub DistinctTargets-insert :
    (t : ChannelTarget) (ts : List ChannelTarget)
    → DistinctTargets ts
    → DistinctTargets (insert_target t ts)
DistinctTargets-insert t ts d = elim (Bool-cases (contains_target t ts)) [
  | inl e ↦ rw e d
  | inr e ↦ rw e (e, d)
]

abbrev pub targets_in : ℕ → HashMap ℕ (List ChannelTarget) → List ChannelTarget
targets_in type_id index = unwrap_or (lookup type_id index) []

abbrev pub without : ChannelTarget → HashMap ℕ (List ChannelTarget) → HashMap ℕ (List ChannelTarget)
without t index = filter (λ e. not (is_empty e.1)) (map (λ e. (e.0, remove_target t e.1)) index)

pub targets_in-without :
    (type_id : ℕ) (t : ChannelTarget) (index : HashMap ℕ (List ChannelTarget))
    → Unique index
    → targets_in type_id (without t index) ≡ remove_target t (targets_in type_id index)
targets_in-without type_id t [] u = refl
targets_in-without type_id t ((k, ts) ∷ index) (absent, u) = elim (Bool-cases (k == type_id)) [
  | inl e ↦
      let gone : lookup type_id (without t index) ≡ none = lookup-filter-none _ type_id _ (
        lookup-map-none (remove_target t) type_id index
          (subst (λ q. lookup q index ≡ none) (==→eq k type_id e) absent)) in
      elim (Bool-cases (is_empty (remove_target t ts))) [
        | inl f ↦ rw (f, e) (ap (λ o. unwrap_or o []) gone ∙ sym (nil-of_empty _ f))
        | inr f ↦ rw (f, e) refl
      ]
  | inr e ↦ elim (Bool-cases (is_empty (remove_target t ts))) [
    | inl f ↦ rw (f, e) (targets_in-without type_id t index u)
    | inr f ↦ rw (f, e) (targets_in-without type_id t index u)
  ]
]
  where
    nil-of_empty : (xs : List ChannelTarget) → is_empty xs ≡ true → xs ≡ []
    nil-of_empty [] h = refl
    nil-of_empty (x ∷ xs) h = cc
