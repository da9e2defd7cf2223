-- ===== src/Prelude/Order.antt =====
-- Stable sorting by a Boolean order, as `sort_by_key` sorts.
use mathlib.Core.Bool.{Bool, true}
use mathlib.Core.List.{List, [], ◌∷◌}
use mathlib.Core.Option.{Option, none, some}
use Prim.Native.Nat.{ℕ}
use vyuh.Prelude.Tests.{if◌then◌else◌, ltb, leb, ◌==◌}

module _ {ℓ} {A : Type ℓ} where
  -- Before the first element that is not smaller: equal elements keep their order.
  unfoldable pub insert_sorted : (A → A → Bool) → A → List A → List A
  insert_sorted le a [] = a ∷ []
  insert_sorted le a (b ∷ bs) =
      let rest = insert_sorted le a bs in if le a b then a ∷ b ∷ bs else b ∷ rest

  unfoldable pub sort : (A → A → Bool) → List A → List A
  unfolding insert_sorted
  sort le [] = []
  sort le (a ∷ as') = insert_sorted le a (sort le as')

abbrev pub leb_option {ℓ} : {A : Type ℓ} → (A → A → Bool) → Option A → Option A → Bool
leb_option le none b = true
leb_option le (some a) none = Bool.false
leb_option le (some a) (some b) = le a b

-- The lexicographic order of triples.
abbrev pub leb_triple : ℕ × ℕ × ℕ → ℕ × ℕ × ℕ → Bool
leb_triple (a, b, c) (d, e, f) =
    if ltb a d
    then true
    else if a == d
    then (if ltb b e then true else if b == e then leb c f else Bool.false)
    else Bool.false
