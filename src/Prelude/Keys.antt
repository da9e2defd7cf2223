-- ===== src/Prelude/Keys.antt =====
-- Hash maps of the source as association lists. The program never depends on their order.
use Prim.Native.Nat.{ℕ}
use Prim.Native.String.{String}
use mathlib.Core.Bool.{Bool}
use mathlib.Core.List.{List, [], ◌∷◌}
use mathlib.Core.Option.{Option, none, some}
use vyuh.Prelude.Tests.{◌==◌, ◌=$◌, if◌then◌else◌, is_some}

-- The equality that a map's keys have.
pub record Key {ℓ} (K : Type ℓ) : Type ℓ where
  pub same : K → K → Bool

instance abbrev pub number_key : Key ℕ
number_key = record { same = λ a b. a == b }

instance abbrev pub text_key : Key String
text_key = record { same = λ a b. a =$ b }

abbrev pub HashMap {ℓ κ} : Type ℓ → Type κ → Type (ℓ ⊔ κ)
HashMap K V = List (K × V)

module _ {ℓ κ} {K : Type ℓ} {V : Type κ} ⦃k : Key K⦄ where
  abbrev pub lookup : K → HashMap K V → Option V
  lookup a [] = none
  lookup a ((b, v) ∷ m) = if k.same b a then some v else lookup a m

  abbrev pub remove : K → HashMap K V → HashMap K V
  remove a [] = []
  remove a ((b, v) ∷ m) = if k.same b a then remove a m else (b, v) ∷ remove a m

  abbrev pub insert : K → V → HashMap K V → HashMap K V
  insert a v m = (a, v) ∷ remove a m

  abbrev pub contains_key : K → HashMap K V → Bool
  contains_key a m = is_some (lookup a m)

  -- `entry(key).or_insert(value)`
  abbrev pub or_insert : K → V → HashMap K V → HashMap K V
  or_insert a v m = if contains_key a m then m else insert a v m
