-- ===== src/Prelude/Lists.antt =====
-- Vectors of the source as lists measured and indexed by native numbers.
use Prim.Native.Nat.{ℕ, zero, suc, ◌+◌, ◌≤◌}
use mathlib.Core.Path.{◌≡◌, refl, ap, subst, sym, ◌∙◌}
use mathlib.Core.Bool.{Bool, true, false, ◌||◌, ◌&&◌}
use mathlib.Core.List.{List, [], ◌∷◌, ◌++◌, map, reverse, reverse-append}
use mathlib.Core.Option.{Option, none, some}
use native.Mathlib.Omega.{arith}
use vyuh.Prelude.Tests.{if◌then◌else◌, Bool-cases}
use native.Mathlib.Nat.{add-zero}
use mathlib.Core.Logic.{inl, inr}

module _ {ℓ} {A : Type ℓ} where
  abbrev pub length : List A → ℕ
  length [] = 0
  length (x ∷ xs) = suc (length xs)

  abbrev pub get_elem? : List A → ℕ → Option A
  get_elem? [] i = none
  get_elem? (x ∷ xs) zero = some x
  get_elem? (x ∷ xs) (suc i) = get_elem? xs i

  -- A write out of bounds changes nothing.
  abbrev pub set : List A → ℕ → A → List A
  set [] i v = []
  set (x ∷ xs) zero v = v ∷ xs
  set (x ∷ xs) (suc i) v = x ∷ set xs i v

  abbrev pub take : ℕ → List A → List A
  take zero xs = []
  take (suc n) [] = []
  take (suc n) (x ∷ xs) = x ∷ take n xs

  abbrev pub drop : ℕ → List A → List A
  drop zero xs = xs
  drop (suc n) [] = []
  drop (suc n) (x ∷ xs) = drop n xs

  abbrev pub filter : (A → Bool) → List A → List A
  filter p [] = []
  filter p (x ∷ xs) = if p x then x ∷ filter p xs else filter p xs

  abbrev pub any : (A → Bool) → List A → Bool
  any p [] = false
  any p (x ∷ xs) = p x || any p xs

  abbrev pub all : (A → Bool) → List A → Bool
  all p [] = true
  all p (x ∷ xs) = p x && all p xs

  abbrev pub find : (A → Bool) → List A → Option A
  find p [] = none
  find p (x ∷ xs) = if p x then some x else find p xs

  abbrev pub is_empty : List A → Bool
  is_empty [] = true
  is_empty (x ∷ xs) = false

  -- The first element that passes the test, with its position counted from `i`.
  abbrev pub find_from : ℕ → (A → Bool) → List A → Option (ℕ × A)
  find_from i p [] = none
  find_from i p (x ∷ xs) = if p x then some (i, x) else find_from (suc i) p xs

  -- `iter_mut().find(p)` followed by a write: the first element that passes the test is replaced.
  abbrev pub update_first : (A → Bool) → (A → A) → List A → List A
  update_first p f [] = []
  update_first p f (x ∷ xs) = if p x then f x ∷ xs else x ∷ update_first p f xs

  pub length-append : (xs ys : List A) → length (xs ++ ys) ≡ length xs + length ys
  length-append [] ys = omega arith
  length-append (x ∷ xs) ys = omega (arith, length-append xs ys)

  pub length-set : (xs : List A) (i : ℕ) (v : A) → length (set xs i v) ≡ length xs
  length-set [] i v = refl
  length-set (x ∷ xs) zero v = refl
  length-set (x ∷ xs) (suc i) v = ap suc (length-set xs i v)

  pub length-take-le : (n : ℕ) (xs : List A) → length (take n xs) ≤ n
  length-take-le zero xs = omega arith
  length-take-le (suc n) [] = omega arith
  length-take-le (suc n) (x ∷ xs) = omega (arith, length-take-le n xs)

  pub length-filter-le : (p : A → Bool) (xs : List A) → length (filter p xs) ≤ length xs
  length-filter-le p [] = omega arith
  length-filter-le p (x ∷ xs) = ground (arith, length-filter-le p xs)

pub some_eq {ℓ} : {A : Type ℓ} (a b : A) → some a ≡ some b → a ≡ b
some_eq a b e = cc

-- A predicate on each element computes to a tuple.
abbrev pub All {ℓ κ} : {A : Type ℓ} → (A → Type κ) → List A → Type κ
All P [] = Unit
All P (x ∷ xs) = P x × All P xs

module _ {ℓ κ} {A : Type ℓ} (P : A → Type κ) where
  pub All-append : (xs ys : List A) → All P xs → All P ys → All P (xs ++ ys)
  All-append [] ys h k = k
  All-append (x ∷ xs) ys h k = (h.0, All-append xs ys h.1 k)

  pub All-set : (xs : List A) (i : ℕ) (v : A) → All P xs → P v → All P (set xs i v)
  All-set [] i v h k = h
  All-set (x ∷ xs) zero v h k = (k, h.1)
  All-set (x ∷ xs) (suc i) v h k = (h.0, All-set xs i v h.1 k)

  pub All-get : (xs : List A) (i : ℕ) (v : A) → All P xs → get_elem? xs i ≡ some v → P v
  All-get [] i v h e = cc
  All-get (x ∷ xs) zero v h e = subst P (some_eq x v e) h.0
  All-get (x ∷ xs) (suc i) v h e = All-get xs i v h.1 e

module _ {ℓ} {A : Type ℓ} where
  pub reverse-snoc : (xs : List A) (x : A) → reverse (xs ++ x ∷ []) ≡ x ∷ reverse xs
  reverse-snoc xs x = reverse-append xs (x ∷ [])

  pub find-none : (p : A → Bool) (xs : List A) → find p xs ≡ none → All (λ x. p x ≡ false) xs
  find-none p [] h = tt
  find-none p (x ∷ xs) h = elim (Bool-cases (p x)) [
    | inl e ↦ absurd (taken (rw e at h))
    | inr e ↦ (e, find-none p xs (rw e at h))
  ]
    where
      taken : some x ≡ none → ⊥
      taken q = cc

  -- The element that a search finds passes the test and stands where it says.
  pub find_from-some :
      (k : ℕ) (p : A → Bool) (xs : List A) {i : ℕ} {x : A}
      → find_from k p xs ≡ some (i, x)
      → (j : ℕ) × (i ≡ k + j) × (get_elem? xs j ≡ some x) × (p x ≡ true)
  find_from-some k p [] h = cc
  find_from-some k p (y ∷ ys) {i} {x} h = elim (Bool-cases (p y)) [
    | inl e ↦ here e (rw e at h)
    | inr e ↦ there (find_from-some (suc k) p ys (rw e at h))
  ]
    where
      here :
          p y ≡ true
          → ◌≡◌ {A = Option (ℕ × A)} (some (k, y)) (some (i, x))
          → (j : ℕ) × (i ≡ k + j) × (get_elem? (y ∷ ys) j ≡ some x) × (p x ≡ true)
      here e q =
          let same = some_eq _ _ q in
          (
            0,
            ap (λ r. r.0) (sym same) ∙ sym (add-zero k),
            ap (λ r. some r.1) same,
            subst (λ r. p r.1 ≡ true) same e,
          )

      there :
          (j : ℕ) × (i ≡ suc k + j) × (get_elem? ys j ≡ some x) × (p x ≡ true)
          → (j : ℕ) × (i ≡ k + j) × (get_elem? (y ∷ ys) j ≡ some x) × (p x ≡ true)
      there (j, e, g, t) = (suc j, omega arith, g, t)

module _ {ℓ κ} {A : Type ℓ} {B : Type κ} (f : A → B) where
  pub map-set_same :
      (xs : List A) (i : ℕ) (x y : A)
      → get_elem? xs i ≡ some x
      → f y ≡ f x
      → map f (set xs i y) ≡ map f xs
  map-set_same [] i x y h e = refl
  map-set_same (z ∷ zs) zero x y h e = ap (λ w. w ∷ map f zs) (e ∙ sym (ap f (some_eq z x h)))
  map-set_same (z ∷ zs) (suc i) x y h e = ap (λ w. f z ∷ w) (map-set_same zs i x y h e)

  pub get_elem?-map :
      (xs : List A) (i : ℕ) (x : A) → get_elem? xs i ≡ some x → get_elem? (map f xs) i ≡ some (f x)
  get_elem?-map [] i x h = cc
  get_elem?-map (z ∷ zs) zero x h = ap (λ w. some (f w)) (some_eq z x h)
  get_elem?-map (z ∷ zs) (suc i) x h = get_elem?-map zs i x h
