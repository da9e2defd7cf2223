-- ===== src/Prelude/Maps.antt =====
-- Lookups in the hash maps of the source, for keys whose test decides equality.
use Prim.Native.Nat.{ℕ, ◌+◌, ◌≤◌}
use mathlib.Core.Path.{◌≡◌, refl, sym, ◌∙◌}
use mathlib.Core.Bool.{Bool, true, false}
use mathlib.Core.List.{[], ◌∷◌, map}
use mathlib.Core.Logic.{inl, inr}
use mathlib.Core.Option.{none, some}
use native.Mathlib.Omega.{arith}
use vyuh.Prelude.Tests.{Bool-cases, if◌then◌else◌, eq→==, ==→eq, =$_refl}
use text.Mathlib.TextEquality.{eq_iff}
use Prim.Native.String.{String}
use vyuh.Prelude.Lists.{length, filter}
use vyuh.Prelude.Keys.{Key, HashMap, lookup, remove, insert, contains_key, number_key, text_key}

pub record KeyLaws {ℓ} (K : Type ℓ) ⦃k : Key K⦄ : Type ℓ where
  pub same_refl : (a : K) → k.same a a ≡ true
  pub same→eq : (a b : K) → k.same a b ≡ true → a ≡ b

instance abbrev pub number_laws : KeyLaws ℕ
number_laws = record { same_refl = λ a. eq→== a a refl; same→eq = ==→eq }

instance abbrev pub text_laws : KeyLaws String
text_laws = record { same_refl = =$_refl; same→eq = λ a b. (eq_iff a b).0 }

module _ {ℓ} {K : Type ℓ} ⦃k : Key K⦄ ⦃laws : KeyLaws K⦄ where
  pub same-false : (a b : K) → k.same a b ≡ false → k.same b a ≡ false
  same-false a b h = elim (Bool-cases (k.same b a)) [
    | inl e ↦ let q : true ≡ false = sym (laws.same_refl a) ∙ (rw (laws.same→eq b a e) at h) in cc
    | inr e ↦ e
  ]

module _ {ℓ κ} {K : Type ℓ} {V : Type κ} ⦃k : Key K⦄ ⦃laws : KeyLaws K⦄ where
  pub lookup-remove_self : (key : K) (m : HashMap K V) → lookup key (remove key m) ≡ none
  lookup-remove_self key [] = refl
  lookup-remove_self key ((b, v) ∷ m) = elim (Bool-cases (k.same b key)) [
    | inl e ↦ rw e (lookup-remove_self key m)
    | inr e ↦ rw (e, e) (lookup-remove_self key m)
  ]

  pub lookup-remove_other :
      (key other : K) (m : HashMap K V)
      → k.same key other ≡ false
      → lookup other (remove key m) ≡ lookup other m
  lookup-remove_other key other [] h = refl
  lookup-remove_other key other ((b, v) ∷ m) h = elim (Bool-cases (k.same b key)) [
    | inl e ↦
        let differs : k.same b other ≡ false = rw (laws.same→eq b key e) h in
        rw (e, differs) (lookup-remove_other key other m h)
    | inr e ↦ elim (Bool-cases (k.same b other)) [
      | inl f ↦ rw (e, f) refl
      | inr f ↦ rw (e, f) (lookup-remove_other key other m h)
    ]
  ]

  pub lookup-insert :
      (key other : K) (v : V) (m : HashMap K V)
      → lookup other (insert key v m) ≡ (if k.same key other then some v else lookup other m)
  lookup-insert key other v m = elim (Bool-cases (k.same key other)) [
    | inl e ↦ rw e refl
    | inr e ↦ rw (e, lookup-remove_other key other m e) refl
  ]

  pub length-remove-le : (key : K) (m : HashMap K V) → length (remove key m) ≤ length m
  length-remove-le key [] = omega arith
  length-remove-le key ((b, v) ∷ m) = ground (arith, length-remove-le key m)

  pub length-remove-lt :
      (key : K) (m : HashMap K V) → contains_key key m ≡ true → length (remove key m) + 1 ≤ length m
  length-remove-lt key [] h = cc
  length-remove-lt key ((b, v) ∷ m) h = elim (Bool-cases (k.same b key)) [
    | inl e ↦ rw e (omega (arith, length-remove-le key m))
    | inr e ↦ rw e (omega (arith, length-remove-lt key m (rw e at h)))
  ]

  -- No key stands twice.
  abbrev pub Unique : HashMap K V → Type κ
  Unique [] = Unit
  Unique ((key, v) ∷ m) = (lookup key m ≡ none) × Unique m

  pub lookup-filter-none :
      (p : K × V → Bool) (key : K) (m : HashMap K V)
      → lookup key m ≡ none
      → lookup key (filter p m) ≡ none
  lookup-filter-none p key [] h = refl
  lookup-filter-none p key ((b, v) ∷ m) h = elim (Bool-cases (k.same b key)) [
    | inl e ↦ let q : some v ≡ none = rw e at h in cc
    | inr e ↦ elim (Bool-cases (p (b, v))) [
      | inl f ↦ rw (f, e) (lookup-filter-none p key m (rw e at h))
      | inr f ↦ rw f (lookup-filter-none p key m (rw e at h))
    ]
  ]

  pub Unique-filter : (p : K × V → Bool) (m : HashMap K V) → Unique m → Unique (filter p m)
  Unique-filter p [] u = tt
  Unique-filter p ((b, v) ∷ m) (absent, u) = elim (Bool-cases (p (b, v))) [
    | inl f ↦ rw f (lookup-filter-none p b m absent, Unique-filter p m u)
    | inr f ↦ rw f (Unique-filter p m u)
  ]

  lookup-remove-none :
      (key other : K) (m : HashMap K V) → lookup other m ≡ none → lookup other (remove key m) ≡ none
  lookup-remove-none key other m h = elim (Bool-cases (k.same key other)) [
    | inl e ↦ rw (laws.same→eq key other e) (lookup-remove_self other m)
    | inr e ↦ lookup-remove_other key other m e ∙ h
  ]

  Unique-remove : (key : K) (m : HashMap K V) → Unique m → Unique (remove key m)
  Unique-remove key [] u = tt
  Unique-remove key ((b, v) ∷ m) (absent, u) = elim (Bool-cases (k.same b key)) [
    | inl e ↦ rw e (Unique-remove key m u)
    | inr e ↦ rw e (lookup-remove-none key b m absent, Unique-remove key m u)
  ]

  pub Unique-insert : (key : K) (v : V) (m : HashMap K V) → Unique m → Unique (insert key v m)
  Unique-insert key v m u = (lookup-remove_self key m, Unique-remove key m u)

  pub lookup-map-none :
      (f : V → V) (key : K) (m : HashMap K V)
      → lookup key m ≡ none
      → lookup key (map (λ e. (e.0, f e.1)) m) ≡ none
  lookup-map-none f key [] h = refl
  lookup-map-none f key ((b, v) ∷ m) h = elim (Bool-cases (k.same b key)) [
    | inl e ↦ let q : some v ≡ none = rw e at h in cc
    | inr e ↦ rw e (lookup-map-none f key m (rw e at h))
  ]

  pub Unique-map : (f : V → V) (m : HashMap K V) → Unique m → Unique (map (λ e. (e.0, f e.1)) m)
  Unique-map f [] u = tt
  Unique-map f ((b, v) ∷ m) (absent, u) = (lookup-map-none f b m absent, Unique-map f m u)
