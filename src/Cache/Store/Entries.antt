-- ===== src/Cache/Store/Entries.antt =====
-- The entries of a store as a map without repeated keys, and sums over them that do not depend on
-- the order of a visit.
use Prim.Native.Nat.{ℕ, ◌+◌, ◌≤◌}
use mathlib.Core.List.{Mem, Permᴰ, Perm, mem-cons_self, mem-cons_of_mem}
use mathlib.Core.Logic.{∥∥₁_elim}
use native.Mathlib.Nat.{ℕ_set}
use vyuh.Prelude.{
  ◌≡◌, refl, sym, ap, ◌∙◌, inl, inr, Bool, true, false, none, some, List, [], ◌∷◌, filter, lookup,
  remove as remove_key, Bool-cases, some_eq, arith,
}
use vyuh.Prelude.Bytes.{
  bytes_laws, lookup-remove_self, lookup-remove_other, Bytes, bytes_key, same_bytes, same_bytes→eq,
  same_bytes_refl,
}
use vyuh.Cache.Store.{StoredValue, Entries}

module _ {ℓ} {A : Type ℓ} (f : A → ℕ) where
  abbrev pub sum_by : List A → ℕ
  sum_by [] = 0
  sum_by (x ∷ xs) = f x + sum_by xs

  sum_by-permᴰ : {xs ys : List A} → Permᴰ xs ys → sum_by xs ≡ sum_by ys
  sum_by-permᴰ Permᴰ.nil = refl
  sum_by-permᴰ (Permᴰ.cons e p) = omega (arith, ap f e, sum_by-permᴰ p)
  sum_by-permᴰ (Permᴰ.swap e e') = omega (arith, ap f e, ap f e')
  sum_by-permᴰ (Permᴰ.trans p q) = sum_by-permᴰ p ∙ sum_by-permᴰ q

  pub sum_by-perm : {xs ys : List A} → Perm xs ys → sum_by xs ≡ sum_by ys
  sum_by-perm p = ∥∥₁_elim p (ℕ_set _ _) sum_by-permᴰ

  pub sum_by-filter-le : (p : A → Bool) (xs : List A) → sum_by (filter p xs) ≤ sum_by xs
  sum_by-filter-le p [] = omega arith
  sum_by-filter-le p (x ∷ xs) = ground (arith, sum_by-filter-le p xs)

module _ {ℓ} {V : Type ℓ} where
  abbrev pub bytes_of : Bytes × StoredValue V → ℕ
  bytes_of e = e.1.bytes

  -- No key stands twice.
  abbrev pub Uniq : Entries V → Type ℓ
  Uniq [] = Unit
  Uniq ((key, entry) ∷ m) = (lookup key m ≡ none) × Uniq m

  pub remove_absent : (key : Bytes) (m : Entries V) → lookup key m ≡ none → remove_key key m ≡ m
  remove_absent key [] h = refl
  remove_absent key ((b, v) ∷ m) h = elim (Bool-cases (same_bytes b key)) [
    | inl e ↦ let q = rw e at h in cc
    | inr e ↦ rw e (ap (λ t. (b, v) ∷ t) (remove_absent key m (rw e at h)))
  ]

  pub sum_by-remove :
      (f : Bytes × StoredValue V → ℕ) (key : Bytes) (entry : StoredValue V) (m : Entries V)
      → Uniq m
      → lookup key m ≡ some entry
      → sum_by f (remove_key key m) + f (key, entry) ≡ sum_by f m
  sum_by-remove f key entry [] u h = cc
  sum_by-remove f key entry ((b, v) ∷ m) (absent, u) h = elim (Bool-cases (same_bytes b key)) [
    | inl e ↦
        let here : ◌≡◌ {A = Bytes × StoredValue V} (b, v) (key, entry) =
          (λ i. (same_bytes→eq b key e i, some_eq v entry (rw e at h) i)) in
        let gone : remove_key key m ≡ m =
          remove_absent key m (rw (sym (same_bytes→eq b key e)) absent) in
        rw (e, gone) (omega (arith, ap f here))
    | inr e ↦ rw e (omega (arith, sum_by-remove f key entry m u (rw e at h)))
  ]

  lookup-remove_none :
      (key other : Bytes) (m : Entries V)
      → lookup other m ≡ none
      → lookup other (remove_key key m) ≡ none
  lookup-remove_none key other m h = elim (Bool-cases (same_bytes key other)) [
    | inl e ↦ rw (same_bytes→eq key other e) (lookup-remove_self other m)
    | inr e ↦ lookup-remove_other key other m e ∙ h
  ]

  pub Uniq-remove : (key : Bytes) (m : Entries V) → Uniq m → Uniq (remove_key key m)
  Uniq-remove key [] u = tt
  Uniq-remove key ((b, v) ∷ m) (absent, u) = elim (Bool-cases (same_bytes b key)) [
    | inl e ↦ rw e (Uniq-remove key m u)
    | inr e ↦ rw e (lookup-remove_none key b m absent, Uniq-remove key m u)
  ]

  module _ (p : Bytes → Bool) where
    abbrev pub kept : Entries V → Entries V
    kept = filter (λ e. p e.0)

    pub lookup-kept :
        (key : Bytes) (m : Entries V) → p key ≡ true → lookup key (kept m) ≡ lookup key m
    lookup-kept key [] h = refl
    lookup-kept key ((b, v) ∷ m) h = elim (Bool-cases (same_bytes b key)) [
      | inl e ↦ let q : p b ≡ true = rw (same_bytes→eq b key e) h in rw (q, e) refl
      | inr e ↦ elim (Bool-cases (p b)) [
        | inl f ↦ rw (f, e) (lookup-kept key m h)
        | inr f ↦ rw (f, e) (lookup-kept key m h)
      ]
    ]

    pub lookup-kept-none :
        (key : Bytes) (m : Entries V) → p key ≡ false → lookup key (kept m) ≡ none
    lookup-kept-none key [] h = refl
    lookup-kept-none key ((b, v) ∷ m) h = elim (Bool-cases (p b)) [
      | inl f ↦ elim (Bool-cases (same_bytes b key)) [
        | inl e ↦ let q : p b ≡ false = rw (same_bytes→eq b key e) h in cc
        | inr e ↦ rw (f, e) (lookup-kept-none key m h)
      ]
      | inr f ↦ rw f (lookup-kept-none key m h)
    ]

    pub Uniq-kept : (m : Entries V) → Uniq m → Uniq (kept m)
    Uniq-kept [] u = tt
    Uniq-kept ((b, v) ∷ m) (absent, u) = elim (Bool-cases (p b)) [
      | inl f ↦ rw f (lookup-kept b m f ∙ absent, Uniq-kept m u)
      | inr f ↦ rw f (Uniq-kept m u)
    ]

  pub lookup-mem :
      (key : Bytes) (entry : StoredValue V) (m : Entries V)
      → lookup key m ≡ some entry
      → Mem (key, entry) m
  lookup-mem key entry [] h = cc
  lookup-mem key entry ((b, v) ∷ m) h = elim (Bool-cases (same_bytes b key)) [
    | inl e ↦
        let here : ◌≡◌ {A = Bytes × StoredValue V} (b, v) (key, entry) =
          (λ i. (same_bytes→eq b key e i, some_eq v entry (rw e at h) i)) in
        rw (sym here) mem-cons_self
    | inr e ↦ mem-cons_of_mem (b, v) (lookup-mem key entry m (rw e at h))
  ]

  -- A map in which nothing is found is empty.
  pub empty_of_none : (m : Entries V) → ((key : Bytes) → lookup key m ≡ none) → m ≡ []
  empty_of_none [] h = refl
  empty_of_none ((b, v) ∷ m) h = let q = rw (same_bytes_refl b) at (h b) in cc
