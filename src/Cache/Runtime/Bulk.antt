-- ===== src/Cache/Runtime/Bulk.antt =====
-- The keys of a bulk operation: `keys` of vyuh/src/cache/runtime.rs.
use vyuh.Prelude.{
  ◌≤◌, ltb, ◌≡◌, ◌≢◌, refl, subst, sym, ap, ◌∙◌, not, Bool, true, false, Bool-cases, inl, inr, List,
  [], ◌∷◌, map, length, All, arith, or_false,
}
use vyuh.Prelude.Bytes.{Bytes, same_bytes, same_bytes_refl}
use vyuh.Cache.Error.{CacheError, ok, check, check-ok, ok_eq, >>=-ok}
use vyuh.Cache.Key.{max_bulk_items}
use vyuh.Cache.Key.Apart.{cache_key_inj}
use vyuh.Cache.Config.{is_named}
use vyuh.Cache.Runtime.{Cache, key_of, keys_from, keys}

-- No two texts are the same.
abbrev pub Different : List Bytes → Type 0
Different [] = Unit
Different (a ∷ rest) = All (λ b. a ≢ b) rest × Different rest

-- The keys of the pairs belong to their names.
abbrev pub KeysOf : Cache → List (Bytes × Bytes) → Type 0
KeysOf c = All (λ pair. key_of c pair.0 ≡ ok pair.1)

differs : (a b : Bytes) → same_bytes a b ≡ false → a ≢ b
differs a b h e = let q : same_bytes a b ≡ true = rw e (same_bytes_refl b) in cc

not-true : (b : Bool) → not b ≡ true → b ≡ false
not-true true h = cc
not-true false h = refl

unseen :
    (name : Bytes) (seen names : List Bytes)
    → All (λ n. is_named n (name ∷ seen) ≡ false) names
    → All (λ n. name ≢ n) names × All (λ n. is_named n seen ≡ false) names
unseen name seen [] h = (tt, tt)
unseen name seen (n ∷ names) (h, t) =
    let (other, old) = or_false (same_bytes name n) (is_named n seen) h in
    let (rest, olds) = unseen name seen names t in ((differs name n other, rest), (old, olds))

keys_from-KeysOf :
    (c : Cache) (seen names : List Bytes) (pairs : List (Bytes × Bytes))
    → keys_from c seen names ≡ ok pairs
    → KeysOf c pairs
      × (map (λ pair. pair.0) pairs ≡ names)
      × Different names
      × All (λ name. is_named name seen ≡ false) names
unfolding keys_from
keys_from-KeysOf c seen [] pairs h =
    subst (λ ps. KeysOf c ps × (map (λ pair. pair.0) ps ≡ []) × Unit × Unit) (ok_eq [] pairs h)
      (tt, refl, tt, tt)
keys_from-KeysOf c seen (name ∷ names) pairs h =
    let (_, checked, h₁) = >>=-ok (check (not (is_named name seen)) CacheError.invalid_key) _ h in
    let (key, keyed, h₂) = >>=-ok (key_of c name) _ h₁ in
    let (rest, more, h₃) = >>=-ok (keys_from c (name ∷ seen) names) _ h₂ in
    let (ks, ns, different, new) = keys_from-KeysOf c (name ∷ seen) names rest more in
    let (apart, old) = unseen name seen names new in
    let first =
      not-true (is_named name seen)
        (check-ok (not (is_named name seen)) CacheError.invalid_key checked) in
    subst
      (λ ps.
        KeysOf c ps
        × (map (λ pair. pair.0) ps ≡ name ∷ names)
        × Different (name ∷ names)
        × All (λ n. is_named n seen ≡ false) (name ∷ names))
      (ok_eq ((name, key) ∷ rest) pairs h₃)
      ((keyed, ks), ap (λ l. name ∷ l) ns, (apart, different), (first, old))

-- Different names have different keys.
apart_keys :
    (c : Cache) (name key : Bytes) (pairs : List (Bytes × Bytes))
    → key_of c name ≡ ok key
    → KeysOf c pairs
    → All (λ n. name ≢ n) (map (λ pair. pair.0) pairs)
    → All (λ k. key ≢ k) (map (λ pair. pair.1) pairs)
apart_keys c name key [] h ks different = tt
apart_keys c name key ((n, k) ∷ pairs) h (hk, ks) (d, different) = (
  λ e.
      d
        (cache_key_inj c.name c.name c.namespaces c.namespaces name n k (h ∙ ap (λ x. ok x) e)
          hk).2,
  apart_keys c name key pairs h ks different,
)

keys-apart :
    (c : Cache) (pairs : List (Bytes × Bytes))
    → KeysOf c pairs
    → Different (map (λ pair. pair.0) pairs)
    → Different (map (λ pair. pair.1) pairs)
keys-apart c [] ks d = tt
keys-apart c ((name, key) ∷ pairs) (k, ks) (d, ds) =
    (apart_keys c name key pairs k ks d, keys-apart c pairs ks ds)

-- The keys that a bulk operation is given are those of the names that were asked for, in their
-- order; there are at most 256, and neither two names nor two keys among them are the same.
pub keys-Different :
    (c : Cache) (names : List Bytes) (pairs : List (Bytes × Bytes))
    → keys c names ≡ ok pairs
    → (length names ≤ 256)
      × (map (λ pair. pair.0) pairs ≡ names)
      × KeysOf c pairs
      × Different names
      × Different (map (λ pair. pair.1) pairs)
unfolding keys
keys-Different c names pairs h = elim (Bool-cases (ltb max_bulk_items (length names))) [
  | inl e ↦ let q = rw e at h in cc
  | inr e ↦
      let (ks, ns, different, _) = keys_from-KeysOf c [] names pairs (rw e at h) in
      (ground arith, ns, ks, different, keys-apart c pairs ks (subst Different (sym ns) different))
]
