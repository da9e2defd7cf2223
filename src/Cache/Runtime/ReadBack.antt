-- ===== src/Cache/Runtime/ReadBack.antt =====
-- What a handle reads after it has written: vyuh/src/cache/runtime.rs over memory.rs.
use vyuh.Prelude.{
  ℕ, ◌+◌, ◌≤◌, leb, ◌≡◌, some_eq, refl, sym, ap, ◌∙◌, subst, false, Option, none, some, length,
  lookup, insert, is_some_and,
}
use vyuh.Prelude.Int.{usize_max}
use vyuh.Prelude.Bytes.{Bytes, bytes_key, same_bytes_refl}
use vyuh.Cache.Error.{CacheResult, ok, err, ok_eq}
use vyuh.Cache.Store.{RandomState}
use vyuh.Cache.Store.Sound.{Visits}
use vyuh.Cache.Memory
use vyuh.Cache.Memory.{CacheTtl, MemoryEntry, MemoryCache, expiry, validate_ttl}
use vyuh.Cache.Memory.ReadBack.{Serving, get-set}
use vyuh.Cache.Provider.{CacheProvider, Clocked, memory, finish, lift}
use vyuh.Cache.Config.{CacheRegistry}
use vyuh.Cache.Runtime.{Codec, Cache, key_of, on_provider, get, set, decode_hit}

finish-ok {ℓ} :
    {S A : Type 0} {B : Type ℓ} (f : A → S → CacheResult B × S) (x : CacheResult A × S) {b : B}
    {t : S}
    → finish f x ≡ (ok b, t)
    → (a : A) × (x.0 ≡ ok a) × (f a x.1 ≡ (ok b, t))
finish-ok f (ok a, s) h = (a, refl, h)
finish-ok f (err e, s) h = cc

-- A handle decodes what its provider answers.
get_lem :
    {S T : Type 0} (p : CacheProvider S) (j : Codec T) (c : Cache) (key key' bytes : Bytes)
    (value : T) (s : S) (registry : CacheRegistry S)
    → key_of c key ≡ ok key'
    → lookup c.name registry.providers ≡ some s
    → (p.get key' s).0 ≡ ok (some bytes)
    → j.decode bytes ≡ ok value
    → (get p j c key registry).0 ≡ ok (some value)
unfolding get
get_lem {S} p j c key key' bytes value s registry named here found dec =
    let read : (on_provider p c.name (p.get key') registry).0 ≡ ok (some bytes) =
      rw (here, on_provider) found in
    rw named (decoded (on_provider p c.name (p.get key') registry) read)
  where
    decoded :
        (x : CacheResult (Option Bytes) × CacheRegistry S)
        → x.0 ≡ ok (some bytes)
        → (finish (λ v. lift (decode_hit p j v)) x).0 ≡ ok (some value)
    decoded (ok none, reg) h = cc
    decoded (ok (some b), reg) h =
        let same : b ≡ bytes = some_eq b bytes (ok_eq (some b) (some bytes) h) in
        rw (same, dec) refl
    decoded (err e, reg) h = cc

module _ (r : RandomState MemoryEntry) (visits : Visits r) {T : Type 0} (j : Codec T) where
  -- A value that a handle stores in a cache in its process is read back by the same handle, as it was
  -- before it was serialized, at the next reading of the clock unless it has expired by then, whatever is
  -- evicted for it, provided that its type is decoded as it was encoded, that the cache is in use
  -- and that the bytes to be kept do not pass the largest usize.
  pub get-after-set :
      (c : Cache) (key bytes : Bytes) (value : T) (ttl : CacheTtl) (expires : Option ℕ)
      (s : Clocked) (registry registry' : CacheRegistry Clocked)
      → j.encode value ≡ ok bytes
      → j.decode bytes ≡ ok value
      → lookup c.name registry.providers ≡ some s
      → Serving s.cache
      → s.cache.store.retained_bytes + length bytes ≤ usize_max
      → expiry s.cache ttl (s.readings 0) ≡ ok expires
      → is_some_and expires (λ t. leb t (s.readings 1)) ≡ false
      → set (memory r) j c key value ttl registry ≡ (ok tt, registry')
      → (get (memory r) j c key registry').0 ≡ ok (some value)
  unfolding get set memory
  get-after-set c key bytes value ttl expires s registry registry' enc dec here serving fits e live
        h =
      let (_, ttl_ok, h₁) = finish-ok _ (validate_ttl ttl, registry) h in
      let (key', key_ok, h₂) = finish-ok _ (key_of c key, registry) h₁ in
      let (bytes', enc_ok, h₃) = finish-ok _ (j.encode value, registry) h₂ in
      let h₄ =
        subst
          (λ b.
            on_provider (memory r) c.name ((memory r).set key' b ttl) registry ≡ (ok tt, registry'))
          (ok_eq bytes' bytes (sym enc_ok ∙ enc)) h₃ in
      let stored = Memory.set r key' bytes ttl (s.readings 0) s.cache in
      let s' : Clocked = record { cache = stored.1; readings = λ i. s.readings (i + 1) } in
      let done : (stored.0, record registry { providers = insert c.name s' registry.providers })
          ≡ (ok tt, registry') =
        rw (here, on_provider) at h₄ in
      let found =
        get-set r visits key' bytes ttl (s.readings 0) (s.readings 1) expires s.cache stored.1
          serving fits e live (λ i. ((done i).0, stored.1)) in
      subst (λ reg. (get (memory r) j c key reg).0 ≡ ok (some value)) (ap (λ x. x.1) done)
        (get_lem (memory r) j c key key' bytes value s'
          (record registry { providers = insert c.name s' registry.providers }) key_ok
          (rw (same_bytes_refl c.name) refl) found dec)
