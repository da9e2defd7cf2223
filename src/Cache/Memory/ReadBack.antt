-- ===== src/Cache/Memory/ReadBack.antt =====
-- What a cache answers after it was given a value: vyuh/src/cache/memory.rs.
use vyuh.Prelude.{
  ℕ, ◌+◌, ◌≤◌, ◌<◌, ◌==◌, ltb, leb, ◌≡◌, refl, sym, ap, subst, ◌&&◌, not, true, false, Option, some,
  length, All, is_some_and, Bool-cases, inl, inr, arith,
}
use vyuh.Prelude.Int.{usize_max, u64_max}
use vyuh.Prelude.Bytes.{Bytes}
use vyuh.Cache.Error.{CacheError, ok, check-ok}
use vyuh.Cache.Store
use vyuh.Cache.Store.{MemoryState, MemoryAction, RandomState, stored}
use vyuh.Cache.Store.Sound.{Consistent, Visits}
use vyuh.Cache.Store.Kept.{HasRoom, stored-insert}
use vyuh.Cache.Memory.{
  CacheTtl, MemoryEntry, MemoryCache, store_limits, validate, expiry, expired, get_action,
  get_value, get, set,
}

-- A cache in use: its configuration is valid, its store has the limits that it names, and the
-- store agrees with itself and has not counted up to the largest u64.
pub record Serving (c : MemoryCache) : Type 0 where
  pub valid : validate c ≡ ok tt
  pub synced : c.store.limits ≡ store_limits c.limits
  pub consistent : Consistent c.store.lru c.store
  pub older : All (λ m. m.1 ≤ c.store.sequence) c.store.lru
  pub counts : c.store.sequence < u64_max

fits_limits :
    (most bytes entry ttl n : ℕ)
    → (ltb 0 most && ltb 0 bytes && ltb 0 entry && leb entry bytes && not (ttl == 0)) ≡ true
    → leb n entry ≡ true
    → (1 ≤ most) × (leb n bytes ≡ true)
fits_limits most bytes entry ttl n h k = ground arith

-- A value that a valid cache accepts may stand alone in its store.
pub Serving-HasRoom :
    (c : MemoryCache) (n : ℕ)
    → Serving c
    → leb n c.limits.max_entry_bytes ≡ true
    → HasRoom c.store.limits n
unfolding validate
Serving-HasRoom c n s h =
    subst (λ limits. HasRoom limits n) (sym s.synced)
      (fits_limits c.limits.max_entries c.limits.max_bytes c.limits.max_entry_bytes
        c.limits.default_ttl n (check-ok _ CacheError.invalid_provider_config s.valid) h)

module _ (r : RandomState MemoryEntry) where
  live_action :
      (entry : MemoryEntry) (now : ℕ)
      → expired entry now ≡ false
      → get_action now (some entry) ≡ MemoryAction.keep (some entry.value)
  live_action entry now h = rw h refl

  -- A live entry is read.
  pub get_value-live :
      (key : Bytes) (entry : MemoryEntry) (now : ℕ) (c : MemoryCache)
      → stored key c.store ≡ some entry
      → expired entry now ≡ false
      → (get_value r key now c).0 ≡ some entry.value
  unfolding get_value Store.apply
  get_value-live key entry now c found live = rw (found, get_value, live) refl

  module _ (visits : Visits r) where
    -- A value that was set is read back at any time before it expires, whatever was evicted for
    -- it, provided that the cache is in use and the bytes to be kept do not pass the largest usize.
    pub get-set :
        (key value : Bytes) (ttl : CacheTtl) (now later : ℕ) (expires : Option ℕ)
        (c c' : MemoryCache)
        → Serving c
        → c.store.retained_bytes + length value ≤ usize_max
        → expiry c ttl now ≡ ok expires
        → is_some_and expires (λ t. leb t later) ≡ false
        → set r key value ttl now c ≡ (ok tt, c')
        → (get r key later c').0 ≡ ok (some value)
    unfolding set get
    get-set key value ttl now later expires c c' s fits e live h =
        elim (Bool-cases (leb (length value) c.limits.max_entry_bytes)) [
          | inl small ↦
              let entry : MemoryEntry = record { value = value; expires_at = expires } in
              let c₁ : MemoryCache = record c {
                store = Store.insert r key entry (length value) c.store;
              } in
              let done : c₁ ≡ c' = ap (λ x. x.1) (rw (small, e, set) at h) in
              let found =
                stored-insert r visits key entry (length value) c.store s.consistent s.older
                  s.counts (Serving-HasRoom c (length value) s small) fits in
              subst (λ d. (get r key later d).0 ≡ ok (some value)) done
                (ap (λ o. ok o) (get_value-live key entry later c₁ found live))
          | inr large ↦ let q = ap (λ x. x.0) (rw (large, set) at h) in cc
        ]
