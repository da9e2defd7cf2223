-- ===== src/Cache/Memory.antt =====
-- The bounded in-process cache of values that expire: vyuh/src/cache/memory.rs, and the lifetimes
-- of vyuh/src/cache/provider.rs. A time is in nanoseconds; where the source reads the clock, the
-- reading is an argument.
pub mod ReadBack
pub mod Counting
use vyuh.Prelude.{
  ℕ, ◌+◌, ◌*◌, ◌==◌, ltb, leb, ◌&&◌, not, Bool, true, false, if◌then◌else◌, Option, none, some,
  List, [], ◌∷◌, length, is_some_and,
}
use vyuh.Prelude.Int.{ℤ}
use vyuh.Prelude.Bytes.{Bytes, starts_with}
use vyuh.Cache.Error.{CacheError, CacheResult, ok, err, ◌>>=◌, ◌>>◌, check, ok_or}
use vyuh.Cache.Integers.{checked_add as add_i64, to_be_bytes, from_be_bytes}
use vyuh.Cache.Store
use vyuh.Cache.Store.{MemoryLimits, MemoryAction, MemoryState, RandomState, keep, discard, replace}

pub data CacheTtl : Type 0 where
  default : CacheTtl
  for_duration : ℕ → CacheTtl
  forever : CacheTtl

pub record MemoryCacheLimits : Type 0 where
  pub max_entries : ℕ
  pub max_bytes : ℕ
  pub max_entry_bytes : ℕ
  pub default_ttl : ℕ

pub record MemoryEntry : Type 0 where
  pub value : Bytes
  pub expires_at : Option ℕ

pub record MemoryCache : Type 0 where
  pub limits : MemoryCacheLimits
  pub store : MemoryState MemoryEntry

-- `CacheTtl::validate`
abbrev pub validate_ttl : CacheTtl → CacheResult (Unit {0})
validate_ttl (CacheTtl.for_duration d) = check (not (d == 0)) CacheError.invalid_ttl
validate_ttl _ = ok tt

abbrev pub store_limits : MemoryCacheLimits → MemoryLimits
store_limits limits = record { max_entries = limits.max_entries; max_bytes = some limits.max_bytes }

abbrev pub default_limits : MemoryCacheLimits
default_limits = record {
  max_entries = 1024;
  max_bytes = 16 * 1024 * 1024;
  max_entry_bytes = 1024 * 1024;
  default_ttl = 300 * 1000000000;
}

abbrev pub new : MemoryCache
new = record { limits = default_limits; store = Store.empty (store_limits default_limits) }

-- A site's own cache, with the limits of the configured one and nothing in it.
abbrev pub for_site : MemoryCache → MemoryCache
for_site c = record { limits = c.limits; store = Store.empty (store_limits c.limits) }

abbrev pub max_entry_bytes : ℕ → MemoryCache → MemoryCache
max_entry_bytes value c = record c { limits = record (c.limits) { max_entry_bytes = value } }

abbrev pub default_ttl : ℕ → MemoryCache → MemoryCache
default_ttl value c = record c { limits = record (c.limits) { default_ttl = value } }

unfoldable pub validate : MemoryCache → CacheResult (Unit {0})
validate c =
    check
      (ltb 0 c.limits.max_entries
        && ltb 0 c.limits.max_bytes
        && ltb 0 c.limits.max_entry_bytes
        && leb c.limits.max_entry_bytes c.limits.max_bytes
        && not (c.limits.default_ttl == 0))
      CacheError.invalid_provider_config

-- The last time that an `Instant` can hold.
abbrev pub instant_max : ℕ
instant_max = 9223372036854775807999999999

abbrev pub checked_add : ℕ → ℕ → Option ℕ
checked_add now ttl = if leb (now + ttl) instant_max then some (now + ttl) else none

abbrev pub expires_in : ℕ → ℕ → CacheResult (Option ℕ)
expires_in ttl now = ok_or (checked_add now ttl) CacheError.invalid_ttl >>= λ t. ok (some t)

abbrev pub lifetime : MemoryCache → CacheTtl → ℕ → CacheResult (Option ℕ)
lifetime c CacheTtl.default now = expires_in c.limits.default_ttl now
lifetime c (CacheTtl.for_duration d) now = expires_in d now
lifetime c CacheTtl.forever now = ok none

abbrev pub expiry : MemoryCache → CacheTtl → ℕ → CacheResult (Option ℕ)
expiry c ttl now = validate_ttl ttl >> lifetime c ttl now

abbrev pub validate_value : MemoryCache → Bytes → CacheResult (Unit {0})
validate_value c value =
    check (leb (length value) c.limits.max_entry_bytes) CacheError.value_too_large

abbrev pub expired : MemoryEntry → ℕ → Bool
expired entry now = is_some_and entry.expires_at (λ t. leb t now)

-- What the cache decides on the entry of a key.
abbrev pub get_action : ℕ → Option MemoryEntry → MemoryAction MemoryEntry (Option Bytes)
get_action now none = keep none
get_action now (some entry) =
    if not (expired entry now) then keep (some entry.value) else discard none

abbrev pub add_action : ℕ → Bytes → Option ℕ → Option MemoryEntry → MemoryAction MemoryEntry Bool
add_action now value expires none =
    replace (record { value = value; expires_at = expires }) (length value) true
add_action now value expires (some entry) =
    if not (expired entry now)
    then keep false
    else replace (record { value = value; expires_at = expires }) (length value) true

abbrev pub touch_action : ℕ → Option ℕ → Option MemoryEntry → MemoryAction MemoryEntry Bool
touch_action now expires none = keep false
touch_action now expires (some entry) =
    if not (expired entry now)
    then replace (record { value = entry.value; expires_at = expires }) (length entry.value) true
    else discard false

abbrev pub replace_integer : ℤ → Option ℕ → MemoryAction MemoryEntry (CacheResult ℤ)
replace_integer v expires =
    replace (record { value = to_be_bytes v; expires_at = expires }) (length (to_be_bytes v)) (ok v)

abbrev pub read_integer : MemoryEntry → CacheResult ℤ
read_integer entry =
    if length entry.value == 8
    then ok (from_be_bytes entry.value)
    else err CacheError.invalid_integer

abbrev pub increment_entry : MemoryEntry → ℤ → MemoryAction MemoryEntry (CacheResult ℤ)
increment_entry entry delta = elim (read_integer entry) [
  | err e ↦ keep (err e)
  | ok v ↦ elim (add_i64 v delta) [
    | none ↦ keep (err CacheError.integer_overflow)
    | some sum ↦ replace_integer sum entry.expires_at
  ]
]

abbrev pub increment_action :
    ℕ → ℤ → Option ℕ → Option MemoryEntry → MemoryAction MemoryEntry (CacheResult ℤ)
increment_action now delta expires none = replace_integer delta expires
increment_action now delta expires (some entry) =
    if not (expired entry now) then increment_entry entry delta else replace_integer delta expires

-- An operation on the store of the cache.
abbrev pub on_store {ℓ} :
    {R : Type ℓ}
    → (MemoryState MemoryEntry → R × MemoryState MemoryEntry)
    → MemoryCache
    → R × MemoryCache
on_store f c = let (x, s) = f c.store in (x, record c { store = s })

abbrev pub change_store :
    (MemoryState MemoryEntry → MemoryState MemoryEntry) → MemoryCache → MemoryCache
change_store f c = record c { store = f c.store }

abbrev pub answered {ℓ} : {A : Type ℓ} → A × MemoryCache → CacheResult A × MemoryCache
answered (a, c) = (ok a, c)

module _ (r : RandomState MemoryEntry) where
  unfoldable pub update_limits : MemoryCache → MemoryCache
  update_limits c = change_store (Store.set_limits r (store_limits c.limits)) c

  abbrev pub max_entries : ℕ → MemoryCache → MemoryCache
  max_entries value c =
      update_limits (record c { limits = record (c.limits) { max_entries = value } })

  abbrev pub max_bytes : ℕ → MemoryCache → MemoryCache
  max_bytes value c = update_limits (record c { limits = record (c.limits) { max_bytes = value } })

  unfoldable pub get_value : Bytes → ℕ → MemoryCache → Option Bytes × MemoryCache
  unfolding Store.access
  get_value key now = on_store (Store.access r key (get_action now))

  unfoldable pub add_value : Bytes → Bytes → Option ℕ → ℕ → MemoryCache → Bool × MemoryCache
  unfolding Store.access
  add_value key value expires now = on_store (Store.access r key (add_action now value expires))

  unfoldable pub touch_value : Bytes → Option ℕ → ℕ → MemoryCache → Bool × MemoryCache
  unfolding Store.access
  touch_value key expires now = on_store (Store.access r key (touch_action now expires))

  unfoldable pub increment_value :
      Bytes → ℤ → Option ℕ → ℕ → MemoryCache → CacheResult ℤ × MemoryCache
  unfolding Store.access
  increment_value key delta expires now =
      on_store (Store.access r key (increment_action now delta expires))

  -- The operations of a provider; `later` is the clock where it is read a second time.
  unfoldable pub get : Bytes → ℕ → MemoryCache → CacheResult (Option Bytes) × MemoryCache
  unfolding get_value
  get key now c = answered (get_value key now c)

  unfoldable pub set :
      Bytes → Bytes → CacheTtl → ℕ → MemoryCache → CacheResult (Unit {0}) × MemoryCache
  set key value ttl now c = elim (validate_value c value >> expiry c ttl now) [
    | err e ↦ (err e, c)
    | ok expires ↦ (
      ok tt,
      change_store
          (Store.insert r key (record { value = value; expires_at = expires }) (length value)) c,
    )
  ]

  unfoldable pub add :
      Bytes → Bytes → CacheTtl → ℕ → ℕ → MemoryCache → CacheResult Bool × MemoryCache
  unfolding add_value
  add key value ttl now later c = elim (validate_value c value >> expiry c ttl now) [
    | err e ↦ (err e, c)
    | ok expires ↦ answered (add_value key value expires later c)
  ]

  abbrev pub delete : Bytes → MemoryCache → CacheResult (Unit {0}) × MemoryCache
  delete key c = (ok tt, change_store (Store.remove key) c)

  unfoldable pub touch : Bytes → CacheTtl → ℕ → ℕ → MemoryCache → CacheResult Bool × MemoryCache
  unfolding touch_value
  touch key ttl now later c = elim (expiry c ttl now) [
    | err e ↦ (err e, c)
    | ok expires ↦ answered (touch_value key expires later c)
  ]

  unfoldable pub increment : Bytes → ℤ → ℕ → ℕ → MemoryCache → CacheResult ℤ × MemoryCache
  unfolding increment_value
  increment key delta now later c = elim (expiry c CacheTtl.default now) [
    | err e ↦ (err e, c)
    | ok expires ↦ increment_value key delta expires later c
  ]

  -- Every entry whose key begins with the scope's prefix goes.
  unfoldable pub clear : Bytes → MemoryCache → CacheResult (Unit {0}) × MemoryCache
  clear prefix c = (ok tt, change_store (Store.retain r (λ key. not (starts_with key prefix))) c)
