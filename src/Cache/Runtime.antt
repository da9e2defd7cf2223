-- ===== src/Cache/Runtime.antt =====
-- The typed handles of the cache: vyuh/src/cache/runtime.rs, without its metrics. A namespaced
-- handle is a handle with namespaces; JSON is a parameter.
pub mod ReadBack
pub mod Bulk
use vyuh.Prelude.{
  ℕ, zero, suc, ◌==◌, ltb, not, Bool, true, false, if◌then◌else◌, Option, none, some, List, [], ◌∷◌,
  ◌++◌, map, length, is_empty, HashMap, lookup, insert, unwrap_or,
}
use vyuh.Prelude.Int.{ℤ}
use vyuh.Prelude.Bytes.{Bytes, bytes_key}
use vyuh.Cache.Error.{CacheError, CacheResult, ok, err, check, ok_or}
use vyuh.Cache.Error.{◌>>=◌ as and_then}
use vyuh.Cache.Integers.{checked_neg}
use vyuh.Cache.Memory.{CacheTtl, validate_ttl}
use vyuh.Cache.Key.{max_bulk_items, cache_key, cache_scope}
use vyuh.Cache.Provider.{CacheProvider, CacheWrite, Call, finish, ◌>>=◌, ◌>>◌, pure, lift}
use vyuh.Cache.Provider
use vyuh.Cache.Config.{CacheRegistry, is_named}

-- serde_json for the values of one type.
pub record Codec (T : Type 0) : Type 0 where
  pub encode : T → CacheResult Bytes
  pub decode : Bytes → CacheResult T

-- A handle; the registry that it shares is the state of the calls.
pub record Cache : Type 0 where
  pub name : Bytes
  pub namespaces : List Bytes

pub data CacheGetOrSetError (E : Type 0) : Type 0 where
  cache : CacheError → CacheGetOrSetError E
  initializer : E → CacheGetOrSetError E

pub data Fetched (T E : Type 0) : Type 0 where
  fetched : T → Fetched T E
  failed : CacheGetOrSetError E → Fetched T E

-- What an initializer ends with.
pub data Initialized (T E : Type 0) : Type 0 where
  computed : T → Initialized T E
  broken : E → Initialized T E

abbrev pub default_handle : {S : Type 0} → CacheRegistry S → Cache
default_handle registry = record { name = registry.default; namespaces = [] }

abbrev pub using : Bytes → Cache → Cache
using name c = record c { name = name }

abbrev pub namespace : Bytes → Cache → Cache
namespace value c = record c { namespaces = c.namespaces ++ value ∷ [] }

abbrev pub key_of : Cache → Bytes → CacheResult Bytes
key_of c key = cache_key c.name c.namespaces key

-- The loop of `keys`, with the names that were seen.
unfoldable pub keys_from : Cache → List Bytes → List Bytes → CacheResult (List (Bytes × Bytes))
keys_from c seen [] = ok []
keys_from c seen (name ∷ names) =
    and_then (check (not (is_named name seen)) CacheError.invalid_key) λ _.
      and_then (key_of c name)
        λ key. and_then (keys_from c (name ∷ seen) names) λ pairs. ok ((name, key) ∷ pairs)

unfoldable pub keys : Cache → List Bytes → CacheResult (List (Bytes × Bytes))
unfolding keys_from
keys c names =
    if ltb max_bulk_items (length names)
    then err CacheError.bulk_limit_exceeded
    else keys_from c [] names

module _ {T : Type 0} (j : Codec T) where
  unfoldable pub writes_from :
      Cache → CacheTtl → List Bytes → List (Bytes × T) → CacheResult (List CacheWrite)
  writes_from c ttl seen [] = ok []
  writes_from c ttl seen ((name, value) ∷ values) =
      and_then (check (not (is_named name seen)) CacheError.invalid_key) λ _.
        and_then (key_of c name) λ key. and_then (j.encode value) λ bytes.
          and_then (writes_from c ttl (name ∷ seen) values)
            λ ws. ok (record { key = key; value = bytes; ttl = ttl } ∷ ws)

  unfoldable pub writes : Cache → CacheTtl → List (Bytes × T) → CacheResult (List CacheWrite)
  unfolding writes_from
  writes c ttl values =
      if ltb max_bulk_items (length values)
      then err CacheError.bulk_limit_exceeded
      else writes_from c ttl [] values

  -- The hits among the answers, each under the name that was asked for.
  unfoldable pub decode_hits :
      List (Bytes × Bytes) → List (Option Bytes) → CacheResult (List (Bytes × T))
  decode_hits [] values = ok []
  decode_hits (pair ∷ pairs) [] = ok []
  decode_hits (pair ∷ pairs) (none ∷ values) = decode_hits pairs values
  decode_hits (pair ∷ pairs) (some bytes ∷ values) =
      and_then (j.decode bytes)
        λ value. and_then (decode_hits pairs values) λ hits. ok ((pair.0, value) ∷ hits)

  unfoldable pub decode_many :
      List (Bytes × Bytes) → List (Option Bytes) → CacheResult (List (Bytes × T))
  unfolding decode_hits
  decode_many pairs values =
      if length pairs == length values
      then decode_hits pairs values
      else err CacheError.invalid_provider_config

module _ {S : Type 0} (p : CacheProvider S) where
  -- A call of the provider that a handle names.
  abbrev pub on_provider {ℓ} :
      {A : Type ℓ}
      → Bytes
      → (S → CacheResult A × S)
      → CacheRegistry S
      → CacheResult A × CacheRegistry S
  on_provider name call registry = elim (lookup name registry.providers) [
    | none ↦ (err CacheError.provider_not_found, registry)
    | some s ↦
        let (result, s') = call s in
        (result, record registry { providers = insert name s' registry.providers })
  ]

  unfoldable pub delete : Cache → Bytes → Call (CacheRegistry S) (Unit {0})
  delete c key = do key' ← lift (key_of c key); on_provider c.name (p.delete key')

  unfoldable pub delete_many : Cache → List Bytes → Call (CacheRegistry S) (Unit {0})
  unfolding keys Provider.delete_many
  delete_many c names = do
    pairs ← lift (keys c names)
    on_provider c.name (Provider.delete_many p (map (λ pair. pair.1) pairs))

  unfoldable pub touch : Cache → Bytes → CacheTtl → Call (CacheRegistry S) Bool
  touch c key ttl = do
    lift (validate_ttl ttl)
    key' ← lift (key_of c key)
    on_provider c.name (p.touch key' ttl)

  unfoldable pub increment : Cache → Bytes → ℤ → Call (CacheRegistry S) ℤ
  increment c key delta = do key' ← lift (key_of c key); on_provider c.name (p.increment key' delta)

  unfoldable pub decrement : Cache → Bytes → ℤ → Call (CacheRegistry S) ℤ
  unfolding increment
  decrement c key amount = do
    delta ← lift (ok_or (checked_neg amount) CacheError.integer_overflow)
    increment c key delta

  unfoldable pub clear : Cache → Call (CacheRegistry S) (Unit {0})
  clear c = do
    lift (check (is_empty c.namespaces) CacheError.unsupported_operation)
    on_provider c.name (p.clear (cache_scope c.name))

  module _ {T : Type 0} (j : Codec T) where
    abbrev pub decode_hit : Option Bytes → CacheResult (Option T)
    decode_hit none = ok none
    decode_hit (some bytes) = and_then (j.decode bytes) λ value. ok (some value)

    unfoldable pub get : Cache → Bytes → Call (CacheRegistry S) (Option T)
    get c key = do
      key' ← lift (key_of c key)
      value ← on_provider c.name (p.get key')
      lift (decode_hit value)

    unfoldable pub set : Cache → Bytes → T → CacheTtl → Call (CacheRegistry S) (Unit {0})
    set c key value ttl = do
      lift (validate_ttl ttl)
      key' ← lift (key_of c key)
      bytes ← lift (j.encode value)
      on_provider c.name (p.set key' bytes ttl)

    unfoldable pub add : Cache → Bytes → T → CacheTtl → Call (CacheRegistry S) Bool
    add c key value ttl = do
      lift (validate_ttl ttl)
      key' ← lift (key_of c key)
      bytes ← lift (j.encode value)
      on_provider c.name (p.add key' bytes ttl)

    unfoldable pub get_many : Cache → List Bytes → Call (CacheRegistry S) (List (Bytes × T))
    unfolding keys Provider.get_many decode_many
    get_many c names = do
      pairs ← lift (keys c names)
      values ← on_provider c.name (Provider.get_many p (map (λ pair. pair.1) pairs))
      lift (decode_many j pairs values)

    unfoldable pub set_many :
        Cache → List (Bytes × T) → CacheTtl → Call (CacheRegistry S) (Unit {0})
    unfolding writes Provider.set_many
    set_many c values ttl = do
      lift (validate_ttl ttl)
      ws ← lift (writes j c ttl values)
      on_provider c.name (Provider.set_many p ws)

    -- What the calls of other tasks do to the registry meanwhile is `during` while the
    -- initializer runs and `after` before the last read.
    module _ (E : Type 0) (during after : CacheRegistry S → CacheRegistry S) where
      abbrev pub stored_or :
          T → CacheResult (Option T) × CacheRegistry S → Fetched T E × CacheRegistry S
      stored_or value (err e, s) = (failed (CacheGetOrSetError.cache e), s)
      stored_or value (ok found, s) = (fetched (unwrap_or found value), s)

      abbrev pub after_add :
          Cache → Bytes → T → CacheResult Bool × CacheRegistry S → Fetched T E × CacheRegistry S
      after_add c key value (err e, s) = (failed (CacheGetOrSetError.cache e), s)
      after_add c key value (ok true, s) = (fetched value, s)
      after_add c key value (ok false, s) = stored_or value (get c key (after s))

      abbrev pub after_init :
          Cache
          → Bytes
          → CacheTtl
          → Initialized T E
          → CacheRegistry S
          → Fetched T E × CacheRegistry S
      after_init c key ttl (broken e) s = (failed (CacheGetOrSetError.initializer e), s)
      after_init c key ttl (computed v) s = after_add c key v (add c key v ttl s)

      abbrev pub after_get :
          Cache
          → Bytes
          → CacheTtl
          → Initialized T E
          → CacheResult (Option T) × CacheRegistry S
          → Fetched T E × CacheRegistry S
      after_get c key ttl init (err e, s) = (failed (CacheGetOrSetError.cache e), s)
      after_get c key ttl init (ok (some v), s) = (fetched v, s)
      after_get c key ttl init (ok none, s) = after_init c key ttl init (during s)

      unfoldable pub get_or_try_set :
          Cache
          → Bytes
          → CacheTtl
          → Initialized T E
          → CacheRegistry S
          → Fetched T E × CacheRegistry S
      unfolding get add
      get_or_try_set c key ttl init s = after_get c key ttl init (get c key s)
