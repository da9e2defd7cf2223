-- ===== src/Examples/Caches.antt =====
-- The cache of a site, its keys and its store on concrete values.
use mathlib.Core.List.Perm
use vyuh.Prelude.{
  ◌≡◌, ◌≤◌, refl, false, none, some, List, [], ◌∷◌, ℕ, if◌then◌else◌, arith, length, All, map, ◌+◌,
}
use vyuh.Prelude.Int.{pos, negsuc}
use vyuh.Prelude.Bytes.{Bytes, ascii, same_bytes}
use vyuh.Cache.Error.{CacheResult, ok, err}
use vyuh.Cache.Integers.{to_be_bytes, from_be_bytes}
use vyuh.Cache.Store
use vyuh.Cache.Store.{MemoryState, MemoryLimits, RandomState, StoredValue}
use vyuh.Cache.Store.Sound.{Visits, Consistent, evict_loop-within}
use vyuh.Cache.Store.Bounded.{insert-Within}
use vyuh.Cache.Store.Marks.{Within}
use vyuh.Cache.Store.Reach.{Reach, StoreStep, Reach-bounded}
use vyuh.Cache.Memory
use vyuh.Cache.Memory.{MemoryEntry, MemoryCache, CacheTtl}
use vyuh.Cache.Memory.ReadBack.{Serving}
use vyuh.Cache.Memory.Counting.{Counted, increment-Counted}
use vyuh.Cache.Key.{cache_key, cache_scope}
use vyuh.Cache.Key.Apart.{cache_key_inj}
use vyuh.Cache.Key.Clearing.{clear-stored}
use vyuh.Cache.Provider.{Clocked, memory}
use vyuh.Cache.Config
use vyuh.Cache.Config.{CacheConf, CacheRegistry}
use vyuh.Cache.Config.Default.{Has, build-Has}
use vyuh.Cache.Runtime
use vyuh.Cache.Runtime.{Cache, Codec, keys}
use vyuh.Cache.Runtime.Bulk.{KeysOf, Different, keys-Different}
use vyuh.Cache.Runtime.ReadBack.{get-after-set}

-- A map that is visited in the order of its list.
abbrev in_order {ℓ} : {V : Type ℓ} → RandomState V
in_order = record { visit = λ m. m }

in_order-Visits {ℓ} : {V : Type ℓ} → Visits (in_order {V = V})
in_order-Visits m = Perm.refl m

abbrev two_small : MemoryLimits
two_small = record { max_entries = 2; max_bytes = some 10 }

-- The second entry was used last, so the third takes the place of the first.
abbrev crowded : MemoryState ℕ
crowded = Store.insert in_order (ascii "c") 3 4 (
    Store.insert in_order (ascii "b") 2 4
      (Store.insert in_order (ascii "a") 1 4 (Store.empty two_small)))

evicted_run : Store.stored (ascii "a") crowded ≡ none
unfolding Store.insert Store.evict Store.evict_loop Store.evict_from
evicted_run = refl

kept_run : Store.stored (ascii "b") crowded ≡ some 2
unfolding Store.insert Store.evict Store.evict_loop Store.evict_from
kept_run = refl

Reach-bounded_example :
    Within (Store.insert in_order (ascii "a") 1 4 (Store.empty {V = ℕ} two_small))
Reach-bounded_example =
    Reach-bounded in_order in_order-Visits two_small
      (Store.insert in_order (ascii "a") 1 4 (Store.empty two_small))
      (Reach.next Reach.here (StoreStep.inserted (ascii "a") 1 4 (omega arith)))

-- A cache in use that has one entry.
abbrev site_cache : MemoryCache
site_cache = Memory.new

site_cache-Serving : Serving site_cache
unfolding Memory.validate
site_cache-Serving = record {
  valid = refl;
  synced = refl;
  consistent = record {
    distinct = tt;
    accounted = refl;
    sized = omega arith;
    marked = λ key entry h. cc;
  };
  older = tt;
  counts = omega arith;
}

increment_run :
    (Memory.increment in_order
      (ascii "n")
      (pos 2)
      100
      200
      (Memory.increment in_order (ascii "n") (negsuc 4) 100 200 site_cache).1).0
    ≡ ok (negsuc 2)
unfolding Memory.increment Memory.increment_value Store.access Store.apply Store.insert Store.touch
    Store.evict Store.evict_loop Store.evict_from to_be_bytes from_be_bytes
increment_run = refl

-- The store with one entry, and the same when its limits fall to none.
abbrev forty : MemoryEntry
forty = record { value = to_be_bytes (pos 40); expires_at = none }

abbrev stocked : MemoryCache
stocked = record {
  limits = Memory.default_limits;
  store =
      Store.insert in_order (ascii "n") forty 8
        (Store.empty (Memory.store_limits Memory.default_limits));
}

stocked-Within : Within stocked.store
stocked-Within =
    insert-Within in_order in_order-Visits (ascii "n") forty 8
      (Store.empty (Memory.store_limits Memory.default_limits)) (omega arith)
      site_cache-Serving.consistent

stocked-Serving : Serving stocked
unfolding Memory.validate Store.insert Store.evict Store.evict_loop
stocked-Serving = record {
  valid = refl;
  synced = refl;
  consistent = stocked-Within.0;
  older = (omega arith, tt);
  counts = omega arith;
}

increment-Counted_example :
    Counted forty
      (pos 40)
      (negsuc 1)
      (Memory.increment in_order (ascii "n") (negsuc 1) 5 6 stocked).0
      (Store.stored
        (ascii "n")
        (Memory.increment in_order (ascii "n") (negsuc 1) 5 6 stocked).1.store)
unfolding Store.insert Store.evict Store.evict_loop
increment-Counted_example =
    increment-Counted in_order in_order-Visits (ascii "n") (pos 40) (negsuc 1) 5 6
      (some 300000000005) forty stocked stocked-Serving (omega arith) refl refl refl refl refl
      (omega arith)

abbrev shrunk : MemoryState MemoryEntry
shrunk = record (stocked.store) { limits = record { max_entries = 0; max_bytes = none } }

shrunk-Consistent : Consistent shrunk.lru shrunk
shrunk-Consistent =
    let c = stocked-Within.0 in
    record { distinct = c.distinct; accounted = c.accounted; sized = c.sized; marked = c.marked }

evict_loop-within_example :
    Consistent (Store.evict_loop 2 shrunk).lru (Store.evict_loop 2 shrunk)
    × (Store.over_limit (Store.evict_loop 2 shrunk) ≡ false)
unfolding Store.insert Store.evict Store.evict_loop
evict_loop-within_example = evict_loop-within 2 shrunk (omega arith) shrunk-Consistent

-- Keys of one application key in two namespaces of one provider.
abbrev answer : Bytes → CacheResult Bytes → Bytes
answer d (ok b) = b
answer d (err e) = d

abbrev user_key : Bytes
user_key = answer [] (cache_key (ascii "default") (ascii "users" ∷ []) (ascii "7"))

key_run : user_key ≡ ascii "vyuh-cache:v1:provider:7:default::ns:1:5:users:key:1:7:"
unfolding cache_key
key_run = refl

cache_key_inj_example :
    (ascii "default" ≡ ascii "default")
    × ((ascii "users" ∷ []) ≡ (ascii "users" ∷ []))
    × (ascii "7" ≡ ascii "7")
unfolding cache_key
cache_key_inj_example =
    cache_key_inj (ascii "default") (ascii "default") (ascii "users" ∷ []) (ascii "users" ∷ [])
      (ascii "7") (ascii "7") user_key refl refl

clear-stored_example :
    Store.stored user_key (Memory.clear in_order (cache_scope (ascii "other")) stocked).1.store ≡ (
      if same_bytes (ascii "default") (ascii "other")
      then none
      else Store.stored user_key stocked.store)
unfolding cache_key
clear-stored_example =
    clear-stored in_order (ascii "default") (ascii "other") (ascii "users" ∷ []) (ascii "7")
      user_key stocked refl

abbrev users : Cache
users = record { name = ascii "default"; namespaces = ascii "users" ∷ [] }

abbrev pairs_of : CacheResult (List (Bytes × Bytes)) → List (Bytes × Bytes)
pairs_of (ok pairs) = pairs
pairs_of (err e) = []

abbrev two_users : List Bytes
two_users = ascii "7" ∷ ascii "8" ∷ []

keys-Different_example :
    (length two_users ≤ 256)
    × (map (λ pair. pair.0) (pairs_of (keys users two_users)) ≡ two_users)
    × KeysOf users (pairs_of (keys users two_users))
    × Different two_users
    × Different (map (λ pair. pair.1) (pairs_of (keys users two_users)))
unfolding keys cache_key
keys-Different_example = keys-Different users two_users (pairs_of (keys users two_users)) refl

-- The registry of the default configuration, and a text that is stored as it is.
abbrev site_conf : CacheConf Clocked
site_conf = Config.default_provider Config.default_cache (
    Config.provider Config.default_cache (record { cache = Memory.new; readings = λ i. 1000 + i })
      Config.empty)

abbrev site_registry : CacheRegistry Clocked
site_registry = record {
  providers = (Config.default_cache, record { cache = Memory.new; readings = λ i. 1000 + i }) ∷ [];
  default = Config.default_cache;
}

build-Has_example :
    Has site_registry.providers site_registry.default
    × All (λ d. Has site_registry.providers d.name) site_conf.providers
unfolding Config.build memory
build-Has_example = build-Has (memory in_order) site_conf site_registry refl

abbrev as_it_is : Codec Bytes
as_it_is = record { encode = ok; decode = ok }

abbrev after_set : CacheRegistry Clocked
after_set =
    (Runtime.set (memory in_order) as_it_is users (ascii "7") (ascii "Ann") CacheTtl.default
      site_registry).1

get-after-set_example :
    (Runtime.get (memory in_order) as_it_is users (ascii "7") after_set).0 ≡ ok (some (ascii "Ann"))
unfolding Runtime.set memory cache_key
get-after-set_example =
    get-after-set in_order in_order-Visits as_it_is users (ascii "7") (ascii "Ann") (ascii "Ann")
      CacheTtl.default (some 300000001000) (record { cache = Memory.new; readings = λ i. 1000 + i })
      site_registry after_set refl refl refl site_cache-Serving (omega arith) refl refl refl
