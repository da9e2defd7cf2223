-- ===== src/Cache/Store/Reach.antt =====
-- The runs of the store of vyuh/src/cache/memory_store.rs.
use vyuh.Prelude.{ℕ, ◌+◌, ◌≤◌, refl, Bool, Option, arith}
use vyuh.Prelude.Int.{usize_max}
use vyuh.Prelude.Bytes.{Bytes, bytes_key}
use vyuh.Cache.Store.{
  MemoryLimits, MemoryAction, MemoryState, RandomState, empty, remove, insert, retain, set_limits,
  stored, access,
}
use vyuh.Cache.Store.Sound.{Visits}
use vyuh.Cache.Store.Sound.{within_nothing}
use vyuh.Cache.Store.Marks.{Within, growth}
use vyuh.Cache.Store.Bounded.{
  insert-Within, remove-Within, retain-Within, set_limits-Within, apply-Within,
}

module _ {ℓ} {V : Type ℓ} (r : RandomState V) (visits : Visits r) where
  -- The operations of a store, each with what it asks for.
  pub data StoreStep : MemoryState V → MemoryState V → Type ℓ where
    inserted :
        {s : MemoryState V} (key : Bytes) (value : V) (bytes : ℕ)
        → s.retained_bytes + bytes ≤ usize_max
        → StoreStep s (insert r key value bytes s)
    removed : {s : MemoryState V} (key : Bytes) → StoreStep s (remove key s)
    retained : {s : MemoryState V} (keep_key : Bytes → Bool) → StoreStep s (retain r keep_key s)
    limited : {s : MemoryState V} (limits : MemoryLimits) → StoreStep s (set_limits r limits s)
    accessed :
        {s : MemoryState V} (key : Bytes) (action : Option V → MemoryAction V (Unit {0}))
        → s.retained_bytes + growth (action (stored key s)) ≤ usize_max
        → StoreStep s (access r key action s).1

  pub data Reach (s : MemoryState V) : MemoryState V → Type ℓ where
    here : Reach s s
    next : {t u : MemoryState V} → Reach s t → StoreStep t u → Reach s u

  StoreStep-Within : {s t : MemoryState V} → StoreStep s t → Within s → Within t
  unfolding access
  StoreStep-Within {s} (StoreStep.inserted key value bytes fits) h =
      insert-Within r visits key value bytes s fits h.0
  StoreStep-Within {s} (StoreStep.removed key) h = remove-Within r visits key s h
  StoreStep-Within {s} (StoreStep.retained keep_key) h = retain-Within r visits keep_key s h
  StoreStep-Within {s} (StoreStep.limited limits) h = set_limits-Within r visits limits s h
  StoreStep-Within {s} (StoreStep.accessed key action fits) h =
      apply-Within r visits key (action (stored key s)) s fits h

  empty-Within : (limits : MemoryLimits) → Within (empty {V = V} limits)
  empty-Within limits = (
    record { distinct = tt; accounted = refl; sized = omega arith; marked = λ key entry h. cc },
    within_nothing limits.max_entries limits.max_bytes 0 0 refl refl,
  )

  Reach-Within : {s t : MemoryState V} → Reach s t → Within s → Within t
  Reach-Within Reach.here h = h
  Reach-Within (Reach.next before step) h = StoreStep-Within step (Reach-Within before h)

  -- However its operations follow one another, a store never has more entries or bytes than its
  -- limits allow, counts the bytes of its entries exactly, has no key twice, and keeps for each
  -- entry the marker by which it can be evicted, provided that the bytes to be kept never pass the
  -- largest usize and that a visit of the map shows each entry once.
  pub Reach-bounded :
      (limits : MemoryLimits) (s : MemoryState V) → Reach (empty limits) s → Within s
  Reach-bounded limits s run = Reach-Within run (empty-Within limits)
