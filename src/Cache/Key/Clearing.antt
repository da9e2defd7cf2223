-- ===== src/Cache/Key/Clearing.antt =====
-- Clearing one provider: `clear` of vyuh/src/cache/memory.rs with a scope of key.rs.
use vyuh.Prelude.{◌≡◌, refl, sym, ◌∙◌, not, Bool-cases, inl, inr, if◌then◌else◌, none, List}
use vyuh.Prelude.Bytes.{Bytes, starts_with, same_bytes, same_bytes→eq, same_bytes_refl}
use vyuh.Cache.Error.{ok}
use vyuh.Cache.Store.{RandomState, stored}
use vyuh.Cache.Store.Reads.{stored-retain}
use vyuh.Cache.Memory.{MemoryEntry, MemoryCache, clear}
use vyuh.Cache.Key.{cache_key, cache_scope}
use vyuh.Cache.Key.Apart.{cache_key-scope}

in_scope :
    (provider other : Bytes) (namespaces : List Bytes) (key o : Bytes)
    → cache_key provider namespaces key ≡ ok o
    → starts_with o (cache_scope other) ≡ same_bytes provider other
in_scope provider other namespaces key o h =
    let (there, back) = cache_key-scope provider other namespaces key o h in
    elim (Bool-cases (starts_with o (cache_scope other))) [
      | inl e ↦ e ∙ sym (rw (there e) (same_bytes_refl other))
      | inr e ↦ elim (Bool-cases (same_bytes provider other)) [
        | inl f ↦ let q = back (same_bytes→eq provider other f) in cc
        | inr f ↦ e ∙ sym f
      ]
    ]

-- Clearing a provider's scope takes away every entry of that provider, in whatever namespace, and
-- leaves the values of all other providers in the same store as they were.
pub clear-stored :
    (r : RandomState MemoryEntry) (provider other : Bytes) (namespaces : List Bytes) (key o : Bytes)
    (c : MemoryCache)
    → cache_key provider namespaces key ≡ ok o
    → stored o (clear r (cache_scope other) c).1.store
      ≡ (if same_bytes provider other then none else stored o c.store)
unfolding clear
clear-stored r provider other namespaces key o c h =
    stored-retain r (λ k. not (starts_with k (cache_scope other))) o c.store
    ∙ elim (Bool-cases (same_bytes provider other)) [
      | inl e ↦ rw (in_scope provider other namespaces key o h, e) refl
      | inr e ↦ rw (in_scope provider other namespaces key o h, e) refl
    ]
