-- ===== src/Cache/Memory/Counting.antt =====
-- The counting of integers in vyuh/src/cache/memory.rs.
use vyuh.Prelude.{
  ◌⊎◌, ℕ, ◌+◌, ◌≤◌, ◌==◌, eq→==, leb, ◌≡◌, refl, sym, ap, ◌∙◌, subst, true, false, Option, none,
  some, length, contains_key, Bool-cases, inl, inr,
}
use vyuh.Prelude.Int.{ℤ, usize_max}
use vyuh.Prelude.Bytes.{Bytes, bytes_key}
use vyuh.Cache.Error.{CacheError, CacheResult, ok, err}
use vyuh.Cache.Integers.{
  IsI64, fits_i64, ◌+ℤ◌, checked_add as add_i64, to_be_bytes, from_be_bytes, length-to_be_bytes,
  from_be_bytes-to_be_bytes,
}
use vyuh.Cache.Store
use vyuh.Cache.Store.{MemoryState, MemoryAction, RandomState, stored}
use vyuh.Cache.Store.Sound.{Visits}
use vyuh.Cache.Store.Kept.{stored-insert}
use vyuh.Cache.Store.Reads.{stored-touch}
use vyuh.Cache.Memory.{
  CacheTtl, MemoryEntry, MemoryCache, expiry, expired, read_integer, increment_entry,
  increment_action, replace_integer, increment_value, increment,
}
use vyuh.Cache.Memory.ReadBack.{Serving, Serving-HasRoom}

-- What `increment` has to do with the value of a live entry that holds `v`: the sum where it is
-- an i64, and nothing otherwise.
abbrev pub Counted : MemoryEntry → ℤ → ℤ → CacheResult ℤ → Option MemoryEntry → Type 0
Counted entry v delta result after =
    (fits_i64 (v +ℤ delta) ≡ true)
      × (result ≡ ok (v +ℤ delta))
      × (after ≡ some (record { value = to_be_bytes (v +ℤ delta); expires_at = entry.expires_at }))
    ⊎ (fits_i64 (v +ℤ delta) ≡ false)
      × (result ≡ err CacheError.integer_overflow)
      × (after ≡ some entry)

read_integer-to_be_bytes :
    (entry : MemoryEntry) (v : ℤ)
    → IsI64 v
    → entry.value ≡ to_be_bytes v
    → read_integer entry ≡ ok v
read_integer-to_be_bytes entry v h e =
    let eight : (length entry.value == 8) ≡ true =
      eq→== (length entry.value) 8 (ap length e ∙ length-to_be_bytes v) in
    rw (eight, read_integer) (ap (λ x. ok x) (ap from_be_bytes e ∙ from_be_bytes-to_be_bytes v h))

increment_entry-fits :
    (entry : MemoryEntry) (v delta : ℤ)
    → read_integer entry ≡ ok v
    → fits_i64 (v +ℤ delta) ≡ true
    → increment_entry entry delta ≡ replace_integer (v +ℤ delta) entry.expires_at
increment_entry-fits entry v delta read f =
    let added : add_i64 v delta ≡ some (v +ℤ delta) = rw f refl in
    rw (read, added, increment_entry) refl

increment_entry-overflow :
    (entry : MemoryEntry) (v delta : ℤ)
    → read_integer entry ≡ ok v
    → fits_i64 (v +ℤ delta) ≡ false
    → increment_entry entry delta ≡ MemoryAction.keep (err CacheError.integer_overflow)
increment_entry-overflow entry v delta read f =
    let added : add_i64 v delta ≡ none = rw f refl in rw (read, added, increment_entry) refl

module _ (r : RandomState MemoryEntry) where
  -- An action that keeps an entry changes no value.
  stored-keep {ℓ} :
      {R : Type ℓ} (key other : Bytes) (result : R) (s : MemoryState MemoryEntry)
      → stored other (Store.apply r key (MemoryAction.keep result) s).1 ≡ stored other s
  unfolding Store.apply
  stored-keep key other result s = elim (Bool-cases (contains_key key s.entries)) [
    | inl e ↦ rw e (stored-touch r key other s)
    | inr e ↦ rw e refl
  ]

  module _ (visits : Visits r) where
    action-Counted :
        (key : Bytes) (v delta : ℤ) (now : ℕ) (expires : Option ℕ) (entry : MemoryEntry)
        (c : MemoryCache)
        → expired entry now ≡ false
        → read_integer entry ≡ ok v
        → Serving c
        → c.store.retained_bytes + 8 ≤ usize_max
        → leb 8 c.limits.max_entry_bytes ≡ true
        → stored key c.store ≡ some entry
        → Counted entry v delta
            (Store.apply r key (increment_action now delta expires (some entry)) c.store).0
            (stored key
              (Store.apply r key (increment_action now delta expires (some entry)) c.store).1)
    unfolding Store.apply
    action-Counted key v delta now expires entry c live read s fits small found =
        let eight = length-to_be_bytes (v +ℤ delta) in
        elim (Bool-cases (fits_i64 (v +ℤ delta))) [
          | inl f ↦
              let act : increment_action now delta expires (some entry)
                  ≡ replace_integer (v +ℤ delta) entry.expires_at =
                rw live (increment_entry-fits entry v delta read f) in
              subst
                (λ a.
                  Counted entry v delta (Store.apply r key a c.store).0
                    (stored key (Store.apply r key a c.store).1))
                (sym act)
                (inl (
                  f,
                  refl,
                  stored-insert r visits key _ (length (to_be_bytes (v +ℤ delta))) c.store
                      s.consistent s.older s.counts
                      (Serving-HasRoom c (length (to_be_bytes (v +ℤ delta))) s (rw eight small))
                      (rw eight fits),
                ))
          | inr f ↦
              let act : increment_action now delta expires (some entry)
                  ≡ MemoryAction.keep (err CacheError.integer_overflow) =
                rw live (increment_entry-overflow entry v delta read f) in
              subst
                (λ a.
                  Counted entry v delta (Store.apply r key a c.store).0
                    (stored key (Store.apply r key a c.store).1))
                (sym act)
                (inr (
                  f,
                  refl,
                  stored-keep {R = CacheResult ℤ} key key (err CacheError.integer_overflow) c.store
                      ∙ found,
                ))
        ]

    increment_value-Counted :
        (key : Bytes) (v delta : ℤ) (now : ℕ) (expires : Option ℕ) (entry : MemoryEntry)
        (c : MemoryCache)
        → Serving c
        → c.store.retained_bytes + 8 ≤ usize_max
        → leb 8 c.limits.max_entry_bytes ≡ true
        → stored key c.store ≡ some entry
        → expired entry now ≡ false
        → entry.value ≡ to_be_bytes v
        → IsI64 v
        → Counted entry v delta
            (increment_value r key delta expires now c).0
            (stored key (increment_value r key delta expires now c).1.store)
    unfolding increment_value Store.access
    increment_value-Counted key v delta now expires entry c s fits small found live holds range =
        let act =
          action-Counted key v delta now expires entry c live
            (read_integer-to_be_bytes entry v range holds) s fits small found in
        subst
          (λ o.
            Counted entry v delta
              (Store.apply r key (increment_action now delta expires o) c.store).0
              (stored key (Store.apply r key (increment_action now delta expires o) c.store).1))
          (sym found) act

    -- The increment of a live entry that holds an i64 answers with the sum and keeps the lifetime
    -- of the entry, or, where the sum is no i64, answers with an overflow and leaves the entry as it
    -- was, provided that the cache is in use, that its default lifetime gives a time of expiry, that
    -- an entry may have 8 bytes and that the bytes to be kept do not pass the largest usize.
    pub increment-Counted :
        (key : Bytes) (v delta : ℤ) (now later : ℕ) (expires : Option ℕ) (entry : MemoryEntry)
        (c : MemoryCache)
        → Serving c
        → c.store.retained_bytes + 8 ≤ usize_max
        → leb 8 c.limits.max_entry_bytes ≡ true
        → expiry c CacheTtl.default now ≡ ok expires
        → stored key c.store ≡ some entry
        → expired entry later ≡ false
        → entry.value ≡ to_be_bytes v
        → IsI64 v
        → Counted entry v delta
            (increment r key delta now later c).0
            (stored key (increment r key delta now later c).1.store)
    unfolding increment
    increment-Counted key v delta now later expires entry c s fits small e found live holds range =
        let run : increment r key delta now later c ≡ increment_value r key delta expires later c =
          rw (e, increment) refl in
        subst (λ x. Counted entry v delta x.0 (stored key x.1.store)) (sym run)
          (increment_value-Counted key v delta later expires entry c s fits small found live holds
            range)
