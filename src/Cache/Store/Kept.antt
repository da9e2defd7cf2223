-- ===== src/Cache/Store/Kept.antt =====
-- A value that fits stays when it is inserted in vyuh/src/cache/memory_store.rs: what goes is older.
use mathlib.Core.HLevel.{⊥_prop}
use mathlib.Core.List.{not-mem-nil, eq-or-mem_of_mem-cons}
use mathlib.Core.Logic.Or
use vyuh.Prelude.{
  ℕ, zero, suc, ◌+◌, ◌≤◌, ◌<◌, ltb, leb, ◌==◌, ◌||◌, ==→eq, ◌≡◌, refl, sym, ap, ◌∙◌, subst, inl,
  inr, true, false, Option, none, some, List, [], ◌∷◌, ◌++◌, length, lookup, remove as remove_key,
  lt→ltb, Bool-cases, Option-cases, is_some_and, is_none_or, All, arith,
}
use vyuh.Prelude.Int.{usize_max, u64_max}
use vyuh.Prelude.Bytes.{
  bytes_laws, lookup-remove_self, lookup-remove_other, Bytes, bytes_key, same_bytes, same_bytes→eq,
  same_bytes_refl,
}
use vyuh.Cache.Store.{
  MemoryLimits, StoredValue, Marker, MemoryState, RandomState, remove, over_limit, is_current,
  evict_from, evict_oldest, evict_loop, next_sequence, evict, place, insert, stored,
}
use vyuh.Cache.Store.Entries.{sum_by, bytes_of, kept, sum_by-remove, empty_of_none}
use vyuh.Cache.Store.Sound.{
  Consistent, Visits, no_entry, remove_entry, lookup_removed, remove-lru, relisted,
  remove-Consistent,
}
use vyuh.Cache.Store.Sound.{marker_removed, stale}
use vyuh.Cache.Store.Reads.{stored_compact}
use vyuh.Cache.Store.Marks.{length-remove, place-Consistent, remove-limits, remove-bytes-le}

-- A value of so many bytes may stand alone in a store.
abbrev pub HasRoom : MemoryLimits → ℕ → Type 0
HasRoom limits bytes =
    (1 ≤ limits.max_entries) × (is_none_or limits.max_bytes (λ limit. leb bytes limit) ≡ true)

alone_within :
    (most : ℕ) (limit : Option ℕ) (bytes n b : ℕ)
    → 1 ≤ most
    → is_none_or limit (λ l. leb bytes l) ≡ true
    → n ≡ 1
    → b ≡ bytes
    → (ltb most n || is_some_and limit (λ l. ltb l b)) ≡ false
alone_within most none bytes n b h k e f = ground arith
alone_within most (some l) bytes n b h k e f = ground arith

module _ {ℓ} {V : Type ℓ} (key : Bytes) (entry : StoredValue V) where
  abbrev last : Marker
  last = (key, entry.sequence)

  -- The entry is in the store, and its marker is the last.
  record Kept (s : MemoryState V) : Type ℓ where
    older : List Marker
    listed : s.lru ≡ older ++ last ∷ []
    below : All (λ m. m.1 < entry.sequence) older
    found : lookup key s.entries ≡ some entry
    consistent : Consistent s.lru s
    room : HasRoom s.limits entry.bytes

  -- An entry that is marked last and only is the only one.
  alone :
      (s : MemoryState V)
      → Consistent (last ∷ []) s
      → lookup key s.entries ≡ some entry
      → HasRoom s.limits entry.bytes
      → over_limit s ≡ false
  alone s c found room =
      let others : remove_key key s.entries ≡ [] =
        empty_of_none (remove_key key s.entries) (λ other.
          elim (Bool-cases (same_bytes key other)) [
            | inl e ↦ rw (same_bytes→eq key other e) (lookup-remove_self other s.entries)
            | inr e ↦ elim (Option-cases (lookup other s.entries)) [
              | inl f ↦ lookup-remove_other key other s.entries e ∙ f
              | inr (v, f) ↦ absurd (
                  Or.elim ⊥_prop (eq-or-mem_of_mem-cons (c.marked other v f))
                    (λ same.
                      let q : same_bytes key other ≡ true =
                        rw (ap (λ (m : Marker). m.0) same) (same_bytes_refl key) in
                      cc)
                    not-mem-nil)
            ]
          ]) in
      alone_within s.limits.max_entries s.limits.max_bytes entry.bytes (length s.entries)
        s.retained_bytes room.0 room.1
        (omega (arith, length-remove key entry s.entries c.distinct found, ap length others))
        (omega (
          arith,
          c.accounted,
          sum_by-remove bytes_of key entry s.entries c.distinct found,
          ap (sum_by bytes_of) others,
        ))

  found-remove :
      (other : Bytes) (s : MemoryState V)
      → same_bytes other key ≡ false
      → lookup key (remove other s).entries ≡ lookup key s.entries
  found-remove other s h = elim (Option-cases (lookup other s.entries)) [
    | inl e ↦ rw (no_entry other s e) refl
    | inr (v, e) ↦ rw (remove_entry other v s e) (lookup-remove_other other key s.entries h)
  ]

  -- An older marker that is current is another key's.
  another :
      (other : Bytes) (sequence : ℕ) (s : MemoryState V)
      → sequence < entry.sequence
      → lookup key s.entries ≡ some entry
      → is_current (other, sequence) s ≡ true
      → same_bytes other key ≡ false
  another other sequence s l found current = elim (Bool-cases (same_bytes other key)) [
    | inl e ↦
        let q : (entry.sequence == sequence) ≡ true =
          rw (same_bytes→eq other key e, found) at current in
        absurd (omega (arith, ==→eq entry.sequence sequence q))
    | inr e ↦ e
  ]

  evict_from-Kept :
      (older : List Marker) (s : MemoryState V)
      → All (λ m. m.1 < entry.sequence) older
      → lookup key s.entries ≡ some entry
      → HasRoom s.limits entry.bytes
      → Consistent (older ++ last ∷ []) s
      → over_limit s ≡ true
      → ((evict_from (older ++ last ∷ []) s).0 ≡ true) × Kept (evict_from (older ++ last ∷ []) s).1
  unfolding evict_from
  evict_from-Kept [] s below found room c over = let q = alone s c found room in cc
  evict_from-Kept ((other, sequence) ∷ rest) s (l, below) found room c over =
      elim (Bool-cases (is_current (other, sequence) s)) [
        | inl e ↦
            let s₀ : MemoryState V = record s { lru = rest ++ last ∷ [] } in
            let same : (remove other s₀).lru ≡ rest ++ last ∷ [] = remove-lru other s₀ in
            let c' =
              marker_removed (other, sequence) (rest ++ last ∷ []) s₀
                (relisted ((other, sequence) ∷ rest ++ last ∷ []) (rest ++ last ∷ []) s c) in
            rw e (
              refl,
              record {
                older = rest;
                listed = same;
                below = below;
                found = found-remove other s₀ (another other sequence s l found e) ∙ found;
                consistent = subst (λ ms. Consistent ms (remove other s₀)) (sym same) c';
                room =
                    subst (λ limits. HasRoom limits entry.bytes) (sym (remove-limits other s₀))
                      room;
              },
            )
        | inr e ↦ rw e (
            evict_from-Kept rest s below found room
              (stale (other, sequence) (rest ++ last ∷ []) s c e) over)
      ]

  evict_loop-Kept : (fuel : ℕ) (s : MemoryState V) → Kept s → Kept (evict_loop fuel s)
  unfolding evict_loop
  evict_loop-Kept zero s k = k
  evict_loop-Kept (suc fuel) s k = elim (Bool-cases (over_limit s)) [
    | inl e ↦
        let c = subst (λ ms. Consistent ms s) k.listed k.consistent in
        let (more, kept) =
          subst (λ ms. ((evict_from ms s).0 ≡ true) × Kept (evict_from ms s).1) (sym k.listed)
            (evict_from-Kept k.older s k.below k.found k.room c e) in
        rw (e, more) (evict_loop-Kept fuel (evict_oldest s).1 kept)
    | inr e ↦ rw e k
  ]

  stored_found :
      (s : MemoryState V) → lookup key s.entries ≡ some entry → stored key s ≡ some entry.value
  stored_found s h = rw (h, stored) refl

remove-sequence {ℓ} :
    {V : Type ℓ} (key : Bytes) (s : MemoryState V) → (remove key s).sequence ≡ s.sequence
remove-sequence key s = elim (Option-cases (lookup key s.entries)) [
  | inl e ↦ rw (no_entry key s e) refl
  | inr (v, e) ↦ rw (remove_entry key v s e) refl
]

older_markers : (a b : ℕ) (ms : List Marker) → a < b → All (λ m. m.1 ≤ a) ms → All (λ m. m.1 < b) ms
older_markers a b [] l h = tt
older_markers a b (m ∷ ms) l (h, t) = (omega arith, older_markers a b ms l t)

module _ {ℓ} {V : Type ℓ} (r : RandomState V) (visits : Visits r) where
  -- A value that may stand alone in the store is found after its insertion, whatever is evicted
  -- for it, provided that the markers of the store are no later than its sequence, as they are
  -- until the sequence wraps around, that it does not wrap around now, and that the bytes to be kept do
  -- not pass the largest usize.
  pub stored-insert :
      (key : Bytes) (value : V) (bytes : ℕ) (s : MemoryState V)
      → Consistent s.lru s
      → All (λ m. m.1 ≤ s.sequence) s.lru
      → s.sequence < u64_max
      → HasRoom s.limits bytes
      → s.retained_bytes + bytes ≤ usize_max
      → stored key (insert r key value bytes s) ≡ some value
  unfolding insert evict
  stored-insert key value bytes s c older counts room fits =
      let s₀ : MemoryState V = remove key s in
      let c₀ : Consistent s₀.lru s₀ =
        subst (λ ms. Consistent ms s₀) (sym (remove-lru key s)) (remove-Consistent key s.lru s c) in
      let entry : StoredValue V = record {
        value = value;
        bytes = bytes;
        sequence = next_sequence s₀;
      } in
      let s₁ : MemoryState V = place r key value bytes s₀ in
      let later : s.sequence < next_sequence s₀ =
        rw (remove-sequence key s, lt→ltb s.sequence u64_max counts) (omega arith) in
      let kept : Kept key entry s₁ = record {
        older = s₀.lru;
        listed = refl;
        below =
            subst (All (λ m. m.1 < next_sequence s₀)) (sym (remove-lru key s))
              (older_markers s.sequence (next_sequence s₀) s.lru later older);
        found = rw (same_bytes_refl key) refl;
        consistent =
            place-Consistent r key value bytes s₀ (lookup_removed key s)
              (omega (arith, remove-bytes-le key s)) c₀;
        room = subst (λ limits. HasRoom limits bytes) (sym (remove-limits key s)) room;
      } in
      let s₂ : MemoryState V = evict_loop (suc (length s₁.lru)) s₁ in
      stored_compact r key s₂
      ∙ stored_found key entry s₂ (evict_loop-Kept key entry (suc (length s₁.lru)) s₁ kept).found
