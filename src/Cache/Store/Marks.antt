-- ===== src/Cache/Store/Marks.antt =====
-- A new entry and a new mark of an entry in vyuh/src/cache/memory_store.rs.
use mathlib.Core.List.{mem-cons_self, mem-append_left, mem-append_right}
use vyuh.Prelude.{
  ℕ, suc, ◌+◌, ◌≤◌, ltb, ◌||◌, ◌≡◌, refl, sym, ◌∙◌, subst, inl, inr, Bool, false, Option, none,
  some, List, [], ◌∷◌, length, lookup, remove as remove_key, Bool-cases, Option-cases, is_some_and,
  some_eq, arith,
}
use vyuh.Prelude.Int.{saturate, usize_max}
use vyuh.Prelude.Bytes.{
  bytes_laws, lookup-remove_self, lookup-remove_other, Bytes, bytes_key, same_bytes, same_bytes→eq,
}
use vyuh.Cache.Store.{
  MemoryLimits, MemoryAction, StoredValue, Entries, Marker, MemoryState, RandomState, remove,
  over_limit, next_sequence, place, remark,
}
use vyuh.Cache.Store.Entries.{sum_by, bytes_of, Uniq, remove_absent, sum_by-remove, Uniq-remove}
use vyuh.Cache.Store.Sound.{Consistent, no_entry, remove_entry}

abbrev pub Within {ℓ} : {V : Type ℓ} → MemoryState V → Type ℓ
Within s = Consistent s.lru s × (over_limit s ≡ false)

-- How many bytes an action asks the store to take in.
abbrev pub growth {ℓ κ} : {V : Type ℓ} {R : Type κ} → MemoryAction V R → ℕ
growth (MemoryAction.keep result) = 0
growth (MemoryAction.discard result) = 0
growth (MemoryAction.replace value bytes result) = bytes

abbrev exceeds : MemoryLimits → ℕ → ℕ → Bool
exceeds limits n b = ltb limits.max_entries n || is_some_and limits.max_bytes (λ limit. ltb limit b)

pub exceeds_mono :
    (most : ℕ) (limit : Option ℕ) (n n' b b' : ℕ)
    → n' ≤ n
    → b' ≤ b
    → (ltb most n || is_some_and limit (λ l. ltb l b)) ≡ false
    → (ltb most n' || is_some_and limit (λ l. ltb l b')) ≡ false
exceeds_mono most none n n' b b' l k h = ground arith
exceeds_mono most (some m) n n' b b' l k h = ground arith

pub sum_by-length {ℓ} : {A : Type ℓ} (xs : List A) → sum_by (λ _. 1) xs ≡ length xs
sum_by-length [] = refl
sum_by-length (x ∷ xs) = omega (arith, sum_by-length xs)

module _ {ℓ} {V : Type ℓ} where
  pub place-Consistent :
      (r : RandomState V) (key : Bytes) (value : V) (bytes : ℕ) (s : MemoryState V)
      → lookup key s.entries ≡ none
      → s.retained_bytes + bytes ≤ usize_max
      → Consistent s.lru s
      → Consistent (place r key value bytes s).lru (place r key value bytes s)
  place-Consistent r key value bytes s absent fits c =
      let whole : saturate usize_max (s.retained_bytes + bytes) ≡ s.retained_bytes + bytes =
        ground arith in
      record {
        distinct = (lookup-remove_self key s.entries, Uniq-remove key s.entries c.distinct);
        accounted = rw (remove_absent key s.entries absent, whole) (omega (arith, c.accounted));
        sized = omega (arith, whole);
        marked = λ other entry h. elim (Bool-cases (same_bytes key other)) [
          | inl e ↦
              let here : ◌≡◌ {A = Marker} (key, next_sequence s) (other, entry.sequence) =
                (λ i. (same_bytes→eq key other e i, (some_eq _ entry (rw e at h) i).sequence)) in
              rw (sym here) (mem-append_right s.lru mem-cons_self)
          | inr e ↦
              let old : lookup other s.entries ≡ some entry =
                sym (lookup-remove_other key other s.entries e) ∙ (rw e at h) in
              mem-append_left ((key, next_sequence s) ∷ []) (c.marked other entry old)
        ];
      }

  pub length-remove :
      (key : Bytes) (entry : StoredValue V) (m : Entries V)
      → Uniq m
      → lookup key m ≡ some entry
      → suc (length (remove_key key m)) ≡ length m
  length-remove key entry m u e = omega (
    arith,
    sum_by-remove (λ _. 1) key entry m u e,
    sum_by-length m,
    sum_by-length (remove_key key m),
  )

  pub remove-limits : (key : Bytes) (s : MemoryState V) → (remove key s).limits ≡ s.limits
  remove-limits key s = elim (Option-cases (lookup key s.entries)) [
    | inl e ↦ rw (no_entry key s e) refl
    | inr (entry, e) ↦ rw (remove_entry key entry s e) refl
  ]

  pub remove-length-le :
      (key : Bytes) (s : MemoryState V)
      → Uniq s.entries
      → length (remove key s).entries ≤ length s.entries
  remove-length-le key s u = elim (Option-cases (lookup key s.entries)) [
    | inl e ↦ rw (no_entry key s e) (omega arith)
    | inr (entry, e) ↦
        rw (remove_entry key entry s e) (omega (arith, length-remove key entry s.entries u e))
  ]

  pub remove-bytes-le :
      (key : Bytes) (s : MemoryState V) → (remove key s).retained_bytes ≤ s.retained_bytes
  remove-bytes-le key s = elim (Option-cases (lookup key s.entries)) [
    | inl e ↦ rw (no_entry key s e) (omega arith)
    | inr (entry, e) ↦ rw (remove_entry key entry s e) (omega arith)
  ]

  -- Fewer entries and bytes are within the limits, too.
  pub fewer :
      (s s' : MemoryState V)
      → s'.limits ≡ s.limits
      → length s'.entries ≤ length s.entries
      → s'.retained_bytes ≤ s.retained_bytes
      → over_limit s ≡ false
      → over_limit s' ≡ false
  fewer s s' e l b h =
      subst (λ limits. exceeds limits (length s'.entries) s'.retained_bytes ≡ false) (sym e)
        (exceeds_mono s.limits.max_entries s.limits.max_bytes (length s.entries) (length s'.entries)
          s.retained_bytes s'.retained_bytes l b h)

  pub remark-Consistent :
      (r : RandomState V) (key : Bytes) (s : MemoryState V)
      → Consistent s.lru s
      → over_limit s ≡ false
      → Within (remark r key s)
  remark-Consistent r key s c w = elim (Option-cases (lookup key s.entries)) [
    | inl e ↦
        rw (e, remark)
          (
            record {
              distinct = c.distinct;
              accounted = c.accounted;
              sized = c.sized;
              marked = c.marked;
            },
            w,
          )
    | inr (entry, e) ↦
        let total = sum_by-remove bytes_of key entry s.entries c.distinct e in
        rw (e, remark)
          (
            record {
              distinct = (lookup-remove_self key s.entries, Uniq-remove key s.entries c.distinct);
              accounted = omega (arith, total, c.accounted);
              sized = c.sized;
              marked = λ other v h. elim (Bool-cases (same_bytes key other)) [
                | inl f ↦
                    let here : ◌≡◌ {A = Marker} (key, next_sequence s) (other, v.sequence) =
                      (λ i. (same_bytes→eq key other f i, (some_eq _ v (rw f at h) i).sequence)) in
                    rw (sym here) (mem-append_right s.lru mem-cons_self)
                | inr f ↦
                    let old : lookup other s.entries ≡ some v =
                      sym (lookup-remove_other key other s.entries f) ∙ (rw f at h) in
                    mem-append_left ((key, next_sequence s) ∷ []) (c.marked other v old)
              ];
            },
            exceeds_mono s.limits.max_entries s.limits.max_bytes (length s.entries)
                (suc (length (remove_key key s.entries))) s.retained_bytes s.retained_bytes
                (omega (arith, length-remove key entry s.entries c.distinct e)) (omega arith) w,
          )
  ]
