-- ===== src/Cache/Store/Bounded.antt =====
-- Every operation of vyuh/src/cache/memory_store.rs leaves the store within its limits.
use mathlib.Core.List.{mem-map_of_mem}
use mathlib.Core.List.Perm
use vyuh.Prelude.{
  ℕ, suc, ◌+◌, ◌≤◌, leb, ◌≡◌, refl, sym, ◌∙◌, subst, inl, inr, Bool, List, [], ◌∷◌, length,
  length-filter-le, Bool-cases, arith, contains_key,
}
use vyuh.Prelude.Int.{saturate, usize_max}
use vyuh.Prelude.Bytes.{Bytes, bytes_key}
use vyuh.Cache.Store.{
  marker_limit, MemoryLimits, MemoryAction, StoredValue, MemoryState, RandomState, marker, remove,
  evict_loop, fold_bytes, compact_lru, evict, place, insert, retain, remark, touch, apply,
  set_limits,
}
use vyuh.Cache.Store.Entries.{
  sum_by, sum_by-perm, sum_by-filter-le, bytes_of, kept, lookup-kept, lookup-kept-none, Uniq-kept,
  lookup-mem,
}
use vyuh.Cache.Store.Sound.{
  Consistent, Visits, lookup_removed, remove-lru, remove-Consistent, evict_loop-within,
}
use vyuh.Cache.Store.Marks.{
  Within, growth, place-Consistent, remove-limits, remove-length-le, remove-bytes-le, fewer,
  remark-Consistent,
}

module _ {ℓ} {V : Type ℓ} (r : RandomState V) (visits : Visits r) where
  compact_lru-Within : (s : MemoryState V) → Within s → Within (compact_lru r s)
  compact_lru-Within s (c, w) = elim (Bool-cases (leb (length s.lru) (marker_limit s))) [
    | inl e ↦ rw e (c, w)
    | inr e ↦ rw e (
      record {
        distinct = c.distinct;
        accounted = c.accounted;
        sized = c.sized;
        marked = λ key entry h.
            mem-map_of_mem marker
              ((Perm.mem_iff (visits s.entries)).1 (lookup-mem key entry s.entries h));
      },
      w,
    )
  ]

  evict-Within : (s : MemoryState V) → Consistent s.lru s → Within (evict r s)
  unfolding evict
  evict-Within s c =
      compact_lru-Within (evict_loop (suc (length s.lru)) s)
        (evict_loop-within (suc (length s.lru)) s (omega arith) c)

  pub insert-Within :
      (key : Bytes) (value : V) (bytes : ℕ) (s : MemoryState V)
      → s.retained_bytes + bytes ≤ usize_max
      → Consistent s.lru s
      → Within (insert r key value bytes s)
  unfolding insert
  insert-Within key value bytes s fits c =
      let s₀ : MemoryState V = remove key s in
      let c₀ : Consistent s₀.lru s₀ =
        subst (λ ms. Consistent ms s₀) (sym (remove-lru key s)) (remove-Consistent key s.lru s c) in
      evict-Within (place r key value bytes s₀) (
        place-Consistent r key value bytes s₀ (lookup_removed key s)
          (omega (arith, remove-bytes-le key s)) c₀)

  pub touch-Within : (key : Bytes) (s : MemoryState V) → Within s → Within (touch r key s)
  unfolding touch
  touch-Within key s (c, w) = compact_lru-Within (remark r key s) (remark-Consistent r key s c w)

  pub remove-Within : (key : Bytes) (s : MemoryState V) → Within s → Within (remove key s)
  remove-Within key s (c, w) =
      let c' = remove-Consistent key s.lru s c in
      (
        subst (λ ms. Consistent ms (remove key s)) (sym (remove-lru key s)) c',
        fewer s (remove key s) (remove-limits key s) (remove-length-le key s c.distinct)
            (remove-bytes-le key s) w,
      )

  fold_bytes-le :
      (total : ℕ) (es : List (Bytes × StoredValue V))
      → total + sum_by bytes_of es ≤ usize_max
      → fold_bytes total es ≡ total + sum_by bytes_of es
  fold_bytes-le total [] h = omega arith
  fold_bytes-le total (e ∷ es) h =
      let whole : saturate usize_max (total + e.1.bytes) ≡ total + e.1.bytes = ground arith in
      rw whole (omega (arith, fold_bytes-le (total + e.1.bytes) es (omega arith)))

  pub retain-Within :
      (keep_key : Bytes → Bool) (s : MemoryState V) → Within s → Within (retain r keep_key s)
  unfolding retain
  retain-Within keep_key s (c, w) =
      let m = kept keep_key s.entries in
      let less = sum_by-filter-le bytes_of (λ e. keep_key e.0) s.entries in
      let visited = sum_by-perm bytes_of (visits m) in
      let counted : fold_bytes 0 (r.visit m) ≡ sum_by bytes_of m = omega (
        arith,
        fold_bytes-le 0 (r.visit m) (omega (arith, less, visited, c.sized, c.accounted)),
        visited,
      ) in
      let s' : MemoryState V = record s {
        entries = m;
        retained_bytes = fold_bytes 0 (r.visit m);
      } in
      compact_lru-Within s' (
        record {
          distinct = Uniq-kept keep_key s.entries c.distinct;
          accounted = counted;
          sized = omega (arith, counted, less, c.sized, c.accounted);
          marked = λ key entry h. elim (Bool-cases (keep_key key)) [
            | inl e ↦ c.marked key entry (sym (lookup-kept keep_key key s.entries e) ∙ h)
            | inr e ↦ let gone = lookup-kept-none keep_key key s.entries e in cc
          ];
        },
        fewer s s' refl (length-filter-le (λ e. keep_key e.0) s.entries)
            (omega (arith, counted, less, c.accounted)) w,
      )

  pub set_limits-Within :
      (limits : MemoryLimits) (s : MemoryState V) → Within s → Within (set_limits r limits s)
  unfolding set_limits
  set_limits-Within limits s (c, w) =
      evict-Within (record s { limits = limits })
        (record {
          distinct = c.distinct;
          accounted = c.accounted;
          sized = c.sized;
          marked = c.marked;
        })

  pub apply-Within {κ} :
      {R : Type κ} (key : Bytes) (action : MemoryAction V R) (s : MemoryState V)
      → s.retained_bytes + growth action ≤ usize_max
      → Within s
      → Within (apply r key action s).1
  unfolding apply
  apply-Within key (MemoryAction.keep result) s fits (c, w) =
      elim (Bool-cases (contains_key key s.entries)) [
        | inl e ↦ rw (e, apply) (touch-Within key s (c, w))
        | inr e ↦ rw (e, apply) (c, w)
      ]
  apply-Within key (MemoryAction.discard result) s fits h = remove-Within key s h
  apply-Within key (MemoryAction.replace value bytes result) s fits (c, w) =
      insert-Within key value bytes s fits c
