-- ===== src/Cache/Store/Sound.antt =====
-- What the operations of vyuh/src/cache/memory_store.rs keep: the count of the retained bytes, a
-- marker for each entry, and the limits.
use mathlib.Core.List.{Mem, Perm, Mem-prop, not-mem-nil, eq-or-mem_of_mem-cons}
use mathlib.Core.Logic.Or
use vyuh.Prelude.{
  ℕ, zero, suc, ◌-◌, ◌≤◌, ◌<◌, ltb, ◌||◌, eq→==, ◌≡◌, refl, sym, ap, ◌∙◌, subst, inl, inr, Bool,
  true, false, Option, none, some, List, [], ◌∷◌, length, lookup, remove as remove_key, Bool-cases,
  Option-cases, is_some_and, arith, if◌then◌else◌,
}
use vyuh.Prelude.Int.{usize_max}
use vyuh.Prelude.Bytes.{
  bytes_laws, lookup-remove_self, lookup-remove_other, Bytes, bytes_key, same_bytes, same_bytes→eq,
}
use vyuh.Cache.Store.{
  StoredValue, Entries, Marker, MemoryState, RandomState, remove, over_limit, is_current,
  evict_from, evict_oldest, evict_loop,
}
use vyuh.Cache.Store.Entries.{sum_by, bytes_of, Uniq, sum_by-remove, Uniq-remove, empty_of_none}

-- The state agrees with itself, with `lru` for the markers.
pub record Consistent {ℓ} {V : Type ℓ} (lru : List Marker) (s : MemoryState V) : Type ℓ where
  pub distinct : Uniq s.entries
  pub accounted : s.retained_bytes ≡ sum_by bytes_of s.entries
  pub sized : s.retained_bytes ≤ usize_max
  pub marked :
      (key : Bytes) (entry : StoredValue V)
      → lookup key s.entries ≡ some entry
      → Mem (key, entry.sequence) lru

-- The visit of a hash map shows each entry once.
abbrev pub Visits {ℓ} : {V : Type ℓ} → RandomState V → Type ℓ
Visits {V} r = (m : Entries V) → Perm (r.visit m) m

pub within_nothing :
    (most : ℕ) (limit : Option ℕ) (n b : ℕ)
    → n ≡ 0
    → b ≡ 0
    → (ltb most n || is_some_and limit (λ l. ltb l b)) ≡ false
within_nothing most none n b e f = ground arith
within_nothing most (some l) n b e f = ground arith

module _ {ℓ} {V : Type ℓ} where
  pub no_entry : (key : Bytes) (s : MemoryState V) → lookup key s.entries ≡ none → remove key s ≡ s
  no_entry key s h = rw (h, remove) refl

  pub remove_entry :
      (key : Bytes) (entry : StoredValue V) (s : MemoryState V)
      → lookup key s.entries ≡ some entry
      → remove key s ≡ record s {
        entries = remove_key key s.entries;
        retained_bytes = s.retained_bytes - entry.bytes;
      }
  remove_entry key entry s h = rw (h, remove) refl

  pub lookup-remove-some :
      (key other : Bytes) (m : Entries V) {entry : StoredValue V}
      → lookup other (remove_key key m) ≡ some entry
      → lookup other m ≡ some entry
  lookup-remove-some key other m h = elim (Bool-cases (same_bytes key other)) [
    | inl e ↦
        let gone : lookup other (remove_key key m) ≡ none =
          rw (same_bytes→eq key other e) (lookup-remove_self other m) in
        cc
    | inr e ↦ sym (lookup-remove_other key other m e) ∙ h
  ]

  pub remove-Consistent :
      (key : Bytes) (lru : List Marker) (s : MemoryState V)
      → Consistent lru s
      → Consistent lru (remove key s)
  remove-Consistent key lru s c = elim (Option-cases (lookup key s.entries)) [
    | inl e ↦ rw (no_entry key s e) c
    | inr (entry, e) ↦
        let total = sum_by-remove bytes_of key entry s.entries c.distinct e in
        rw (remove_entry key entry s e) (record {
          distinct = Uniq-remove key s.entries c.distinct;
          accounted = omega (arith, total, c.accounted);
          sized = omega (arith, c.sized);
          marked = λ other v h. c.marked other v (lookup-remove-some key other s.entries h);
        })
  ]

  pub remove-lru : (key : Bytes) (s : MemoryState V) → (remove key s).lru ≡ s.lru
  remove-lru key s = elim (Option-cases (lookup key s.entries)) [
    | inl e ↦ rw (no_entry key s e) refl
    | inr (entry, e) ↦ rw (remove_entry key entry s e) refl
  ]

  pub lookup_removed : (key : Bytes) (s : MemoryState V) → lookup key (remove key s).entries ≡ none
  lookup_removed key s = elim (Option-cases (lookup key s.entries)) [
    | inl e ↦ rw (no_entry key s e) e
    | inr (entry, e) ↦ rw (remove_entry key entry s e) (lookup-remove_self key s.entries)
  ]

  -- A marker is not needed once the entry of its key is gone.
  pub marker_removed :
      (m : Marker) (rest : List Marker) (s : MemoryState V)
      → Consistent (m ∷ rest) s
      → Consistent rest (remove m.0 s)
  marker_removed m rest s c =
      let c' = remove-Consistent m.0 (m ∷ rest) s c in
      record {
        distinct = c'.distinct;
        accounted = c'.accounted;
        sized = c'.sized;
        marked = λ key entry e.
            Or.elim Mem-prop (eq-or-mem_of_mem-cons (c'.marked key entry e))
              (λ same.
                let gone : lookup key (remove m.0 s).entries ≡ none =
                  rw (ap (λ (x : Marker). x.0) same) (lookup_removed m.0 s) in
                cc)
              (λ later. later);
      }

  -- The markers of a state count only by what is said of them.
  pub relisted :
      (ms rest : List Marker) (s : MemoryState V)
      → Consistent ms s
      → Consistent ms (record s { lru = rest })
  relisted ms rest s c = record {
    distinct = c.distinct;
    accounted = c.accounted;
    sized = c.sized;
    marked = c.marked;
  }

  -- A marker that is not current is no entry's.
  pub stale :
      (m : Marker) (rest : List Marker) (s : MemoryState V)
      → Consistent (m ∷ rest) s
      → is_current m s ≡ false
      → Consistent rest s
  stale m rest s c h = record {
    distinct = c.distinct;
    accounted = c.accounted;
    sized = c.sized;
    marked = λ key entry e.
        Or.elim Mem-prop (eq-or-mem_of_mem-cons (c.marked key entry e))
          (λ same.
            let current : is_current (key, entry.sequence) s ≡ true =
              rw (e, eq→== entry.sequence entry.sequence refl) refl in
            cc (ap (λ x. is_current x s) same))
          (λ later. later);
  }

  nothing_left : (s : MemoryState V) → Consistent [] s → over_limit s ≡ false
  nothing_left s c =
      let none_left : s.entries ≡ [] = empty_of_none s.entries (λ key.
        elim (Option-cases (lookup key s.entries)) [
          | inl e ↦ e
          | inr (v, e) ↦ absurd (not-mem-nil (c.marked key v e))
        ]) in
      within_nothing s.limits.max_entries s.limits.max_bytes (length s.entries) s.retained_bytes
        (ap length none_left) (c.accounted ∙ ap (sum_by bytes_of) none_left)

  -- What a pass of the eviction leaves: an entry and its markers gone, or no marker.
  abbrev Evicted : List Marker → MemoryState V → Bool × MemoryState V → Type ℓ
  Evicted ms s (true, s') = Consistent s'.lru s' × (length s'.lru < length ms)
  Evicted ms s (false, s') = Consistent s'.lru s' × (over_limit s' ≡ false)

  later-Evicted :
      (m : Marker) (ms : List Marker) (s : MemoryState V) (next : Bool × MemoryState V)
      → Evicted ms s next
      → Evicted (m ∷ ms) s next
  later-Evicted m ms s (true, s') (c, shorter) = (c, omega arith)
  later-Evicted m ms s (false, s') h = h

  evict_from-Evicted :
      (ms : List Marker) (s : MemoryState V) → Consistent ms s → Evicted ms s (evict_from ms s)
  unfolding evict_from
  evict_from-Evicted [] s c =
      let c' = relisted [] [] s c in (c', nothing_left (record s { lru = [] }) c')
  evict_from-Evicted (m ∷ rest) s c = elim (Bool-cases (is_current m s)) [
    | inl e ↦
        let s₀ : MemoryState V = record s { lru = rest } in
        let same : (remove m.0 s₀).lru ≡ rest = remove-lru m.0 s₀ in
        let c' = marker_removed m rest s₀ (relisted (m ∷ rest) rest s c) in
        rw e (subst (λ ms. Consistent ms (remove m.0 s₀)) (sym same) c', rw same (omega arith))
    | inr e ↦ rw e (
        later-Evicted m rest s (evict_from rest s) (evict_from-Evicted rest s (stale m rest s c e)))
  ]

  -- With a pass for each marker and one more, the loop ends within the limits.
  pub evict_loop-within :
      (fuel : ℕ) (s : MemoryState V)
      → length s.lru < fuel
      → Consistent s.lru s
      → Consistent (evict_loop fuel s).lru (evict_loop fuel s)
        × (over_limit (evict_loop fuel s) ≡ false)
  unfolding evict_loop
  evict_loop-within zero s l c = elim l [ ]
  evict_loop-within (suc fuel) s l c = elim (Bool-cases (over_limit s)) [
    | inl e ↦ rw e (
        pass (evict_oldest s) (evict_from-Evicted s.lru s c)
          (λ s' k c'. evict_loop-within fuel s' k c'))
    | inr e ↦ rw e (c, e)
  ]
    where
      pass :
          (next : Bool × MemoryState V)
          → Evicted s.lru s next
          → ((s' : MemoryState V)
              → length s'.lru < fuel
              → Consistent s'.lru s'
              → Consistent (evict_loop fuel s').lru (evict_loop fuel s')
                × (over_limit (evict_loop fuel s') ≡ false))
          → Consistent
              (if next.0 then evict_loop fuel next.1 else next.1).lru
              (if next.0 then evict_loop fuel next.1 else next.1)
            × (over_limit (if next.0 then evict_loop fuel next.1 else next.1) ≡ false)
      pass (true, s') (c', shorter) again = again s' (omega arith) c'
      pass (false, s') h again = h
