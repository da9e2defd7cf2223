-- ===== src/Cache/Store.antt =====
-- The bounded store of recently used values: vyuh/src/cache/memory_store.rs.
pub mod Entries
pub mod Sound
pub mod Marks
pub mod Bounded
pub mod Reach
pub mod Reads
pub mod Kept
use vyuh.Prelude.{
  ℕ, zero, suc, ◌+◌, ◌-◌, ◌*◌, ltb, leb, ◌==◌, ◌||◌, Bool, true, false, if◌then◌else◌, Option, none,
  some, List, [], ◌∷◌, ◌++◌, map, filter, length, HashMap, lookup, remove as remove_key,
  contains_key, is_some_and,
}
use vyuh.Prelude.Int.{saturate, usize_max, u64_max}
use vyuh.Prelude.Bytes.{Bytes, bytes_key}

pub record MemoryLimits : Type 0 where
  pub max_entries : ℕ
  pub max_bytes : Option ℕ

-- `discard` is `MemoryAction::Remove`.
pub data MemoryAction {ℓ κ} (V : Type ℓ) (R : Type κ) : Type (ℓ ⊔ κ) where
  keep : R → MemoryAction V R
  discard : R → MemoryAction V R
  replace : (value : V) (bytes : ℕ) → R → MemoryAction V R

pub record StoredValue {ℓ} (V : Type ℓ) : Type ℓ where
  pub value : V
  pub bytes : ℕ
  pub sequence : ℕ

abbrev pub Marker : Type 0
Marker = Bytes × ℕ

abbrev pub Entries {ℓ} : Type ℓ → Type ℓ
Entries V = HashMap Bytes (StoredValue V)

pub record MemoryState {ℓ} (V : Type ℓ) : Type ℓ where
  pub entries : Entries V
  pub lru : List Marker
  pub retained_bytes : ℕ
  pub sequence : ℕ
  pub limits : MemoryLimits

-- The order in which a hash map of the standard library visits its entries: any.
pub record RandomState {ℓ} (V : Type ℓ) : Type ℓ where
  pub visit : Entries V → List (Bytes × StoredValue V)

abbrev pub marker {ℓ} : {V : Type ℓ} → Bytes × StoredValue V → Marker
marker (key, entry) = (key, entry.sequence)

module _ {ℓ} {V : Type ℓ} where
  abbrev pub empty : MemoryLimits → MemoryState V
  empty limits = record {
    entries = [];
    lru = [];
    retained_bytes = 0;
    sequence = 0;
    limits = limits;
  }

  abbrev pub remove : Bytes → MemoryState V → MemoryState V
  remove key s = elim (lookup key s.entries) [
    | none ↦ s
    | some entry ↦ record s {
      entries = remove_key key s.entries;
      retained_bytes = s.retained_bytes - entry.bytes;
    }
  ]

  abbrev pub over_limit : MemoryState V → Bool
  over_limit s =
      ltb s.limits.max_entries (length s.entries)
      || is_some_and s.limits.max_bytes (λ limit. ltb limit s.retained_bytes)

  abbrev pub is_current : Marker → MemoryState V → Bool
  is_current (key, sequence) s =
      is_some_and (lookup key s.entries) (λ entry. entry.sequence == sequence)

  -- The markers are taken from the front until one is current; its entry goes.
  unfoldable pub evict_from : List Marker → MemoryState V → Bool × MemoryState V
  evict_from [] s = (false, record s { lru = [] })
  evict_from (m ∷ rest) s =
      let later = evict_from rest s in
      if is_current m s then (true, remove m.0 (record s { lru = rest })) else later

  abbrev pub evict_oldest : MemoryState V → Bool × MemoryState V
  evict_oldest s = evict_from s.lru s

  -- The loop of `evict` on fuel.
  unfoldable pub evict_loop : ℕ → MemoryState V → MemoryState V
  evict_loop zero s = s
  evict_loop (suc fuel) s =
      let next = evict_oldest s in
      let rest = evict_loop fuel next.1 in
      if over_limit s then (if next.0 then rest else next.1) else s

  -- `self.sequence.wrapping_add(1)`
  abbrev pub next_sequence : MemoryState V → ℕ
  next_sequence s = if ltb s.sequence u64_max then s.sequence + 1 else 0

  abbrev pub marker_limit : MemoryState V → ℕ
  marker_limit s = saturate usize_max (saturate usize_max (length s.entries * 4) + 16)

  abbrev pub fold_bytes : ℕ → List (Bytes × StoredValue V) → ℕ
  fold_bytes total [] = total
  fold_bytes total (e ∷ es) = fold_bytes (saturate usize_max (total + e.1.bytes)) es

  abbrev pub stored : Bytes → MemoryState V → Option V
  stored key s = elim (lookup key s.entries) [ none ↦ none | some entry ↦ some entry.value ]

  module _ (r : RandomState V) where
    abbrev pub compact_lru : MemoryState V → MemoryState V
    compact_lru s =
        if leb (length s.lru) (marker_limit s)
        then s
        else record s { lru = map marker (r.visit s.entries) }

    -- Every pass but the last takes a marker, so the markers bound the passes.
    unfoldable pub evict : MemoryState V → MemoryState V
    evict s = compact_lru (evict_loop (suc (length s.lru)) s)

    abbrev pub place : Bytes → V → ℕ → MemoryState V → MemoryState V
    place key value bytes s = record s {
      entries =
          (key, record { value = value; bytes = bytes; sequence = next_sequence s })
          ∷ remove_key key s.entries;
      lru = s.lru ++ (key, next_sequence s) ∷ [];
      retained_bytes = saturate usize_max (s.retained_bytes + bytes);
      sequence = next_sequence s;
    }

    unfoldable pub insert : Bytes → V → ℕ → MemoryState V → MemoryState V
    insert key value bytes s = evict (place key value bytes (remove key s))

    -- `entries.retain`, and the bytes of what is left.
    unfoldable pub retain : (Bytes → Bool) → MemoryState V → MemoryState V
    retain keep_key s =
        let kept = filter (λ e. keep_key e.0) s.entries in
        compact_lru (record s { entries = kept; retained_bytes = fold_bytes 0 (r.visit kept) })

    abbrev pub remark : Bytes → MemoryState V → MemoryState V
    remark key s = elim (lookup key s.entries) [
      | none ↦ record s { sequence = next_sequence s }
      | some entry ↦ record s {
        entries = (key, record entry { sequence = next_sequence s }) ∷ remove_key key s.entries;
        lru = s.lru ++ (key, next_sequence s) ∷ [];
        sequence = next_sequence s;
      }
    ]

    unfoldable pub touch : Bytes → MemoryState V → MemoryState V
    touch key s = compact_lru (remark key s)

    unfoldable pub apply {κ} :
        {R : Type κ} → Bytes → MemoryAction V R → MemoryState V → R × MemoryState V
    unfolding insert touch
    apply key (keep result) s = (result, (if contains_key key s.entries then touch key s else s))
    apply key (discard result) s = (result, remove key s)
    apply key (replace value bytes result) s = (result, insert key value bytes s)

    unfoldable pub set_limits : MemoryLimits → MemoryState V → MemoryState V
    unfolding evict
    set_limits limits s = evict (record s { limits = limits })

    -- One decision on the value of a key, made and carried out under the lock.
    unfoldable pub access {κ} :
        {R : Type κ} → Bytes → (Option V → MemoryAction V R) → MemoryState V → R × MemoryState V
    unfolding apply
    access key action s = apply key (action (stored key s)) s
