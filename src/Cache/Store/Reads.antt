-- ===== src/Cache/Store/Reads.antt =====
-- What the operations of vyuh/src/cache/memory_store.rs leave of the values that they are not about.
use vyuh.Prelude.{
  ◌≡◌, refl, sym, ◌∙◌, Bool, none, some, leb, length, lookup, Bool-cases, Option-cases, inl, inr,
  if◌then◌else◌,
}
use vyuh.Prelude.Bytes.{
  bytes_laws, lookup-remove_other, Bytes, bytes_key, same_bytes, same_bytes→eq,
}
use vyuh.Cache.Store.{
  MemoryState, RandomState, marker_limit, compact_lru, remark, touch, retain, stored, fold_bytes,
}
use vyuh.Cache.Store.Entries.{kept, lookup-kept, lookup-kept-none}

module _ {ℓ} {V : Type ℓ} (r : RandomState V) where
  pub stored_compact :
      (key : Bytes) (s : MemoryState V) → stored key (compact_lru r s) ≡ stored key s
  stored_compact key s = elim (Bool-cases (leb (length s.lru) (marker_limit s))) [
    | inl e ↦ rw e refl
    | inr e ↦ rw e refl
  ]

  stored-remark :
      (key other : Bytes) (s : MemoryState V) → stored other (remark r key s) ≡ stored other s
  stored-remark key other s = elim (Option-cases (lookup key s.entries)) [
    | inl e ↦ rw (e, remark) refl
    | inr (entry, e) ↦ elim (Bool-cases (same_bytes key other)) [
      | inl f ↦
          let found : lookup other s.entries ≡ some entry =
            rw (sym (same_bytes→eq key other f)) e in
          rw (e, f, found, remark, stored) refl
      | inr f ↦ rw (e, f, remark, stored, lookup-remove_other key other s.entries f) refl
    ]
  ]

  -- A use of one key changes no value.
  pub stored-touch :
      (key other : Bytes) (s : MemoryState V) → stored other (touch r key s) ≡ stored other s
  unfolding touch
  stored-touch key other s = stored_compact other (remark r key s) ∙ stored-remark key other s

  -- What is retained keeps its values, and all else is gone.
  pub stored-retain :
      (keep_key : Bytes → Bool) (key : Bytes) (s : MemoryState V)
      → stored key (retain r keep_key s) ≡ (if keep_key key then stored key s else none)
  unfolding retain
  stored-retain keep_key key s =
      let m = kept keep_key s.entries in
      let s' : MemoryState V = record s {
        entries = m;
        retained_bytes = fold_bytes 0 (r.visit m);
      } in
      stored_compact key s' ∙ elim (Bool-cases (keep_key key)) [
        | inl e ↦ rw (e, lookup-kept keep_key key s.entries e, stored) refl
        | inr e ↦ rw (e, lookup-kept-none keep_key key s.entries e, stored) refl
      ]
