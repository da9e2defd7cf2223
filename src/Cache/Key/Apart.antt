-- ===== src/Cache/Key/Apart.antt =====
-- Canonical keys tell providers, namespaces and application keys apart: vyuh/src/cache/key.rs.
use mathlib.Core.List.{append_assoc, append-nil}
use vyuh.Prelude.{
  ltb, ◌≡◌, refl, sym, ap, ◌∙◌, ◌↔◌, true, Bool-cases, inl, inr, List, [], ◌∷◌, ◌++◌, length,
}
use vyuh.Prelude.Bytes.{Bytes, ascii, starts_with, starts_with-append, starts_with-split}
use vyuh.Cache.Error.{ok, >>=-ok, ok_eq}
use vyuh.Cache.Key.{
  max_key_bytes, max_namespace_bytes, max_namespace_depth, validate_key, to_string, append_part,
  provider_scope, append_namespaces, cache_scope, cache_key,
}
use vyuh.Cache.Key.Text.{
  part, parts, part_inj, parts_inj, append_inj, to_string_inj, append_part_lem,
}

abbrev opening : Bytes
opening = ascii "vyuh-cache:v1:provider:"

-- What follows the scope of a provider in a key.
abbrev tail_of : List Bytes → Bytes → Bytes
tail_of namespaces key =
    ascii "ns:"
    ++ (to_string (length namespaces) ++ b':' ∷ (parts namespaces ++ (ascii "key:" ++ part key)))

scope_lem :
    (provider rest : Bytes)
    → provider_scope provider ++ rest ≡ opening ++ (part provider ++ b':' ∷ rest)
unfolding provider_scope
scope_lem provider rest = simp append_assoc

namespaces_lem :
    (output : Bytes) (namespaces : List Bytes) (o : Bytes)
    → append_namespaces output namespaces ≡ ok o
    → o ≡ output ++ parts namespaces
unfolding append_part
namespaces_lem output [] o h = sym (ok_eq output o h) ∙ sym (append-nil output)
namespaces_lem output (n ∷ ns) o h =
    let (a, e, g) =
      >>=-ok (validate_key n max_namespace_bytes) (λ _. append_namespaces (append_part output n) ns)
        h in
    namespaces_lem (append_part output n) ns o g ∙ append_assoc output (part n) (parts ns)

regroup :
    (scope ns count ps label pt : Bytes)
    → ((scope ++ (ns ++ (count ++ b':' ∷ []))) ++ ps ++ label) ++ pt
      ≡ scope ++ (ns ++ (count ++ b':' ∷ (ps ++ (label ++ pt))))
regroup scope ns count ps label pt = simp append_assoc

-- Every key begins with its provider's scope.
pub cache_key_lem :
    (provider : Bytes) (namespaces : List Bytes) (key o : Bytes)
    → cache_key provider namespaces key ≡ ok o
    → o ≡ provider_scope provider ++ tail_of namespaces key
unfolding cache_key
cache_key_lem provider namespaces key o h =
    let (a, valid, h₁) = >>=-ok (validate_key key max_key_bytes) _ h in
    elim (Bool-cases (ltb max_namespace_depth (length namespaces))) [
      | inl deep ↦ let q = rw deep at h₁ in cc
      | inr shallow ↦
          let start =
            provider_scope provider
            ++ (ascii "ns:" ++ (to_string (length namespaces) ++ b':' ∷ [])) in
          let (output, e, g) =
            >>=-ok (append_namespaces start namespaces)
              (λ output. ok (append_part (output ++ ascii "key:") key)) (rw shallow at h₁) in
          sym (ok_eq _ o g)
          ∙ append_part_lem (output ++ ascii "key:") key
          ∙ ap (λ x. (x ++ ascii "key:") ++ part key) (namespaces_lem start namespaces output e)
          ∙ regroup (provider_scope provider) (ascii "ns:") (to_string (length namespaces))
              (parts namespaces) (ascii "key:") (part key)
    ]

scope_inj : (p q r s : Bytes) → provider_scope p ++ r ≡ provider_scope q ++ s → (p ≡ q) × (r ≡ s)
scope_inj p q r s e =
    let (_, rest) =
      append_inj opening opening (part p ++ b':' ∷ r) (part q ++ b':' ∷ s) refl
        (sym (scope_lem p r) ∙ e ∙ scope_lem q s) in
    let (same, after) = part_inj p q (b':' ∷ r) (b':' ∷ s) rest in (same, cc after)

-- Two requests have the same canonical key only where they name the same provider, the same
-- namespaces and the same application key, whatever these texts hold.
pub cache_key_inj :
    (provider provider' : Bytes) (namespaces namespaces' : List Bytes) (key key' o : Bytes)
    → cache_key provider namespaces key ≡ ok o
    → cache_key provider' namespaces' key' ≡ ok o
    → (provider ≡ provider') × (namespaces ≡ namespaces') × (key ≡ key')
cache_key_inj provider provider' namespaces namespaces' key key' o h h' =
    let (same, rest) =
      scope_inj provider provider' (tail_of namespaces key) (tail_of namespaces' key') (
        sym (cache_key_lem provider namespaces key o h)
        ∙ cache_key_lem provider' namespaces' key' o h') in
    let (_, counted) = append_inj (ascii "ns:") (ascii "ns:") _ _ refl rest in
    let (long, named) =
      to_string_inj (length namespaces) (length namespaces')
        (parts namespaces ++ (ascii "key:" ++ part key))
        (parts namespaces' ++ (ascii "key:" ++ part key')) counted in
    let (spaces, keyed) =
      parts_inj namespaces namespaces' (ascii "key:" ++ part key) (ascii "key:" ++ part key') long
        named in
    let (_, last) = append_inj (ascii "key:") (ascii "key:") (part key) (part key') refl keyed in
    (
      same,
      spaces,
      (part_inj key key' [] [] (append-nil (part key) ∙ last ∙ sym (append-nil (part key')))).0,
    )

-- A key lies in the scope of a provider exactly when it is that provider's.
pub cache_key-scope :
    (provider other : Bytes) (namespaces : List Bytes) (key o : Bytes)
    → cache_key provider namespaces key ≡ ok o
    → (starts_with o (cache_scope other) ≡ true) ↔ (provider ≡ other)
cache_key-scope provider other namespaces key o h =
    let whole = cache_key_lem provider namespaces key o h in
    (
      λ s.
          let (rest, e) = starts_with-split o (cache_scope other) s in
          (scope_inj provider other (tail_of namespaces key) rest (sym whole ∙ e)).0,
      λ e. rw (whole, e) (starts_with-append (cache_scope other) (tail_of namespaces key)),
    )
