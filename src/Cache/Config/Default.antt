-- ===== src/Cache/Config/Default.antt =====
-- What a registry that was built has: `CacheRegistry::build` of vyuh/src/cache/runtime.rs.
use vyuh.Prelude.{
  ◌≡◌, subst, refl, sym, ◌∙◌, true, false, if◌then◌else◌, Bool-cases, inl, inr, List, [], ◌∷◌, All,
  HashMap, lookup, insert, is_some, unwrap_or,
}
use vyuh.Prelude.Bytes.{
  bytes_laws, Bytes, bytes_key, same_bytes, same_bytes_refl, same_bytes→eq, lookup-insert,
}
use vyuh.Cache.Error.{CacheError, ok, check, check-ok, ok_or, >>=-ok, ok_eq}
use vyuh.Cache.Key.{validate_provider_name}
use vyuh.Cache.Provider.{CacheProvider}
use vyuh.Cache.Config.{
  CacheDefinition, CacheConf, CacheRegistry, is_named, validate_definitions, validate,
  build_providers, build,
}

module _ {S : Type 0} where
  abbrev pub Has : HashMap Bytes S → Bytes → Type 0
  Has m name = is_some (lookup name m) ≡ true

  Has-insert :
      (name other : Bytes) (v : S) (m : HashMap Bytes S) → Has m other → Has (insert name v m) other
  Has-insert name other v m h = elim (Bool-cases (same_bytes name other)) [
    | inl e ↦ rw (lookup-insert name other v m, e) refl
    | inr e ↦ rw (lookup-insert name other v m, e) h
  ]

  Has-insert_self : (name : Bytes) (v : S) (m : HashMap Bytes S) → Has (insert name v m) name
  Has-insert_self name v m = rw (lookup-insert name name v m, same_bytes_refl name) refl

  module _ (p : CacheProvider S) where
    build_providers-Has :
        (built out : HashMap Bytes S) (ds : List (CacheDefinition S)) (other : Bytes)
        → build_providers p built ds ≡ ok out
        → Has built other
        → Has out other
    unfolding build_providers
    build_providers-Has built out [] other h k = rw (sym (ok_eq built out h)) k
    build_providers-Has built out (d ∷ ds) other h k =
        let own : S = unwrap_or (p.for_site d.provider) d.provider in
        let (_, e, g) =
          >>=-ok (p.validate own) (λ _. build_providers p (insert d.name own built) ds) h in
        build_providers-Has (insert d.name own built) out ds other g
          (Has-insert d.name other own built k)

    build_providers-All :
        (built out : HashMap Bytes S) (ds : List (CacheDefinition S))
        → build_providers p built ds ≡ ok out
        → All (λ d. Has out d.name) ds
    unfolding build_providers
    build_providers-All built out [] h = tt
    build_providers-All built out (d ∷ ds) h =
        let own : S = unwrap_or (p.for_site d.provider) d.provider in
        let (_, e, g) =
          >>=-ok (p.validate own) (λ _. build_providers p (insert d.name own built) ds) h in
        (
          build_providers-Has (insert d.name own built) out ds d.name g
              (Has-insert_self d.name own built),
          build_providers-All (insert d.name own built) out ds g,
        )

    -- A name that validation has seen is one of a definition.
    named_defined :
        (out : HashMap Bytes S) (names names' : List Bytes) (ds : List (CacheDefinition S))
        (name : Bytes)
        → validate_definitions p names ds ≡ ok names'
        → is_named name names' ≡ true
        → (is_named name names ≡ true → Has out name)
        → All (λ d. Has out d.name) ds
        → Has out name
    unfolding validate_definitions
    named_defined out names names' [] name h k old all = old (rw (ok_eq names names' h) k)
    named_defined out names names' (d ∷ ds) name h k old (here, all) =
        let (_, _, h₁) = >>=-ok (validate_provider_name d.name) _ h in
        let (_, _, h₂) =
          >>=-ok
            (check (if is_named d.name names then false else true) CacheError.duplicate_provider) _
            h₁ in
        let (_, _, h₃) =
          >>=-ok (p.validate d.provider) (λ _. validate_definitions p (d.name ∷ names) ds) h₂ in
        named_defined out (d.name ∷ names) names' ds name h₃ k
          (λ q. elim (Bool-cases (same_bytes d.name name)) [
            | inl e ↦ subst (Has out) (same_bytes→eq d.name name e) here
            | inr e ↦ old (rw e at q)
          ])
          all

    -- In a registry that was built, the default provider and every configured one are found.
    pub build-Has :
        (conf : CacheConf S) (registry : CacheRegistry S)
        → build p conf ≡ ok registry
        → Has registry.providers registry.default
          × All (λ d. Has registry.providers d.name) conf.providers
    unfolding build validate
    build-Has conf registry h =
        let (_, v, h₁) = >>=-ok (validate p conf) _ h in
        let (built, b, h₂) = >>=-ok (build_providers p [] conf.providers) _ h₁ in
        let (default, d, h₃) =
          >>=-ok (ok_or conf.default_provider CacheError.missing_default_provider) _ h₂ in
        let (names, n, v₁) = >>=-ok (validate_definitions p [] conf.providers) _ v in
        let (default', d', v₂) =
          >>=-ok (ok_or conf.default_provider CacheError.missing_default_provider) _ v₁ in
        let all = build_providers-All [] built conf.providers b in
        let same : default' ≡ default = ok_eq default' default (sym d' ∙ d) in
        let named = check-ok (is_named default' names) CacheError.invalid_default_provider v₂ in
        subst
          (λ reg.
            Has reg.providers reg.default × All (λ d. Has reg.providers d.name) conf.providers)
          (ok_eq (record { providers = built; default = default }) registry h₃)
          (
            subst (Has built) same
                (named_defined built [] names conf.providers default' n named (λ q. cc) all),
            all,
          )
