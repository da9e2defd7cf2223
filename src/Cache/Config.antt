-- ===== src/Cache/Config.antt =====
-- The configuration of the caches and the registry of a site: vyuh/src/cache/config.rs, and
-- `CacheRegistry` of runtime.rs.
pub mod Default
use vyuh.Prelude.{
  ℕ, Bool, true, false, if◌then◌else◌, Option, none, some, List, [], ◌∷◌, ◌++◌, any, HashMap,
  lookup, insert, unwrap_or,
}
use vyuh.Prelude.Bytes.{Bytes, ascii, same_bytes, bytes_key}
use vyuh.Cache.Error.{CacheError, CacheResult, ok, err, ◌>>=◌, ◌>>◌, check, ok_or}
use vyuh.Cache.Key.{validate_provider_name}
use vyuh.Cache.Provider.{CacheProvider}

pub record CacheDefinition (S : Type 0) : Type 0 where
  pub name : Bytes
  pub provider : S

pub record CacheConf (S : Type 0) : Type 0 where
  pub providers : List (CacheDefinition S)
  pub default_provider : Option Bytes

pub record CacheRegistry (S : Type 0) : Type 0 where
  pub providers : HashMap Bytes S
  pub default : Bytes

abbrev pub default_cache : Bytes
default_cache = ascii "default"

abbrev pub is_named : Bytes → List Bytes → Bool
is_named name names = any (λ n. same_bytes n name) names

module _ {S : Type 0} where
  abbrev pub empty : CacheConf S
  empty = record { providers = []; default_provider = none }

  abbrev pub provider : Bytes → S → CacheConf S → CacheConf S
  provider name p conf = record conf {
    providers = conf.providers ++ record { name = name; provider = p } ∷ [];
  }

  abbrev pub default_provider : Bytes → CacheConf S → CacheConf S
  default_provider name conf = record conf { default_provider = some name }

  module _ (p : CacheProvider S) where
    -- The loop of `validate`: the names that were registered.
    unfoldable pub validate_definitions :
        List Bytes → List (CacheDefinition S) → CacheResult (List Bytes)
    unfolding validate_provider_name
    validate_definitions names [] = ok names
    validate_definitions names (d ∷ ds) = do
      validate_provider_name d.name
      check (if is_named d.name names then false else true) CacheError.duplicate_provider
      p.validate d.provider
      validate_definitions (d.name ∷ names) ds

    unfoldable pub validate : CacheConf S → CacheResult (Unit {0})
    unfolding validate_definitions
    validate conf = do
      names ← validate_definitions [] conf.providers
      default ← ok_or conf.default_provider CacheError.missing_default_provider
      check (is_named default names) CacheError.invalid_default_provider

    -- The loop of `build`: a provider with state of its own gives a site fresh state.
    unfoldable pub build_providers :
        HashMap Bytes S → List (CacheDefinition S) → CacheResult (HashMap Bytes S)
    build_providers built [] = ok built
    build_providers built (d ∷ ds) =
        let own : S = unwrap_or (p.for_site d.provider) d.provider in
        p.validate own >> build_providers (insert d.name own built) ds

    unfoldable pub build : CacheConf S → CacheResult (CacheRegistry S)
    unfolding validate build_providers
    build conf = do
      validate conf
      providers ← build_providers [] conf.providers
      default ← ok_or conf.default_provider CacheError.missing_default_provider
      ok (record { providers = providers; default = default })
