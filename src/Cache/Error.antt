-- ===== src/Cache/Error.antt =====
-- The failures of the cache: vyuh/src/cache/error.rs, and the results that carry them.
use Prim.Native.String.{String}
use vyuh.Prelude.{◌≡◌, refl, Bool, true, false, Option, none, some}

pub data CacheError : Type 0 where
  invalid_provider_name : CacheError
  provider_not_found : CacheError
  duplicate_provider : CacheError
  missing_default_provider : CacheError
  invalid_default_provider : CacheError
  invalid_key : CacheError
  bulk_limit_exceeded : CacheError
  value_too_large : CacheError
  invalid_ttl : CacheError
  serialize : CacheError
  deserialize : CacheError
  invalid_integer : CacheError
  integer_overflow : CacheError
  unsupported_operation : CacheError
  invalid_provider_config : CacheError
  provider : String → CacheError

pub data CacheResult {ℓ} (A : Type ℓ) : Type ℓ where
  ok : A → CacheResult A
  err : CacheError → CacheResult A

infixl 5 ◌>>=◌ ◌>>◌
abbrev pub ◌>>=◌ {ℓ κ} :
    {A : Type ℓ} {B : Type κ} → CacheResult A → (A → CacheResult B) → CacheResult B
ok a >>= f = f a
err e >>= f = err e

abbrev pub ◌>>◌ {ℓ κ} : {A : Type ℓ} {B : Type κ} → CacheResult A → CacheResult B → CacheResult B
m >> k = m >>= λ _. k

-- `valid.then_some(()).ok_or(error)`
abbrev pub check : Bool → CacheError → CacheResult (Unit {0})
check true e = ok tt
check false e = err e

abbrev pub ok_or {ℓ} : {A : Type ℓ} → Option A → CacheError → CacheResult A
ok_or none e = err e
ok_or (some a) e = ok a

pub >>=-ok {ℓ κ} :
    {A : Type ℓ} {B : Type κ} (m : CacheResult A) (f : A → CacheResult B) {b : B}
    → (m >>= f) ≡ ok b
    → (a : A) × (m ≡ ok a) × (f a ≡ ok b)
>>=-ok (ok a) f h = (a, refl, h)
>>=-ok (err e) f h = cc

pub check-ok : (b : Bool) (e : CacheError) → check b e ≡ ok tt → b ≡ true
check-ok true e h = refl
check-ok false e h = cc

pub ok_eq {ℓ} : {A : Type ℓ} (a b : A) → CacheResult.ok a ≡ CacheResult.ok b → a ≡ b
ok_eq a b e = cc
