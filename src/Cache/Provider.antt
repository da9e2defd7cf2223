-- ===== src/Cache/Provider.antt =====
-- The contract of cache providers, vyuh/src/cache/provider.rs, and the in-process provider that
-- fills it.
use vyuh.Prelude.{ℕ, Bool, ◌+◌, Option, some, List, [], ◌∷◌}
use vyuh.Prelude.Int.{ℤ}
use vyuh.Prelude.Bytes.{Bytes}
use vyuh.Cache.Error.{CacheResult, ok, err}
use vyuh.Cache.Store.{RandomState}
use vyuh.Cache.Memory
use vyuh.Cache.Memory.{CacheTtl, MemoryEntry, MemoryCache}

-- What an operation does to a provider's state `S`.
abbrev pub Call : Type 0 → Type 0 → Type 0
Call S A = S → CacheResult A × S

pub record CacheProvider (S : Type 0) : Type 0 where
  pub validate : S → CacheResult (Unit {0})
  pub for_site : S → Option S
  pub get : Bytes → Call S (Option Bytes)
  pub set : Bytes → Bytes → CacheTtl → Call S (Unit {0})
  pub add : Bytes → Bytes → CacheTtl → Call S Bool
  pub delete : Bytes → Call S (Unit {0})
  pub touch : Bytes → CacheTtl → Call S Bool
  pub increment : Bytes → ℤ → Call S ℤ
  pub clear : Bytes → Call S (Unit {0})

pub record CacheWrite : Type 0 where
  pub key : Bytes
  pub value : Bytes
  pub ttl : CacheTtl

abbrev pub finish {ℓ} :
    {S A : Type 0} {B : Type ℓ}
    → (A → S → CacheResult B × S)
    → CacheResult A × S
    → CacheResult B × S
finish f (ok a, s) = f a s
finish f (err e, s) = (err e, s)

-- A call after another: the first failure ends both.
infixl 5 ◌>>=◌ ◌>>◌
abbrev pub ◌>>=◌ : {S A B : Type 0} → Call S A → (A → Call S B) → Call S B
◌>>=◌ m f s = finish f (m s)

abbrev pub ◌>>◌ : {S A B : Type 0} → Call S A → Call S B → Call S B
m >> n = m >>= λ _. n

abbrev pub pure : {S A : Type 0} → A → Call S A
pure a s = (ok a, s)

abbrev pub lift : {S A : Type 0} → CacheResult A → Call S A
lift x s = (x, s)

module _ {S : Type 0} (p : CacheProvider S) where
  -- The sequential bulk operations that a provider has by default.
  unfoldable pub get_many : List Bytes → Call S (List (Option Bytes))
  get_many [] = pure []
  get_many (key ∷ keys) = do value ← p.get key; values ← get_many keys; pure (value ∷ values)

  unfoldable pub set_many : List CacheWrite → Call S (Unit {0})
  set_many [] = pure tt
  set_many (w ∷ ws) = p.set w.key w.value w.ttl >> set_many ws

  unfoldable pub delete_many : List Bytes → Call S (Unit {0})
  delete_many [] = pure tt
  delete_many (key ∷ keys) = p.delete key >> delete_many keys

-- A cache in its process: the readings of the clock to come, in order. An operation takes as many
-- as it may make.
pub record Clocked : Type 0 where
  pub cache : MemoryCache
  pub readings : ℕ → ℕ

abbrev pub ticked {ℓ} :
    {A : Type ℓ} → ℕ → Clocked → CacheResult A × MemoryCache → CacheResult A × Clocked
ticked n s (x, c) = (x, record { cache = c; readings = λ i. s.readings (i + n) })

unfoldable pub memory : RandomState MemoryEntry → CacheProvider Clocked
unfolding Memory.get Memory.set Memory.add Memory.touch Memory.increment Memory.clear
    Memory.validate
memory r = record {
  validate = λ s. Memory.validate s.cache;
  for_site = λ s. some (record s { cache = Memory.for_site s.cache });
  get = λ key s. ticked 1 s (Memory.get r key (s.readings 0) s.cache);
  set = λ key value ttl s. ticked 1 s (Memory.set r key value ttl (s.readings 0) s.cache);
  add = λ key value ttl s.
      ticked 2 s (Memory.add r key value ttl (s.readings 0) (s.readings 1) s.cache);
  delete = λ key s. ticked 0 s (Memory.delete r key s.cache);
  touch = λ key ttl s. ticked 2 s (Memory.touch r key ttl (s.readings 0) (s.readings 1) s.cache);
  increment = λ key delta s.
      ticked 2 s (Memory.increment r key delta (s.readings 0) (s.readings 1) s.cache);
  clear = λ prefix s. ticked 0 s (Memory.clear r prefix s.cache);
}
