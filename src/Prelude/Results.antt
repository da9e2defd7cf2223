-- ===== src/Prelude/Results.antt =====
-- Results, and actions on a mutable value that may fail. What was written before a failure stays
-- written, so the value comes back beside the error too.
use Prim.Native.Nat.{ℕ}
use Prim.Native.String.{String}
use mathlib.Core.Path.{◌≡◌, refl, ap}
use mathlib.Core.Option.{Option, none, some}
use mathlib.Core.Logic.{◌⊎◌, inl, inr}

-- `TaskRuntimeError`
pub data TaskRuntimeError : Type 0 where
  result_too_large : (actual limit : ℕ) → TaskRuntimeError
  flow_all_index : (index len : ℕ) → TaskRuntimeError
  flow_all_decode : ℕ → TaskRuntimeError
  type_mismatch : String → String → TaskRuntimeError
  task_not_found : String → TaskRuntimeError
  json_error : TaskRuntimeError
  task_execution_error : String → TaskRuntimeError
  already_exists : ℕ → TaskRuntimeError
  invalid_config : String → TaskRuntimeError
  invalid_options : String → TaskRuntimeError
  unknown_lane : String → TaskRuntimeError
  idempotency_conflict : ℕ → TaskRuntimeError
  lane_busy : String → TaskRuntimeError
  call_error : TaskRuntimeError
  database_error : TaskRuntimeError
  store_error : TaskRuntimeError

pub data Result {ℓ} (A : Type ℓ) : Type ℓ where
  ok : A → Result A
  err : TaskRuntimeError → Result A

pub ok_eq {ℓ} : {A : Type ℓ} (a b : A) → ok a ≡ ok b → a ≡ b
ok_eq a b e = cc

pub err_eq {ℓ} : {A : Type ℓ} (a b : TaskRuntimeError) → ◌≡◌ {A = Result A} (err a) (err b) → a ≡ b
err_eq a b e = cc

abbrev pub ok_or {ℓ} : {A : Type ℓ} → Option A → TaskRuntimeError → Result A
ok_or none e = err e
ok_or (some a) e = ok a

pub ok_or-ok {ℓ} :
    {A : Type ℓ} (o : Option A) (e : TaskRuntimeError) {a : A} → ok_or o e ≡ ok a → o ≡ some a
ok_or-ok none e h = cc
ok_or-ok (some b) e h = ap (λ c. some c) (ok_eq _ _ h)

-- The pure chain, `r.and_then(f)`.
abbrev pub and_then {ℓ κ} : {A : Type ℓ} {B : Type κ} → Result A → (A → Result B) → Result B
and_then (ok a) f = f a
and_then (err e) f = err e

pub and_then-ok {ℓ κ} :
    {A : Type ℓ} {B : Type κ} (m : Result A) (f : A → Result B) {b : B}
    → and_then m f ≡ ok b
    → (a : A) × (m ≡ ok a) × (f a ≡ ok b)
and_then-ok (ok a) f h = (a, refl, h)
and_then-ok (err e) f h = cc

pub Result-cases {ℓ} :
    {A : Type ℓ} (r : Result A) → ((e : TaskRuntimeError) × (r ≡ err e)) ⊎ ((a : A) × (r ≡ ok a))
Result-cases (ok a) = inr (a, refl)
Result-cases (err e) = inl (e, refl)

abbrev pub Exec {ℓ κ} : Type ℓ → Type κ → Type (ℓ ⊔ κ)
Exec S A = S → Result A × S

module _ {ℓ κ} {S : Type ℓ} {A : Type κ} where
  abbrev pub pure : A → Exec S A
  pure a s = (ok a, s)

  abbrev pub raise : TaskRuntimeError → Exec S A
  raise e s = (err e, s)

  abbrev pub lift : Result A → Exec S A
  lift r s = (r, s)

  abbrev pub gets : (S → A) → Exec S A
  gets f s = (ok (f s), s)

-- The value of an action that returns none.
abbrev pub Done : Type 0
Done = Unit {0}

abbrev pub modify {ℓ} : {S : Type ℓ} → (S → S) → Exec S Done
modify f s = (ok tt, f s)

module _ {ℓ κ ν} {S : Type ℓ} {A : Type κ} {B : Type ν} where
  abbrev pub continue : Result A → (A → Exec S B) → Exec S B
  continue (ok a) f s = f a s
  continue (err e) f s = (err e, s)

  infixl 5 ◌>>=◌ ◌>>◌
  abbrev pub ◌>>=◌ : Exec S A → (A → Exec S B) → Exec S B
  ◌>>=◌ m f s = let (r, s') = m s in continue r f s'

  abbrev pub ◌>>◌ : Exec S A → Exec S B → Exec S B
  m >> n = m >>= λ _. n

  continue-ok :
      (r : Result A) (s : S) (f : A → Exec S B) {b : B} {t : S}
      → continue r f s ≡ (ok b, t)
      → (a : A) × (r ≡ ok a) × (f a s ≡ (ok b, t))
  continue-ok (ok a) s f h = (a, refl, h)
  continue-ok (err e) s f h = cc

  -- Inversion of an action that succeeds.
  pub bind-ok :
      (m : Exec S A) (f : A → Exec S B) (s : S) {b : B} {t : S}
      → (m >>= f) s ≡ (ok b, t)
      → (a : A) × (u : S) × (m s ≡ (ok a, u)) × (f a u ≡ (ok b, t))
  bind-ok m f s h =
      let (a, e, k) = continue-ok (m s).0 (m s).1 f h in (a, (m s).1, (λ i. (e i, (m s).1)), k)

  continue-err :
      (r : Result A) (s : S) (f : A → Exec S B) {e : TaskRuntimeError} {t : S}
      → continue r f s ≡ (err e, t)
      → ((r ≡ err e) × (s ≡ t)) ⊎ ((a : A) × (r ≡ ok a) × (f a s ≡ (err e, t)))
  continue-err (ok a) s f h = inr (a, refl, h)
  continue-err (err c) s f {e} {t} h =
      inl ((λ i. err (err_eq {A = B} c e (λ j. (h j).0) i)), (λ i. (h i).1))

  -- Inversion of an action that fails.
  pub bind-err :
      (m : Exec S A) (f : A → Exec S B) (s : S) {e : TaskRuntimeError} {t : S}
      → (m >>= f) s ≡ (err e, t)
      → (m s ≡ (err e, t)) ⊎ ((a : A) × (u : S) × (m s ≡ (ok a, u)) × (f a u ≡ (err e, t)))
  bind-err m f s h = elim (continue-err (m s).0 (m s).1 f h) [
    | inl (p, q) ↦ inl (λ i. (p i, q i))
    | inr (a, p, k) ↦ inr (a, (m s).1, (λ i. (p i, (m s).1)), k)
  ]
