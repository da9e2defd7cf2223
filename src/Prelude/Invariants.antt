-- ===== src/Prelude/Invariants.antt =====
-- Invariants of actions: what holds of the state before holds after, also where the action fails.
use vyuh.Prelude.Results.{Exec, Result, ok, err, TaskRuntimeError, pure, raise, continue, ◌>>=◌}

pub record Keeps {ℓ κ ν} {S : Type ℓ} {A : Type κ} (P : S → Type ν) (m : Exec S A)
    : Type (ℓ ⊔ ν) where
  pub at : (s : S) → P s → P (m s).1

module _ {ℓ κ ν} {S : Type ℓ} {A : Type κ} {P : S → Type ν} where
  pub Keeps-pure : (a : A) → Keeps P (pure {S = S} a)
  Keeps-pure a = record { at = λ s h. h }

  pub Keeps-raise : (e : TaskRuntimeError) → Keeps P (raise {S = S} {A = A} e)
  Keeps-raise e = record { at = λ s h. h }

  -- An action that only reads.
  pub Keeps-read : (f : S → Result A) → Keeps P (λ s. (f s, s))
  Keeps-read f = record { at = λ s h. h }

module _ {ℓ κ ν μ} {S : Type ℓ} {A : Type κ} {B : Type ν} {P : S → Type μ} where
  continue_keeps :
      (r : Result A) (f : A → Exec S B)
      → ((a : A) → Keeps P (f a))
      → (s : S) → P s
      → P (continue r f s).1
  continue_keeps (ok a) f k s h = (k a).at s h
  continue_keeps (err e) f k s h = h

  pub Keeps-bind :
      (m : Exec S A) (f : A → Exec S B) → Keeps P m → ((a : A) → Keeps P (f a)) → Keeps P (m >>= f)
  Keeps-bind m f km kf = record { at = λ s h. continue_keeps (m s).0 f kf (m s).1 (km.at s h) }
