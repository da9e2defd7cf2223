-- ===== src/Tasks/Externals.antt =====
-- What the task runtime takes from other packages: chrono's checked clock arithmetic, serde_json's
-- parser and text encoder, thiserror's messages, and uuid's text form and generator. They are arguments of the model.
use vyuh.Prelude.{ℕ, ◌+◌, ◌≡◌, Option, some, String, Bool, TaskRuntimeError}

pub record Externals : Type 0 where
  -- `chrono::Duration::from_std(d).ok()`
  pub from_std : ℕ → Option ℕ
  -- `time.checked_add_signed(d)` and `time.checked_sub_signed(d)` at a duration that is not negative
  pub checked_add_signed : ℕ → ℕ → Option ℕ
  pub checked_sub_signed : ℕ → ℕ → Option ℕ
  -- `serde_json::from_str::<&RawValue>(s).is_ok()`
  pub is_json : String → Bool
  -- `serde_json::from_str::<Result<&RawValue, TaskFailure>>(s).is_ok()`
  pub is_envelope : String → Bool
  -- `serde_json::Value::String(s).to_string()`
  pub json_text : String → String
  -- `error.to_string()`, which the derive of thiserror writes
  pub error_text : TaskRuntimeError → String
  -- `id.to_string()` and the `k`-th value of `Uuid::now_v7()`
  pub uuid_text : ℕ → String
  pub now_v7 : ℕ → ℕ

-- What chrono documents of its checked arithmetic: a value that is returned is exact.
pub record ClockLaws (x : Externals) : Type 0 where
  pub from_std_exact : (d : ℕ) {r : ℕ} → x.from_std d ≡ some r → r ≡ d
  pub add_exact : (t d : ℕ) {r : ℕ} → x.checked_add_signed t d ≡ some r → r ≡ t + d
  pub sub_exact : (t d : ℕ) {r : ℕ} → x.checked_sub_signed t d ≡ some r → r + d ≡ t
