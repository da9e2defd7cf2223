-- ===== src/Channels/Debounce.antt =====
-- Debouncing of one stream of values: vyuh/src/utils/debounce.rs.
pub mod Generations
pub mod Quiet
use vyuh.Prelude.{ℕ, ◌+◌, ◌==◌, Bool, true, false, not, if◌then◌else◌, Option, none, some}
use vyuh.Channels.Types.{wrapping_suc}

pub data DebounceMode : Type 0 where
  leading trailing leading_and_trailing : DebounceMode

pub record DebounceConf : Type 0 where
  pub window : ℕ
  pub mode : DebounceMode

abbrev pub is_valid : DebounceConf → Bool
is_valid conf = not (conf.window == 0)

abbrev pub trailing_conf : ℕ → DebounceConf
trailing_conf window = record { window = window; mode = DebounceMode.trailing }

pub record DebounceDeadline : Type 0 where
  pub generation : ℕ
  pub deadline : ℕ

pub record Debouncer {ℓ} (T : Type ℓ) : Type ℓ where
  pub conf : DebounceConf
  pub active : Bool
  pub generation : ℕ
  pub pending : Option T
  pub saw_extra : Bool

pub record DebouncePush {ℓ} (T : Type ℓ) : Type ℓ where
  pub emission : Option T
  pub deadline : Option DebounceDeadline

module _ {ℓ} {T : Type ℓ} where
  abbrev pub new : DebounceConf → Debouncer T
  new conf = record {
    conf = conf;
    active = false;
    generation = 0;
    pending = none;
    saw_extra = false;
  }

  abbrev reset : Debouncer T → Debouncer T
  reset d = record d { active = false; pending = none; saw_extra = false }

  abbrev next_generation : Debouncer T → Debouncer T
  next_generation d = record d { generation = wrapping_suc d.generation }

  -- The deadline that a state of the next generation has.
  abbrev deadline_of : ℕ → Debouncer T → DebounceDeadline
  deadline_of now d = record { generation = d.generation; deadline = now + d.conf.window }

  abbrev start : Debouncer T → Debouncer T
  start d = next_generation (record d { active = true; pending = none; saw_extra = false })

  abbrev emitted : T → ℕ → Debouncer T → DebouncePush T × Debouncer T
  emitted value now d = (record { emission = some value; deadline = some (deadline_of now d) }, d)

  abbrev postponed : ℕ → Debouncer T → DebouncePush T × Debouncer T
  postponed now d = (record { emission = none; deadline = some (deadline_of now d) }, d)

  abbrev push_leading : T → ℕ → Debouncer T → DebouncePush T × Debouncer T
  push_leading value now d =
      if d.active
      then (record { emission = none; deadline = none }, d)
      else emitted value now (start d)

  abbrev push_trailing : T → ℕ → Debouncer T → DebouncePush T × Debouncer T
  push_trailing value now d =
      postponed now (next_generation (record d { active = true; pending = some value }))

  abbrev push_both : T → ℕ → Debouncer T → DebouncePush T × Debouncer T
  push_both value now d =
      if not d.active
      then emitted value now (start d)
      else postponed now (next_generation (record d { saw_extra = true; pending = some value }))

  unfoldable pub push : T → ℕ → Debouncer T → DebouncePush T × Debouncer T
  push value now d = elim d.conf.mode [
    | DebounceMode.leading ↦ push_leading value now d
    | DebounceMode.trailing ↦ push_trailing value now d
    | DebounceMode.leading_and_trailing ↦ push_both value now d
  ]

  abbrev finish_both : Debouncer T → Option T × Debouncer T
  finish_both d = (
    (if d.saw_extra then d.pending else none),
    record d { active = false; saw_extra = false; pending = none },
  )

  unfoldable pub due : ℕ → Debouncer T → Option T × Debouncer T
  due generation d = if not (generation == d.generation) then (none, d) else elim d.conf.mode [
    | DebounceMode.leading ↦ (none, reset d)
    | DebounceMode.trailing ↦ (d.pending, record d { active = false; pending = none })
    | DebounceMode.leading_and_trailing ↦ finish_both d
  ]
