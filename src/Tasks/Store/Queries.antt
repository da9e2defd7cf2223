-- ===== src/Tasks/Store/Queries.antt =====
-- Deadlines, idempotency retention and readiness in vyuh/src/tasks/store/memory/queries.rs.
use mathlib.Core.Option
use Prim.Native.String.{◌++◌}
use vyuh.Prelude.{
  ℕ, suc, ◌-◌, min, max, String, Bool, true, false, not, ◌&&◌, ◌||◌, Option, none, some, List, [],
  ◌∷◌, ltb, leb, ◌=$◌, if◌then◌else◌, is_none, is_none_or, unwrap_or, any, find, Result, Done, ok,
  err, ok_or, and_then, Exec, invalid_config, unknown_lane, task_not_found,
}
use vyuh.Tasks.Externals.{Externals}
use vyuh.Tasks.Types.{
  TaskStatus, TaskRecord, TaskStoreConf, IdempotencyRetention, same_status, idempotency_for,
}

unfoldable pub is_active : TaskStatus → Bool
is_active TaskStatus.pending = true
is_active TaskStatus.running = true
is_active TaskStatus.suspended = true
is_active TaskStatus.succeeded = false
is_active TaskStatus.failed = false

-- `matches!(status, Succeeded | Failed)`
abbrev pub is_terminal : TaskStatus → Bool
is_terminal TaskStatus.succeeded = true
is_terminal TaskStatus.failed = true
is_terminal _ = false

unfoldable pub is_reassignable : TaskStatus → Bool
is_reassignable TaskStatus.pending = true
is_reassignable TaskStatus.suspended = true
is_reassignable _ = false

unfoldable pub is_due : TaskRecord → ℕ → Bool
is_due t now =
    (same_status t.status TaskStatus.pending || same_status t.status TaskStatus.running)
    && is_none t.node_id
    && is_none_or t.ready_at (λ time. leb time now)

-- The positions, from `i` on, of the tasks of a lane that are due.
abbrev due_from : ℕ → List TaskRecord → String → ℕ → List ℕ
due_from i [] lane now = []
due_from i (t ∷ ts) lane now =
    let rest = due_from (suc i) ts lane now in
    if t.lane =$ lane && is_due t now then i ∷ rest else rest

unfoldable pub due_indices : List TaskRecord → String → ℕ → List ℕ
unfolding is_due
due_indices tasks lane now = due_from 0 tasks lane now

abbrev pub Readiness : Type 0
Readiness = ℕ × ℕ × ℕ

unfoldable pub readiness : TaskRecord → ℕ → Readiness
readiness t now = (unwrap_or t.ready_at now, t.created_at, t.id)

-- The wait until the readiness of one task that is not yet due.
abbrev task_wait : TaskRecord → ℕ → Option ℕ
task_wait t now =
    let deadline =
      if (same_status t.status TaskStatus.pending || same_status t.status TaskStatus.running)
        && is_none t.node_id
      then t.ready_at
      else none in
    Option.bind deadline λ d. if ltb now d then some (d - now) else none

abbrev min_option : Option ℕ → Option ℕ → Option ℕ
min_option none b = b
min_option (some a) none = some a
min_option (some a) (some b) = some (min a b)

unfoldable pub task_deadline : List TaskRecord → String → ℕ → Option ℕ
task_deadline [] lane now = none
task_deadline (t ∷ ts) lane now =
    let rest = task_deadline ts lane now in
    if t.lane =$ lane then min_option (task_wait t now) rest else rest

unfoldable pub effective_lane_wake : Bool → Option ℕ → Option ℕ → Bool → Option ℕ
effective_lane_wake rate_blocked rate_wake task_wake has_flows =
    if has_flows
    then min_option rate_wake task_wake
    else if rate_blocked
    then rate_wake
    else Option.map (λ wait. elim rate_wake [ none ↦ wait | some permit ↦ max permit wait ])
        task_wake

module _ (x : Externals) where
  unfoldable pub chrono_duration : ℕ → Result ℕ
  chrono_duration duration =
      ok_or (x.from_std duration) (invalid_config "task duration exceeds supported timestamp range")

  unfoldable pub checked_deadline : ℕ → ℕ → Result (Option ℕ)
  unfolding chrono_duration
  checked_deadline now delay = and_then (chrono_duration delay) λ d.
      and_then
        (ok_or (x.checked_add_signed now d) (invalid_config "task delay exceeds timestamp range"))
        λ at. ok (some at)

  abbrev retained_until : IdempotencyRetention → ℕ → Result (Option ℕ)
  retained_until IdempotencyRetention.active_only now = ok none
  retained_until (IdempotencyRetention.retain_for duration) now = checked_deadline now duration

  abbrev missing_policy : TaskRecord → String
  missing_policy t = "task '" ++ t.name ++ "' has no idempotency policy"

  unfoldable pub finalize_idempotency : TaskStoreConf → ℕ → Exec TaskRecord Done
  unfolding checked_deadline
  finalize_idempotency conf now t =
      if not (is_terminal t.status) || is_none t.idempotency_key
      then (ok tt, t)
      else elim (and_then (ok_or (idempotency_for conf t.name) (invalid_config (missing_policy t)))
          λ p. retained_until p now) [
            | ok expiry ↦ (ok tt, record t { idempotency_expires_at = expiry })
            | err e ↦ (err e, t)
          ]

-- The lanes and handlers that active tasks need are configured.
unfoldable pub reject_orphaned_tasks : List TaskRecord → TaskStoreConf → Result Done
unfolding is_active
reject_orphaned_tasks tasks conf =
    let stray =
      find (λ t. is_active t.status && not (any (λ c. c.lane =$ t.lane) conf.lanes)) tasks in
    let unknown =
      find (λ t. is_active t.status && not (any (λ h. h.0 =$ t.name) conf.handlers)) tasks in
    elim stray [
      | some t ↦ err (unknown_lane t.lane)
      | none ↦ elim unknown [ some t ↦ err (task_not_found t.name) | none ↦ ok tt ]
    ]
