-- ===== src/Tasks/Store/Lifecycle.antt =====
-- The lifecycle transitions of one task record: `apply_outcome` and its parts in
-- vyuh/src/tasks/store/memory/store.rs, and the claims and direct admissions of a task there and in
-- vyuh/src/tasks/store/transitions.rs.
pub mod WellFormed
pub mod Effects
use vyuh.Prelude.{
  ℕ, String, Bool, true, false, Option, none, some, if◌then◌else◌, Result, Done, ok, err, and_then,
  Exec, modify, ◌>>=◌, ◌>>◌, task_execution_error,
}
use vyuh.Prelude.Int.{ℤ, pos, checked_suc, i32_max}
use vyuh.Tasks.Externals.{Externals}
use vyuh.Tasks.Types.{TaskStatus, TaskRecord, TaskOutcome, TaskRetry}
use vyuh.Tasks.Retry
use vyuh.Tasks.Result.{unit_result, success, failure, validate_output}
use vyuh.Tasks.Store.Queries.{checked_deadline}

-- A terminal status.
unfoldable pub complete : TaskStatus → ℕ → Exec TaskRecord Done
complete status now =
    modify λ t. record t { status = status; ready_at = none; completed_at = some now }

pub suspend : String → Exec TaskRecord Done
suspend state = modify λ t. record t {
  last_result = none;
  step_attempts = pos 0;
  status = TaskStatus.suspended;
  state = some state;
  ready_at = none;
}

-- A field that a fallible computation gives: on an error the record stays as it was.
abbrev set_ready : Result (Option ℕ) → Exec TaskRecord Done
set_ready (ok at) t = (ok tt, record t { ready_at = at })
set_ready (err e) t = (err e, t)

abbrev set_ready_by : (TaskRecord → Result (Option ℕ)) → Exec TaskRecord Done
set_ready_by f t = set_ready (f t) t

abbrev is_retry : TaskOutcome → Bool
is_retry (TaskOutcome.retry error) = true
is_retry _ = false

module _ (x : Externals) where
  unfoldable pub sleep : String → ℕ → ℕ → Exec TaskRecord Done
  sleep state delay now = do
    modify λ t. record t {
      step_attempts = pos 0;
      last_result = none;
      status = TaskStatus.pending;
      state = some state;
    }
    set_ready (checked_deadline x now delay)

  pub fail : String → ℕ → Exec TaskRecord Done
  unfolding complete
  fail error now = do
    modify λ t. record t { last_result = some (failure x t.id error) }
    complete TaskStatus.failed now

  -- Another attempt, or the failure at the bound of attempts.
  pub retry : TaskRetry → String → ℕ → Exec TaskRecord Done
  unfolding complete
  retry policy error now = do
    modify λ t. record t { last_result = some (failure x t.id error) }
    spent ← (λ t. (Retry.exhausted policy t.step_attempts, t))
    if spent then complete TaskStatus.failed now else do
      modify λ t. record t { status = TaskStatus.pending }
      set_ready_by λ t. and_then (Retry.delay policy t.step_attempts) (checked_deadline x now)

  unfoldable pub succeed : String → ℕ → Exec TaskRecord Done
  unfolding complete
  succeed result now = do
    modify λ t. record t { last_result = some result }
    complete TaskStatus.succeeded now

  -- The match of `apply_outcome`.
  unfoldable pub transition : TaskOutcome → TaskRetry → ℕ → Exec TaskRecord Done
  unfolding succeed fail suspend sleep retry
  transition TaskOutcome.complete policy now = succeed unit_result now
  transition (TaskOutcome.complete_with output) policy now = elim (validate_output x output) [
    | ok _ ↦ succeed (success output) now
    | err e ↦ fail (x.error_text e) now
  ]
  transition (TaskOutcome.suspend state) policy now = suspend state
  transition (TaskOutcome.spawn state child) policy now = suspend state
  transition (TaskOutcome.all state children) policy now = suspend state
  transition (TaskOutcome.sleep state delay) policy now = sleep state delay now
  transition (TaskOutcome.retry error) policy now = retry policy error now
  transition (TaskOutcome.fail error) policy now = fail error now

  unfoldable pub apply_outcome : TaskOutcome → TaskRetry → ℕ → Exec TaskRecord Done
  unfolding transition
  apply_outcome outcome policy now = do
    transition outcome policy now
    modify λ t. record t {
      resume_input = if is_retry outcome then t.resume_input else none;
      node_id = none;
      updated_at = now;
    }

-- The attempts are counted, and the task runs on
-- the node. A counter that overflows ends the call with what was written before.
unfoldable pub claim_task : ℕ → ℕ → Exec TaskRecord Done
claim_task node now t = elim (checked_suc i32_max t.attempts) [
  | none ↦ (err (task_execution_error "task attempt count overflowed"), t)
  | some attempts ↦ elim (checked_suc i32_max t.step_attempts) [
    | none ↦ (
      err (task_execution_error "task step attempt count overflowed"),
      record t { attempts = attempts },
    )
    | some steps ↦ (
      ok tt,
      record t {
        attempts = attempts;
        step_attempts = steps;
        status = TaskStatus.running;
        node_id = some node;
        updated_at = now;
      },
    )
  ]
]

-- The body of `admit` is that of `claim_task`.
abbrev pub admit : ℕ → ℕ → Exec TaskRecord Done
admit = claim_task
