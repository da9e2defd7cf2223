-- ===== src/Tasks/Store/Claim.antt =====
-- Claims of due tasks: vyuh/src/tasks/store/memory/store.rs. The actions run on the state of one
-- turn, which records every touched row for the rollback.
pub mod Bounds
use mathlib.Core.Option
use vyuh.Prelude.{
  ℕ, zero, suc, ◌-◌, ◌≤◌, min, String, Bool, true, false, not, ◌&&◌, ◌||◌, Option, none, some, List,
  [], ◌∷◌, ◌++◌, map, reverse, ltb, leb, ◌==◌, ◌=$◌, if◌then◌else◌, is_some, is_some_and, length,
  get_elem?, set, take, filter, find, any, sort, leb_option, leb_triple, lookup, insert, HashMap,
  Result, Done, ok, err, and_then, ok_or, Exec, pure, raise, lift, modify, gets, ◌>>=◌, ◌>>◌,
  task_execution_error, unknown_lane, invalid_config, unwrap_or,
}
use vyuh.Tasks.Externals.{Externals}
use vyuh.Tasks.Types.{
  TaskStatus, TaskKind, TaskRecord, TaskOutcome, TaskRetry, TaskRate, TaskStoreConf, TaskLaneConf,
  same_status, same_kind, find_lane,
}
use vyuh.Tasks.Retry
use vyuh.Tasks.Rate.{RateBucket, full_bucket, reserve, next_permit}
use vyuh.Tasks.Store.State.{MemoryState, Turn, LaneClaim, LanePoll}
use vyuh.Tasks.Store.Queries.{
  is_due, due_indices, readiness, Readiness, task_deadline, effective_lane_wake,
  finalize_idempotency,
}
use vyuh.Tasks.Store.Lifecycle.{apply_outcome, claim_task}
use vyuh.Tasks.Store.Commit.{cancellation, terminal_result}

abbrev pub Delivery : Type 0
Delivery = ℕ × String

-- One row, and the deliveries of the turn.
abbrev pub Row : Type 0
Row = TaskRecord × List Delivery

abbrev pub on_record {ℓ} : {A : Type ℓ} → Exec TaskRecord A → Exec Row A
on_record m (t, ds) = let (r, t') = m t in (r, (t', ds))

-- `get_mut(index)`, the push of the row on the undo list, and an action that mutates the row.
unfoldable pub touch {ℓ} : {A : Type ℓ} → String → ℕ → Exec Row A → Exec Turn A
touch missing i m turn = elim (get_elem? turn.state.tasks i) [
  | none ↦ (err (task_execution_error missing), turn)
  | some t ↦
      let (r, row) = m (t, turn.deliveries) in
      (
        r,
        record turn {
          state = record (turn.state) { tasks = set turn.state.tasks i row.0 };
          deliveries = row.1;
          undo = turn.undo ++ t ∷ [];
        },
      )
]

abbrev task_at : Turn → ℕ → Option TaskRecord
task_at turn i = get_elem? turn.state.tasks i

-- `candidates.sort_by_key(readiness)`
unfoldable pub by_readiness : List TaskRecord → ℕ → List ℕ → List ℕ
by_readiness tasks now indices =
    let key : ℕ → Option Readiness = λ i. Option.map (λ t. readiness t now) (get_elem? tasks i) in
    sort (λ i j. leb_option leb_triple (key i) (key j)) indices

-- The delivery of a terminal child's result to its parent.
unfoldable pub queue_delivery : Exec Row Done
queue_delivery (t, ds) = elim t.parent_id [
  | none ↦ (ok tt, (t, ds))
  | some parent ↦ elim (terminal_result t.status t.last_result) [
    | err e ↦ (err e, (t, ds))
    | ok none ↦ (ok tt, (t, ds))
    | ok (some result) ↦ (ok tt, (t, ds ++ (parent, result) ∷ []))
  ]
]

abbrev pub missing_candidate : String
missing_candidate = "task candidate disappeared during finalization"

module _ (x : Externals) where
  -- The finalization of one candidate, once it is known to be cancelled or exhausted.
  unfoldable pub finalize_row : TaskStoreConf → TaskRetry → TaskOutcome → ℕ → Exec Row Done
  unfolding queue_delivery
  finalize_row conf policy o now = do
    on_record (apply_outcome x o policy now)
    queue_delivery
    on_record (modify λ t. record t { node_id = none; updated_at = now })
    on_record (finalize_idempotency x conf now)

  abbrev pub final_outcome : TaskRecord → TaskOutcome
  final_outcome t =
      if t.cancelled then cancellation else TaskOutcome.fail "Maximum task attempts exhausted"

  -- One pass of the loop of `fail_exhausted`.
  unfoldable pub finalize_candidate : TaskStoreConf → TaskRetry → ℕ → ℕ → Exec Turn Done
  finalize_candidate conf policy now i turn = elim (task_at turn i) [
    | none ↦ (err (task_execution_error missing_candidate), turn)
    | some t ↦
        let finalized =
          touch missing_candidate i (finalize_row conf policy (final_outcome t) now) turn in
        if t.cancelled then finalized else elim (Retry.exhausted policy t.step_attempts) [
          | err e ↦ (err e, turn)
          | ok false ↦ (ok tt, turn)
          | ok true ↦ finalized
        ]
  ]

  unfoldable pub finalize_candidates : TaskStoreConf → TaskRetry → ℕ → List ℕ → Exec Turn Done
  finalize_candidates conf policy now [] = pure tt
  finalize_candidates conf policy now (i ∷ is) = do
    finalize_candidate conf policy now i
    finalize_candidates conf policy now is

  unfoldable pub fail_exhausted : String → ℕ → ℕ → TaskStoreConf → TaskRetry → Exec Turn Done
  fail_exhausted lane limit now conf policy turn =
      let tasks = turn.state.tasks in
      finalize_candidates conf policy now
        (take limit (by_readiness tasks now (due_indices tasks lane now))) turn

abbrev pub bounded_claim : LaneClaim → ℕ → LaneClaim
bounded_claim claim batch_size = record claim { limit = min claim.limit batch_size }

-- The candidates that the permits allow, in order: flows need none, and each other task takes one.
unfoldable pub permitted : List TaskRecord → ℕ → List ℕ → List ℕ
permitted tasks permits [] = []
permitted tasks permits (i ∷ is) = elim (get_elem? tasks i) [
  | none ↦ permitted tasks permits is
  | some t ↦
      let next = permitted tasks permits is in
      let spent = permitted tasks (permits - 1) is in
      if t.cancelled
      then next
      else if same_kind t.kind TaskKind.flow
      then i ∷ next
      else if permits == 0
      then next
      else i ∷ spent
]

abbrev is_flow_at : List TaskRecord → ℕ → Bool
is_flow_at tasks i = is_some_and (get_elem? tasks i) λ t. same_kind t.kind TaskKind.flow

abbrev is_running_at : List TaskRecord → ℕ → Bool
is_running_at tasks i = is_some_and (get_elem? tasks i) λ t. same_status t.status TaskStatus.running

-- The window of candidates that one claim looks at, and what it may claim of it.
unfoldable pub claim_window : List TaskRecord → LaneClaim → ℕ → ℕ → List ℕ
claim_window tasks claim permits now =
    let due = due_indices tasks claim.lane now in
    by_readiness tasks now (if permits == 0 then filter (is_flow_at tasks) due else due)

-- The claim of one row, and its snapshot.
unfoldable pub claim_row : ℕ → ℕ → Exec Row TaskRecord
claim_row runner now = do on_record (claim_task runner now); gets λ row. row.0

unfoldable pub claim_rows : ℕ → ℕ → List ℕ → Exec Turn (List TaskRecord)
unfolding claim_row
claim_rows runner now [] = pure []
claim_rows runner now (i ∷ is) = do
  t ← touch "task candidate disappeared during claim" i (claim_row runner now)
  ts ← claim_rows runner now is
  pure (t ∷ ts)

unfoldable pub claim_lane : ℕ → LaneClaim → ℕ → ℕ → Exec Turn LanePoll
claim_lane runner claim permits now turn =
    let tasks = turn.state.tasks in
    let window = claim_window tasks claim permits now in
    let chosen = permitted tasks permits (take claim.limit window) in
    (claim_rows runner now chosen >>= λ rows. pure (record {
      lane = claim.lane;
      tasks = rows;
      reclaimed = length (filter (is_running_at tasks) chosen);
      saturated = ltb 0 claim.limit && leb claim.limit (length window);
      next_wake_in = none;
      owner = none;
    }))
      turn
