-- ===== src/Tasks/Store/Lifecycle/Effects.antt =====
-- What an accepted outcome does to its record.
use vyuh.Prelude.{ℕ, none, ◌≡◌, ok, err, arith, if◌then◌else◌, leb}
use vyuh.Prelude.Int.{neg_part, pos_part}
use vyuh.Tasks.Externals.{Externals}
use vyuh.Tasks.Types.{TaskStatus, TaskRecord, TaskOutcome, TaskRetry}
use vyuh.Tasks.Result.{validate_output}
use vyuh.Tasks.Retry.{exhausted}
use vyuh.Tasks.Store.Lifecycle.{apply_outcome, transition, is_retry}

-- The status that an outcome leads to, from the attempts since the last checkpoint.
abbrev next_status : Externals → TaskOutcome → TaskRetry → ℕ → TaskStatus
next_status x (TaskOutcome.all s l) policy steps = TaskStatus.suspended
next_status x TaskOutcome.complete policy steps = TaskStatus.succeeded
next_status x (TaskOutcome.complete_with output) policy steps = elim (validate_output x output) [
  | ok _ ↦ TaskStatus.succeeded
  | err e ↦ TaskStatus.failed
]
next_status x (TaskOutcome.spawn s l) policy steps = TaskStatus.suspended
next_status x (TaskOutcome.suspend s) policy steps = TaskStatus.suspended
next_status x (TaskOutcome.sleep s d) policy steps = TaskStatus.pending
next_status x (TaskOutcome.retry e) policy steps =
    if leb policy.max_attempts steps then TaskStatus.failed else TaskStatus.pending
next_status x (TaskOutcome.fail e) policy steps = TaskStatus.failed

-- The parts of a record that identify it and that no outcome changes.
pub record SameTask (t u : TaskRecord) : Type 0 where
  pub id : u.id ≡ t.id
  pub parent_id : u.parent_id ≡ t.parent_id
  pub root_id : u.root_id ≡ t.root_id
  pub kind : u.kind ≡ t.kind
  pub name : u.name ≡ t.name
  pub lane : u.lane ≡ t.lane
  pub input : u.input ≡ t.input
  pub cancelled : u.cancelled ≡ t.cancelled
  pub attempts : u.attempts ≡ t.attempts
  pub key : u.idempotency_key ≡ t.idempotency_key

-- The whole effect of an accepted outcome at time `now`.
pub record Settled (x : Externals) (o : TaskOutcome) (policy : TaskRetry) (now : ℕ)
    (t u : TaskRecord) : Type 0 where
  pub same : SameTask t u
  pub status : u.status ≡ next_status x o policy (pos_part t.step_attempts)
  pub released : u.node_id ≡ none
  pub stamped : u.updated_at ≡ now
  pub resume : u.resume_input ≡ (if is_retry o then t.resume_input else none)

module _ (x : Externals) (policy : TaskRetry) (now : ℕ) where
  -- An outcome that the store accepts leads to the status that the lifecycle prescribes for it,
  -- gives up the execution's node, stamps the record, keeps the resume input for a retry, also
  -- one that has no attempt left, and clears it for every other outcome, and keeps the record's
  -- identity and its attempts, provided that the attempts are not negative.
  pub apply_outcome-Settled :
      (o : TaskOutcome) (t : TaskRecord)
      → neg_part t.step_attempts ≡ 0
      → (apply_outcome x o policy now t).0 ≡ ok tt
      → Settled x o policy now t (apply_outcome x o policy now t).1
  unfolding apply_outcome transition exhausted
  apply_outcome-Settled (TaskOutcome.suspend s) t c h = ground arith
  apply_outcome-Settled (TaskOutcome.all s l) t c h = ground arith
  apply_outcome-Settled (TaskOutcome.spawn s l) t c h = ground arith
  apply_outcome-Settled TaskOutcome.complete t c h = ground arith
  apply_outcome-Settled (TaskOutcome.complete_with s) t c h = ground arith
  apply_outcome-Settled (TaskOutcome.sleep s l) t c h = ground arith
  apply_outcome-Settled (TaskOutcome.retry s) t c h = ground arith
  apply_outcome-Settled (TaskOutcome.fail s) t c h = ground arith
