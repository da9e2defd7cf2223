-- ===== src/Tasks/Store/Workflow/Rows.antt =====
-- The actions on one row keep its identity, whether they succeed or fail.
use vyuh.Prelude.{ℕ, ◌≡◌, refl, ap, ◌∙◌, Keeps-bind, Exec, modify, none, arith}
use vyuh.Tasks.Externals.{Externals}
use vyuh.Tasks.Types.{TaskRecord, TaskOutcome, TaskRetry, TaskStoreConf}
use vyuh.Tasks.Store.Queries.{finalize_idempotency}
use vyuh.Tasks.Store.Lifecycle.{apply_outcome, transition, claim_task}
use vyuh.Tasks.Store.Claim.{Row, on_record, queue_delivery, finalize_row, claim_row}
use vyuh.Tasks.Store.LaneTurn.{release_row}
use vyuh.Tasks.Store.Stage.{settle_row}
use vyuh.Tasks.Store.Workflow.Undo.{KeepsId}

pub id-queue_delivery : (row : Row) → (queue_delivery row).1.0 ≡ row.0
unfolding queue_delivery
id-queue_delivery (t, ds) = ground arith

id-claim_task : (runner now : ℕ) (t : TaskRecord) → (claim_task runner now t).1.id ≡ t.id
unfolding claim_task
id-claim_task runner now t = ground arith

module _ (x : Externals) where
  id-apply_outcome :
      (o : TaskOutcome) (policy : TaskRetry) (now : ℕ) (t : TaskRecord)
      → (apply_outcome x o policy now t).1.id ≡ t.id
  unfolding apply_outcome transition
  id-apply_outcome (TaskOutcome.suspend s) policy now t = ground arith
  id-apply_outcome (TaskOutcome.all s l) policy now t = ground arith
  id-apply_outcome (TaskOutcome.spawn s l) policy now t = ground arith
  id-apply_outcome TaskOutcome.complete policy now t = ground arith
  id-apply_outcome (TaskOutcome.complete_with s) policy now t = ground arith
  id-apply_outcome (TaskOutcome.sleep s l) policy now t = ground arith
  id-apply_outcome (TaskOutcome.retry s) policy now t = ground arith
  id-apply_outcome (TaskOutcome.fail s) policy now t = ground arith

  id-finalize_idempotency :
      (conf : TaskStoreConf) (now : ℕ) (t : TaskRecord)
      → (finalize_idempotency x conf now t).1.id ≡ t.id
  unfolding finalize_idempotency
  id-finalize_idempotency conf now t = ground arith

on_record-KeepsId {ℓ} :
    {A : Type ℓ} (m : Exec TaskRecord A)
    → ((t : TaskRecord) → (m t).1.id ≡ t.id)
    → KeepsId (on_record m)
on_record-KeepsId m k n = record { at = λ (t, ds) h. k t ∙ h }

queue_delivery-KeepsId : KeepsId queue_delivery
queue_delivery-KeepsId n = record { at = λ row h. ap (λ t. t.id) (id-queue_delivery row) ∙ h }

pub claim_row-KeepsId : (runner now : ℕ) → KeepsId (claim_row runner now)
unfolding claim_row
claim_row-KeepsId runner now n =
    Keeps-bind _ _ (on_record-KeepsId (claim_task runner now) (id-claim_task runner now) n)
      λ _. record { at = λ row h. h }

pub release_row-KeepsId : (x : Externals) (now : ℕ) → KeepsId (release_row x now)
release_row-KeepsId x now n =
    on_record-KeepsId (modify λ t. record t { node_id = none; updated_at = now }) (λ t. refl) n

module _ (x : Externals) (conf : TaskStoreConf) (policy : TaskRetry) (o : TaskOutcome)
    (now : ℕ) where
  pub finalize_row-KeepsId : KeepsId (finalize_row x conf policy o now)
  unfolding finalize_row
  finalize_row-KeepsId n =
      Keeps-bind _ _
        (on_record-KeepsId (apply_outcome x o policy now) (id-apply_outcome x o policy now) n)
        λ _. Keeps-bind _ _ (queue_delivery-KeepsId n) λ _.
          Keeps-bind _ _
            (on_record-KeepsId (modify λ t. record t { node_id = none; updated_at = now })
              (λ t. refl) n)
            λ _.
              on_record-KeepsId (finalize_idempotency x conf now)
                (id-finalize_idempotency x conf now) n

  pub settle_row-KeepsId : KeepsId (settle_row x conf o policy now)
  unfolding settle_row
  settle_row-KeepsId n =
      Keeps-bind _ _
        (on_record-KeepsId (apply_outcome x o policy now) (id-apply_outcome x o policy now) n)
        λ _.
          Keeps-bind _ _
            (on_record-KeepsId (finalize_idempotency x conf now)
              (id-finalize_idempotency x conf now) n)
            λ _. queue_delivery-KeepsId n
