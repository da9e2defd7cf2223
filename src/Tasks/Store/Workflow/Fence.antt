-- ===== src/Tasks/Store/Workflow/Fence.antt =====
-- The fence of outcomes: `owned_task` and `staged_task` in
-- vyuh/src/tasks/store/memory/workflow.rs.
use vyuh.Prelude.{
  ℕ, ◌≡◌, refl, ap, sym, ◌∙◌, ◌==◌, ◌&&◌, Bool, true, false, Option, none, some, String, List,
  get_elem?, Done, ok, ok_eq, and_then-ok, bind-ok, ok_or, invalid_config, arith, and_true, ==→eq,
  eq_id, eq_id→eq,
}
use vyuh.Prelude.Int.{ℤ, eqb_ℤ, eqb_ℤ→eq}
use vyuh.Tasks.Externals.{Externals}
use vyuh.Tasks.Types.{
  TaskRecord, TaskOutcome, TaskCommit, outcome, cancel, TaskStoreConf, TaskRetry, TaskStatus,
  same_status,
}
use vyuh.Tasks.Store.State.{MemoryState}
use vyuh.Tasks.Store.Queries.{finalize_idempotency, is_active}
use vyuh.Tasks.Store.Lifecycle.{apply_outcome, transition}
use vyuh.Tasks.Store.Commit.{accepts, commit_task}
use vyuh.Tasks.Store.Claim.{Delivery, Row, on_record}
use vyuh.Tasks.Store.Stage.{
  with_cancel, settled_row, lane_retry, owned_task, staged_task, settle_row, effective_outcome,
}
use vyuh.Tasks.Store.Workflow.Staged.{owned_task-some, strays}
use vyuh.Tasks.Store.Workflow.Rows.{id-queue_delivery}

-- The row that a commit is for: an outcome is for the attempt that its node runs, and a
-- cancellation is for any task that has not ended.
abbrev Holds : TaskCommit → TaskRecord → Type 0
Holds (outcome owner attempts id lane o token) t =
    (t.status ≡ TaskStatus.running) × (t.node_id ≡ some owner) × (t.attempts ≡ attempts)
Holds (cancel id) t = is_active t.status ≡ true

accepts-Holds :
    (c : TaskCommit) (t : TaskRecord) → accepts c t.status t.node_id t.attempts ≡ true → Holds c t
unfolding accepts
accepts-Holds (outcome owner attempts id lane o token) t h =
    let (first, count) =
      and_true (same_status t.status TaskStatus.running && eq_id t.node_id (some owner))
        (eqb_ℤ t.attempts attempts) h in
    let (runs, holder) =
      and_true (same_status t.status TaskStatus.running) (eq_id t.node_id (some owner)) first in
    (
      running_lem t.status runs,
      eq_id→eq t.node_id (some owner) holder,
      eqb_ℤ→eq t.attempts attempts count,
    )
  where
    running_lem :
        (s : TaskStatus) → same_status s TaskStatus.running ≡ true → s ≡ TaskStatus.running
    running_lem s e = ground arith
accepts-Holds (cancel id) t h = h

-- What the fence gives for the row `t` at position `i` that a commit may change, and for the row
-- `u` that it becomes.
pub record Fenced (s : MemoryState) (c : TaskCommit) (i : ℕ) (t u : TaskRecord) : Type 0 where
  pub stored : get_elem? s.tasks i ≡ some t
  named : t.id ≡ commit_task c
  accepted : Holds c t
  in_lane : strays c t ≡ false
  pub released : u.node_id ≡ none
  pub counted : u.attempts ≡ t.attempts
  pub spent :
      (owner : ℕ) (attempts : ℤ) (id : ℕ) (lane : String) (o : TaskOutcome) (token : Option String)
      → accepts (outcome owner attempts id lane o token) u.status u.node_id u.attempts ≡ false

module _ (x : Externals) where
  released-apply_outcome :
      (o : TaskOutcome) (policy : TaskRetry) (now : ℕ) (t : TaskRecord) {d : Done} {u : TaskRecord}
      → apply_outcome x o policy now t ≡ (ok d, u)
      → u.node_id ≡ none
  unfolding apply_outcome
  released-apply_outcome o policy now t {d} {u} h =
      let (d1, mid, done, rest) = bind-ok (transition x o policy now) _ t h in
      ap (λ r. r.1.node_id) (sym rest)

  attempts-apply_outcome :
      (o : TaskOutcome) (policy : TaskRetry) (now : ℕ) (t : TaskRecord)
      → (apply_outcome x o policy now t).1.attempts ≡ t.attempts
  unfolding apply_outcome transition
  attempts-apply_outcome (TaskOutcome.suspend s) policy now t = ground arith
  attempts-apply_outcome (TaskOutcome.all s l) policy now t = ground arith
  attempts-apply_outcome (TaskOutcome.spawn s l) policy now t = ground arith
  attempts-apply_outcome TaskOutcome.complete policy now t = ground arith
  attempts-apply_outcome (TaskOutcome.complete_with s) policy now t = ground arith
  attempts-apply_outcome (TaskOutcome.sleep s l) policy now t = ground arith
  attempts-apply_outcome (TaskOutcome.retry s) policy now t = ground arith
  attempts-apply_outcome (TaskOutcome.fail s) policy now t = ground arith

  kept-finalize_idempotency :
      (conf : TaskStoreConf) (now : ℕ) (t : TaskRecord)
      → ((finalize_idempotency x conf now t).1.node_id ≡ t.node_id)
        × ((finalize_idempotency x conf now t).1.attempts ≡ t.attempts)
  unfolding finalize_idempotency
  kept-finalize_idempotency conf now t = (ground arith, ground arith)

  settle_row-ok :
      (conf : TaskStoreConf) (o : TaskOutcome) (policy : TaskRetry) (now : ℕ) (t : TaskRecord)
      (ds : List Delivery) {d : Done} {row : Row}
      → settle_row x conf o policy now (t, ds) ≡ (ok d, row)
      → (row.0.node_id ≡ none) × (row.0.attempts ≡ t.attempts)
  unfolding settle_row
  settle_row-ok conf o policy now t ds {d} {row} h =
      let (d1, r1, e1, h1) = bind-ok (on_record (apply_outcome x o policy now)) _ (t, ds) h in
      let (d2, r2, e2, h2) = bind-ok (on_record (finalize_idempotency x conf now)) _ r1 h1 in
      let last : row.0 ≡ r2.0 = sym (ap (λ r. r.1.0) h2) ∙ id-queue_delivery r2 in
      let middle : r2.0 ≡ (finalize_idempotency x conf now r1.0).1 = sym (ap (λ r. r.1.0) e2) in
      let (owner, attempts) = kept-finalize_idempotency conf now r1.0 in
      let first : r1.0 ≡ (apply_outcome x o policy now t).1 = sym (ap (λ r. r.1.0) e1) in
      (
        ap (λ r. r.node_id) (last ∙ middle)
            ∙ owner
            ∙ released-apply_outcome o policy now t (λ i. ((e1 i).0, (e1 i).1.0)),
        ap (λ r. r.attempts) (last ∙ middle)
            ∙ attempts
            ∙ ap (λ r. r.attempts) first
            ∙ attempts-apply_outcome o policy now t,
      )

  settled :
      (s : MemoryState) (c : TaskCommit) (now : ℕ) (t u : TaskRecord)
      (children children' : List TaskRecord) (deliveries deliveries' : List Delivery)
      → staged_task x s t c now children deliveries ≡ ok (u, children', deliveries')
      → (u.node_id ≡ none) × (u.attempts ≡ t.attempts)
  unfolding staged_task
  settled s c now t u children children' deliveries deliveries' h =
      let (conf, e, h1) =
        and_then-ok (ok_or s.conf (invalid_config "task store is not initialized")) _ h in
      let ((o, cs), f, h2) =
        and_then-ok (effective_outcome x s conf (with_cancel x t c) c children now) _ h1 in
      let ((t', ds), g, h3) =
        and_then-ok (settled_row x conf o now (with_cancel x t c) deliveries) _ h2 in
      let (policy, k, h4) = and_then-ok (lane_retry x conf (with_cancel x t c)) _ g in
      let (d, k1, k2) =
        and_then-ok (settle_row x conf o policy now (with_cancel x t c, deliveries)).0 _ h4 in
      let row = (settle_row x conf o policy now (with_cancel x t c, deliveries)).1 in
      let (owner, attempts) =
        settle_row-ok conf o policy now (with_cancel x t c) deliveries {d = d} {row = row}
          (λ i. (k1 i, row)) in
      let same : u ≡ row.0 =
        sym (ap (λ r. r.0) (ok_eq _ _ h3)) ∙ sym (ap (λ r. r.0) (ok_eq _ _ k2)) in
      (ap (λ r. r.node_id) same ∙ owner, ap (λ r. r.attempts) same ∙ attempts)

  and_none : (a b : Bool) → (a && false && b) ≡ false
  and_none true b = refl
  and_none false b = refl

  spent_lem :
      (u : TaskRecord) (owner : ℕ) (attempts : ℤ) (id : ℕ) (lane : String) (o : TaskOutcome)
      (token : Option String)
      → u.node_id ≡ none
      → accepts (outcome owner attempts id lane o token) u.status u.node_id u.attempts ≡ false
  unfolding accepts
  spent_lem u owner attempts id lane o token e = rw e (and_none _ _)

  -- A commit that changes a row changes one that is stored under the commit's id, that the commit is
  -- for (an outcome is for the attempt that its node runs, a cancellation for any task that has not
  -- ended) and whose lane is the one that the commit names, if it names one. The row that it becomes
  -- has no owner and the same attempt count, and accepts no further outcome.
  pub staged_task-Fenced :
      (s : MemoryState) (c : TaskCommit) (now i : ℕ) (t u : TaskRecord)
      (children children' : List TaskRecord) (deliveries deliveries' : List Delivery)
      → owned_task s c ≡ ok (some (i, t))
      → staged_task x s t c now children deliveries ≡ ok (u, children', deliveries')
      → Fenced s c i t u
  staged_task-Fenced s c now i t u children children' deliveries deliveries' e h =
      let (at, test, lane) = owned_task-some s c i t e in
      let (same, fits) =
        and_true (t.id == commit_task c) (accepts c t.status t.node_id t.attempts) test in
      let (owner, attempts) = settled s c now t u children children' deliveries deliveries' h in
      record {
        stored = at;
        named = ==→eq t.id (commit_task c) same;
        accepted = accepts-Holds c t fits;
        in_lane = lane;
        released = owner;
        counted = attempts;
        spent = λ node attempts' id name o token. spent_lem u node attempts' id name o token owner;
      }
