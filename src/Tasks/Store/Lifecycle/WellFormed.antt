-- ===== src/Tasks/Store/Lifecycle/WellFormed.antt =====
-- What every stored task record satisfies, kept by each transition.
use vyuh.Prelude.{
  ℕ, ◌≤◌, String, Bool, true, false, Option, none, some, is_some, ◌≡◌, refl, Result, Done, ok, err,
  arith, not, ◌||◌, ◌+◌, Option-cases, inl, inr, sym, ap, TaskRuntimeError,
}
use vyuh.Prelude.Int.{ℤ, pos, negsuc, neg_part, pos_part, checked_suc, i32_max}
use vyuh.Tasks.Externals.{Externals}
use vyuh.Tasks.Types.{TaskStatus, TaskRecord, TaskOutcome, TaskRetry}
use vyuh.Tasks.Store.Lifecycle.{apply_outcome, transition, claim_task}

-- Only a running task has an owner.
abbrev Owned : TaskStatus → Option ℕ → Type 0
Owned status none = Unit
Owned status (some node) = status ≡ TaskStatus.running

-- The fields that go with each status: a terminal task has its result and its completion time and
-- is never ready again, and a waiting or running one has not completed.
abbrev Timed : TaskStatus → Option ℕ → Option ℕ → Option String → Type 0
Timed TaskStatus.pending ready completed result = completed ≡ none
Timed TaskStatus.running ready completed result = completed ≡ none
Timed TaskStatus.suspended ready completed result = (ready ≡ none) × (completed ≡ none)
Timed TaskStatus.succeeded ready completed result =
    (ready ≡ none) × (is_some completed ≡ true) × (is_some result ≡ true)
Timed TaskStatus.failed ready completed result =
    (ready ≡ none) × (is_some completed ≡ true) × (is_some result ≡ true)

-- A cancelled task has failed.
abbrev Stopped : Bool → TaskStatus → Type 0
Stopped true status = status ≡ TaskStatus.failed
Stopped false status = Unit

-- The attempts since the last checkpoint are among all attempts.
pub record IsCounted (t : TaskRecord) : Type 0 where
  pub counted : neg_part t.attempts ≡ 0
  pub stepped : neg_part t.step_attempts ≡ 0
  pub steps : pos_part t.step_attempts ≤ pos_part t.attempts

pub record IsWellFormed (t : TaskRecord) : Type 0 where
  pub owned : Owned t.status t.node_id
  pub timed : Timed t.status t.ready_at t.completed_at t.last_result
  pub stopped : Stopped t.cancelled t.status
  pub attempted : IsCounted t

checked_suc-pos :
    (limit : ℕ) (z : ℤ) {r : ℤ}
    → neg_part z ≡ 0
    → checked_suc limit z ≡ some r
    → r ≡ pos (pos_part z + 1)
checked_suc-pos limit (pos n) e h = ground arith
checked_suc-pos limit (negsuc n) e h = absurd (omega arith)

-- What a claim does when neither counter overflows.
abbrev pub claimed : TaskRecord → ℕ → ℕ → ℤ → ℤ → TaskRecord
claimed t node now attempts steps = record t {
  attempts = attempts;
  step_attempts = steps;
  status = TaskStatus.running;
  node_id = some node;
  updated_at = now;
}

pub claim_task-ok :
    (node now : ℕ) (t : TaskRecord) {t' : TaskRecord}
    → claim_task node now t ≡ (ok tt, t')
    → (a : ℤ) × (s : ℤ) × (checked_suc i32_max t.attempts ≡ some a)
      × (checked_suc i32_max t.step_attempts ≡ some s)
      × (t' ≡ claimed t node now a s)
unfolding claim_task
claim_task-ok node now t h = elim (Option-cases (checked_suc i32_max t.attempts)) [
  | inl e ↦ absurd (failed (rw (e, claim_task) at h))
  | inr (a, e) ↦ elim (Option-cases (checked_suc i32_max t.step_attempts)) [
    | inl f ↦ absurd (failed (rw (e, f, claim_task) at h))
    | inr (s, f) ↦ (a, s, e, f, sym (ap (λ r. r.1) (rw (e, f, claim_task) at h)))
  ]
]
  where
    failed :
        {er : TaskRuntimeError} {u v : TaskRecord}
        → ◌≡◌ {A = Result Done × TaskRecord} (err er, u) (ok tt, v)
        → ⊥
    failed e = cc (ap (λ r. r.0) e)

claimed-IsWellFormed :
    (t : TaskRecord) (node now : ℕ) (a s : ℤ)
    → IsWellFormed t
    → t.cancelled ≡ false
    → t.completed_at ≡ none
    → a ≡ pos (pos_part t.attempts + 1)
    → s ≡ pos (pos_part t.step_attempts + 1)
    → IsWellFormed (claimed t node now a s)
claimed-IsWellFormed t node now a s w c d e f = record {
  owned = refl;
  timed = d;
  stopped = rw c tt;
  attempted = record {
    counted = rw e;
    stepped = rw f;
    steps = rw (e, f) (omega (arith, w.attempted.steps));
  };
}

-- The claim of a well-formed task that is neither cancelled nor completed gives a well-formed task,
-- whether the task was waiting or lost its runner.
pub claim_task-IsWellFormed :
    (node now : ℕ) (t : TaskRecord) {t' : TaskRecord}
    → IsWellFormed t
    → t.cancelled ≡ false
    → t.completed_at ≡ none
    → claim_task node now t ≡ (ok tt, t')
    → IsWellFormed t'
claim_task-IsWellFormed node now t w c d h =
    let (a, s, ea, es, e) = claim_task-ok node now t h in
    rw e (
      claimed-IsWellFormed t node now a s w c d
        (checked_suc-pos i32_max t.attempts w.attempted.counted ea)
        (checked_suc-pos i32_max t.step_attempts w.attempted.stepped es))

abbrev is_fail : TaskOutcome → Bool
is_fail (TaskOutcome.fail error) = true
is_fail _ = false

module _ (x : Externals) (policy : TaskRetry) (now : ℕ) where
  -- An accepted outcome: whatever it is, a record with its attempts in order and not yet completed
  -- becomes a well-formed record. A cancelled one may only be failed.
  pub apply_outcome-IsWellFormed :
      (o : TaskOutcome) (t : TaskRecord)
      → IsCounted t
      → (not t.cancelled || is_fail o) ≡ true
      → t.completed_at ≡ none
      → (apply_outcome x o policy now t).0 ≡ ok tt
      → IsWellFormed (apply_outcome x o policy now t).1
  unfolding apply_outcome transition
  apply_outcome-IsWellFormed (TaskOutcome.suspend s) t w c d h = ground arith
  apply_outcome-IsWellFormed (TaskOutcome.all s l) t w c d h = ground arith
  apply_outcome-IsWellFormed (TaskOutcome.spawn s l) t w c d h = ground arith
  apply_outcome-IsWellFormed TaskOutcome.complete t w c d h = ground arith
  apply_outcome-IsWellFormed (TaskOutcome.complete_with s) t w c d h = ground arith
  apply_outcome-IsWellFormed (TaskOutcome.sleep s l) t w c d h = ground arith
  apply_outcome-IsWellFormed (TaskOutcome.retry s) t w c d h = ground arith
  apply_outcome-IsWellFormed (TaskOutcome.fail s) t w c d h = ground arith
