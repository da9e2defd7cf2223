-- ===== src/Tasks/Store/Recovery/Current.antt =====
-- What a runner gets back after a failure: `recover_tasks` in
-- vyuh/src/tasks/store/memory/recovery.rs.
use vyuh.Prelude.{
  ℕ, ◌≡◌, refl, subst, ◌==◌, ◌&&◌, if◌then◌else◌, Bool, true, false, some, List, [], ◌∷◌, All,
  All-append, Option-cases, inl, inr, get_elem?, find_from, find_from-some, eq_id, eq_id→eq,
  and_true, arith,
}
use vyuh.Prelude.Int.{eqb_ℤ}
use vyuh.Tasks.Types.{TaskRecord, TaskStatus, same_status}
use vyuh.Tasks.Store.Recovery.{is_current, Recovered, recover_task, recover_tasks}

-- A row that is stored, and that the node runs.
pub record IsCurrent (node : ℕ) (rows : List TaskRecord) (t : TaskRecord) : Type 0 where
  place : ℕ
  pub stored : get_elem? rows place ≡ some t
  pub running : t.status ≡ TaskStatus.running
  pub by : t.node_id ≡ some node
  uncancelled : t.cancelled ≡ false

-- A recovery of a lane that the runner still holds leaves the stored rows alone.
abbrev Kept : ℕ → List TaskRecord → Recovered → Type 0
Kept node rows r = (r.rows ≡ rows) × All (IsCurrent node rows) r.tasks

found-IsCurrent :
    (node : ℕ) (expected : TaskRecord) (rows : List TaskRecord) (i : ℕ) (t : TaskRecord)
    → find_from 0 (is_current node expected) rows ≡ some (i, t)
    → t.cancelled ≡ false
    → IsCurrent node rows t
found-IsCurrent node expected rows i t e c =
    let (k, at, here, test) = find_from-some 0 (is_current node expected) rows e in
    let (first, runs) =
      and_true
        (t.id == expected.id && eqb_ℤ t.attempts expected.attempts && eq_id t.node_id (some node))
        (same_status t.status TaskStatus.running) test in
    let (second, owner) =
      and_true (t.id == expected.id && eqb_ℤ t.attempts expected.attempts)
        (eq_id t.node_id (some node)) first in
    record {
      place = k;
      stored = here;
      running = running_lem t.status runs;
      by = eq_id→eq t.node_id (some node) owner;
      uncancelled = c;
    }
  where
    running_lem :
        (s : TaskStatus) → same_status s TaskStatus.running ≡ true → s ≡ TaskStatus.running
    running_lem s h = ground arith

if-Kept :
    (node : ℕ) (rows : List TaskRecord) (b : Bool) (m n : Recovered)
    → Kept node rows m
    → (b ≡ false → Kept node rows n)
    → Kept node rows (if b then m else n)
if-Kept node rows true m n h k = h
if-Kept node rows false m n h k = k refl

recover_task-Kept :
    (node now : ℕ) (expected : TaskRecord) (rows : List TaskRecord) (r : Recovered)
    → Kept node rows r
    → Kept node rows (recover_task node false now expected r)
recover_task-Kept node now expected rows r (same, given) =
    elim (Option-cases (find_from 0 (is_current node expected) r.rows)) [
      | inl e ↦ rw (e, recover_task) (same, given)
      | inr ((i, t), e) ↦
          rw (e, recover_task)
            (if-Kept node rows t.cancelled _ _ (same, given)
              λ c. (
                same,
                All-append (IsCurrent node rows) r.tasks (t ∷ []) given (
                  subst (λ l. IsCurrent node l t) same
                      (found-IsCurrent node expected r.rows i t e c),
                  tt,
                ),
              ))
    ]

recover_tasks-Kept :
    (node now : ℕ) (expected : List TaskRecord) (rows : List TaskRecord) (r : Recovered)
    → Kept node rows r
    → Kept node rows (recover_tasks node false now expected r)
unfolding recover_tasks
recover_tasks-Kept node now [] rows r h = h
recover_tasks-Kept node now (expected ∷ rest) rows r h =
    recover_tasks-Kept node now rest rows _ (recover_task-Kept node now expected rows r h)

-- A runner that still holds a lane, or whose lane has no lock, gets back only tasks that the store
-- holds as running on it and as not cancelled, each as it is stored, and the store's rows stay as
-- they were.
pub recover_tasks-IsCurrent :
    (node now : ℕ) (expected rows : List TaskRecord)
    → ((recover_tasks node false now expected
          (record { rows = rows; cancelled = []; tasks = [] })).rows
        ≡ rows)
      × All
          (IsCurrent node rows)
          (recover_tasks node false now expected
            (record { rows = rows; cancelled = []; tasks = [] })).tasks
recover_tasks-IsCurrent node now expected rows =
    recover_tasks-Kept node now expected rows (record { rows = rows; cancelled = []; tasks = [] })
      (refl, tt)
