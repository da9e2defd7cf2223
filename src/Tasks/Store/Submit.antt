-- ===== src/Tasks/Store/Submit.antt =====
-- Submission: `stage_write` and its parts in vyuh/src/tasks/store/memory/store.rs.
pub mod Unique
use vyuh.Prelude.{
  ℕ, String, Bool, true, false, not, ◌&&◌, ◌||◌, Option, none, some, List, [], ◌∷◌, ◌++◌, reverse,
  ltb, ◌==◌, ◌=$◌, if◌then◌else◌, is_some_and, eq_text, any, find, Result, Done, ok, err, and_then,
  ok_or, task_not_found, unknown_lane, already_exists, idempotency_conflict,
}
use vyuh.Tasks.Externals.{Externals}
use vyuh.Tasks.Types.{TaskRecord, TaskWrite, TaskReceipt, queued, existing, ignored, TaskStoreConf}
use vyuh.Tasks.Store.State.{MemoryState}
use vyuh.Tasks.Store.Queries.{is_active, checked_deadline}

unfoldable pub require_handler : MemoryState → String → Result Done
require_handler s handler =
    if is_some_and s.conf (λ conf. any (λ h. h.0 =$ handler) conf.handlers)
    then ok tt
    else err (task_not_found handler)

unfoldable pub require_lane : MemoryState → String → Result Done
require_lane s lane =
    if is_some_and s.conf (λ conf. any (λ c. c.lane =$ lane) conf.lanes)
    then ok tt
    else err (unknown_lane lane)

unfoldable pub validate_write_lanes : MemoryState → List TaskWrite → Result Done
unfolding require_handler require_lane
validate_write_lanes s [] = ok tt
validate_write_lanes s (w ∷ ws) =
    and_then (require_lane s w.task.lane)
      λ _. and_then (require_handler s w.task.name) λ _. validate_write_lanes s ws

unfoldable pub idempotency_held : TaskRecord → ℕ → Bool
idempotency_held t now =
    is_active t.status || is_some_and t.idempotency_expires_at (λ expiry. ltb now expiry)

-- The test of a task that still holds a key for a handler.
abbrev holds_key : String → String → ℕ → TaskRecord → Bool
holds_key name key now t =
    t.name =$ name && eq_text t.idempotency_key (some key) && idempotency_held t now

-- Newest first: the staged writes, then the stored tasks.
unfoldable pub matching_key : List TaskRecord → List TaskRecord → TaskRecord → ℕ → Option TaskRecord
matching_key stored staged t now = elim t.idempotency_key [
  | none ↦ none
  | some key ↦ find (holds_key t.name key now) (reverse staged ++ reverse stored)
]

abbrev ready_time : Externals → TaskWrite → ℕ → Result (Option ℕ)
ready_time x w now = elim w.initial_delay [
  | some delay ↦ checked_deadline x now delay
  | none ↦ ok (some now)
]

abbrev same_intent : TaskRecord → TaskRecord → Bool
same_intent owner t = eq_text owner.idempotency_fingerprint t.idempotency_fingerprint

-- The receipt of a write whose key another task holds.
abbrev conflict : TaskRecord → TaskRecord → Bool → Result TaskReceipt
conflict owner t ignore_conflicts =
    if same_intent owner t
    then ok (existing owner.id)
    else if ignore_conflicts
    then ok (ignored owner.id)
    else err (idempotency_conflict owner.id)

abbrev pub stamped : TaskRecord → Option ℕ → ℕ → TaskRecord
stamped t ready now = record t { created_at = now; updated_at = now; ready_at = ready }

-- The staged writes come back with the receipt.
unfoldable pub stage_write :
    Externals
    → List TaskRecord
    → List TaskRecord
    → TaskWrite
    → ℕ
    → Result (TaskReceipt × List TaskRecord)
unfolding matching_key
stage_write x stored staged w now = and_then (ready_time x w now) λ ready.
    let t = stamped w.task ready now in
    if any (λ u. u.id == t.id) (stored ++ staged)
    then err (already_exists t.id)
    else elim (matching_key stored staged t now) [
      | some owner ↦ and_then (conflict owner t w.ignore_conflicts) λ receipt. ok (receipt, staged)
      | none ↦ ok (queued t.id, staged ++ t ∷ [])
    ]

-- The loop of `store_tasks`: the receipts in order, and all staged writes.
unfoldable pub stage_writes :
    Externals
    → List TaskRecord
    → List TaskRecord
    → List TaskWrite
    → ℕ
    → Result (List TaskReceipt × List TaskRecord)
stage_writes x stored staged [] now = ok ([], staged)
stage_writes x stored staged (w ∷ ws) now =
    and_then (stage_write x stored staged w now) λ (receipt, staged').
      and_then (stage_writes x stored staged' ws now)
        λ (receipts, all_staged). ok (receipt ∷ receipts, all_staged)

unfoldable pub store_tasks :
    Externals → List TaskWrite → ℕ → MemoryState → Result (List TaskReceipt × MemoryState)
unfolding validate_write_lanes stage_writes
store_tasks x writes now s = and_then (validate_write_lanes s writes) λ _.
    and_then (stage_writes x s.tasks [] writes now)
      λ (receipts, staged). ok (receipts, record s { tasks = s.tasks ++ staged })
