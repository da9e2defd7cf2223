-- ===== src/Tasks/Store/Commit.antt =====
-- The commits that a store accepts: `TaskCommit` in vyuh/src/tasks/store/contract.rs, and the
-- stateless rules of vyuh/src/tasks/store/transitions.rs.
use Prim.Native.String.{len, ◌++◌}
use vyuh.Prelude.{
  ℕ, ◌+◌, max, String, Bool, true, false, not, ◌&&◌, ◌||◌, Option, none, some, List, [], ◌∷◌, ltb,
  leb, ◌==◌, ◌=$◌, if◌then◌else◌, is_none, is_some, is_none_or, is_some_and, eq_id, length, any,
  Result, Done, ok, err, invalid_options, task_execution_error,
}
use vyuh.Prelude.Int.{ℤ, eqb_ℤ, usize_max, saturate}
use vyuh.Tasks.Externals.{Externals}
use vyuh.Tasks.Types.{
  TaskStatus, TaskKind, TaskRecord, TaskWrite, TaskOutcome, TaskCommit, outcome, cancel,
  TaskStoreConf, same_status, same_kind, is_sticky, find_lane, max_task_delay,
}
use vyuh.Tasks.Result.{result_limit, validate_resume}
use vyuh.Tasks.Store.Queries.{is_active}

abbrev pub commit_task : TaskCommit → ℕ
commit_task (outcome owner attempts id lane o token) = id
commit_task (cancel id) = id

abbrev pub commit_lane : TaskCommit → Option String
commit_lane (outcome owner attempts id lane o token) = some lane
commit_lane (cancel id) = none

abbrev pub commit_outcome : TaskCommit → Option TaskOutcome
commit_outcome (outcome owner attempts id lane o token) = some o
commit_outcome (cancel id) = none

abbrev pub is_cancel : TaskCommit → Bool
is_cancel (cancel id) = true
is_cancel _ = false

unfoldable pub accepts : TaskCommit → TaskStatus → Option ℕ → ℤ → Bool
accepts (cancel id) status holder attempt = is_active status
accepts (outcome owner attempts id lane o token) status holder attempt =
    same_status status TaskStatus.running && eq_id holder (some owner) && eqb_ℤ attempt attempts

abbrev pub cancellation : TaskOutcome
cancellation = TaskOutcome.fail "Task cancelled"

-- `sticky`
unfoldable pub prefers_local : TaskRecord → TaskStoreConf → Bool
prefers_local t conf = is_some_and (find_lane conf t.lane) is_sticky

unfoldable pub direct : TaskRecord → TaskStoreConf → ℕ → Bool
direct t conf now =
    same_status t.status TaskStatus.pending
    && not t.cancelled
    && is_none_or t.ready_at (λ at. leb at now)
    && is_some_and (find_lane conf t.lane)
        λ c. is_none c.lane_lock && (same_kind t.kind TaskKind.flow || is_none c.global_rate)

abbrev registered : List (String × TaskKind) → TaskRecord → Bool
registered handlers t = any (λ h. h.0 =$ t.name && same_kind h.1 t.kind) handlers

-- The spawn check of both kinds, where no earlier rule applies.
abbrev child_error : TaskOutcome → List (String × TaskKind) → Option String
child_error (TaskOutcome.spawn state child) handlers =
    if not (registered handlers child.task)
    then some "Child task kind does not match registered handler"
    else none
child_error _ handlers = none

unfoldable pub capability_error : TaskKind → TaskOutcome → List (String × TaskKind) → Option String
capability_error TaskKind.work (TaskOutcome.sleep s d) hs = some "Work tasks cannot sleep or spawn"
capability_error TaskKind.work (TaskOutcome.spawn s c) hs = some "Work tasks cannot sleep or spawn"
capability_error TaskKind.work (TaskOutcome.all s c) hs = some "Work tasks cannot sleep or spawn"
capability_error TaskKind.flow (TaskOutcome.retry e) hs = some "Flow handlers cannot request retry"
capability_error kind o hs = child_error o hs

unfoldable pub terminal_result : TaskStatus → Option String → Result (Option String)
terminal_result TaskStatus.succeeded none =
    err (task_execution_error "Terminal outcome omitted its result")
terminal_result TaskStatus.failed none =
    err (task_execution_error "Terminal outcome omitted its result")
terminal_result TaskStatus.succeeded (some r) = ok (some r)
terminal_result TaskStatus.failed (some r) = ok (some r)
terminal_result status r = ok none

abbrev is_all : Option TaskOutcome → Bool
is_all (some (TaskOutcome.all s c)) = true
is_all _ = false

-- `weight` of an outcome, and `TaskCommit::weight`
abbrev outcome_weight : TaskOutcome → ℕ
outcome_weight (TaskOutcome.all s children) = saturate usize_max (length children + 1)
outcome_weight _ = 1

abbrev commit_weight : TaskCommit → ℕ
commit_weight (outcome owner attempts id lane o token) = outcome_weight o
commit_weight (cancel id) = 1

-- `try_fold` with `checked_add`
abbrev total_weight : ℕ → List TaskCommit → Option ℕ
total_weight sum [] = some sum
total_weight sum (c ∷ cs) =
    let rest = total_weight (sum + commit_weight c) cs in
    if leb (sum + commit_weight c) usize_max then rest else none

unfoldable pub validate_turn : List TaskCommit → ℕ → ℕ → Result Done
validate_turn commits batch maximum =
    if not (any (λ c. is_all (commit_outcome c)) commits)
    then ok tt
    else if ltb batch (length commits)
        || is_none_or (total_weight 0 commits)
            (λ sum. ltb (max batch (saturate usize_max (maximum + 1))) sum)
    then err (invalid_options "Expanded all flush exceeds its budget")
    else ok tt

abbrev invalid_child : TaskStoreConf → List ℕ → TaskWrite → Bool
invalid_child conf ids child =
    child.ignore_conflicts
    || is_some_and child.initial_delay (λ delay. ltb max_task_delay delay)
    || any (λ id. id == child.task.id) ids
    || not (registered conf.handlers child.task)
    || not (any (λ c. c.lane =$ child.task.lane) conf.lanes)
    || not (same_status child.task.status TaskStatus.pending)
    || child.task.cancelled
    || (is_some child.task.idempotency_key && is_none child.task.idempotency_fingerprint)

abbrev has_key : List (String × String) → String → Option String → Bool
has_key keys name none = false
has_key keys name (some key) = any (λ k. k.0 =$ name && k.1 =$ key) keys

abbrev add_key : List (String × String) → String → Option String → List (String × String)
add_key keys name none = keys
add_key keys name (some key) = (name, key) ∷ keys

-- The loop of `validate_group`, with the identities and keys that it has seen.
abbrev validate_children :
    TaskStoreConf → List ℕ → List (String × String) → List TaskWrite → Result Done
validate_children conf ids keys [] = ok tt
validate_children conf ids keys (child ∷ rest) =
    let t = child.task in
    let later = validate_children conf (t.id ∷ ids) (add_key keys t.name t.idempotency_key) rest in
    if invalid_child conf ids child
    then err (invalid_options "Invalid all child")
    else if has_key keys t.name t.idempotency_key
    then err (invalid_options "Duplicate all child key")
    else later

unfoldable pub validate_group : List TaskWrite → TaskStoreConf → Result Done
validate_group children conf =
    if ltb conf.max_all_children (length children)
    then err (invalid_options "Too many all children")
    else validate_children conf [] [] children

abbrev pub valid_envelope : Externals → String → Bool
valid_envelope x result = elim (validate_resume x result) [ ok _ ↦ true | err e ↦ false ]

pub data Appended : Type 0 where
  appended refused : String → Appended

-- The extended buffer, or the message of the refusal.
unfoldable pub append_result : Externals → String → Option String → Bool → Appended
append_result x buffer none terminal = refused "All child result is missing or nonterminal"
append_result x buffer (some result) false = refused "All child result is missing or nonterminal"
append_result x buffer (some result) true =
    let separator = if ltb 7 (len buffer) then "," else "" in
    if not (valid_envelope x result)
    then refused "All child result is malformed"
    else if ltb result_limit (len buffer + len separator + len result + 2)
    then refused "All results exceed the 32768-byte resume limit"
    else appended (buffer ++ separator ++ result)
