-- ===== src/Examples/Data.antt =====
-- A clock and encoders that behave as documented, and a small store.
use Prim.Native.String.{◌++◌ as text_append}
use vyuh.Prelude.{
  ℕ, ◌+◌, ◌-◌, ◌*◌, leb, if◌then◌else◌, String, true, false, Option, none, some, [], ◌∷◌, ◌≡◌, refl,
  arith,
}
use vyuh.Prelude.Int.{pos}
use vyuh.Tasks.Externals.{Externals, ClockLaws}
use vyuh.Tasks.Types.{
  TaskStatus, TaskKind, TaskRecord, TaskOutcome, TaskRetry, TaskRate, IdempotencyRetention,
  TaskLaneConf, TaskStoreConf, TaskCommit, outcome, nanos,
}
use vyuh.Tasks.Result.Failure.{TextLaws}
use vyuh.Tasks.Store.State.{MemoryState, LaneClaim, Turn}

abbrev later : ℕ → ℕ → Option ℕ
later t d = some (t + d)

abbrev earlier : ℕ → ℕ → Option ℕ
earlier t d = if leb d t then some (t - d) else none

abbrev quoted : String → String
quoted s = text_append "\"" (text_append s "\"")

abbrev pub world : Externals
world = record {
  from_std = λ d. some d;
  checked_add_signed = later;
  checked_sub_signed = earlier;
  is_json = λ s. true;
  is_envelope = λ s. true;
  json_text = quoted;
  error_text = λ e. "error";
  uuid_text = λ id. "00000000-0000-0000-0000-000000000000";
  now_v7 = λ k. 1000 + k;
}

sub_exact_lem : (t d : ℕ) {r : ℕ} → earlier t d ≡ some r → r + d ≡ t
sub_exact_lem t d h = ground arith

pub world_clock : ClockLaws world
world_clock = record {
  from_std_exact = λ d h. cc;
  add_exact = λ t d h. cc;
  sub_exact = λ t d h. sub_exact_lem t d h;
}

pub world_text : TextLaws world
world_text = record { uuid_len = λ id. refl; empty_text = refl }

abbrev pub patient : TaskRetry
patient = record { max_attempts = 3; initial_delay = 5 * nanos; max_delay = 60 * nanos }

abbrev pub five_a_second : TaskRate
five_a_second = record { permits = 5; period = nanos; burst = 2 }

abbrev pub mail : TaskLaneConf
mail = record {
  lane = "mail";
  concurrency = 4;
  claim_batch_size = 8;
  lane_lock = none;
  rate = none;
  global_rate = some five_a_second;
  retry = patient;
  idempotency_retention = IdempotencyRetention.active_only;
  sticky = false;
  flow_cache_bytes = 0;
}

abbrev pub conf : TaskStoreConf
conf = record {
  max_all_children = 16;
  handlers = ("send", TaskKind.work) ∷ [];
  lanes = mail ∷ [];
  idempotency =
      record {
        handler = "send";
        lane = "mail";
        revision = "1";
        retention = IdempotencyRetention.active_only;
      }
      ∷ [];
  poll_interval = nanos;
}

abbrev pub waiting : ℕ → TaskRecord
waiting id = record {
  id = id;
  parent_id = none;
  root_id = none;
  kind = TaskKind.work;
  name = "send";
  input = "{}";
  state = none;
  resume_input = none;
  status = TaskStatus.pending;
  cancelled = false;
  attempts = pos 0;
  step_attempts = pos 0;
  lane = "mail";
  last_result = none;
  idempotency_key = none;
  idempotency_fingerprint = none;
  idempotency_expires_at = none;
  node_id = none;
  ready_at = some 100;
  created_at = 100;
  updated_at = 100;
  completed_at = none;
}

-- The same task as node 7 runs it for the first time.
abbrev pub running_on_7 : ℕ → TaskRecord
running_on_7 id = record (waiting id) {
  status = TaskStatus.running;
  attempts = pos 1;
  step_attempts = pos 1;
  node_id = some 7;
}

abbrev pub store : MemoryState
store = record {
  nodes = (7, (100, 100)) ∷ [];
  tasks = running_on_7 1 ∷ waiting 2 ∷ [];
  conf = some conf;
  rates = [];
  schedules = [];
  lane_locks = [];
  waits = [];
}

abbrev pub turn : Turn
turn = record { state = store; deliveries = []; undo = []; uuids = 0 }

abbrev pub done_by_7 : TaskCommit
done_by_7 = outcome 7 (pos 1) 1 "mail" TaskOutcome.complete none

abbrev pub claim_of : String → LaneClaim
claim_of lane = record { lane = lane; limit = 8; owner = none }
