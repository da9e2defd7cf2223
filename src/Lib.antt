-- ===== src/Lib.antt =====
-- Parts of vyuh: what its task runtime does in its in-memory reference store, what its cache does,
-- and what its channels do, and why they are right.
--
-- A task is a record with a status, an owner and counters of its attempts. Writers submit tasks to
-- a store; runners claim due tasks of a lane, run them, and commit their outcomes in turns. A lane
-- may have a rate, which a shared token bucket enforces, and a lock, which one runner at a time
-- holds under a lease. A flow may wait for a group of children, whose results are joined when the
-- last of them ends. This part is in vyuh/src/tasks of the repository.
--
-- The cache, in vyuh/src/cache, gives an application typed handles. A handle names a provider and
-- namespaces; it makes a canonical key of them and the application's key, serializes the value, and
-- calls the provider of that name in its site's registry. The provider in the process keeps
-- values that expire in a bounded store, from which the least recently used go first.
--
-- Channels, in vyuh/src/channels, deliver the signals of an application to its users. A user opens a
-- channel with rules; a published signal goes to the log and the sessions of the channels whose rule
-- accepts it, at once or after a window of quiet, and a session that comes back is sent what the log
-- still has after its cursor.
--
-- Which file models what:
-- - Tasks/Types: the persisted values of models.rs, failure.rs, outcome.rs, submission.rs,
--   config.rs, lane_lock.rs and store/contract.rs. Times and durations are nanoseconds, a UUID is
--   its number, JSON is text.
-- - Tasks/Retry: `TaskRetry::exhausted` and `TaskRetry::delay` of config.rs. Tasks/Retry/Backoff
--   has the closed form of the delay.
-- - Tasks/Rate: the bucket of rate.rs, and its share of `reserve_permits` of store/memory/store.rs.
--   Below it, Steps, Refill, Window and Sequence follow the tokens of one refill, one reservation
--   and any sequence of them; Drift follows refills at one instant.
-- - Tasks/Result: the envelopes of result.rs. Tasks/Result/Failure follows the loop of `failure`.
-- - Tasks/Store/Queries: store/memory/queries.rs without the listing of tasks.
-- - Tasks/Store/Lifecycle: `apply_outcome` and `claim_task` of store/memory/store.rs with the
--   transitions that they call. Effects and WellFormed below it say what they do to a record.
-- - Tasks/Store/State: `MemoryState` of store/memory/store.rs, the values of store/lane.rs and the
--   polls of store/contract.rs; also `Turn`, the mutable arguments that one turn threads.
-- - Tasks/Store/Commit: store/transitions.rs and the fence of a commit in store/contract.rs.
-- - Tasks/Store/Submit: `store_tasks` and `stage_write` of store/memory/store.rs; Unique below it.
-- - Tasks/Store/Claim and Reserve: `claim_lane`, `fail_exhausted`, `reserve_permits` and
--   `claim_lane_state` of store/memory/store.rs; Claim/Bounds says how much a claim hands out.
-- - Tasks/Store/LaneOwner, LanePhase and LaneTurn: store/memory/lane_owner.rs, and
--   `claim_tasks_state` of store.rs; LaneOwner/Exclusive says who is given a lane, LaneOwner/Hooks
--   how the end of a hook moves its phase.
-- - Tasks/Store/Stage, Finish, Deliver and Workflow: store/memory/workflow.rs. Stage has the outcomes
--   before any row changes, Deliver and Finish the infallible end of a turn, Workflow the turn and
--   its rollback; below it, Undo, Rows, Claims, Owned, Lanes, Staged and Atomic take a failed turn
--   back, and Fence follows one commit. Deliver/Grouping counts the deliveries of each parent.
-- - Tasks/Store/Nodes: registration, heartbeats, the return of claims, the move of a lane and
--   `resume`; Tasks/Store/Schedule: `store_scheduled` and `store_admitted_impl`;
--   Tasks/Store/Operations: initialization and the operations that run a turn. All are in
--   store/memory/store.rs, queries.rs and workflow.rs.
-- - Tasks/Store/Recovery: store/memory/recovery.rs.
-- - Cache/Store: cache/memory_store.rs. Entries has the map without repeated keys, Sound the
--   eviction, Marks and Bounded each operation, Reach their runs; Kept says that a new value stays,
--   Reads what an operation leaves of other values.
-- - Cache/Memory: cache/memory.rs and the lifetimes of cache/provider.rs, Cache/Integers the numbers
--   in it. Below it, ReadBack follows a value that was set, Counting an increment.
-- - Cache/Key: cache/key.rs. Text reads a key's parts back, Apart tells keys apart, Clearing clears
--   one provider.
-- - Cache/Provider, Config and Runtime: the contract of cache/provider.rs with the provider of
--   memory.rs, cache/config.rs, and cache/runtime.rs, with the failures of cache/error.rs in
--   Cache/Error. Config/Default, Runtime/Bulk and Runtime/ReadBack are about them.
-- - Channels/Types: channels/types.rs and the envelope of fanout.rs. Channels/Log: channels/log.rs,
--   with Newest on what it keeps. Channels/Fanout: `FanoutDedup` of runtime.rs, with Tracked and
--   Recent on what it remembers. Channels/Debounce: utils/debounce.rs, with Quiet on what a window
--   emits, by Generations on its deadlines.
-- - Channels/State: `LocalChannelState` of channels/runtime.rs and the functions on it. Places says
--   where a channel stands, Targets and Indexed follow the index by types, Sound the bounds.
-- - Channels/Runtime: the operations of `SubscriptionRuntime` but for publications. Sound and Reach
--   follow their runs, each step of which is made under the lock; Reopen and Limit follow
--   `open_user`.
-- - Channels/Publish: its publications, with Chosen, Appending and Delivery on whom they
--   reach.
-- - Channels/Scheduler: the turns of `run_debounce` of channels/runtime.rs, and the queue of deadlines of
--   utils/debounce.rs at the time of a turn.
-- - Prelude: lists, options, association lists, results and actions with a mutable value.
-- - Examples: a concrete clock and store, and the theorems at them.
--
-- How the code is modelled: a function that mutates its arguments is an action, a function from the
-- old value to a result and the new value, so that what was written before an error stays written.
-- A `BTreeMap` is an association list. The loop of `failure` runs on fuel, one more than the bytes of
-- the message, which is enough since every pass cuts the message; the loop of `evict` on one more
-- than the markers, of which every pass but the last takes one; the digits of a number on the
-- number. All other loops are structural.
-- A `HashMap` is one too; where the cache visits it, the order is the parameter RandomState. A text
-- is a String where it is only compared, and its UTF-8 bytes in the cache. Time in the cache is an
-- argument, in Cache/Provider the readings of the clock to come.
-- A queue of tokio is the record Mpsc, its sending end a part of the state; what other tasks do to it
-- is a step of a run.
-- What comes from chrono, serde_json, uuid and thiserror is the record Externals (Codec in the
-- cache), and what these
-- packages document of it is ClockLaws and TextLaws. i32, i64, i128, u64 and usize keep their
-- bounds: saturating, checked and wrapping operations are written out, and a `+= 1` wraps around as
-- in a release build.
--
-- Not modelled: the store over SQL, whose statements a database runs; the runner, which is
-- asynchronous; the listing of tasks; the mutex and the notifications around the state, so that an
-- operation is one step; the metrics of the cache; in channels the cursors, Beacon and the
-- transports; and all subsystems of vyuh other than these.
pub mod Prelude
pub mod Cache
pub mod Channels
pub mod Tasks
pub mod Examples
