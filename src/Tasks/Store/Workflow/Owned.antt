-- ===== src/Tasks/Store/Workflow/Owned.antt =====
-- A turn's claim of a locked lane can be taken back; its lock is out of the state meanwhile.
use mathlib.Core.Option
use vyuh.Prelude.{
  ℕ, min, Bool, true, false, if◌then◌else◌, Option, none, some, String, List, [], ◌∷◌, Option-cases,
  inl, inr, Keeps, Keeps-read, Keeps-bind, Exec, Result, ok, err, lookup, remove, HashMap, text_key,
  is_some, Bool-cases,
}
use vyuh.Tasks.Externals.{Externals}
use vyuh.Tasks.Types.{TaskLaneConf}
use vyuh.Tasks.Store.State.{MemoryState, Turn, MemoryLaneLock, LaneClaim, LanePoll}
use vyuh.Tasks.Store.Reserve.{reservation}
use vyuh.Tasks.Store.LaneOwner.{memory_action, memory_poll, request_token}
use vyuh.Tasks.Store.LanePhase.{
  Lane, on_owner, lock_size, require_conf, count_work, memory_claim, flush_cohort, memory_flush,
  memory_flush_wake, memory_flush_poll, poll_candidates, memory_phase_poll, wake_idle_failure,
}
use vyuh.Tasks.Store.LaneTurn.{
  settle, poll_owned, lane_turn, lost_lane, claim_owned_inner, claim_owned_state,
}
use vyuh.Tasks.Store.Workflow.Undo.{ids, Distinct, Undoable}
use vyuh.Tasks.Store.Workflow.Claims.{
  fail_exhausted-Keeps, release_rows-Keeps, claim_lane_state-Keeps, reserve_permits-Keeps,
}

module _ (x : Externals) (s : MemoryState) (d : Distinct (ids s.tasks)) where
  abbrev LaneUndoable : Lane → Type 0
  LaneUndoable lane = Undoable s lane.0

  relocked :
      {turn : Turn} {locks : HashMap String MemoryLaneLock}
      → Undoable s turn
      → Undoable s (record turn { state = record (turn.state) { lane_locks = locks } })
  relocked u = record {
    back = u.back;
    same_ids = u.same_ids;
    nodes = u.nodes;
    conf = u.conf;
    schedules = u.schedules;
    waits = u.waits;
  }

  touched : {turn : Turn} {uuids : ℕ} → Undoable s turn → Undoable s (record turn { uuids = uuids })
  touched u = record {
    back = u.back;
    same_ids = u.same_ids;
    nodes = u.nodes;
    conf = u.conf;
    schedules = u.schedules;
    waits = u.waits;
  }

  on_owner-Keeps {ℓ} : {A : Type ℓ} (m : Exec MemoryLaneLock A) → Keeps LaneUndoable (on_owner m)
  on_owner-Keeps m = record { at = λ (turn, owner) u. u }

  memory_claim-Keeps :
      (runner : ℕ) (claim : LaneClaim) (lane : TaskLaneConf) (now : ℕ)
      → Keeps (Undoable s) (memory_claim x runner claim lane now)
  unfolding memory_claim
  memory_claim-Keeps runner claim lane now = Keeps-bind require_conf _ (Keeps-read _) λ conf.
      Keeps-bind _ _ (fail_exhausted-Keeps x s d claim.lane _ now conf lane.retry) λ _.
        Keeps-bind (count_work claim.lane now) _ (Keeps-read _) λ work.
          Keeps-bind _ _
            (reserve_permits-Keeps x s d claim.lane (min work (lock_size lane)) lane.global_rate
              now)
            λ permits.
              claim_lane_state-Keeps x s d runner
                (reservation (record { lane = claim.lane; limit = lock_size lane; owner = none })
                  (min work (lock_size lane)) permits)
                now

  if_keeps {ℓ} :
      {A : Type ℓ} (b : Bool) (m n : Result A × Lane)
      → LaneUndoable m.1
      → LaneUndoable n.1
      → LaneUndoable (if b then m else n).1
  if_keeps true m n h k = h
  if_keeps false m n h k = k

  option_keeps {ℓ κ} :
      {A : Type ℓ} {B : Type κ} (o : Option B) (n : Result A × Lane) (f : B → Result A × Lane)
      → LaneUndoable n.1
      → ((b : B) → LaneUndoable (f b).1)
      → LaneUndoable (elim o as (λ _. Result A × Lane) [ none ↦ n | some b ↦ f b ]).1
  option_keeps none n f h k = h
  option_keeps (some b) n f h k = k b

  flush_cohort-Keeps :
      (runner : ℕ) (claim : LaneClaim) (lane : TaskLaneConf) (now : ℕ)
      → Keeps LaneUndoable (flush_cohort x runner claim lane now)
  flush_cohort-Keeps runner claim lane now = record {
    at = λ (turn, owner) u. if_keeps _ _ _ ((memory_claim-Keeps runner claim lane now).at turn u) u;
  }

  memory_flush_poll-Keeps :
      (candidates : List ℕ) (runner : ℕ) (claim : LaneClaim) (lane : TaskLaneConf) (now : ℕ)
      → Keeps LaneUndoable (memory_flush_poll x candidates runner claim lane now)
  unfolding memory_flush_poll
  memory_flush_poll-Keeps candidates runner claim lane now = record {
    at = λ (turn, owner) u.
        flushed
          (if owner.flushing then ok true else memory_flush x turn.state.tasks candidates lane now)
          (memory_flush_wake x turn.state.tasks candidates lane now) turn owner u;
  }
    where
      flushed :
          (r : Result Bool) (w : Result (Option ℕ)) (turn : Turn) (owner : MemoryLaneLock)
          → Undoable s turn
          → LaneUndoable
              (elim r as (λ _. Result LanePoll × Lane) [
                | err e ↦ (err e, (turn, owner))
                | ok true ↦ flush_cohort x runner claim lane now (turn, owner)
                | ok false ↦ elim w as (λ _. Result LanePoll × Lane) [
                  | err e ↦ (err e, (turn, owner))
                  | ok wake ↦ on_owner (memory_poll claim.lane wake) (turn, owner)
                ]
              ]).1
      flushed (err e) w turn owner u = u
      flushed (ok true) w turn owner u =
          (flush_cohort-Keeps runner claim lane now).at (turn, owner) u
      flushed (ok false) (err e) turn owner u = u
      flushed (ok false) (ok wake) turn owner u = u

  poll_candidates-Keeps :
      (candidates : List ℕ) (runner : ℕ) (claim : LaneClaim) (lane : TaskLaneConf) (now : ℕ)
      → Keeps LaneUndoable (poll_candidates x candidates runner claim lane now)
  poll_candidates-Keeps [] runner claim lane now = record { at = λ (turn, owner) u. u }
  poll_candidates-Keeps (i ∷ is) runner claim lane now = record {
    at = λ (turn, owner) u. if_keeps _ _ _ u (
        (memory_flush_poll-Keeps (i ∷ is) runner claim lane now).at
          (turn, record owner { empty_since = none }) u);
  }

  memory_phase_poll-Keeps :
      (runner : ℕ) (claim : LaneClaim) (lane : TaskLaneConf) (now : ℕ)
      → Keeps LaneUndoable (memory_phase_poll x runner claim lane now)
  unfolding memory_phase_poll
  memory_phase_poll-Keeps runner claim lane now = record {
    at = λ (turn, owner) u. if_keeps _ _ _ u (
        (poll_candidates-Keeps _ runner claim lane now).at (turn, wake_idle_failure x claim owner)
          u);
  }

  settle-Keeps :
      (claim : LaneClaim) (lane : TaskLaneConf) (now : ℕ)
      → Keeps LaneUndoable (settle x claim lane now)
  settle-Keeps claim lane now = record {
    at = λ (turn, owner) u.
        option_keeps (Option.bind claim.owner λ request. request.hook) _ _ u (λ hook. u);
  }

  poll_owned-Keeps :
      (runner : ℕ) (claim : LaneClaim) (lane : TaskLaneConf) (now : ℕ)
      → Keeps LaneUndoable (poll_owned x runner claim lane now)
  poll_owned-Keeps runner claim lane now = record {
    at = λ (turn, owner) u.
        option_keeps (memory_action owner.phase) _ _
          ((memory_phase_poll-Keeps runner claim lane now).at (turn, owner) u) (λ action. u);
  }

  lost_lane-Keeps :
      (runner : ℕ) (claim : LaneClaim) (now : ℕ) → Keeps LaneUndoable (lost_lane x runner claim now)
  lost_lane-Keeps runner claim now = record {
    at = λ (turn, owner) u. elim (Bool-cases (is_some (request_token claim))) [
      | inl e ↦ rw e ((release_rows-Keeps x s d now _).at turn u)
      | inr e ↦ rw e u
    ];
  }

  lane_turn-Keeps :
      (owned : Bool) (runner : ℕ) (claim : LaneClaim) (lane : TaskLaneConf) (now : ℕ)
      → Keeps LaneUndoable (lane_turn x owned runner claim lane now)
  lane_turn-Keeps true runner claim lane now =
      Keeps-bind _ _ (settle-Keeps claim lane now) λ _. poll_owned-Keeps runner claim lane now
  lane_turn-Keeps false runner claim lane now = lost_lane-Keeps runner claim now

  claim_owned_inner-Keeps :
      (runner : ℕ) (claim : LaneClaim) (lane : TaskLaneConf) (duration now : ℕ)
      → Keeps LaneUndoable (claim_owned_inner x runner claim lane duration now)
  unfolding claim_owned_inner
  claim_owned_inner-Keeps runner claim lane duration now =
      Keeps-bind _ _ (record { at = λ lane u. touched u })
        λ owned. lane_turn-Keeps owned runner claim lane now

  pub claim_owned_state-Keeps :
      (runner : ℕ) (claim : LaneClaim) (lane : TaskLaneConf) (duration now : ℕ)
      → Keeps (Undoable s) (claim_owned_state x runner claim lane duration now)
  unfolding claim_owned_state
  claim_owned_state-Keeps runner claim lane duration now = record {
    at = λ turn u. elim (Option-cases (lookup claim.lane turn.state.lane_locks)) [
      | inl e ↦ rw (e, claim_owned_state) u
      | inr (lock, e) ↦
          rw (e, claim_owned_state)
            (relocked (
              (claim_owned_inner-Keeps runner claim lane duration now).at
                (
                  record turn {
                    state = record (turn.state) {
                      lane_locks = remove claim.lane turn.state.lane_locks;
                    };
                  },
                  lock,
                )
                (relocked u)))
    ];
  }
