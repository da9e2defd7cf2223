-- ===== src/Tasks/Store/Workflow/Atomic.antt =====
-- A turn of the store is atomic: a turn that fails leaves no trace.
use vyuh.Prelude.{
  ℕ, ◌≡◌, refl, ap, sym, ◌∙◌, Option, none, some, List, [], ◌∷◌, get_elem?, get_elem?-map, some_eq,
  All, Keeps, Keeps-pure, Keeps-bind, Result, Result-cases, ok, err, TaskRuntimeError, bind-err,
  subst, String, inl, inr, pure,
}
use vyuh.Tasks.Externals.{Externals}
use vyuh.Tasks.Types.{TaskRecord, TaskCommit}
use vyuh.Tasks.Store.State.{MemoryState, Turn, TaskPoll, CommitResult, LaneClaim}
use vyuh.Tasks.Store.Commit.{validate_turn}
use vyuh.Tasks.Store.Stage.{stage_outcomes}
use vyuh.Tasks.Store.Workflow.{
  replace, apply_updates, commit_outcomes_state, claims_of, run_turn, start_turn, undo_turn, finish,
  maximum_children, atomic_operation, rollback,
}
use vyuh.Tasks.Store.Workflow.Undo.{ids, Distinct, Undoable, touch-Undoable}
use vyuh.Tasks.Store.Workflow.Lanes.{claim_tasks_state-Keeps}
use vyuh.Tasks.Store.Workflow.Staged.{Matches, stage_outcomes-Staged}

module _ (s : MemoryState) (d : Distinct (ids s.tasks)) where
  apply_updates-Keeps :
      (us : List (ℕ × TaskRecord)) → All (Matches s) us → Keeps (Undoable s) (apply_updates us)
  unfolding apply_updates
  apply_updates-Keeps [] h = Keeps-pure tt
  apply_updates-Keeps ((i, t) ∷ us) ((old, at, same), h) =
      Keeps-bind _ _
        (record {
          at = λ turn u.
              touch-Undoable s d _ i (replace t) turn
                (λ here e.
                  let at_id = get_elem?-map (λ w. w.id) s.tasks i old at in
                  let here_id = get_elem?-map (λ w. w.id) turn.state.tasks i here e in
                  same
                  ∙ some_eq old.id here.id
                      (sym at_id ∙ ap (λ l. get_elem? l i) (sym u.same_ids) ∙ here_id))
                u;
        })
        λ _. apply_updates-Keeps us h

  start-Undoable : (uuids : ℕ) → Undoable s (start_turn s uuids)
  unfolding rollback
  start-Undoable uuids = record {
    back = refl;
    same_ids = refl;
    nodes = refl;
    conf = refl;
    schedules = refl;
    waits = refl;
  }

  undo_turn-Undoable : (turn : Turn) → Undoable s turn → undo_turn s turn ≡ s
  undo_turn-Undoable turn u i = record {
    nodes = u.nodes i;
    tasks = u.back i;
    conf = u.conf i;
    rates = s.rates;
    schedules = u.schedules i;
    lane_locks = s.lane_locks;
    waits = u.waits i;
  }

  commit_outcomes_state-Undoable :
      (x : Externals) (commits : List TaskCommit) (now uuids : ℕ)
      → Undoable s (commit_outcomes_state x commits now (start_turn s uuids)).1
  unfolding commit_outcomes_state
  commit_outcomes_state-Undoable x commits now uuids =
      elim (Result-cases (stage_outcomes x s commits now)) [
        | inl (e, h) ↦ rw (h, commit_outcomes_state) (start-Undoable uuids)
        | inr (st, h) ↦
            rw (h, commit_outcomes_state)
              ((Keeps-bind (apply_updates st.updates) (λ _. pure st)
                  (apply_updates-Keeps st.updates (stage_outcomes-Staged x s commits now st h))
                  (λ _. Keeps-pure st)).at
                (start_turn s uuids) (start-Undoable uuids))
      ]

  claims_of-Keeps :
      (x : Externals) (runner : Option ℕ) (claims : List LaneClaim) (lease now : ℕ)
      → Keeps (Undoable s) (claims_of x runner claims lease now)
  claims_of-Keeps x none claims lease now = Keeps-pure _
  claims_of-Keeps x (some runner) claims lease now =
      claim_tasks_state-Keeps x s d runner claims lease now

  redelivered :
      (turn : Turn) (deliveries : List (ℕ × String))
      → Undoable s turn
      → Undoable s (record turn { deliveries = deliveries })
  redelivered turn deliveries u = record {
    back = u.back;
    same_ids = u.same_ids;
    nodes = u.nodes;
    conf = u.conf;
    schedules = u.schedules;
    waits = u.waits;
  }

  -- The end of a turn has no failure to take back.
  run_turn-Undoable :
      (x : Externals) (runner : Option ℕ) (claims : List LaneClaim) (commits : List TaskCommit)
      (lease now uuids : ℕ) (e : TaskRuntimeError) (turn : Turn)
      → run_turn x runner claims commits lease now (start_turn s uuids) ≡ (err e, turn)
      → Undoable s turn
  unfolding run_turn
  run_turn-Undoable x runner claims commits lease now uuids e turn h =
      elim (bind-err (commit_outcomes_state x commits now) _ (start_turn s uuids) h) [
        | inl failed ↦ subst (λ r. Undoable s r.1) failed staged
        | inr (stage, after, done, rest) ↦
            let u = subst (λ r. Undoable s r.1) done staged in
            let delivered : Turn = record after { deliveries = stage.deliveries } in
            let u' : Undoable s delivered = redelivered after stage.deliveries u in
            elim (bind-err (claims_of x runner claims lease now) _ delivered rest) [
              | inl failed ↦
                  subst (λ r. Undoable s r.1) failed
                    ((claims_of-Keeps x runner claims lease now).at delivered u')
              | inr (poll, last, claimed, over) ↦ let q = ap (λ r. r.0) over in cc
            ]
      ]
    where
      staged : Undoable s (commit_outcomes_state x commits now (start_turn s uuids)).1
      staged = commit_outcomes_state-Undoable x commits now uuids

  -- A turn that fails leaves the store exactly as it found it, whatever it had staged, claimed,
  -- finalized, spent of a rate or changed of a lane's lock before the failure, provided that the
  -- tasks of the store have different ids.
  pub atomic_operation-failed :
      (x : Externals) (uuids : ℕ) (runner : Option ℕ) (claims : List LaneClaim)
      (commits : List TaskCommit) (batch lease now : ℕ) (e : TaskRuntimeError)
      → (atomic_operation x uuids runner claims commits batch lease now s).0 ≡ err e
      → (atomic_operation x uuids runner claims commits batch lease now s).1 ≡ s
  unfolding atomic_operation
  atomic_operation-failed x uuids runner claims commits batch lease now e h =
      elim (Result-cases (validate_turn commits batch (maximum_children s))) [
        | inl (e', f) ↦ rw (f, atomic_operation) refl
        | inr (tt', f) ↦ rw (f, atomic_operation) (finished _ refl (rw (f, atomic_operation) at h))
      ]
    where
      finished :
          (r : Result (TaskPoll × CommitResult) × Turn)
          → run_turn x runner claims commits lease now (start_turn s uuids) ≡ r
          → (finish s r).0 ≡ err e
          → (finish s r).1 ≡ s
      finished (ok a, turn) p q = cc
      finished (err e', turn) p q =
          undo_turn-Undoable turn
            (run_turn-Undoable x runner claims commits lease now uuids e' turn p)
