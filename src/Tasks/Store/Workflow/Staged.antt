-- ===== src/Tasks/Store/Workflow/Staged.antt =====
-- What is staged for a stored row carries the identity of that row.
use vyuh.Prelude.{
  ℕ, ◌≡◌, refl, ap, sym, ◌∙◌, ◌==◌, Bool, true, false, Option, none, some, List, [], ◌∷◌,
  Option-cases, Bool-cases, inl, inr, All, All-append, Result-cases, get_elem?, find_from,
  find_from-some, any, Result, ok, ok_eq, ok_or, invalid_config, some_eq, and_then-ok, is_some_and,
  not, ◌=$◌, subst, arith,
}
use vyuh.Tasks.Externals.{Externals}
use vyuh.Tasks.Types.{TaskRecord, TaskCommit}
use vyuh.Tasks.Store.State.{MemoryState}
use vyuh.Tasks.Store.Commit.{commit_task, commit_lane}
use vyuh.Tasks.Store.Claim.{Delivery}
use vyuh.Tasks.Store.Stage.{
  owns, with_cancel, settled_row, lane_retry, owned_task, staged_task, Stage, empty_stage,
  settle_row, effective_outcome, stage_owned, stage_commit, stage_commits, stage_outcomes,
  memory_commit_allowed,
}
use vyuh.Tasks.Store.Workflow.Rows.{settle_row-KeepsId}

-- A staged row stands for the stored row at its position.
abbrev pub Matches : MemoryState → ℕ × TaskRecord → Type 0
Matches s (i, t) = (old : TaskRecord) × (get_elem? s.tasks i ≡ some old) × (t.id ≡ old.id)

-- The commit names another lane than the row's.
abbrev pub strays : TaskCommit → TaskRecord → Bool
strays c t = is_some_and (commit_lane c) (λ lane. not (t.lane =$ lane))

pub owned_task-some :
    (s : MemoryState) (c : TaskCommit) (i : ℕ) (t : TaskRecord)
    → owned_task s c ≡ ok (some (i, t))
    → (get_elem? s.tasks i ≡ some t) × (owns c t ≡ true) × (strays c t ≡ false)
unfolding owned_task
owned_task-some s c i t h = elim (Option-cases (find_from 0 (owns c) s.tasks)) [
  | inl e ↦ let k = rw (e, owned_task) at h in cc
  | inr ((j, u), e) ↦ elim (Bool-cases (strays c u)) [
    | inl f ↦ let k = rw (e, f, owned_task) at h in cc
    | inr f ↦ found j u e f (rw (e, f, owned_task) at h)
  ]
]
  where
    found :
        (j : ℕ) (u : TaskRecord)
        → find_from 0 (owns c) s.tasks ≡ some (j, u)
        → strays c u ≡ false
        → ◌≡◌ {A = Result (Option (ℕ × TaskRecord))} (ok (some (j, u))) (ok (some (i, t)))
        → (get_elem? s.tasks i ≡ some t) × (owns c t ≡ true) × (strays c t ≡ false)
    found j u e f q =
        let (k, at, here, test) = find_from-some 0 (owns c) s.tasks e in
        let same : ◌≡◌ {A = ℕ × TaskRecord} (j, u) (i, t) = some_eq _ _ (ok_eq _ _ q) in
        let at0 : k ≡ j = omega (arith, at) in
        (
          subst (λ w. get_elem? s.tasks w ≡ some t) (at0 ∙ ap (λ r. r.0) same)
              (here ∙ ap (λ r. some r.1) same),
          subst (λ r. owns c r.1 ≡ true) same test,
          subst (λ r. strays c r.1 ≡ false) same f,
        )

module _ (x : Externals) where
  id-staged_task :
      (s : MemoryState) (t : TaskRecord) (c : TaskCommit) (now : ℕ) (children : List TaskRecord)
      (deliveries : List Delivery) (r : TaskRecord × List TaskRecord × List Delivery)
      → staged_task x s t c now children deliveries ≡ ok r
      → r.0.id ≡ t.id
  unfolding staged_task
  id-staged_task s t c now children deliveries r h =
      let (conf, e, h1) =
        and_then-ok (ok_or s.conf (invalid_config "task store is not initialized")) _ h in
      let ((o, children'), f, h2) =
        and_then-ok (effective_outcome x s conf (with_cancel x t c) c children now) _ h1 in
      let ((t', deliveries'), g, h3) =
        and_then-ok (settled_row x conf o now (with_cancel x t c) deliveries) _ h2 in
      let (policy, k, h4) = and_then-ok (lane_retry x conf (with_cancel x t c)) _ g in
      ap (λ r. r.0.id) (sym (ok_eq _ _ h3))
      ∙ (let (u, k1, k2) =
            and_then-ok (settle_row x conf o policy now (with_cancel x t c, deliveries)).0 _ h4 in
          ap (λ r. r.0.id) (sym (ok_eq _ _ k2))
          ∙ (settle_row-KeepsId x conf policy o now t.id).at (with_cancel x t c, deliveries) refl)

  abbrev Staged : MemoryState → Stage → Type 0
  Staged s st = All (Matches s) st.updates

  stage_owned-Staged :
      (s : MemoryState) (c : TaskCommit) (now : ℕ) (st st' : Stage)
      → Staged s st
      → stage_owned x s c now st ≡ ok st'
      → Staged s st'
  unfolding stage_owned
  stage_owned-Staged s c now st st' k h = elim (Result-cases (owned_task s c)) [
    | inl (er, e) ↦ let q = rw (e, stage_owned) at h in cc
    | inr (none, e) ↦ subst (Staged s) (ok_eq _ _ (rw (e, stage_owned) at h)) k
    | inr (some (i, t), e) ↦
        let ((t', children, deliveries), f, h1) =
          and_then-ok (staged_task x s t c now st.children st.deliveries) _
            (rw (e, stage_owned) at h) in
        subst (Staged s) (ok_eq _ _ h1) (
          All-append (Matches s) st.updates ((i, t') ∷ []) k
            ((t, (owned_task-some s c i t e).0, id-staged_task s t c now _ _ _ f), tt))
  ]

  stage_commit-Staged :
      (s : MemoryState) (c : TaskCommit) (now : ℕ) (st st' : Stage)
      → Staged s st
      → stage_commit x s c now st ≡ ok st'
      → Staged s st'
  unfolding stage_commit
  stage_commit-Staged s c now st st' k h =
      elim (Bool-cases (any (λ id. id == commit_task c) st.seen)) [
        | inl e ↦ let k = rw (e, stage_commit) at h in cc
        | inr e ↦
            let (allowed, f, h1) =
              and_then-ok (memory_commit_allowed x s c now) _ (rw (e, stage_commit) at h) in
            elim (Bool-cases allowed) [
              | inl g ↦
                  stage_owned-Staged s c now (record st { seen = commit_task c ∷ st.seen }) st' k
                    (rw g at h1)
              | inr g ↦ subst (Staged s) (ok_eq _ _ (rw g at h1)) k
            ]
      ]

  stage_commits-Staged :
      (s : MemoryState) (cs : List TaskCommit) (now : ℕ) (st st' : Stage)
      → Staged s st
      → stage_commits x s cs now st ≡ ok st'
      → Staged s st'
  unfolding stage_commits
  stage_commits-Staged s [] now st st' k h = subst (Staged s) (ok_eq _ _ h) k
  stage_commits-Staged s (c ∷ cs) now st st' k h =
      let (st1, e, h1) = and_then-ok _ _ h in
      stage_commits-Staged s cs now st1 st' (stage_commit-Staged s c now st st1 k e) h1

  pub stage_outcomes-Staged :
      (s : MemoryState) (cs : List TaskCommit) (now : ℕ) (st : Stage)
      → stage_outcomes x s cs now ≡ ok st
      → All (Matches s) st.updates
  unfolding stage_outcomes
  stage_outcomes-Staged s cs now st h = stage_commits-Staged s cs now empty_stage st tt h
