-- ===== src/Tasks/Store/Nodes/Held.antt =====
-- What nodes hold after they are retired or their claims are returned.
use vyuh.Prelude.{
  ℕ, ◌≡◌, refl, ◌==◌, true, false, Option, List, [], ◌∷◌, map, filter, any, All, Option-cases,
  Bool-cases, inl, inr, is_some, is_some_and, number_key, contains_key, arith, Result-cases, ◌⊎◌,
  none, some, false, if◌then◌else◌, subst, eq_id, eq_id→eq,
}
use vyuh.Tasks.Externals.{Externals}
use vyuh.Tasks.Types.{TaskRecord, TaskStatus, same_status}
use vyuh.Tasks.Store.State.{MemoryState}
use vyuh.Tasks.Store.Lifecycle.WellFormed.{IsWellFormed}
use vyuh.Tasks.Store.Nodes.{
  Nodes, beat, stays, retired, disown, retire_nodes, cutoff_of, heartbeat, is_skipped, return_row,
  return_claims,
}

-- Every owner of a task is a registered node.
abbrev pub Registered : Nodes → TaskRecord → Type 0
Registered nodes t = is_some_and t.node_id (λ n. any (λ e. e.0 == n) nodes) ≡ is_some t.node_id

map-All {ℓ} :
    {A : Type ℓ} (P Q : A → Type 0) (f : A → A) (xs : List A)
    → ((a : A) → P a → Q (f a))
    → All P xs
    → All Q (map f xs)
map-All P Q f [] g h = tt
map-All P Q f (x ∷ xs) g h = (g x h.0, map-All P Q f xs g h.1)

-- A node that is known and not retired stays known.
kept_node :
    (node cutoff n : ℕ) (nodes : Nodes)
    → any (λ e. e.0 == n) nodes ≡ true
    → retired node cutoff nodes n ≡ false
    → any (λ e. e.0 == n) (filter (stays node cutoff) nodes) ≡ true
kept_node node cutoff n [] h k = h
kept_node node cutoff n ((id, (since, last)) ∷ rest) h k =
    ground (arith, kept_node node cutoff n rest)

disown-Registered :
    (node cutoff : ℕ) (nodes : Nodes) (t : TaskRecord)
    → Registered nodes t
    → Registered (filter (stays node cutoff) nodes) (disown node cutoff nodes t)
disown-Registered node cutoff nodes t h = elim (Option-cases t.node_id) [
  | inl e ↦ ground (arith, e)
  | inr (n, e) ↦ elim (Bool-cases (retired node cutoff nodes n)) [
    | inl f ↦ ground (arith, e, f)
    | inr f ↦ ground (arith, e, f, kept_node node cutoff n nodes (rw e at h) f)
  ]
]

beat_node :
    (node now n : ℕ) (nodes : Nodes)
    → any (λ e. e.0 == n) (beat node now nodes) ≡ any (λ e. e.0 == n) nodes
beat_node node now n [] = refl
beat_node node now n ((id, (since, last)) ∷ rest) = ground (arith, beat_node node now n rest)

-- A heartbeat keeps every owner of a task registered: whatever nodes it retires, no task stays with
-- one of them.
pub heartbeat-Registered :
    (x : Externals) (node stale_after now : ℕ) (s : MemoryState)
    → All (Registered s.nodes) s.tasks
    → All
        (Registered (heartbeat x node stale_after now s).1.nodes)
        (heartbeat x node stale_after now s).1.tasks
unfolding heartbeat retire_nodes
heartbeat-Registered x node stale_after now s h =
    elim (Result-cases (cutoff_of x now stale_after)) [
      | inl (er, e) ↦ rw (e, heartbeat) h
      | inr (cutoff, e) ↦ elim (Bool-cases (contains_key node s.nodes)) [
        | inr f ↦ rw (e, f, heartbeat) h
        | inl f ↦
            rw (e, f, heartbeat)
              (map-All (Registered s.nodes)
                (Registered (filter (stays node cutoff) (beat node now s.nodes)))
                (disown node cutoff (beat node now s.nodes)) s.tasks
                (λ t k. disown-Registered node cutoff (beat node now s.nodes) t (beaten t k)) h)
      ]
    ]
  where
    beaten : (t : TaskRecord) → Registered s.nodes t → Registered (beat node now s.nodes) t
    beaten t k = elim (Option-cases t.node_id) [
      | inl e ↦ ground (arith, e)
      | inr (n, e) ↦ ground (arith, e, k, beat_node node now n s.nodes)
    ]

-- The tasks that a return of claims is about: those that run on the node or, with no node given, all
-- that run.
abbrev Held : Option ℕ → TaskRecord → Type 0
Held node t = (t.status ≡ TaskStatus.running) × ((node ≡ none) ⊎ (t.node_id ≡ node))

-- The row that waits again, with no owner.
abbrev waiting_again : ℕ → TaskRecord → TaskRecord
waiting_again now t = record t {
  status = TaskStatus.pending;
  ready_at = some now;
  node_id = none;
  updated_at = now;
}

-- A row before and after the claims of a node are returned.
pub record Freed (node : Option ℕ) (now : ℕ) (t t' : TaskRecord) : Type 0 where
  taken : Held node t → t' ≡ waiting_again now t
  kept : ¬ Held node t → t' ≡ t
  free : ¬ Held node t'
  well : IsWellFormed t'

-- Each row of the one list and the row at its place in the other.
abbrev pub Each {ℓ} : {A : Type ℓ} → (A → A → Type 0) → List A → List A → Type 0
Each R [] [] = Unit
Each R (x ∷ xs) (y ∷ ys) = R x y × Each R xs ys
Each R _ _ = ⊥

Each-map {ℓ} :
    {A : Type ℓ} (P : A → Type 0) (R : A → A → Type 0) (f : A → A) (xs : List A)
    → ((a : A) → P a → R a (f a))
    → All P xs
    → Each R xs (map f xs)
Each-map P R f [] g h = tt
Each-map P R f (x ∷ xs) g h = (g x h.0, Each-map P R f xs g h.1)

Held-is_skipped : (node : Option ℕ) (t : TaskRecord) → Held node t → is_skipped node t ≡ false
Held-is_skipped none t (running, h) = rw running refl
Held-is_skipped (some n) t (running, inl h) = absurd cc
Held-is_skipped (some n) t (running, inr h) = rw (running, h) (ground arith)

same_status→eq : (s : TaskStatus) → same_status s TaskStatus.running ≡ true → s ≡ TaskStatus.running
same_status→eq TaskStatus.running h = refl
same_status→eq TaskStatus.pending h = cc
same_status→eq TaskStatus.suspended h = cc
same_status→eq TaskStatus.succeeded h = cc
same_status→eq TaskStatus.failed h = cc

-- A row that runs is held or skipped.
running_cases :
    (node : Option ℕ) (t : TaskRecord)
    → t.status ≡ TaskStatus.running
    → Held node t ⊎ ((¬ Held node t) × (is_skipped node t ≡ true))
running_cases none t e = inl (e, inl refl)
running_cases (some n) t e = elim (Bool-cases (eq_id t.node_id (some n))) [
  | inl f ↦ inl (e, inr (eq_id→eq t.node_id (some n) f))
  | inr f ↦
      let skipped : is_skipped (some n) t ≡ true = rw (e, f) refl in
      inr ((λ k. let q = Held-is_skipped (some n) t k in cc), skipped)
]

Held-cases :
    (node : Option ℕ) (t : TaskRecord)
    → IsWellFormed t
    → Held node t ⊎ ((¬ Held node t) × (is_skipped node t ≡ true))
Held-cases node t w = elim (Bool-cases (same_status t.status TaskStatus.running)) [
  | inl e ↦ running_cases node t (same_status→eq t.status e)
  | inr e ↦
      let apart : ¬ (t.status ≡ TaskStatus.running) = λ k. let q = rw k at e in cc in
      inr (
        (λ k. apart k.0),
        elim (Option-cases t.node_id) [
          | inl f ↦ rw (e, f) refl
          | inr (m, f) ↦ absurd (apart (rw f at w.owned))
        ],
      )
]

waiting_again-IsWellFormed :
    (now : ℕ) (t : TaskRecord)
    → IsWellFormed t
    → t.status ≡ TaskStatus.running
    → IsWellFormed (waiting_again now t)
waiting_again-IsWellFormed now t w running = record {
  owned = tt;
  timed = ground (arith, w.timed, running);
  stopped = ground (arith, w.stopped, running);
  attempted = record {
    counted = w.attempted.counted;
    stepped = w.attempted.stepped;
    steps = w.attempted.steps;
  };
}

-- Where every task is well formed, a return of the claims of a node, or of all nodes, makes each task
-- that runs there wait again, ready at once and with no owner, and leaves each other task as it was;
-- then no task is left running there, and every task is well formed.
pub return_claims-Freed :
    (node : Option ℕ) (now : ℕ) (s : MemoryState)
    → All IsWellFormed s.tasks
    → Each (Freed node now) s.tasks (return_claims node now s).1.tasks
unfolding return_claims
return_claims-Freed node now s h = Each-map IsWellFormed (Freed node now) _ s.tasks row h
  where
    row :
        (t : TaskRecord)
        → IsWellFormed t
        → Freed node now t (if is_skipped node t then t else return_row now t)
    row t w = elim (Held-cases node t w) [
      | inl held ↦ rw (Held-is_skipped node t held) (
          subst (Freed node now t) (rw held.0 refl) (record {
            taken = λ k. refl;
            kept = λ k. absurd (k held);
            free = λ k. cc;
            well = waiting_again-IsWellFormed now t w held.0;
          }))
      | inr (free, skipped) ↦
          rw skipped
            (record { taken = λ k. absurd (free k); kept = λ k. refl; free = free; well = w })
    ]
