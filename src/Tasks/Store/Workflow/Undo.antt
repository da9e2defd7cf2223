-- ===== src/Tasks/Store/Workflow/Undo.antt =====
-- The undo list: every step of a turn can be taken back.
use vyuh.Prelude.{
  ℕ, zero, suc, ◌==◌, ◌≡◌, refl, ap, sym, ◌∙◌, subst, false, some, String, List, [], ◌∷◌, map,
  reverse, reverse-snoc, get_elem?, set, All, map-set_same, get_elem?-map, Option-cases, inl, inr,
  eq→==, some_eq, arith, Keeps, Exec,
}
use vyuh.Tasks.Types.{TaskRecord}
use vyuh.Tasks.Store.State.{MemoryState, Turn}
use vyuh.Tasks.Store.Claim.{Row, touch}
use vyuh.Tasks.Store.Workflow.{restore, rollback}

abbrev pub ids : List TaskRecord → List ℕ
ids = map λ t. t.id

-- No identity stands twice in the list.
abbrev pub Distinct : List ℕ → Type 0
Distinct [] = Unit {0}
Distinct (a ∷ rest) = All (λ b. (b == a) ≡ false) rest × Distinct rest

absent :
    (a b : ℕ) (xs : List ℕ) (i : ℕ)
    → All (λ c. (c == a) ≡ false) xs
    → get_elem? xs i ≡ some b
    → (a == b) ≡ false
absent a b [] i h g = cc
absent a b (x ∷ xs) zero h g = ground arith
absent a b (x ∷ xs) (suc i) h g = absent a b xs i h.1 g

-- Taking back a write: the first row of that identity is the row that was written.
restore-set :
    (ts : List TaskRecord) (i : ℕ) (t u : TaskRecord)
    → Distinct (ids ts)
    → get_elem? ts i ≡ some t
    → u.id ≡ t.id
    → restore (set ts i u) t ≡ ts
restore-set [] i t u d g e = cc
restore-set (x ∷ xs) zero t u d g e =
    rw (eq→== u.id t.id e) (ap (λ w. w ∷ xs) (sym (some_eq x t g)))
restore-set (x ∷ xs) (suc i) t u d g e =
    rw (absent x.id t.id (ids xs) i d.0 (get_elem?-map (λ w. w.id) xs i t g))
      (ap (λ w. x ∷ w) (restore-set xs i t u d.1 g e))

-- What a turn that began in state `s` can still take back: its undo list gives back the tasks, and
-- nothing but tasks, rates and locks has changed.
pub record Undoable (s : MemoryState) (turn : Turn) : Type 0 where
  pub back : rollback (reverse turn.undo) turn.state.tasks ≡ s.tasks
  pub same_ids : ids turn.state.tasks ≡ ids s.tasks
  pub nodes : turn.state.nodes ≡ s.nodes
  pub conf : turn.state.conf ≡ s.conf
  pub schedules : turn.state.schedules ≡ s.schedules
  pub waits : turn.state.waits ≡ s.waits

module _ {ℓ} {A : Type ℓ} (s : MemoryState) (d : Distinct (ids s.tasks)) where
  touch_found :
      (missing : String) (i : ℕ) (m : Exec Row A) (turn : Turn) (t : TaskRecord)
      → get_elem? turn.state.tasks i ≡ some t
      → (m (t, turn.deliveries)).1.0.id ≡ t.id
      → Undoable s turn
      → Undoable s (touch missing i m turn).1
  unfolding touch rollback
  touch_found missing i m turn t g e u =
      let row : TaskRecord = (m (t, turn.deliveries)).1.0 in
      let distinct : Distinct (ids turn.state.tasks) = subst Distinct (sym u.same_ids) d in
      rw (g, touch)
        (record {
          back = rw reverse-snoc (
              ap (rollback (reverse turn.undo)) (restore-set turn.state.tasks i t row distinct g e)
              ∙ u.back);
          same_ids = map-set_same (λ w. w.id) turn.state.tasks i t row g e ∙ u.same_ids;
          nodes = u.nodes;
          conf = u.conf;
          schedules = u.schedules;
          waits = u.waits;
        })

  -- A mutation of a row that keeps the row's identity can be taken back.
  pub touch-Undoable :
      (missing : String) (i : ℕ) (m : Exec Row A) (turn : Turn)
      → ((t : TaskRecord)
          → get_elem? turn.state.tasks i ≡ some t
          → (m (t, turn.deliveries)).1.0.id ≡ t.id)
      → Undoable s turn
      → Undoable s (touch missing i m turn).1
  unfolding touch
  touch-Undoable missing i m turn e u = elim (Option-cases (get_elem? turn.state.tasks i)) [
    | inl g ↦ rw (g, touch) u
    | inr (t, g) ↦ touch_found missing i m turn t g (e t g) u
  ]

-- An action on a row that keeps the identity of every row.
abbrev pub KeepsId {ℓ} : {A : Type ℓ} → Exec Row A → Type 0
KeepsId m = (n : ℕ) → Keeps (λ row. row.0.id ≡ n) m

module _ (s : MemoryState) (d : Distinct (ids s.tasks)) where
  pub touch-Keeps {ℓ} :
      {A : Type ℓ} (missing : String) (i : ℕ) (m : Exec Row A)
      → KeepsId m
      → Keeps (Undoable s) (touch missing i m)
  touch-Keeps missing i m k = record {
    at = λ turn u. touch-Undoable s d missing i m turn (λ t _. (k t.id).at _ refl) u;
  }
