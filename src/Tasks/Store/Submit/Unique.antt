-- ===== src/Tasks/Store/Submit/Unique.antt =====
-- What a submission keeps of the stored tasks: `store_tasks` and `stage_write` in
-- vyuh/src/tasks/store/memory/store.rs.
use mathlib.Core.List.{reverse-append, append_assoc, append-nil}
use vyuh.Prelude.{
  ℕ, ◌≡◌, ap, sym, subst, ◌==◌, Bool, false, none, some, String, List, [], ◌∷◌, ◌++◌, reverse,
  Option-cases, Bool-cases, inl, inr, All, All-append, any, find-none, Result, ok, err, ok_eq,
  and_then-ok, arith, if◌then◌else◌, already_exists, and_then,
}
use vyuh.Tasks.Externals.{Externals}
use vyuh.Tasks.Types.{TaskRecord, TaskWrite, TaskReceipt, queued}
use vyuh.Tasks.Store.State.{MemoryState}
use vyuh.Tasks.Store.Submit.{
  holds_key, matching_key, ready_time, conflict, stamped, stage_write, stage_writes,
  validate_write_lanes, store_tasks,
}

-- Each element is related to each later one.
abbrev pub Pairwise {ℓ} : {A : Type ℓ} → (A → A → Type 0) → List A → Type 0
Pairwise R [] = Unit
Pairwise R (a ∷ rest) = All (R a) rest × Pairwise R rest

-- Two rows that may stand in one store at time `now`: they differ in their ids, and they do not
-- both hold one idempotency key of one handler.
pub record Apart (now : ℕ) (t u : TaskRecord) : Type 0 where
  pub ids : (u.id == t.id) ≡ false
  pub keys : (key : String) → u.idempotency_key ≡ some key → holds_key u.name key now t ≡ false

snoc {ℓ} :
    {A : Type ℓ} (R : A → A → Type 0) (xs : List A) (y : A)
    → Pairwise R xs
    → All (λ a. R a y) xs
    → Pairwise R (xs ++ y ∷ [])
snoc R [] y p h = (tt, tt)
snoc R (x ∷ xs) y p h = (All-append (R x) xs (y ∷ []) p.0 (h.0, tt), snoc R xs y p.1 h.1)

module _ {ℓ} {A : Type ℓ} (P : A → Type 0) where
  All-front : (xs ys : List A) → All P (xs ++ ys) → All P xs
  All-front [] ys h = tt
  All-front (x ∷ xs) ys h = (h.0, All-front xs ys h.1)

  All-back : (xs ys : List A) → All P (xs ++ ys) → All P ys
  All-back [] ys h = h
  All-back (x ∷ xs) ys h = All-back xs ys h.1

  All-reverse : (xs : List A) → All P (reverse xs) → All P xs
  All-reverse [] h = tt
  All-reverse (x ∷ xs) h =
      let k = subst (All P) (reverse-append (x ∷ []) xs) h in
      ((All-back (reverse xs) (x ∷ []) k).0, All-reverse xs (All-front (reverse xs) (x ∷ []) k))

not_any {ℓ} :
    {A : Type ℓ} (p : A → Bool) (xs : List A) → any p xs ≡ false → All (λ a. p a ≡ false) xs
not_any p [] h = tt
not_any p (x ∷ xs) h = elim (Bool-cases (p x)) [
  | inl e ↦ let k = rw e at h in cc
  | inr e ↦ (e, not_any p xs (rw e at h))
]

module _ (x : Externals) (now : ℕ) where
  fresh-Apart :
      (t : TaskRecord) (rows : List TaskRecord)
      → All (λ u. (u.id == t.id) ≡ false) rows
      → ((key : String)
          → t.idempotency_key ≡ some key
          → All (λ u. holds_key t.name key now u ≡ false) rows)
      → All (λ u. Apart now u t) rows
  fresh-Apart t [] h k = tt
  fresh-Apart t (u ∷ us) h k = (
    record { ids = ground (arith, h.0); keys = λ key e. (k key e).0 },
    fresh-Apart t us h.1 (λ key e. (k key e).1),
  )

  no_holder :
      (stored staged : List TaskRecord) (t : TaskRecord)
      → matching_key stored staged t now ≡ none
      → (key : String) → t.idempotency_key ≡ some key
      → All (λ u. holds_key t.name key now u ≡ false) (stored ++ staged)
  unfolding matching_key
  no_holder stored staged t h key e =
      let k =
        find-none (holds_key t.name key now) (reverse staged ++ reverse stored)
          (rw (e, matching_key) at h) in
      let P : TaskRecord → Type 0 = λ u. holds_key t.name key now u ≡ false in
      All-append P stored staged
        (All-reverse P stored (All-back P (reverse staged) (reverse stored) k))
        (All-reverse P staged (All-front P (reverse staged) (reverse stored) k))

  stage_write-Apart :
      (stored staged : List TaskRecord) (w : TaskWrite) (receipt : TaskReceipt)
      (staged' : List TaskRecord)
      → Pairwise (Apart now) (stored ++ staged)
      → stage_write x stored staged w now ≡ ok (receipt, staged')
      → Pairwise (Apart now) (stored ++ staged')
  unfolding stage_write
  stage_write-Apart stored staged w receipt staged' p h =
      let (ready, e, h1) = and_then-ok (ready_time x w now) _ h in
      placed (stamped w.task ready now) h1
    where
      queued_lem :
          (t : TaskRecord)
          → any (λ u. u.id == t.id) (stored ++ staged) ≡ false
          → matching_key stored staged t now ≡ none
          → Pairwise (Apart now) (stored ++ (staged ++ t ∷ []))
      queued_lem t f g = subst (Pairwise (Apart now)) (append_assoc stored staged (t ∷ [])) (
          snoc (Apart now) (stored ++ staged) t p (
            fresh-Apart t (stored ++ staged) (not_any _ (stored ++ staged) f)
              (no_holder stored staged t g)))

      placed :
          (t : TaskRecord)
          → (if any (λ u. u.id == t.id) (stored ++ staged)
              then err (already_exists t.id)
              else elim (matching_key stored staged t now)
                  as (λ _. Result (TaskReceipt × List TaskRecord)) [
                    | some owner ↦
                        and_then (conflict owner t w.ignore_conflicts) λ r. ok (r, staged)
                    | none ↦ ok (queued t.id, staged ++ t ∷ [])
                  ])
            ≡ ok (receipt, staged')
          → Pairwise (Apart now) (stored ++ staged')
      placed t k = elim (Bool-cases (any (λ u. u.id == t.id) (stored ++ staged))) [
        | inl f ↦ let q = rw f at k in cc
        | inr f ↦ elim (Option-cases (matching_key stored staged t now)) [
          | inl g ↦
              subst (λ l. Pairwise (Apart now) (stored ++ l))
                (ap (λ r. r.1) (ok_eq _ _ (rw (f, g) at k))) (queued_lem t f g)
          | inr (owner, g) ↦
              let (r, q1, q2) =
                and_then-ok (conflict owner t w.ignore_conflicts) _ (rw (f, g) at k) in
              subst (λ l. Pairwise (Apart now) (stored ++ l)) (ap (λ r. r.1) (ok_eq _ _ q2)) p
        ]
      ]

  stage_writes-Apart :
      (stored staged : List TaskRecord) (ws : List TaskWrite) (receipts : List TaskReceipt)
      (staged' : List TaskRecord)
      → Pairwise (Apart now) (stored ++ staged)
      → stage_writes x stored staged ws now ≡ ok (receipts, staged')
      → Pairwise (Apart now) (stored ++ staged')
  unfolding stage_writes
  stage_writes-Apart stored staged [] receipts staged' p h =
      subst (λ l. Pairwise (Apart now) (stored ++ l)) (ap (λ r. r.1) (ok_eq _ _ h)) p
  stage_writes-Apart stored staged (w ∷ ws) receipts staged' p h =
      let ((receipt, mid), e, h1) = and_then-ok (stage_write x stored staged w now) _ h in
      let ((rest, last), f, h2) = and_then-ok (stage_writes x stored mid ws now) _ h1 in
      subst (λ l. Pairwise (Apart now) (stored ++ l)) (ap (λ r. r.1) (ok_eq _ _ h2))
        (stage_writes-Apart stored mid ws rest last
          (stage_write-Apart stored staged w receipt mid p e) f)

  -- A submission that succeeds adds tasks in such a way that, if no two stored tasks had the same id
  -- or held the same idempotency key of a handler at that time, no two do afterwards: the key of a
  -- later task is held by no earlier one of its handler, neither stored before nor staged by the same
  -- submission.
  pub store_tasks-Apart :
      (writes : List TaskWrite) (s s' : MemoryState) (receipts : List TaskReceipt)
      → Pairwise (Apart now) s.tasks
      → store_tasks x writes now s ≡ ok (receipts, s')
      → Pairwise (Apart now) s'.tasks
  unfolding store_tasks
  store_tasks-Apart writes s s' receipts p h =
      let (done, e, h1) = and_then-ok (validate_write_lanes s writes) _ h in
      let ((rs, staged), f, h2) = and_then-ok (stage_writes x s.tasks [] writes now) _ h1 in
      subst (λ u. Pairwise (Apart now) u.tasks) (ap (λ r. r.1) (ok_eq _ _ h2))
        (stage_writes-Apart s.tasks [] writes rs staged
          (subst (Pairwise (Apart now)) (sym (append-nil s.tasks)) p) f)
