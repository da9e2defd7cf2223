-- ===== src/Tasks/Store/Operations/Ready.antt =====
-- A store that is initialized has what its lanes need: `initialize` in
-- vyuh/src/tasks/store/memory/store.rs.
use vyuh.Prelude.{
  ℕ, ◌≡◌, refl, sym, ◌∙◌, subst, ◌=$◌, ◌||◌, not, String, true, false, some, List, [], ◌∷◌, All,
  Option-cases, Bool-cases, inl, inr, is_some, eq_iff, =$_refl, HashMap, text_key, remove,
  or_insert, contains_key, ok, ok_eq, ok_or, and_then-ok, ok_or-ok, some_eq, task_execution_error,
}
use vyuh.Tasks.Externals.{Externals}
use vyuh.Tasks.Types.{TaskLaneConf, TaskStoreConf}
use vyuh.Tasks.Rate.{RateBucket}
use vyuh.Tasks.Store.State.{MemoryState, MemoryLaneLock}
use vyuh.Tasks.Store.Queries.{reject_orphaned_tasks}
use vyuh.Tasks.Store.Deliver.{finalize_workflow, deliver_all, group_deliveries}
use vyuh.Tasks.Store.Operations.{
  add_rate, add_rates, add_lock, add_locks, initialize, initialize_rates, initialize_lane_locks,
}

-- A lane has the lock and the bucket that its configuration calls for.
pub record IsReady (s : MemoryState) (lane : TaskLaneConf) : Type 0 where
  pub lock : (not (is_some lane.lane_lock) || contains_key lane.lane s.lane_locks) ≡ true
  pub bucket : (not (is_some lane.global_rate) || contains_key lane.lane s.rates) ≡ true

module _ {V : Type 0} where
  contains-remove :
      (k a : String) (m : HashMap String V)
      → (k =$ a) ≡ false
      → contains_key a m ≡ true
      → contains_key a (remove k m) ≡ true
  contains-remove k a [] e h = h
  contains-remove k a ((b, v) ∷ m) e h = elim (Bool-cases (b =$ k)) [
    | inl f ↦ elim (Bool-cases (b =$ a)) [
      | inl g ↦
          let same : (k =$ a) ≡ true = (eq_iff k a).1 (sym ((eq_iff b k).0 f) ∙ (eq_iff b a).0 g) in
          cc
      | inr g ↦ rw f (contains-remove k a m e (rw g at h))
    ]
    | inr f ↦ elim (Bool-cases (b =$ a)) [
      | inl g ↦ rw (f, g) refl
      | inr g ↦ rw (f, g) (contains-remove k a m e (rw g at h))
    ]
  ]

  contains-or_insert :
      (k a : String) (v : V) (m : HashMap String V)
      → contains_key a m ≡ true
      → contains_key a (or_insert k v m) ≡ true
  contains-or_insert k a v m h = elim (Bool-cases (contains_key k m)) [
    | inl e ↦ rw e h
    | inr e ↦ elim (Bool-cases (k =$ a)) [
      | inl f ↦ rw (e, f) refl
      | inr f ↦ rw (e, f) (contains-remove k a m f h)
    ]
  ]

  contains-or_insert_same :
      (k : String) (v : V) (m : HashMap String V) → contains_key k (or_insert k v m) ≡ true
  contains-or_insert_same k v m = elim (Bool-cases (contains_key k m)) [
    | inl e ↦ rw (e, e) refl
    | inr e ↦ rw (e, =$_refl k) refl
  ]

add_locks-keeps :
    (lanes : List TaskLaneConf) (a : String) (locks : HashMap String MemoryLaneLock)
    → contains_key a locks ≡ true
    → contains_key a (add_locks lanes locks) ≡ true
add_locks-keeps [] a locks h = h
add_locks-keeps (lane ∷ lanes) a locks h = elim (Bool-cases (is_some lane.lane_lock)) [
  | inl e ↦ rw e (add_locks-keeps lanes a _ (contains-or_insert lane.lane a _ locks h))
  | inr e ↦ rw e (add_locks-keeps lanes a locks h)
]

add_locks-gives :
    (lanes : List TaskLaneConf) (locks : HashMap String MemoryLaneLock)
    → All
        (λ lane.
          (not (is_some lane.lane_lock) || contains_key lane.lane (add_locks lanes locks)) ≡ true)
        lanes
add_locks-gives [] locks = tt
add_locks-gives (lane ∷ lanes) locks = (here, add_locks-gives lanes (add_lock lane locks))
  where
    here :
        (not (is_some lane.lane_lock)
          || contains_key lane.lane (add_locks lanes (add_lock lane locks)))
        ≡ true
    here = elim (Bool-cases (is_some lane.lane_lock)) [
      | inl e ↦ rw e (add_locks-keeps lanes lane.lane _ (contains-or_insert_same lane.lane _ locks))
      | inr e ↦ rw e refl
    ]

add_rates-keeps :
    (lanes : List TaskLaneConf) (a : String) (now : ℕ) (rates : HashMap String RateBucket)
    → contains_key a rates ≡ true
    → contains_key a (add_rates lanes now rates) ≡ true
add_rates-keeps [] a now rates h = h
add_rates-keeps (lane ∷ lanes) a now rates h = elim (Option-cases lane.global_rate) [
  | inl e ↦ rw e (add_rates-keeps lanes a now rates h)
  | inr (rate, e) ↦ rw e (add_rates-keeps lanes a now _ (contains-or_insert lane.lane a _ rates h))
]

add_rates-gives :
    (lanes : List TaskLaneConf) (now : ℕ) (rates : HashMap String RateBucket)
    → All
        (λ lane.
          (not (is_some lane.global_rate) || contains_key lane.lane (add_rates lanes now rates))
          ≡ true)
        lanes
add_rates-gives [] now rates = tt
add_rates-gives (lane ∷ lanes) now rates =
    (here, add_rates-gives lanes now (add_rate lane now rates))
  where
    here :
        (not (is_some lane.global_rate)
          || contains_key lane.lane (add_rates lanes now (add_rate lane now rates)))
        ≡ true
    here = elim (Option-cases lane.global_rate) [
      | inl e ↦ rw e refl
      | inr (rate, e) ↦
          rw e (add_rates-keeps lanes lane.lane now _ (contains-or_insert_same lane.lane _ rates))
    ]

both :
    (s : MemoryState) (lanes : List TaskLaneConf)
    → All
        (λ lane. (not (is_some lane.lane_lock) || contains_key lane.lane s.lane_locks) ≡ true)
        lanes
    → All (λ lane. (not (is_some lane.global_rate) || contains_key lane.lane s.rates) ≡ true) lanes
    → All (IsReady s) lanes
both s [] h k = tt
both s (lane ∷ lanes) h k = (record { lock = h.0; bucket = k.0 }, both s lanes h.1 k.1)

-- Once a store is initialized, every lane of its configuration that is locked has its row of
-- ownership, and every lane with a global rate has its bucket.
pub initialize-IsReady :
    (x : Externals) (now : ℕ) (s s' : MemoryState) (conf : TaskStoreConf)
    → s.conf ≡ some conf
    → initialize x now s ≡ ok s'
    → All (IsReady s') conf.lanes
unfolding initialize initialize_rates initialize_lane_locks finalize_workflow deliver_all
    group_deliveries
initialize-IsReady x now s s' conf e h =
    let (c, f, h1) =
      and_then-ok (ok_or s.conf (task_execution_error "task store configuration is missing")) _ h in
    let (d, g, h2) = and_then-ok (reject_orphaned_tasks s.tasks c) _ h1 in
    let same : c ≡ conf = some_eq c conf (sym (ok_or-ok s.conf _ f) ∙ e) in
    subst (λ u. All (IsReady s') u.lanes) same
      (subst (λ u. All (IsReady u) c.lanes) (ok_eq _ _ h2)
        (both _ c.lanes (add_locks-gives c.lanes s.lane_locks)
          (add_rates-gives c.lanes now s.rates)))
