-- ===== src/Channels/Fanout/Recent.antt =====
-- What the memory of delivered envelopes promises: vyuh/src/channels/runtime.rs (`FanoutDedup`).
use vyuh.Prelude.{
  ℕ, suc, ◌+◌, ◌≤◌, ◌<◌, ltb, ◌==◌, ◌||◌, Bool, true, false, Bool-cases, ltb→lt, eq→==, ◌≡◌, refl,
  sym, ap, ◌∙◌, subst, inl, inr, List, [], ◌∷◌, ◌++◌, length, length-append, arith,
}
use mathlib.Core.List.{append_assoc}
use vyuh.Channels.Fanout.{
  FanoutDedup, fanout_dedup_limit, no_deliveries, contains, forget, seen_or_insert,
}
use vyuh.Channels.Fanout.Tracked.{Tracked, contains-append, seen_or_insert-Tracked}

-- `id` stands in the queue with at most `k` ids behind it.
record Behind (k id : ℕ) (d : FanoutDedup) : Type 0 where
  front : List ℕ
  back : List ℕ
  ids : d.ids ≡ front ++ id ∷ back
  few : length back ≤ k

forget-Behind :
    (k id : ℕ) (front back known : List ℕ)
    → length back ≤ k
    → 1 + k < length (front ++ id ∷ back)
    → Behind k id (forget (front ++ id ∷ back) (record { ids = front ++ id ∷ back; known = known }))
forget-Behind k id [] back known few long = absurd (omega arith)
forget-Behind k id (p ∷ front) back known few long = record {
  front = front;
  back = back;
  ids = refl;
  few = few;
}

seen_or_insert-Behind :
    (k id x : ℕ) (d : FanoutDedup)
    → suc k < fanout_dedup_limit
    → Behind k id d
    → Behind (suc k) id (seen_or_insert x d).1
unfolding seen_or_insert
seen_or_insert-Behind k id x d few b = elim (Bool-cases (contains x d.known)) [
  | inl e ↦
      rw e (record { front = b.front; back = b.back; ids = b.ids; few = omega (arith, b.few) })
  | inr e ↦ elim (Bool-cases (ltb fanout_dedup_limit (length (d.ids ++ x ∷ [])))) [
    | inl f ↦ rw (e, f) (popped f)
    | inr f ↦
        rw (e, f) (record { front = b.front; back = b.back ++ x ∷ []; ids = later; few = longer })
  ]
]
  where
    later : d.ids ++ x ∷ [] ≡ b.front ++ id ∷ (b.back ++ x ∷ [])
    later = ap (λ q. q ++ x ∷ []) b.ids ∙ append_assoc b.front (id ∷ b.back) (x ∷ [])

    longer : length (b.back ++ x ∷ []) ≤ suc k
    longer = omega (arith, length-append b.back (x ∷ []), b.few)

    popped :
        ltb fanout_dedup_limit (length (d.ids ++ x ∷ [])) ≡ true
        → Behind
            (suc k)
            id
            (forget (d.ids ++ x ∷ []) (record { ids = d.ids ++ x ∷ []; known = x ∷ d.known }))
    popped f =
        subst (λ q. Behind (suc k) id (forget q (record { ids = q; known = x ∷ d.known })))
          (sym later)
          (forget-Behind (suc k) id b.front (b.back ++ x ∷ []) (x ∷ d.known) longer
            (subst (λ q. 1 + suc k < length q) later (omega (arith, ltb→lt _ _ f))))

-- The memory after envelopes with these ids.
abbrev pub feed : List ℕ → FanoutDedup → FanoutDedup
feed [] d = d
feed (id ∷ ids) d = feed ids (seen_or_insert id d).1

pub feed-Tracked : (ids : List ℕ) (d : FanoutDedup) → Tracked d → Tracked (feed ids d)
feed-Tracked [] d t = t
feed-Tracked (id ∷ ids) d t =
    feed-Tracked ids (seen_or_insert id d).1 (seen_or_insert-Tracked id d t)

pub no_deliveries-Tracked : Tracked no_deliveries
no_deliveries-Tracked = record { same = λ x. refl; distinct = tt; bounded = omega arith }

feed-Behind :
    (ids : List ℕ) (k id : ℕ) (d : FanoutDedup)
    → k + length ids < fanout_dedup_limit
    → Behind k id d
    → Behind (k + length ids) id (feed ids d)
feed-Behind [] k id d few b = record {
  front = b.front;
  back = b.back;
  ids = b.ids;
  few = omega (arith, b.few);
}
feed-Behind (x ∷ ids) k id d few b =
    let next = seen_or_insert-Behind k id x d (omega arith) b in
    let last = feed-Behind ids (suc k) id (seen_or_insert x d).1 (omega arith) next in
    record { front = last.front; back = last.back; ids = last.ids; few = omega (arith, last.few) }

Behind-contains : (k id : ℕ) (d : FanoutDedup) → Behind k id d → contains id d.ids ≡ true
Behind-contains k id d b = rw b.ids (
    contains-append id b.front (id ∷ b.back)
    ∙ here (contains id b.front) (id == id) (contains id b.back) (eq→== id id refl))
  where
    here : (p q r : Bool) → q ≡ true → (p || (q || r)) ≡ true
    here p q r e = ground arith

accepted :
    (id : ℕ) (d : FanoutDedup)
    → Tracked d
    → (seen_or_insert id d).0 ≡ false
    → Behind 0 id (seen_or_insert id d).1
unfolding seen_or_insert
accepted id d t h = elim (Bool-cases (contains id d.known)) [
  | inl e ↦ absurd (clash (rw e at h))
  | inr e ↦ elim (Bool-cases (ltb fanout_dedup_limit (length (d.ids ++ id ∷ [])))) [
    | inl f ↦
        rw (e, f)
          (forget-Behind 0 id d.ids [] (id ∷ d.known) (omega arith) (omega (arith, ltb→lt _ _ f)))
    | inr f ↦ rw (e, f) (record { front = d.ids; back = []; ids = refl; few = omega arith })
  ]
]
  where
    clash : true ≡ false → ⊥
    clash q = cc

seen_or_insert-known :
    (id : ℕ) (d : FanoutDedup) → Tracked d → (seen_or_insert id d).0 ≡ contains id d.ids
unfolding seen_or_insert
seen_or_insert-known id d t = elim (Bool-cases (contains id d.known)) [
  | inl e ↦ rw e (sym e ∙ t.same id)
  | inr e ↦ rw e (sym e ∙ t.same id)
]

-- Whatever envelopes came before, one that is accepted is refused as long as fewer than 2048 other
-- envelopes come after it, and the ids that are kept never pass 2048.
pub seen_or_insert-again :
    (before later : List ℕ) (id : ℕ)
    → length later < fanout_dedup_limit
    → (seen_or_insert id (feed before no_deliveries)).0 ≡ false
    → ((seen_or_insert id (feed later (seen_or_insert id (feed before no_deliveries)).1)).0 ≡ true)
      × (length (feed later (seen_or_insert id (feed before no_deliveries)).1).ids
          ≤ fanout_dedup_limit)
seen_or_insert-again before later id few h =
    let start = feed before no_deliveries in
    let known = feed-Tracked before no_deliveries no_deliveries-Tracked in
    let next = (seen_or_insert id start).1 in
    let tracked = feed-Tracked later next (seen_or_insert-Tracked id start known) in
    let behind = feed-Behind later 0 id next (omega arith) (accepted id start known h) in
    (
      seen_or_insert-known id (feed later next) tracked
          ∙ Behind-contains (0 + length later) id (feed later next) behind,
      tracked.bounded,
    )
