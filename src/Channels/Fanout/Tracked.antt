-- ===== src/Channels/Fanout/Tracked.antt =====
-- The ids that are kept and those that are known are the same: vyuh/src/channels/runtime.rs
-- (`FanoutDedup`).
use vyuh.Prelude.{
  ℕ, suc, ◌+◌, ◌≤◌, ◌<◌, ltb, ◌==◌, ◌||◌, ◌&&◌, Bool, true, false, not, Bool-cases, ltb→lt, ==→eq,
  ◌≡◌, refl, sym, ◌∙◌, subst, inl, inr, List, [], ◌∷◌, ◌++◌, filter, length, length-append, arith,
}
use vyuh.Channels.Fanout.{FanoutDedup, fanout_dedup_limit, contains, forget, seen_or_insert}

abbrev Distinct : List ℕ → Type 0
Distinct [] = Unit
Distinct (x ∷ xs) = (contains x xs ≡ false) × Distinct xs

pub record Tracked (d : FanoutDedup) : Type 0 where
  pub same : (x : ℕ) → contains x d.known ≡ contains x d.ids
  pub distinct : Distinct d.ids
  pub bounded : length d.ids ≤ fanout_dedup_limit

pub contains-append :
    (x : ℕ) (xs ys : List ℕ) → contains x (xs ++ ys) ≡ (contains x xs || contains x ys)
contains-append x [] ys = refl
contains-append x (y ∷ xs) ys = rw (contains-append x xs ys) (ground arith)

contains-filter :
    (x y : ℕ) (xs : List ℕ)
    → contains x (filter (λ z. not (z == y)) xs) ≡ (contains x xs && not (x == y))
contains-filter x y [] = refl
contains-filter x y (z ∷ xs) = ground (arith, contains-filter x y xs)

Distinct-snoc :
    (x : ℕ) (xs : List ℕ) → Distinct xs → contains x xs ≡ false → Distinct (xs ++ x ∷ [])
Distinct-snoc x [] d h = (refl, tt)
Distinct-snoc x (y ∷ xs) (fresh, d) h =
    let apart : contains y (xs ++ x ∷ []) ≡ false =
      rw (contains-append y xs (x ∷ [])) (ground arith) in
    (apart, Distinct-snoc x xs d (ground arith))

kept : (k c r n : Bool) → k ≡ (c || r) → c ≡ false → n ≡ true → (k && n) ≡ r
kept k c r n e f g = ground arith

dropped : (k n r : Bool) → r ≡ false → n ≡ false → (k && n) ≡ r
dropped k n r e f = ground arith

either : (a b k r : Bool) → k ≡ r → b ≡ (r || (a || false)) → (a || k) ≡ b
either a b k r e f = ground arith

forget-Tracked :
    (ids known : List ℕ)
    → ((x : ℕ) → contains x known ≡ contains x ids)
    → Distinct ids
    → length ids ≤ suc fanout_dedup_limit
    → fanout_dedup_limit < length ids
    → Tracked (forget ids (record { ids = ids; known = known }))
forget-Tracked [] known same d short long = absurd (omega arith)
forget-Tracked (p ∷ ids) known same (fresh, d) short long = record {
  same = λ x. contains-filter x p known ∙ rest x;
  distinct = d;
  bounded = omega arith;
}
  where
    rest : (x : ℕ) → (contains x known && not (x == p)) ≡ contains x ids
    rest x = elim (Bool-cases (p == x)) [
      | inl e ↦
          let gone : contains x ids ≡ false =
            subst (λ y. contains y ids ≡ false) (==→eq p x e) fresh in
          dropped (contains x known) (not (x == p)) (contains x ids) gone (ground arith)
      | inr e ↦
          kept (contains x known) (p == x) (contains x ids) (not (x == p)) (same x) e (ground arith)
    ]

pub seen_or_insert-Tracked :
    (id : ℕ) (d : FanoutDedup) → Tracked d → Tracked (seen_or_insert id d).1
unfolding seen_or_insert
seen_or_insert-Tracked id d t = elim (Bool-cases (contains id d.known)) [
  | inl e ↦ rw e t
  | inr e ↦
      let ids = d.ids ++ id ∷ [] in
      let fresh : contains id d.ids ≡ false = sym (t.same id) ∙ e in
      let once = Distinct-snoc id d.ids t.distinct fresh in
      let long : length ids ≡ length d.ids + 1 = length-append d.ids (id ∷ []) in
      let bounded = t.bounded in
      elim (Bool-cases (ltb fanout_dedup_limit (length ids))) [
        | inl f ↦
            rw (e, f) (forget-Tracked ids (id ∷ d.known) (joined) once (omega arith) (ltb→lt _ _ f))
        | inr f ↦ rw (e, f) (record { same = joined; distinct = once; bounded = ground arith })
      ]
]
  where
    joined : (x : ℕ) → contains x (id ∷ d.known) ≡ contains x (d.ids ++ id ∷ [])
    joined x =
        either (id == x) _ (contains x d.known) (contains x d.ids) (t.same x)
          (contains-append x d.ids (id ∷ []))
