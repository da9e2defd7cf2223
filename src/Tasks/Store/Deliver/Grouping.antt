-- ===== src/Tasks/Store/Deliver/Grouping.antt =====
-- How the deliveries are grouped by parent: the ordered map that `finalize_workflow` in
-- vyuh/src/tasks/store/memory/workflow.rs fills.
use vyuh.Prelude.{
  ℕ, ◌≤◌, lt→ltb, ◌<◌, ◌≡◌, refl, ap, sym, ◌∙◌, ◌+◌, ◌==◌, ltb, ltb→lt, ==→eq, eq→==, if◌then◌else◌,
  true, false, Option, none, some, String, List, [], ◌∷◌, Bool-cases, inl, inr, arith, filter, map,
  length, All,
}
use vyuh.Prelude.Int.{ℤ, pos, i32_max, wrapping_suc_i32}
use vyuh.Tasks.Store.Claim.{Delivery}
use vyuh.Tasks.Store.Deliver.{Grouped, add_delivery, group_deliveries}

abbrev pub Ascending : Grouped → Type 0
Ascending [] = Unit
Ascending ((k, n, first) ∷ rest) = All (λ e. k < e.0) rest × Ascending rest

abbrev pub entry : ℕ → Grouped → Option (ℤ × String)
entry id [] = none
entry id ((k, n, first) ∷ rest) = if k == id then some (n, first) else entry id rest

-- The results that the deliveries have for one parent.
abbrev results : ℕ → List Delivery → List String
results id ds = map (λ d. d.1) (filter (λ d. d.0 == id) ds)

abbrev counted : List String → Option (ℤ × String)
counted [] = none
counted (r ∷ rs) = some (pos (length rs + 1), r)

-- How many deliveries a parent has, and the result of the first of them.
abbrev pub group_of : ℕ → List Delivery → Option (ℤ × String)
group_of id ds = counted (results id ds)

-- The counter after one step for each further result.
abbrev bumped : List String → ℤ → ℤ
bumped [] n = n
bumped (r ∷ rs) n = bumped rs (wrapping_suc_i32 n)

-- A group that is extended by further results.
abbrev extended : Option (ℤ × String) → List String → Option (ℤ × String)
extended none [] = none
extended none (r ∷ rs) = some (bumped rs (pos 1), r)
extended (some (n, first)) rs = some (bumped rs n, first)

extended-nil : (o : Option (ℤ × String)) → extended o [] ≡ o
extended-nil none = refl
extended-nil (some (n, first)) = refl

extended-cons :
    (o : Option (ℤ × String)) (r : String) (rs : List String)
    → extended (extended o (r ∷ [])) rs ≡ extended o (r ∷ rs)
extended-cons none r rs = refl
extended-cons (some (n, first)) r rs = refl

bumped_lem :
    (rs : List String) (n : ℕ) → n + length rs ≤ i32_max → bumped rs (pos n) ≡ pos (n + length rs)
bumped_lem [] n h = ap pos (omega arith)
bumped_lem (r ∷ rs) n h =
    let below : ltb n i32_max ≡ true = lt→ltb n i32_max (omega arith) in
    rw below (bumped_lem rs (n + 1) (omega arith) ∙ ap pos (omega arith))

extended-counted : (rs : List String) → length rs ≤ i32_max → extended none rs ≡ counted rs
extended-counted [] h = refl
extended-counted (r ∷ rs) h =
    ap (λ n. some (n, r)) (bumped_lem rs 1 (omega arith) ∙ ap pos (omega arith))

length-results : (id : ℕ) (ds : List Delivery) → length (results id ds) ≤ length ds
length-results id [] = omega arith
length-results id ((k, r) ∷ ds) = ground (arith, length-results id ds)

weaken : {a b : ℕ} → a < b → (g : Grouped) → All (λ e. b < e.0) g → All (λ e. a < e.0) g
weaken l [] h = tt
weaken l (e ∷ g) (h, t) = (omega arith, weaken l g t)

add_delivery-All :
    (a id : ℕ) (r : String) (g : Grouped)
    → a < id
    → All (λ e. a < e.0) g
    → All (λ e. a < e.0) (add_delivery id r g)
add_delivery-All a id r [] l h = (l, tt)
add_delivery-All a id r ((k, n, first) ∷ g) l (h, t) = elim (Bool-cases (id == k)) [
  | inl e ↦ rw e (h, t)
  | inr e ↦ elim (Bool-cases (ltb id k)) [
    | inl f ↦ rw (e, f) (l, (h, t))
    | inr f ↦ rw (e, f) (h, add_delivery-All a id r g l t)
  ]
]

add_delivery-Ascending :
    (id : ℕ) (r : String) (g : Grouped) → Ascending g → Ascending (add_delivery id r g)
add_delivery-Ascending id r [] h = (tt, tt)
add_delivery-Ascending id r ((k, n, first) ∷ g) (h, t) = elim (Bool-cases (id == k)) [
  | inl e ↦ rw e (h, t)
  | inr e ↦ elim (Bool-cases (ltb id k)) [
    | inl f ↦ rw (e, f) ((ltb→lt id k f, weaken (ltb→lt id k f) g h), (h, t))
    | inr f ↦
        let l : k < id = ground arith in
        rw (e, f) (add_delivery-All k id r g l h, add_delivery-Ascending id r g t)
  ]
]

entry-absent : (id : ℕ) (g : Grouped) → All (λ e. id < e.0) g → entry id g ≡ none
entry-absent id [] h = refl
entry-absent id ((k, n, first) ∷ g) (h, t) =
    let other : (k == id) ≡ false = ground arith in rw other (entry-absent id g t)

entry-add_same :
    (id : ℕ) (r : String) (g : Grouped)
    → Ascending g
    → entry id (add_delivery id r g) ≡ extended (entry id g) (r ∷ [])
entry-add_same id r [] h = let same : (id == id) ≡ true = eq→== id id refl in rw same refl
entry-add_same id r ((k, n, first) ∷ g) (h, t) = elim (Bool-cases (id == k)) [
  | inl e ↦ let q : (k == id) ≡ true = ground arith in rw (e, q) refl
  | inr e ↦ elim (Bool-cases (ltb id k)) [
    | inl f ↦
        let same : (id == id) ≡ true = eq→== id id refl in
        let q : (k == id) ≡ false = ground arith in
        rw (e, f, same, q, entry-absent id g (weaken (ltb→lt id k f) g h)) refl
    | inr f ↦ let q : (k == id) ≡ false = ground arith in rw (e, f, q, entry-add_same id r g t) refl
  ]
]

entry-add_other :
    (i id : ℕ) (r : String) (g : Grouped)
    → (id == i) ≡ false
    → entry i (add_delivery id r g) ≡ entry i g
entry-add_other i id r [] o = rw o refl
entry-add_other i id r ((k, n, first) ∷ g) o = elim (Bool-cases (id == k)) [
  | inl e ↦ let q : (k == i) ≡ false = ground arith in rw (e, q) refl
  | inr e ↦ elim (Bool-cases (ltb id k)) [
    | inl f ↦ rw (e, f, o) refl
    | inr f ↦ rw (e, f, entry-add_other i id r g o) refl
  ]
]

group_deliveries-Ascending :
    (g : Grouped) (ds : List Delivery) → Ascending g → Ascending (group_deliveries g ds)
unfolding group_deliveries
group_deliveries-Ascending g [] h = h
group_deliveries-Ascending g ((k, r) ∷ ds) h =
    group_deliveries-Ascending (add_delivery k r g) ds (add_delivery-Ascending k r g h)

entry-group_deliveries :
    (id : ℕ) (g : Grouped) (ds : List Delivery)
    → Ascending g
    → entry id (group_deliveries g ds) ≡ extended (entry id g) (results id ds)
unfolding group_deliveries
entry-group_deliveries id g [] h = sym (extended-nil (entry id g))
entry-group_deliveries id g ((k, r) ∷ ds) h =
    let later =
      entry-group_deliveries id (add_delivery k r g) ds (add_delivery-Ascending k r g h) in
    elim (Bool-cases (k == id)) [
      | inl e ↦
          let same : k ≡ id = ==→eq k id e in
          let added : entry id (add_delivery k r g) ≡ extended (entry id g) (r ∷ []) =
            rw same (entry-add_same id r g h) in
          rw e (
            later
            ∙ ap (λ o. extended o (results id ds)) added
            ∙ extended-cons (entry id g) r (results id ds))
      | inr e ↦ rw e (later ∙ ap (λ o. extended o (results id ds)) (entry-add_other id k r g e))
    ]

-- The deliveries of a turn, of which there are no more than an i32 counts, are grouped with the
-- parents in strictly ascending order, and the group of each parent has the number of its
-- deliveries and the result of its first one; a parent without a delivery has no group.
pub group_deliveries-Grouped :
    (id : ℕ) (ds : List Delivery)
    → length ds ≤ i32_max
    → Ascending (group_deliveries [] ds) × (entry id (group_deliveries [] ds) ≡ group_of id ds)
group_deliveries-Grouped id ds few = (
  group_deliveries-Ascending [] ds tt,
  entry-group_deliveries id [] ds tt
      ∙ extended-counted (results id ds) (omega (arith, length-results id ds)),
)
