-- ===== src/Cache/Key/Text.antt =====
-- A text that is written with its length before it can be read back: the parts of a key in
-- vyuh/src/cache/key.rs.
use mathlib.Core.List.{append_assoc}
use vyuh.Prelude.{
  ℕ, zero, suc, ◌+◌, ◌-◌, ◌*◌, ◌/◌, ◌%◌, ◌≤◌, ◌<◌, ltb, ◌≡◌, refl, sym, ap, ◌∙◌, Bool-cases, inl,
  inr, List, [], ◌∷◌, ◌++◌, length, All, All-append, arith,
}
use vyuh.Prelude.Bytes.{Bytes}
use vyuh.Cache.Key.{digits, to_string, append_part}

-- The number that decimal digits stand for.
value : ℕ → Bytes → ℕ
value acc [] = acc
value acc (b ∷ bs) = value (acc * 10 + (b - 48)) bs

value-snoc :
    (acc : ℕ) (bs : Bytes) (b : ℕ) → value acc (bs ++ b ∷ []) ≡ value acc bs * 10 + (b - 48)
unfolding value
value-snoc acc [] b = refl
value-snoc acc (c ∷ bs) b = value-snoc (acc * 10 + (c - 48)) bs b

value-digits : (fuel n : ℕ) → n ≤ fuel → value 0 (digits fuel n) ≡ n
unfolding digits value
value-digits zero n h = omega arith
value-digits (suc fuel) n h = elim (Bool-cases (ltb n 10)) [
  | inl e ↦ rw e (omega arith)
  | inr e ↦ rw e (
      omega (
        arith,
        value-snoc 0 (digits fuel (n / 10)) (n % 10 + b'0'),
        value-digits fuel (n / 10) (ground arith),
      ))
]

-- No digit is a colon.
abbrev NoColon : Bytes → Type 0
NoColon = All (λ b. b < b':')

digits-NoColon : (fuel n : ℕ) → NoColon (digits fuel n)
unfolding digits
digits-NoColon zero n = (omega arith, tt)
digits-NoColon (suc fuel) n = elim (Bool-cases (ltb n 10)) [
  | inl e ↦ rw e (ground arith, tt)
  | inr e ↦ rw e (
      All-append (λ b. b < b':') (digits fuel (n / 10)) ((n % 10 + b'0') ∷ [])
        (digits-NoColon fuel (n / 10)) (omega arith, tt))
]

head_eq {ℓ} : {A : Type ℓ} {x y : A} {xs ys : List A} → x ∷ xs ≡ y ∷ ys → x ≡ y
head_eq h = cc

tail_eq {ℓ} : {A : Type ℓ} {x y : A} {xs ys : List A} → x ∷ xs ≡ y ∷ ys → xs ≡ ys
tail_eq h = cc

up_to_colon :
    (xs ys r q : Bytes)
    → NoColon xs
    → NoColon ys
    → xs ++ b':' ∷ r ≡ ys ++ b':' ∷ q
    → (xs ≡ ys) × (r ≡ q)
up_to_colon [] [] r q h k e = (refl, tail_eq e)
up_to_colon [] (y ∷ ys) r q h k e = absurd (omega (arith, head_eq e))
up_to_colon (x ∷ xs) [] r q h k e = absurd (omega (arith, head_eq e))
up_to_colon (x ∷ xs) (y ∷ ys) r q h k e =
    let (same, rest) = up_to_colon xs ys r q h.1 k.1 (tail_eq e) in (cc (head_eq e, same), rest)

pub to_string_inj :
    (n m : ℕ) (r q : Bytes) → to_string n ++ b':' ∷ r ≡ to_string m ++ b':' ∷ q → (n ≡ m) × (r ≡ q)
unfolding to_string
to_string_inj n m r q e =
    let (same, rest) =
      up_to_colon (digits n n) (digits m m) r q (digits-NoColon n n) (digits-NoColon m m) e in
    (
      omega (
        arith,
        value-digits n n (omega arith),
        value-digits m m (omega arith),
        ap (value 0) same,
      ),
      rest,
    )

-- Texts of one length are told apart whatever follows them.
pub append_inj {ℓ} :
    {A : Type ℓ} (v w r q : List A) → length v ≡ length w → v ++ r ≡ w ++ q → (v ≡ w) × (r ≡ q)
append_inj [] [] r q h e = (refl, e)
append_inj [] (y ∷ w) r q h e = absurd (omega arith)
append_inj (x ∷ v) [] r q h e = absurd (omega arith)
append_inj (x ∷ v) (y ∷ w) r q h e =
    let (same, rest) = append_inj v w r q (omega arith) (tail_eq e) in (cc (head_eq e, same), rest)

abbrev pub part : Bytes → Bytes
part v = to_string (length v) ++ b':' ∷ (v ++ b':' ∷ [])

part-append : (v r : Bytes) → part v ++ r ≡ to_string (length v) ++ b':' ∷ (v ++ b':' ∷ r)
part-append v r = simp append_assoc

pub part_inj : (v w r q : Bytes) → part v ++ r ≡ part w ++ q → (v ≡ w) × (r ≡ q)
part_inj v w r q e =
    let (long, rest) =
      to_string_inj (length v) (length w) (v ++ b':' ∷ r) (w ++ b':' ∷ q)
        (sym (part-append v r) ∙ e ∙ part-append w q) in
    let (same, after) = append_inj v w (b':' ∷ r) (b':' ∷ q) long rest in (same, tail_eq after)

pub append_part_lem : (output v : Bytes) → append_part output v ≡ output ++ part v
unfolding append_part
append_part_lem output v = refl

abbrev pub parts : List Bytes → Bytes
parts [] = []
parts (v ∷ vs) = part v ++ parts vs

pub parts_inj :
    (vs ws : List Bytes) (r q : Bytes)
    → length vs ≡ length ws
    → parts vs ++ r ≡ parts ws ++ q
    → (vs ≡ ws) × (r ≡ q)
parts_inj [] [] r q h e = (refl, e)
parts_inj [] (w ∷ ws) r q h e = absurd (omega arith)
parts_inj (v ∷ vs) [] r q h e = absurd (omega arith)
parts_inj (v ∷ vs) (w ∷ ws) r q h e =
    let (same, rest) =
      part_inj v w (parts vs ++ r) (parts ws ++ q)
        (sym (append_assoc (part v) (parts vs) r) ∙ e ∙ append_assoc (part w) (parts ws) q) in
    let (more, after) = parts_inj vs ws r q (omega arith) rest in (cc (same, more), after)
