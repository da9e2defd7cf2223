-- ===== src/Channels/Debounce/Generations.antt =====
-- The generations of deadlines, a u64 that wraps around: vyuh/src/utils/debounce.rs.
use vyuh.Prelude.{
  ℕ, suc, ◌+◌, ◌≤◌, ltb, ◌==◌, false, Bool-cases, ◌≡◌, ◌⊎◌, inl, inr, List, [], ◌∷◌, length, arith,
}
use vyuh.Prelude.Int.{u64_max}
use vyuh.Channels.Types.{wrapping_suc}

abbrev pub gens {ℓ} : {A : Type ℓ} → List A → ℕ → ℕ
gens [] g = g
gens (x ∷ xs) g = gens xs (wrapping_suc g)

pub gens-sum {ℓ} :
    {A : Type ℓ} (xs : List A) (g : ℕ)
    → g ≤ u64_max
    → length xs ≤ u64_max
    → (gens xs g ≡ g + length xs) ⊎ (gens xs g + (u64_max + 1) ≡ g + length xs)
gens-sum [] g h k = inl (omega arith)
gens-sum (x ∷ xs) g h k = elim (Bool-cases (ltb g u64_max)) [
  | inl e ↦ rw e (shift (gens-sum xs (g + 1) (ground arith) (omega arith)))
  | inr e ↦ rw e (around (ground arith) (gens-sum xs 0 (omega arith) (omega arith)))
]
  where
    shift :
        (gens xs (g + 1) ≡ g + 1 + length xs)
          ⊎ (gens xs (g + 1) + (u64_max + 1) ≡ g + 1 + length xs)
        → (gens xs (g + 1) ≡ g + suc (length xs))
          ⊎ (gens xs (g + 1) + (u64_max + 1) ≡ g + suc (length xs))
    shift (inl p) = inl (omega (arith, p))
    shift (inr p) = inr (omega (arith, p))

    around :
        g ≡ u64_max
        → (gens xs 0 ≡ 0 + length xs) ⊎ (gens xs 0 + (u64_max + 1) ≡ 0 + length xs)
        → (gens xs 0 ≡ g + suc (length xs)) ⊎ (gens xs 0 + (u64_max + 1) ≡ g + suc (length xs))
    around top (inl p) = inr (omega (arith, top, p))
    around top (inr p) = absurd (omega (arith, p, k))

pub gens-apart {ℓ} :
    {A : Type ℓ} (x : A) (xs : List A) (g : ℕ)
    → g ≤ u64_max
    → length (x ∷ xs) ≤ u64_max
    → (g == gens (x ∷ xs) g) ≡ false
gens-apart x xs g h k = elim (gens-sum (x ∷ xs) g h k) [
  | inl p ↦ ground arith
  | inr p ↦ ground arith
]

pub wrapping_suc-le : (g : ℕ) → wrapping_suc g ≤ u64_max
wrapping_suc-le g = ground arith
