-- ===== src/Prelude/Int.antt =====
-- Signed integers over the native numbers, and the checked and saturating operations of Rust's
-- `i32`, `i64` and `i128` that the program uses.
use Prim.Native.Nat.{ℕ, zero, suc, ◌+◌, ◌-◌, ◌≤◌}
use mathlib.Core.Path.{◌≡◌}
use mathlib.Core.Bool.{Bool}
use mathlib.Core.Option.{Option, none, some}
use native.Mathlib.Omega.{arith}
use vyuh.Prelude.Tests.{ltb, leb, ◌==◌, if◌then◌else◌}

-- `negsuc n` is -(n + 1).
pub data ℤ : Type 0 where
  pos : ℕ → ℤ
  negsuc : ℕ → ℤ

abbrev pub pos_part : ℤ → ℕ
pos_part (pos n) = n
pos_part (negsuc n) = 0

abbrev pub neg_part : ℤ → ℕ
neg_part (pos n) = 0
neg_part (negsuc n) = suc n

abbrev pub leb_ℤ : ℤ → ℤ → Bool
leb_ℤ a b = leb (pos_part a + neg_part b) (pos_part b + neg_part a)

abbrev pub eqb_ℤ : ℤ → ℤ → Bool
eqb_ℤ a b = (pos_part a + neg_part b) == (pos_part b + neg_part a)

-- The largest value of each type.
abbrev pub i32_max : ℕ
i32_max = 2147483647

abbrev pub i64_max : ℕ
i64_max = 9223372036854775807

abbrev pub u64_max : ℕ
u64_max = 18446744073709551615

abbrev pub usize_max : ℕ
usize_max = 18446744073709551615

abbrev pub i128_max : ℕ
i128_max = 170141183460469231731687303715884105727

-- `a.checked_add(1)` at the width whose largest value is `limit`.
abbrev pub checked_suc : ℕ → ℤ → Option ℤ
checked_suc limit (pos n) = if ltb n limit then some (pos (n + 1)) else none
checked_suc limit (negsuc zero) = some (pos 0)
checked_suc limit (negsuc (suc n)) = some (negsuc n)

-- `u32::try_from(a).ok()` of an `i32`.
abbrev pub to_unsigned : ℤ → Option ℕ
to_unsigned (pos n) = some n
to_unsigned (negsuc n) = none

-- A sum or product that may pass the largest value of its type.
abbrev pub saturate : ℕ → ℕ → ℕ
saturate limit n = if leb n limit then n else limit

-- `a.saturating_add(b)` of an `i64`, where `b` is not negative.
abbrev pub saturating_add : ℤ → ℕ → ℤ
saturating_add (pos n) b = pos (saturate i64_max (n + b))
saturating_add (negsuc n) b = if ltb n b then pos (b - n - 1) else negsuc (n - b)

-- `a.saturating_sub(b)` of an `i64`, where `b` is not negative.
abbrev pub saturating_sub : ℤ → ℕ → ℤ
saturating_sub (pos n) b = if leb b n then pos (n - b) else negsuc (b - n - 1)
saturating_sub (negsuc n) b = negsuc (saturate i64_max (n + b))

pub saturate-le : (limit n : ℕ) → saturate limit n ≤ limit
saturate-le limit n = ground arith

pub eqb_ℤ→eq : (a b : ℤ) → eqb_ℤ a b ≡ Bool.true → a ≡ b
eqb_ℤ→eq a b h = ground arith

pub eqb_ℤ_refl : (a : ℤ) → eqb_ℤ a a ≡ Bool.true
eqb_ℤ_refl a = ground arith

-- `a += 1` of an `i32` in a release build, which wraps around.
abbrev pub wrapping_suc_i32 : ℤ → ℤ
wrapping_suc_i32 (pos n) = if ltb n i32_max then pos (n + 1) else negsuc i32_max
wrapping_suc_i32 (negsuc zero) = pos 0
wrapping_suc_i32 (negsuc (suc n)) = negsuc n

-- `a.checked_sub(b)` of an `i32`.
abbrev pub checked_sub_i32 : ℤ → ℤ → Option ℤ
checked_sub_i32 a b =
    let up = pos_part a + neg_part b in
    let down = pos_part b + neg_part a in
    if leb down up
    then (if leb (up - down) i32_max then some (pos (up - down)) else none)
    else (if leb (down - up) (i32_max + 1) then some (negsuc (down - up - 1)) else none)
