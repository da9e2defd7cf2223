-- ===== src/Cache/Integers.antt =====
-- The `i64` values that vyuh/src/cache/memory.rs keeps as eight bytes, most significant first.
use vyuh.Prelude.{
  ℕ, zero, suc, ◌+◌, ◌-◌, ◌*◌, ◌/◌, ◌%◌, ◌^◌, ◌≤◌, ◌<◌, ltb, leb, ◌≡◌, refl, Option, none, some, [],
  ◌∷◌, ◌++◌, length, length-append, arith, if◌then◌else◌, Bool,
}
use native.Mathlib.Nat.{pow-suc}
use vyuh.Prelude.Int.{ℤ, pos, negsuc, i64_max, u64_max}
use vyuh.Prelude.Bytes.{Bytes}

-- -2⁶³ to 2⁶³ - 1.
abbrev pub IsI64 : ℤ → Type 0
IsI64 (pos n) = n ≤ i64_max
IsI64 (negsuc n) = n ≤ i64_max

abbrev pub fits_i64 : ℤ → Bool
fits_i64 (pos n) = leb n i64_max
fits_i64 (negsuc n) = leb n i64_max

infixl 65 ◌+ℤ◌
abbrev pub ◌+ℤ◌ : ℤ → ℤ → ℤ
pos a +ℤ pos b = pos (a + b)
pos a +ℤ negsuc b = if ltb b a then pos (a - b - 1) else negsuc (b - a)
negsuc a +ℤ pos b = if ltb a b then pos (b - a - 1) else negsuc (a - b)
negsuc a +ℤ negsuc b = negsuc (a + b + 1)

-- `a.checked_add(b)`
abbrev pub checked_add : ℤ → ℤ → Option ℤ
checked_add a b = if fits_i64 (a +ℤ b) then some (a +ℤ b) else none

-- `a.checked_neg()`
abbrev pub checked_neg : ℤ → Option ℤ
checked_neg (pos zero) = some (pos zero)
checked_neg (pos (suc n)) = some (negsuc n)
checked_neg (negsuc n) = if ltb n i64_max then some (pos (n + 1)) else none

-- The bit pattern of an `i64`, and back.
abbrev pub to_bits : ℤ → ℕ
to_bits (pos n) = n
to_bits (negsuc n) = u64_max - n

abbrev pub from_bits : ℕ → ℤ
from_bits n = if leb n i64_max then pos n else negsuc (u64_max - n)

-- The `k` lowest bytes of a number, and the number that bytes stand for.
pub bytes_be : ℕ → ℕ → Bytes
bytes_be zero n = []
bytes_be (suc k) n = bytes_be k (n / 256) ++ (n % 256) ∷ []

pub number_be : ℕ → Bytes → ℕ
number_be acc [] = acc
number_be acc (b ∷ bs) = number_be (acc * 256 + b) bs

unfoldable pub to_be_bytes : ℤ → Bytes
unfolding bytes_be
to_be_bytes v = bytes_be 8 (to_bits v)

unfoldable pub from_be_bytes : Bytes → ℤ
unfolding number_be
from_be_bytes bs = from_bits (number_be 0 bs)

number_be-snoc :
    (acc : ℕ) (bs : Bytes) (b : ℕ) → number_be acc (bs ++ b ∷ []) ≡ number_be acc bs * 256 + b
unfolding number_be
number_be-snoc acc [] b = refl
number_be-snoc acc (c ∷ bs) b = number_be-snoc (acc * 256 + c) bs b

number_be-bytes_be : (k n : ℕ) → n < 256 ^ k → number_be 0 (bytes_be k n) ≡ n
unfolding bytes_be number_be
number_be-bytes_be zero n h = omega arith
number_be-bytes_be (suc k) n h =
    let small : n / 256 < 256 ^ k = omega (arith, pow-suc 256 k) in
    omega (
      arith,
      number_be-snoc 0 (bytes_be k (n / 256)) (n % 256),
      number_be-bytes_be k (n / 256) small,
    )

length-bytes_be : (k n : ℕ) → length (bytes_be k n) ≡ k
unfolding bytes_be
length-bytes_be zero n = refl
length-bytes_be (suc k) n =
    omega
      (arith, length-append (bytes_be k (n / 256)) ((n % 256) ∷ []), length-bytes_be k (n / 256))

pub length-to_be_bytes : (v : ℤ) → length (to_be_bytes v) ≡ 8
unfolding to_be_bytes
length-to_be_bytes v = length-bytes_be 8 (to_bits v)

from_bits-to_bits : (v : ℤ) → IsI64 v → from_bits (to_bits v) ≡ v
from_bits-to_bits (pos n) h = ground arith
from_bits-to_bits (negsuc n) h = ground arith

to_bits-lt : (v : ℤ) → IsI64 v → to_bits v < 256 ^ 8
to_bits-lt (pos n) h = omega arith
to_bits-lt (negsuc n) h = omega arith

pub from_be_bytes-to_be_bytes : (v : ℤ) → IsI64 v → from_be_bytes (to_be_bytes v) ≡ v
unfolding from_be_bytes to_be_bytes
from_be_bytes-to_be_bytes v h =
    rw (number_be-bytes_be 8 (to_bits v) (to_bits-lt v h)) (from_bits-to_bits v h)
