-- ===== src/Prelude/Bytes.antt =====
-- Texts of the source as their UTF-8 bytes, for the code that measures them or takes them apart.
use Prim.Native.Nat.{ℕ}
use Prim.Native.Char.{code}
use Prim.Native.String.{String}
use mathlib.Core.Path.{◌≡◌, refl}
use mathlib.Core.Bool.{Bool, true, false, ◌&&◌}
use mathlib.Core.List.{List, [], ◌∷◌, ◌++◌}
use vyuh.Prelude.Tests.{◌==◌, eq→==, ==→eq, and_true}
use vyuh.Prelude.Keys.{Key}
use vyuh.Prelude.Maps.{KeyLaws}
pub use vyuh.Prelude.Maps.{lookup-remove_self, lookup-remove_other, lookup-insert}

abbrev pub Bytes : Type 0
Bytes = List ℕ

-- The bytes of an ASCII literal.
abbrev pub ascii : String → Bytes
ascii String.[] = []
ascii (String.◌∷◌ c s) = code c ∷ ascii s

abbrev pub same_bytes : Bytes → Bytes → Bool
same_bytes [] [] = true
same_bytes [] (b ∷ bs) = false
same_bytes (a ∷ as') [] = false
same_bytes (a ∷ as') (b ∷ bs) = (a == b) && same_bytes as' bs

abbrev pub starts_with : Bytes → Bytes → Bool
starts_with xs [] = true
starts_with [] (p ∷ ps) = false
starts_with (x ∷ xs) (p ∷ ps) = (x == p) && starts_with xs ps

instance abbrev pub bytes_key : Key Bytes
bytes_key = record { same = same_bytes }

pub same_bytes_refl : (a : Bytes) → same_bytes a a ≡ true
same_bytes_refl [] = refl
same_bytes_refl (a ∷ as') = rw (eq→== a a refl, same_bytes_refl as')

pub same_bytes→eq : (a b : Bytes) → same_bytes a b ≡ true → a ≡ b
same_bytes→eq [] [] h = refl
same_bytes→eq [] (b ∷ bs) h = cc
same_bytes→eq (a ∷ as') [] h = cc
same_bytes→eq (a ∷ as') (b ∷ bs) h =
    let (e, f) = and_true (a == b) (same_bytes as' bs) h in cc (==→eq a b e, same_bytes→eq as' bs f)

instance abbrev pub bytes_laws : KeyLaws Bytes
bytes_laws = record { same_refl = same_bytes_refl; same→eq = same_bytes→eq }

-- A text begins with a prefix exactly when the prefix and a rest make it up.
pub starts_with-append : (p xs : Bytes) → starts_with (p ++ xs) p ≡ true
starts_with-append [] [] = refl
starts_with-append [] (x ∷ xs) = refl
starts_with-append (p ∷ ps) xs = rw (eq→== p p refl, starts_with-append ps xs)

pub starts_with-split : (xs p : Bytes) → starts_with xs p ≡ true → (rest : Bytes) × (xs ≡ p ++ rest)
starts_with-split xs [] h = (xs, refl)
starts_with-split [] (p ∷ ps) h = cc
starts_with-split (x ∷ xs) (p ∷ ps) h =
    let (e, f) = and_true (x == p) (starts_with xs ps) h in
    let (rest, g) = starts_with-split xs ps f in (rest, cc (==→eq x p e, g))
