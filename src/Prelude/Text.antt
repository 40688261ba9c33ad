-- ===== src/Prelude/Text.antt =====
-- `std::string` as the list of its bytes, and the texts of string literals.
use Prim.Native.Nat.{ℕ}
use Prim.Native.Char.{code}
use Prim.Native.String.{String}
use mathlib.Core.Path.{◌≡◌, refl}
use mathlib.Core.Bool.{Bool, true, false, ◌&&◌}
use mathlib.Core.List.{List, [], ◌∷◌}
use native.Mathlib.Omega.{arith}
use terminal_teams.Prelude.Tests.{◌==◌}

abbrev pub Bytes : Type 0
Bytes = List ℕ

-- The bytes of a literal (ASCII only).
abbrev pub codes : String → Bytes
codes String.[] = []
codes (String.◌∷◌ c s) = code c ∷ codes s

-- `==` of two strings.
unfoldable pub same : Bytes → Bytes → Bool
same [] [] = true
same [] (y ∷ ys) = false
same (x ∷ xs) [] = false
same (x ∷ xs) (y ∷ ys) = (x == y) && same xs ys

pub same_refl : (xs : Bytes) → same xs xs ≡ true
unfolding same
same_refl [] = refl
same_refl (x ∷ xs) = ground (arith, same_refl xs)

pub eq-of-same : (xs ys : Bytes) → same xs ys ≡ true → xs ≡ ys
unfolding same
eq-of-same [] [] h = refl
eq-of-same [] (y ∷ ys) h = cc
eq-of-same (x ∷ xs) [] h = cc
eq-of-same (x ∷ xs) (y ∷ ys) h = ground (arith, eq-of-same xs ys)
