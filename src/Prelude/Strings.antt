-- ===== src/Prelude/Strings.antt =====
-- Strings of the source as lists of bytes, without the terminating zero.
use mathlib.Core.Path.{◌≡◌, refl}
use mathlib.Core.Logic.{◌↔◌}
use mathlib.Core.Bool.{Bool, true, false, ◌&&◌}
use mathlib.Core.List.{List, [], ◌∷◌}
use native.Mathlib.Omega.{arith}
use Prim.Native.Nat.{ℕ}
use tundra.Prelude.Tests.{◌==◌}

-- strcmp(a, b) == 0
unfoldable pub same_string : List ℕ → List ℕ → Bool
same_string [] [] = true
same_string [] (y ∷ ys) = false
same_string (x ∷ xs) [] = false
same_string (x ∷ xs) (y ∷ ys) = x == y && same_string xs ys

pub same_string_iff : (a b : List ℕ) → (same_string a b ≡ true) ↔ (a ≡ b)
unfolding same_string
same_string_iff [] [] = (λ _. refl, λ _. refl)
same_string_iff [] (y ∷ ys) = ground arith
same_string_iff (x ∷ xs) [] = ground arith
same_string_iff (x ∷ xs) (y ∷ ys) = ground (arith, same_string_iff xs ys)
