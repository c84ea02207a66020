-- ===== src/Prelude/Text.antt =====
-- C strings: the text of one, and the comparison of two.
use Prim.Native.Nat.{ℕ}
use mathlib.Core.Path.{◌≡◌, refl}
use mathlib.Core.Logic.{◌↔◌}
use mathlib.Core.Bool.{Bool, true, false, ◌&&◌}
use mathlib.Core.List.{List, [], ◌∷◌}
use native.Mathlib.Omega.{arith}
use epfl_ba6_os.Prelude.Tests.{◌==◌, if◌then◌else◌}

-- The text of a C string: what stands before the first NUL.
unfoldable pub c_str : List ℕ → List ℕ
c_str [] = []
c_str (b ∷ bs) = if b == 0 then [] else b ∷ c_str bs

-- `strcmp(a, b) == 0`, of the texts.
unfoldable pub str_eq : List ℕ → List ℕ → Bool
str_eq [] [] = true
str_eq [] (b ∷ bs) = false
str_eq (a ∷ as') [] = false
str_eq (a ∷ as') (b ∷ bs) = a == b && str_eq as' bs

pub str_eq_iff : (a b : List ℕ) → (str_eq a b ≡ true) ↔ (a ≡ b)
unfolding str_eq
str_eq_iff [] [] = ((λ h. refl), (λ h. refl))
str_eq_iff [] (b ∷ bs) = ((λ h. cc), (λ h. cc))
str_eq_iff (a ∷ as') [] = ((λ h. cc), (λ h. cc))
str_eq_iff (a ∷ as') (b ∷ bs) =
    ((λ h. ground (arith, (str_eq_iff as' bs).0)), (λ h. ground (arith, (str_eq_iff as' bs).1)))
