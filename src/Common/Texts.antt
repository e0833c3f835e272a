-- ===== src/Common/Texts.antt =====
-- Texts as lists of bytes: equality as `strcmp` tests it, and how often a text stands in a list.
use tp_so_delibird.Common.Tests.{◌==◌, if◌then◌else◌}
use Prim.Native.Nat.{ℕ, ◌+◌}
use mathlib.Core.Bool.{Bool, true, false, ◌&&◌}
use mathlib.Core.List.{List, [], ◌∷◌, ◌++◌}
use mathlib.Core.Path.{◌≡◌, refl}
use native.Mathlib.Omega.{arith}

abbrev pub same : List ℕ → List ℕ → Bool
same [] [] = true
same (a ∷ x) (b ∷ y) = (a == b) && same x y
same _ _ = false

pub same_refl : (x : List ℕ) → same x x ≡ true
same_refl [] = refl
same_refl (a ∷ x) = ground (arith, same_refl x)

pub same→eq : (x y : List ℕ) → same x y ≡ true → x ≡ y
same→eq [] [] h = refl
same→eq [] (b ∷ y) h = cc
same→eq (a ∷ x) [] h = cc
same→eq (a ∷ x) (b ∷ y) h = ground (arith, same→eq x y)

pub same_sym : (x y : List ℕ) → same x y ≡ same y x
same_sym [] [] = refl
same_sym [] (b ∷ y) = refl
same_sym (a ∷ x) [] = refl
same_sym (a ∷ x) (b ∷ y) = ground (arith, same_sym x y)

abbrev pub count : List ℕ → List (List ℕ) → ℕ
count x [] = 0
count x (y ∷ ys) = (if same y x then 1 else 0) + count x ys

pub count-append :
    (x : List ℕ) (ys zs : List (List ℕ)) → count x (ys ++ zs) ≡ count x ys + count x zs
count-append x [] zs = omega arith
count-append x (y ∷ ys) zs = omega (arith, count-append x ys zs)
