-- ===== src/Common/Assoc.antt =====
-- Tables of texts: the list of their pairs, a key at most once.
use tp_so_delibird.Common.Tests.{Bool-cases, if◌then◌else◌}
use tp_so_delibird.Common.Texts.{same, same→eq, same_sym}
use Prim.Native.Nat.{ℕ}
use mathlib.Core.Bool.{true, false}
use mathlib.Core.List.{List, [], ◌∷◌}
use mathlib.Core.Logic.{inl, inr}
use mathlib.Core.Option.{Option, none, some}
use mathlib.Core.Path.{◌≡◌, refl, ◌∙◌}
use native.Mathlib.Omega.{arith}

abbrev pub Table : Type 0 → Type 0
Table A = List (List ℕ × A)

apart_by : (i j k : List ℕ) → same j k ≡ false → same j i ≡ true → same k i ≡ false
apart_by i j k e h = rw (← same→eq j i h) (same_sym k j ∙ e)

module _ {A : Type 0} where
  abbrev pub lookup : List ℕ → Table A → Option A
  lookup k [] = none
  lookup k ((j, a) ∷ t) = if same j k then some a else lookup k t

  abbrev pub store : List ℕ → A → Table A → Table A
  store k a [] = (k, a) ∷ []
  store k a ((j, b) ∷ t) = if same j k then (j, a) ∷ t else (j, b) ∷ store k a t

  pub lookup-store :
      (i k : List ℕ) (a : A) (t : Table A)
      → lookup i (store k a t) ≡ (if same k i then some a else lookup i t)
  lookup-store i k a [] = refl
  lookup-store i k a ((j, b) ∷ t) = elim (Bool-cases (same j k)) [
    | inl e ↦ rw (e, same→eq j k e) (ground arith)
    | inr e ↦ elim (Bool-cases (same j i)) [
      | inl h ↦ rw (e, h, apart_by i j k e h) refl
      | inr h ↦ rw (e, h) (lookup-store i k a t)
    ]
  ]
