-- ===== src/Common/Predicates.antt =====
-- Predicates on all elements and on all pairs of a list.
use tp_so_delibird.Common.Lists.{All, Elem, keep, get_elem?}
use tp_so_delibird.Common.Tests.{Bool-cases}
use Prim.Native.Nat.{ℕ, zero, suc}
use mathlib.Core.Bool.{Bool, true, false}
use mathlib.Core.List.{List, [], ◌∷◌, ◌++◌}
use mathlib.Core.Logic.{inl, inr, ◌⊎◌}
use mathlib.Core.Option.{some}
use mathlib.Core.Path.{◌≡◌, refl, sym, subst}
use native.Mathlib.Omega.{arith}

module _ {ℓ κ} {A : Type ℓ} (P : A → Type κ) where
  pub All-Elem : (xs : List A) {x : A} → All P xs → Elem x xs → P x
  All-Elem [] a m = elim m [ ]
  All-Elem (y ∷ ys) a (inl e) = subst P (sym e) a.0
  All-Elem (y ∷ ys) a (inr m) = All-Elem ys a.1 m

  pub get_elem?-All : (xs : List A) (i : ℕ) (x : A) → All P xs → get_elem? xs i ≡ some x → P x
  get_elem?-All [] i x a e = absurd (cc)
  get_elem?-All (y ∷ ys) zero x a e = subst P (ground arith) a.0
  get_elem?-All (y ∷ ys) (suc i) x a e = get_elem?-All ys i x a.1 e

  pub All-append : (xs ys : List A) → All P xs → All P ys → All P (xs ++ ys)
  All-append [] ys a b = b
  All-append (x ∷ xs) ys a b = (a.0, All-append xs ys a.1 b)

  pub All-keep : (p : A → Bool) (xs : List A) → All P xs → All P (keep p xs)
  All-keep p [] a = tt
  All-keep p (x ∷ xs) a = elim (Bool-cases (p x)) [
    | inl e ↦ rw e (a.0, All-keep p xs a.1)
    | inr e ↦ rw e (All-keep p xs a.1)
  ]

pub All-map {ℓ κ μ} :
    {A : Type ℓ} (P : A → Type κ) (Q : A → Type μ) (xs : List A)
    → ((x : A) → P x → Q x)
    → All P xs
    → All Q xs
All-map P Q [] f a = tt
All-map P Q (x ∷ xs) f a = (f x a.0, All-map P Q xs f a.1)

module _ {ℓ κ} {A : Type ℓ} (R : A → A → Type κ) where
  -- The relation holds of each element and every later one.
  abbrev pub Pairs : List A → Type κ
  Pairs [] = Unit
  Pairs (x ∷ xs) = All (R x) xs × Pairs xs

  pub Pairs-snoc : (xs : List A) (y : A) → Pairs xs → All (λ x. R x y) xs → Pairs (xs ++ (y ∷ []))
  Pairs-snoc [] y p a = (tt, tt)
  Pairs-snoc (x ∷ xs) y p a = (All-append (R x) xs (y ∷ []) p.0 (a.0, tt), Pairs-snoc xs y p.1 a.1)

  pub Pairs-keep : (p : A → Bool) (xs : List A) → Pairs xs → Pairs (keep p xs)
  Pairs-keep p [] a = tt
  Pairs-keep p (x ∷ xs) a = elim (Bool-cases (p x)) [
    | inl e ↦ rw e (All-keep (R x) p xs a.0, Pairs-keep p xs a.1)
    | inr e ↦ rw e (Pairs-keep p xs a.1)
  ]

module _ {ℓ} {A : Type ℓ} (p : A → Bool) where
  keep-true : (x : A) (xs : List A) → p x ≡ true → keep p (x ∷ xs) ≡ x ∷ keep p xs
  keep-true x xs e = rw e refl

  keep-false : (x : A) (xs : List A) → p x ≡ false → keep p (x ∷ xs) ≡ keep p xs
  keep-false x xs e = rw e refl

  -- What stands in the filtered list stands in the list and passes.
  pub Elem-keep : (x : A) (xs : List A) → Elem x (keep p xs) → Elem x xs × (p x ≡ true)
  Elem-keep x [] m = elim m [ ]
  Elem-keep x (y ∷ xs) m = elim (Bool-cases (p y)) [
    | inl e ↦ elim (subst (Elem x) (keep-true y xs e) m) [
      | inl s ↦ (inl s, subst (λ z. p z ≡ true) (sym s) e)
      | inr r ↦ let (i, h) = Elem-keep x xs r in (inr i, h)
    ]
    | inr e ↦ let (i, h) = Elem-keep x xs (subst (Elem x) (keep-false y xs e) m) in (inr i, h)
  ]

  -- What holds of the filtered list holds of each element that passes.
  pub All-of_keep {κ} :
      (P : A → Type κ) (xs : List A) → All P (keep p xs) → All (λ x. (p x ≡ false) ⊎ P x) xs
  All-of_keep P [] a = tt
  All-of_keep P (y ∷ xs) a = elim (Bool-cases (p y)) [
    | inl e ↦
        let b : All P (y ∷ keep p xs) = subst (All P) (keep-true y xs e) a in
        (inr b.0, All-of_keep P xs b.1)
    | inr e ↦ (inl e, All-of_keep P xs (subst (All P) (keep-false y xs e) a))
  ]
