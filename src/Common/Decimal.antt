-- ===== src/Common/Decimal.antt =====
-- The texts of numbers, as "%d" prints an `int` and `atoi` reads one.
use tp_so_delibird.Common.Int.{ℤ, pos, negsuc}
use tp_so_delibird.Common.Lists.{All}
use tp_so_delibird.Common.Tests.{ltb, leb, ◌==◌, if◌then◌else◌, Bool-cases}
use Prim.Native.Nat.{ℕ, zero, suc, ◌+◌, ◌-◌, ◌*◌, ◌/◌, ◌%◌, ◌^◌, ◌≤◌, ◌<◌}
use mathlib.Core.Bool.{Bool, ◌&&◌, ◌||◌}
use mathlib.Core.List.{cons-ne-nil, List, [], ◌∷◌}
use mathlib.Core.Logic.{inl, inr, ◌≢◌}
use mathlib.Core.Path.{◌≡◌, refl, sym, ◌∙◌, ap}
use native.Mathlib.Omega.{arith}

-- The digits of `n` before `out`, at most `f` of them.
unfoldable pub digits : ℕ → ℕ → List ℕ → List ℕ
digits zero n out = out
digits (suc f) n out =
    let rest = digits f (n / 10) ((48 + n % 10) ∷ out) in
    if ltb n 10 then (48 + n % 10) ∷ out else rest

-- An `int` has ten digits at most.
unfoldable pub number_text : ℕ → List ℕ
number_text n = digits 10 n []

unfoldable pub int_text : ℤ → List ℕ
int_text (pos n) = number_text n
int_text (negsuc n) = 45 ∷ number_text (suc n)

abbrev pub is_digit : ℕ → Bool
is_digit c = leb 48 c && leb c 57

unfoldable pub atoi_digits : ℕ → List ℕ → ℕ
atoi_digits n [] = n
atoi_digits n (c ∷ s) =
    let rest = atoi_digits (n * 10 + (c - 48)) s in if is_digit c then rest else n

abbrev pub negated : ℕ → ℤ
negated zero = pos 0
negated (suc n) = negsuc n

unfoldable pub atoi_signed : List ℕ → ℤ
unfolding atoi_digits
atoi_signed [] = pos 0
atoi_signed (c ∷ s) =
    if c == 45
    then negated (atoi_digits 0 s)
    else if c == 43
    then pos (atoi_digits 0 s)
    else pos (atoi_digits 0 (c ∷ s))

-- Spaces before the number are passed over.
unfoldable pub atoi : List ℕ → ℤ
unfolding atoi_signed
atoi [] = pos 0
atoi (c ∷ s) =
    let rest = atoi s in if (c == 32) || (leb 9 c && leb c 13) then rest else atoi_signed (c ∷ s)

-- The value of a `uint32_t` in an `int`.
abbrev pub int_of_u32 : ℕ → ℤ
int_of_u32 n = if ltb n (2 ^ 31) then pos n else negsuc (2 ^ 32 - 1 - n)

-- An `int` as it is stored in a `uint32_t`.
abbrev pub u32_of_int : ℤ → ℕ
u32_of_int (pos n) = n % 2 ^ 32
u32_of_int (negsuc n) = 2 ^ 32 - 1 - n % 2 ^ 32

abbrev pub ten_to : ℕ → ℕ
ten_to zero = 1
ten_to (suc f) = 10 * ten_to f

abbrev pub IsDigit : ℕ → Type 0
IsDigit c = (48 ≤ c) × (c ≤ 57)

read_digit :
    (m d : ℕ) (out : List ℕ)
    → d < 10
    → atoi_digits m ((48 + d) ∷ out) ≡ atoi_digits (m * 10 + d) out
unfolding atoi_digits
read_digit m d out h = ground arith

atoi-digits :
    (f n : ℕ) (out : List ℕ) → n < ten_to f → atoi_digits 0 (digits f n out) ≡ atoi_digits n out
unfolding digits
atoi-digits zero n out h = let z : n ≡ 0 = omega arith in rw z refl
atoi-digits (suc f) n out h = elim (Bool-cases (ltb n 10)) [
  | inl e ↦
      let l : n < 10 = ground arith in
      let z : 0 * 10 + n % 10 ≡ n = omega arith in
      rw (e, read_digit 0 (n % 10) out (omega arith), z) refl
  | inr e ↦
      let z : n / 10 * 10 + n % 10 ≡ n = omega arith in
      rw
        (
          e,
          atoi-digits f (n / 10) ((48 + n % 10) ∷ out) (omega arith),
          read_digit (n / 10) (n % 10) out (omega arith),
          z,
        )
        refl
]

digits-IsDigit : (f n : ℕ) (out : List ℕ) → All IsDigit out → All IsDigit (digits f n out)
unfolding digits
digits-IsDigit zero n out a = a
digits-IsDigit (suc f) n out a = elim (Bool-cases (ltb n 10)) [
  | inl e ↦ rw e ((omega arith, omega arith), a)
  | inr e ↦ rw e (digits-IsDigit f (n / 10) ((48 + n % 10) ∷ out) ((omega arith, omega arith), a))
]

-- The text of a number is a first digit and more digits.
pub record Spelled (t : List ℕ) : Type 0 where
  pub first : ℕ
  pub others : List ℕ
  pub text : t ≡ first ∷ others
  pub all_digits : All IsDigit (first ∷ others)

spelled : (t : List ℕ) → All IsDigit t → t ≢ [] → Spelled t
spelled [] a h = absurd (h refl)
spelled (c ∷ s) a h = record { first = c; others = s; text = refl; all_digits = a }

digits-ne-nil : (f n : ℕ) (out : List ℕ) → out ≢ [] → digits f n out ≢ []
unfolding digits
digits-ne-nil zero n out h = h
digits-ne-nil (suc f) n out h = elim (Bool-cases (ltb n 10)) [
  | inl e ↦ rw e (cons-ne-nil (48 + n % 10) out)
  | inr e ↦ rw e (digits-ne-nil f (n / 10) ((48 + n % 10) ∷ out) (cons-ne-nil (48 + n % 10) out))
]

digits_some : (f n : ℕ) → digits (suc f) n [] ≢ []
unfolding digits
digits_some f n = elim (Bool-cases (ltb n 10)) [
  | inl e ↦ rw e (cons-ne-nil (48 + n % 10) [])
  | inr e ↦ rw e (digits-ne-nil f (n / 10) ((48 + n % 10) ∷ []) (cons-ne-nil (48 + n % 10) []))
]

pub number_text-Spelled : (n : ℕ) → Spelled (number_text n)
unfolding number_text
number_text-Spelled n = spelled (digits 10 n []) (digits-IsDigit 10 n [] tt) (digits_some 9 n)

read_nothing : (n : ℕ) → atoi_digits n [] ≡ n
unfolding atoi_digits
read_nothing n = refl

atoi_at_digit : (c : ℕ) (s : List ℕ) → IsDigit c → atoi (c ∷ s) ≡ pos (atoi_digits 0 (c ∷ s))
unfolding atoi atoi_signed
atoi_at_digit c s d = ground arith

-- A number of ten digits at most is read back from its text.
pub atoi-number_text : (n : ℕ) → n < 10000000000 → atoi (number_text n) ≡ pos n
unfolding number_text
atoi-number_text n h =
    let s : Spelled (number_text n) = number_text-Spelled n in
    ap atoi s.text
    ∙ atoi_at_digit s.first s.others s.all_digits.0
    ∙ ap (λ (t : List ℕ). pos (atoi_digits 0 t)) (sym s.text)
    ∙ ap pos (atoi-digits 10 n [] (omega arith) ∙ read_nothing n)
