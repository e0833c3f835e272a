-- ===== src/Common/Int.antt =====
-- Signed integers of the source, as a C `int`: `negsuc n` is -(n + 1).
use Prim.Native.Nat.{ℕ, suc, ◌+◌, ◌-◌}
use mathlib.Core.Bool.{Bool, true, false}

pub data ℤ : Type 0 where
  pos : ℕ → ℤ
  negsuc : ℕ → ℤ

abbrev pub pos_part : ℤ → ℕ
pos_part (pos n) = n
pos_part (negsuc n) = 0

abbrev pub neg_part : ℤ → ℕ
neg_part (pos n) = 0
neg_part (negsuc n) = suc n

-- How often `while (a > b) b++` runs its body.
abbrev pub rounds : ℤ → ℤ → ℕ
rounds a b = (pos_part a + neg_part b) - (pos_part b + neg_part a)

-- The value of `b` after that loop.
abbrev pub max_ℤ : ℤ → ℤ → ℤ
max_ℤ a b = elim (rounds a b) [ ℕ.zero ↦ b | ℕ.suc _ ↦ a ]

abbrev pub is_minus_one : ℤ → Bool
is_minus_one (pos n) = false
is_minus_one (negsuc ℕ.zero) = true
is_minus_one (negsuc (ℕ.suc n)) = false

abbrev pub increment : ℤ → ℤ
increment (pos n) = pos (suc n)
increment (negsuc ℕ.zero) = pos 0
increment (negsuc (ℕ.suc n)) = negsuc n

abbrev pub decrement : ℤ → ℤ
decrement (pos ℕ.zero) = negsuc 0
decrement (pos (ℕ.suc n)) = pos n
decrement (negsuc n) = negsuc (suc n)
