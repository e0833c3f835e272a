-- ===== src/Common/Blocks.antt =====
-- Reading a block of memory after a write to it.
use tp_so_delibird.Common.Lists.{
  length, take, drop, write_at, read_at, length-append, length-take, length-drop, take-append,
  drop-append,
}
use Prim.Native.Nat.{ℕ, zero, suc, ◌+◌, ◌-◌, ◌≤◌}
use mathlib.Core.List.{List, [], ◌∷◌, ◌++◌, append_assoc}
use mathlib.Core.Logic.{◌⊎◌, inl, inr}
use mathlib.Core.Path.{◌≡◌, refl, sym, ap, ◌∙◌}
use native.Mathlib.Omega.{arith}

module _ {ℓ} {A : Type ℓ} where
  take-take_append :
      (n i : ℕ) (cells ys : List A)
      → n ≤ i
      → i ≤ length cells
      → take n (take i cells ++ ys) ≡ take n cells
  take-take_append zero i cells ys h k = refl
  take-take_append (suc n) zero cells ys h k = absurd (omega arith)
  take-take_append (suc n) (suc i) [] ys h k = absurd (omega arith)
  take-take_append (suc n) (suc i) (c ∷ cells) ys h k =
      ap (◌∷◌ c) (take-take_append n i cells ys (omega arith) (omega arith))

  read-take_append :
      (j n i : ℕ) (cells ys : List A)
      → j + n ≤ i
      → i ≤ length cells
      → read_at j n (take i cells ++ ys) ≡ read_at j n cells
  read-take_append zero n i cells ys h k = take-take_append n i cells ys (omega arith) k
  read-take_append (suc j) n zero cells ys h k = absurd (omega arith)
  read-take_append (suc j) n (suc i) [] ys h k = absurd (omega arith)
  read-take_append (suc j) n (suc i) (c ∷ cells) ys h k =
      read-take_append j n i cells ys (omega arith) (omega arith)

  drop-append_le :
      (j : ℕ) (xs ys : List A) → length xs ≤ j → drop j (xs ++ ys) ≡ drop (j - length xs) ys
  drop-append_le j [] ys h = ap (λ (k : ℕ). drop k ys) (omega arith)
  drop-append_le zero (x ∷ xs) ys h = absurd (omega arith)
  drop-append_le (suc j) (x ∷ xs) ys h =
      drop-append_le j xs ys (omega arith) ∙ ap (λ (k : ℕ). drop k ys) (omega arith)

  drop_nil : (j : ℕ) → drop {A = A} j [] ≡ []
  drop_nil zero = refl
  drop_nil (suc j) = refl

  drop-drop : (i j : ℕ) (xs : List A) → drop j (drop i xs) ≡ drop (i + j) xs
  drop-drop zero j xs = ap (λ (k : ℕ). drop k xs) (omega arith)
  drop-drop (suc i) j [] = drop_nil j ∙ sym (drop_nil (suc i + j))
  drop-drop (suc i) j (x ∷ xs) =
      let e : suc (i + j) ≡ suc i + j = omega arith in
      drop-drop i j xs ∙ ap (λ (k : ℕ). drop k (x ∷ xs)) e

  module _ (i : ℕ) (xs cells : List A) (fits : i + length xs ≤ length cells) where
    pub length-write_at : length (write_at i xs cells) ≡ length cells
    length-write_at = simp (length-append, length-take, length-drop) (omega arith)

    -- What was written is read.
    pub read-write_self : read_at i (length xs) (write_at i xs cells) ≡ xs
    read-write_self =
        rw
          (drop-append i (take i cells) (xs ++ drop (i + length xs) cells)
            (omega (arith, length-take i cells)))
          (take-append (length xs) xs (drop (i + length xs) cells) refl)

    -- What lies apart from the write is read as before.
    pub read-write_apart :
        (j n : ℕ)
        → (j + n ≤ i) ⊎ (i + length xs ≤ j)
        → read_at j n (write_at i xs cells) ≡ read_at j n cells
    read-write_apart j n (inl h) =
        read-take_append j n i cells (xs ++ drop (i + length xs) cells) h (omega arith)
    read-write_apart j n (inr h) =
        let whole = take i cells ++ xs in
        let e : length whole ≡ i + length xs =
          omega (arith, length-append (take i cells) xs, length-take i cells) in
        rw
          (
            ← append_assoc (take i cells) xs (drop (i + length xs) cells),
            drop-append_le j whole (drop (i + length xs) cells) (omega arith),
            drop-drop (i + length xs) (j - length whole) cells,
          )
          (ap (λ (k : ℕ). take n (drop k cells)) (omega arith))
