-- ===== src/GameCard/Available.antt =====
-- gamecard/src/gamecard.c: the block that get_available_block takes, and the count of the free ones.
use tp_so_delibird.Common.{
  inr, ◌⊎◌, inl, zero, sym, [], ◌∷◌, suc, false, true, some, none, get_elem?, arith, ◌≡◌, ◌<◌, ℕ,
  Bool, List, refl,
}
use tp_so_delibird.Common.Int.{decrement, pos, ℤ}
use tp_so_delibird.GameCard.Bitmap.{set_bit, first_clear, get_available_block, count_clear}
use tp_so_delibird.GameCard.State.{FileSystem}

-- The bit `n` of the bitmap has the value.
abbrev pub HasBit : List Bool → Bool → ℕ → Type 0
HasBit bits value n = get_elem? bits n ≡ some value

-- The first clear bit, if there is one: it is clear, and the bits below are set.
pub record IsFirstClear (bits : List Bool) (n : ℕ) : Type 0 where
  pub found : first_clear bits ≡ some n
  pub was_clear : HasBit bits false n
  pub below : (m : ℕ) → m < n → HasBit bits true m
  pub left : suc (count_clear (set_bit n true bits)) ≡ count_clear bits

abbrev first_below :
    (bits : List Bool) (n m : ℕ)
    → ((k : ℕ) → k < n → HasBit bits true k)
    → m < suc n
    → HasBit (true ∷ bits) true m
first_below bits n zero h l = refl
first_below bits n (suc m) h l = h m (omega arith)

search_succeeds : (bits : List Bool) → 0 < count_clear bits → (n : ℕ) × IsFirstClear bits n
unfolding count_clear
search_succeeds [] h = absurd (omega arith)
search_succeeds (false ∷ bits) h = (
  0,
  record {
    found = refl;
    was_clear = refl;
    below = λ m l. absurd (omega arith);
    left = omega arith;
  },
)
search_succeeds (true ∷ bits) h =
    let (n, f) = search_succeeds bits (omega arith) in
    (
      suc n,
      record {
        found = rw f.found refl;
        was_clear = f.was_clear;
        below = λ m l. first_below bits n m f.below l;
        left = omega (arith, f.left);
      },
    )

no_clear_bit : (bits : List Bool) → count_clear bits ≡ 0 → first_clear bits ≡ none
unfolding count_clear
no_clear_bit [] h = refl
no_clear_bit (false ∷ bits) h = absurd (omega arith)
no_clear_bit (true ∷ bits) h = rw (no_clear_bit bits (omega arith)) refl

-- The variable `blocks_available` is the number of clear bits.
abbrev pub IsCounted : FileSystem → Type 0
IsCounted fs = fs.blocks_available ≡ pos (count_clear fs.bitmap)

-- What get_available_block does: with no bit clear, nothing; else it takes the first clear bit.
pub record Taken (fs : FileSystem) (n : ℕ) : Type 0 where
  pub first : IsFirstClear fs.bitmap n
  pub taken : get_available_block fs ≡ (
    some n,
    record fs {
      bitmap = set_bit n true fs.bitmap;
      blocks_available = decrement fs.blocks_available;
    },
  )

pub get_available_block-Taken : (fs : FileSystem) → 0 < count_clear fs.bitmap → (n : ℕ) × Taken fs n
unfolding get_available_block
get_available_block-Taken fs h =
    let (n, f) = search_succeeds fs.bitmap h in
    (n, record { first = f; taken = rw (get_available_block, f.found) refl })

pub get_available_block_full :
    (fs : FileSystem) → count_clear fs.bitmap ≡ 0 → get_available_block fs ≡ (none, fs)
unfolding get_available_block
get_available_block_full fs h = rw (get_available_block, no_clear_bit fs.bitmap h) refl

decrement_counted : (z : ℤ) (n k : ℕ) → z ≡ pos k → suc n ≡ k → decrement z ≡ pos n
decrement_counted z n k e l = rw (e, sym l) refl

pub after_taking :
    (fs : FileSystem) (n : ℕ) → IsCounted fs → Taken fs n → IsCounted (get_available_block fs).1
after_taking fs n c t = rw t.taken (
    decrement_counted fs.blocks_available (count_clear (set_bit n true fs.bitmap))
      (count_clear fs.bitmap) c t.first.left)

pub zero_or_more : (n : ℕ) → (n ≡ 0) ⊎ (0 < n)
zero_or_more zero = inl refl
zero_or_more (suc n) = inr (omega arith)

pub get_available_block-IsCounted :
    (fs : FileSystem) → IsCounted fs → IsCounted (get_available_block fs).1
get_available_block-IsCounted fs c = elim (zero_or_more (count_clear fs.bitmap)) [
  | inl e ↦ rw (get_available_block_full fs e) c
  | inr l ↦ let (n, t) = get_available_block-Taken fs l in after_taking fs n c t
]
