-- ===== src/GameCard/Released.antt =====
-- gamecard/src/gamecard.c: a block is given back to the bitmap.
use tp_so_delibird.Common.{
  [], ◌∷◌, zero, ltb, arith, true, suc, false, ◌≡◌, length, ◌<◌, ℕ, Bool, List, some, ◌∙◌,
}
use tp_so_delibird.Common.Decimal.{atoi-number_text, number_text}
use tp_so_delibird.Common.Int.{decrement, increment, ℤ, pos, negsuc}
use tp_so_delibird.Broker.State.{done}
use tp_so_delibird.GameCard.Available.{
  get_available_block-Taken, get_available_block-IsCounted, IsFirstClear, IsCounted, HasBit,
}
use tp_so_delibird.GameCard.Bitmap.{
  get_available_block, set_bit, remove_block_from_bitmap, count_clear,
}
use tp_so_delibird.GameCard.Contents.{bit-IsKey}
use tp_so_delibird.GameCard.Growth.{length-set_bit}
use tp_so_delibird.GameCard.State.{FileSystem}
use mathlib.Core.Path.{ap, refl}

set_clear-set_bit :
    (bits : List Bool) (n : ℕ) → HasBit bits false n → set_bit n false (set_bit n true bits) ≡ bits
set_clear-set_bit [] n h = refl
set_clear-set_bit (false ∷ bits) zero h = refl
set_clear-set_bit (true ∷ bits) zero h = cc
set_clear-set_bit (b ∷ bits) (suc n) h = ap (◌∷◌ b) (set_clear-set_bit bits n h)

increment-decrement : (z : ℤ) → increment (decrement z) ≡ z
increment-decrement (pos zero) = refl
increment-decrement (pos (suc n)) = refl
increment-decrement (negsuc n) = refl

clear_more :
    (bits : List Bool) (n : ℕ)
    → HasBit bits true n
    → count_clear (set_bit n false bits) ≡ suc (count_clear bits)
unfolding count_clear
clear_more [] n h = cc
clear_more (true ∷ bits) zero h = omega arith
clear_more (false ∷ bits) zero h = cc
clear_more (b ∷ bits) (suc n) h = omega (arith, clear_more bits n h)

set_bit_clears :
    (bits : List Bool) (n : ℕ) (b : Bool) → HasBit bits b n → HasBit (set_bit n false bits) false n
set_bit_clears [] n b h = cc
set_bit_clears (c ∷ bits) zero b h = refl
set_bit_clears (c ∷ bits) (suc n) b h = set_bit_clears bits n b h

removed :
    (fs : FileSystem) (n : ℕ)
    → n < length fs.bitmap
    → length fs.bitmap < 10000000000
    → remove_block_from_bitmap fs (number_text n)
      ≡ done (record fs {
        bitmap = set_bit n false fs.bitmap;
        blocks_available = increment fs.blocks_available;
      })
unfolding remove_block_from_bitmap
removed fs n h l =
    let t : ltb n (length fs.bitmap) ≡ true = ground arith in
    rw (remove_block_from_bitmap, atoi-number_text n (omega arith), t) refl

-- Of less than 10 ^ 10 blocks of which one is free, the block that get_available_block takes is
-- the first free one, and remove_block_from_bitmap with its number gives it back: the file system
-- is as before.
pub remove_block-get_available_block :
    (fs : FileSystem)
    → 0 < count_clear fs.bitmap
    → length fs.bitmap < 10000000000
    → (n : ℕ) × (IsFirstClear fs.bitmap n
        × (((get_available_block fs).0 ≡ some n)
            × (remove_block_from_bitmap (get_available_block fs).1 (number_text n) ≡ done fs)))
remove_block-get_available_block fs c l =
    let (n, t) = get_available_block-Taken fs c in
    let taken = record fs {
      bitmap = set_bit n true fs.bitmap;
      blocks_available = decrement fs.blocks_available;
    } in
    let e = length-set_bit fs.bitmap n true in
    (
      n,
      (
        t.first,
        (
          ap (λ r. r.0) t.taken,
          ap (λ r. remove_block_from_bitmap r.1 (number_text n)) t.taken
              ∙ removed taken n (omega (arith, bit-IsKey fs.bitmap false n t.first.was_clear, e))
                  (omega (arith, e))
              ∙ rw
                  (
                    set_clear-set_bit fs.bitmap n t.first.was_clear,
                    increment-decrement fs.blocks_available,
                  )
                  refl,
        ),
      ),
    )

increment_counted : (z : ℤ) (k n : ℕ) → z ≡ pos k → n ≡ suc k → increment z ≡ pos n
increment_counted z k n e f = rw (e, f) refl

-- Taking a block, if there is one, and giving back one of less than 10 ^ 10 blocks that is in use
-- both keep `blocks_available` the number of the free blocks, and the block is then free.
pub remove_block-IsCounted :
    (fs : FileSystem) (n : ℕ)
    → IsCounted fs
    → HasBit fs.bitmap true n
    → length fs.bitmap < 10000000000
    → IsCounted (get_available_block fs).1
      × ((fs' : FileSystem) × ((remove_block_from_bitmap fs (number_text n) ≡ done fs')
            × (IsCounted fs' × HasBit fs'.bitmap false n)))
remove_block-IsCounted fs n c h l = (
  get_available_block-IsCounted fs c,
  (
    record fs {
      bitmap = set_bit n false fs.bitmap;
      blocks_available = increment fs.blocks_available;
    },
    (
      removed fs n (bit-IsKey fs.bitmap true n h) l,
      (
        increment_counted fs.blocks_available (count_clear fs.bitmap)
            (count_clear (set_bit n false fs.bitmap)) c (clear_more fs.bitmap n h),
        set_bit_clears fs.bitmap n true h,
      ),
    ),
  ),
)
