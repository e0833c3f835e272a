-- ===== src/GameCard/Bitmap.antt =====
-- gamecard/src/gamecard.c: the bitmap of the blocks.
use tp_so_delibird.Common.{
  zero, ◌+◌, suc, length, ltb, Bool, ℕ, if◌then◌else◌, Option, List, [], ◌∷◌, none, some, true,
  false,
}
use tp_so_delibird.Common.Decimal.{atoi}
use tp_so_delibird.Common.Int.{ℤ, pos, negsuc, increment, decrement}
use tp_so_delibird.Wire.Bytes.{Bytes}
use tp_so_delibird.Broker.State.{done, undefined, Outcome}
use tp_so_delibird.GameCard.State.{FileSystem}

abbrev pub first_clear : List Bool → Option ℕ
first_clear [] = none
first_clear (false ∷ bits) = some 0
first_clear (true ∷ bits) = elim (first_clear bits) [ none ↦ none | some i ↦ some (suc i) ]

-- The bit `i` with the value; out of range, the same bits.
abbrev pub set_bit : ℕ → Bool → List Bool → List Bool
set_bit i value [] = []
set_bit zero value (b ∷ bits) = value ∷ bits
set_bit (suc i) value (b ∷ bits) = b ∷ set_bit i value bits

-- The lowest clear bit, which is set; `none` stands for -1.
unfoldable pub get_available_block : FileSystem → Option ℕ × FileSystem
get_available_block fs = elim (first_clear fs.bitmap) [
  | none ↦ (none, fs)
  | some block ↦ (
    some block,
    record fs {
      bitmap = set_bit block true fs.bitmap;
      blocks_available = decrement fs.blocks_available;
    },
  )
]

-- A bit out of range is a write outside of the bitmap.
abbrev pub clear_block : FileSystem → ℤ → Outcome FileSystem
clear_block fs (negsuc n) = undefined
clear_block fs (pos n) =
    if ltb n (length fs.bitmap)
    then done (record fs {
      bitmap = set_bit n false fs.bitmap;
      blocks_available = increment fs.blocks_available;
    })
    else undefined

unfoldable pub remove_block_from_bitmap : FileSystem → Bytes → Outcome FileSystem
remove_block_from_bitmap fs block = clear_block fs (atoi block)

-- What `open_bitmap` counts.
unfoldable pub count_clear : List Bool → ℕ
count_clear [] = 0
count_clear (b ∷ bits) = (if b then 0 else 1) + count_clear bits

unfoldable pub open_bitmap : FileSystem → FileSystem
open_bitmap fs = record fs { blocks_available = pos (count_clear fs.bitmap) }
