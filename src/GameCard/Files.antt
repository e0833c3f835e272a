-- ===== src/GameCard/Files.antt =====
-- gamecard/src/gamecard.c: the writing and reading of a file.
use tp_so_delibird.Common.{
  ◌++◌, ◌*◌, ◌==◌, ◌-◌, zero, take, get_elem?, suc, store, if◌then◌else◌, Table, Option, ℕ, List,
  [], ◌∷◌, none, some, ltb, leb, length, lookup,
}
use tp_so_delibird.Common.Decimal.{int_text, atoi}
use tp_so_delibird.Common.Int.{ℤ, pos, negsuc}
use tp_so_delibird.Wire.Bytes.{Bytes}
use tp_so_delibird.Broker.State.{done, undefined, Outcome, ◌>>=◌, Commons}
use tp_so_delibird.GameCard.Blocks.{pokemon_blocks, my_ceil}
use tp_so_delibird.GameCard.Positions.{pokemon_position_to_array_of_position}
use tp_so_delibird.GameCard.State.{Position, FileSystem, Splits}

abbrev pub size_of_content_to_write : ℕ → ℕ → ℕ → ℕ → ℕ
size_of_content_to_write block_size index_next_block quantity_total_blocks total_content_size =
    if index_next_block == quantity_total_blocks
    then total_content_size - (quantity_total_blocks - 1) * block_size
    else block_size

-- "wb+" makes the file or empties it.
abbrev pub write_positions_on_block : Bytes → Bytes → FileSystem → FileSystem
write_positions_on_block block bytes fs = record fs {
  block_files = store block bytes fs.block_files;
}

module _ (commons : Commons) (lib : Splits) where
  -- The loop of write_blocks_and_metadata from the index `i` on, with `n` rounds left.
  unfoldable pub write_loop : Bytes → ℕ → List Bytes → ℕ → ℕ → FileSystem → Outcome FileSystem
  write_loop array_positions quantity_of_blocks blocks i zero fs = done fs
  write_loop array_positions quantity_of_blocks blocks i (suc n) fs = elim (get_elem? blocks i) [
    | none ↦ undefined
    | some block ↦ write_loop array_positions quantity_of_blocks blocks (suc i) n (
        write_positions_on_block block
          (commons.string_substring array_positions (i * fs.block_size) (
            size_of_content_to_write fs.block_size (suc i) quantity_of_blocks
              (length array_positions)))
          fs)
  ]

  unfoldable pub write_blocks_and_metadata : FileSystem → Bytes → Bytes → Outcome FileSystem
  write_blocks_and_metadata fs array_positions pokemon =
      let quantity_of_blocks = my_ceil (length array_positions) fs.block_size in
      pokemon_blocks lib fs pokemon quantity_of_blocks (length array_positions) >>= λ (blocks, fs').
      write_loop array_positions quantity_of_blocks blocks 0 quantity_of_blocks fs'

  unfoldable pub write_positions_on_files : FileSystem → List Position → Bytes → Outcome FileSystem
  write_positions_on_files fs pokemon_positions pokemon =
      write_blocks_and_metadata fs (pokemon_position_to_array_of_position pokemon_positions) pokemon

-- `size_to_read` bytes of a file. A shorter file leaves bytes of the buffer unset.
abbrev pub read_file : ℕ → Option Bytes → Outcome Bytes
read_file size_to_read none = undefined
read_file size_to_read (some file) =
    if leb size_to_read (length file) then done (take size_to_read file) else undefined

-- The loop of read_blocks_content.
unfoldable pub read_loop : ℕ → Table Bytes → ℕ → List Bytes → Outcome Bytes
read_loop block_size files rest_to_read [] = done []
read_loop block_size files rest_to_read (block ∷ blocks) =
    let size_to_read = if ltb block_size rest_to_read then block_size else rest_to_read in
    let rest = if ltb block_size rest_to_read then rest_to_read - block_size else rest_to_read in
    read_file size_to_read (lookup (int_text (atoi block)) files) >>= λ buffer.
    read_loop block_size files rest blocks >>= λ content. done (buffer ++ content)

abbrev pub read_sized : FileSystem → List Bytes → ℤ → Outcome Bytes
read_sized fs blocks (negsuc n) = undefined
read_sized fs blocks (pos zero) = done []
read_sized fs blocks (pos (suc n)) = read_loop fs.block_size fs.block_files (suc n) blocks

unfoldable pub read_blocks_content : Splits → FileSystem → Bytes → Outcome Bytes
read_blocks_content lib fs pokemon = elim (lookup pokemon fs.files) [
  | none ↦ undefined
  | some metadata ↦
      read_sized fs (lib.string_get_string_as_array metadata.blocks) (atoi metadata.size)
]
