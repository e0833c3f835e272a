-- ===== src/GameCard/Blocks.antt =====
-- gamecard/src/gamecard.c: the blocks of a file.
use tp_so_delibird.Common.{
  ◌+◌, ◌/◌, ◌-◌, zero, ◌==◌, ◌%◌, ltb, lookup, length, get_elem?, ◌++◌, take, suc, store,
  if◌then◌else◌, List, ℕ, Option, [], ◌∷◌, none, some,
}
use tp_so_delibird.Common.Decimal.{number_text, int_text}
use tp_so_delibird.Common.Int.{pos, negsuc}
use tp_so_delibird.Wire.Bytes.{Bytes}
use tp_so_delibird.Broker.State.{done, undefined, Outcome, ◌>>=◌}
use tp_so_delibird.GameCard.Bitmap.{remove_block_from_bitmap, get_available_block}
use tp_so_delibird.GameCard.State.{FileSystem, Splits}

abbrev pub my_ceil : ℕ → ℕ → ℕ
my_ceil a b = if a % b == 0 then a / b else a / b + 1

-- The closing bracket gives way to a comma, the text and a closing bracket.
abbrev pub without_last : ℕ → Bytes → Bytes
without_last n text = take (length text - n) text

abbrev pub add_block_to_array : Bytes → Bytes → Bytes
add_block_to_array [] block_to_add = b'[' ∷ (block_to_add ++ (b']' ∷ []))
add_block_to_array (c ∷ cs) block_to_add =
    without_last 1 (c ∷ cs) ++ (b',' ∷ (block_to_add ++ (b']' ∷ [])))

-- "%d" of what get_available_block returned.
abbrev pub block_text : Option ℕ → Bytes
block_text none = int_text (negsuc 0)
block_text (some n) = int_text (pos n)

-- The last three bytes are cut off. A shorter text is written before its start.
unfoldable pub remove_last_block_from_array : FileSystem → Bytes → Outcome (Bytes × FileSystem)
remove_last_block_from_array fs blocks_as_array =
    if ltb (length blocks_as_array) 3
    then undefined
    else if length blocks_as_array == 3
    then (let (available_block, fs') = get_available_block fs in
        done (b'[' ∷ (block_text available_block ++ (b']' ∷ [])), fs'))
    else done (without_last 3 blocks_as_array ++ (b']' ∷ []), fs)

-- What pokemon_blocks changes: the file system, the text of the blocks and their list.
pub record Blocks : Type 0 where
  pub fs : FileSystem
  pub blocks_as_array : Bytes
  pub blocks_as_char : List Bytes

abbrev pub add_each : Bytes → List Bytes → Bytes
add_each text [] = text
add_each text (block ∷ blocks) = add_each (add_block_to_array text block) blocks

-- Its second loop, which takes `n` more blocks.
unfoldable pub take_blocks : ℕ → Blocks → Blocks
take_blocks zero s = s
take_blocks (suc n) s =
    let (new_block, fs') = get_available_block s.fs in
    take_blocks n (record {
      fs = fs';
      blocks_as_array = add_block_to_array s.blocks_as_array (block_text new_block);
      blocks_as_char = s.blocks_as_char ++ (block_text new_block ∷ []);
    })

-- Its third loop, which gives back the last `n` blocks.
unfoldable pub drop_blocks : ℕ → Blocks → Outcome Blocks
drop_blocks zero s = done s
drop_blocks (suc n) s = elim (get_elem? s.blocks_as_char (length s.blocks_as_char - 1)) [
  | none ↦ undefined
  | some block ↦ remove_block_from_bitmap s.fs block >>= λ fs'.
      remove_last_block_from_array fs' s.blocks_as_array >>= λ (text, fs''). drop_blocks n (record {
        fs = fs'';
        blocks_as_array = text;
        blocks_as_char = take (length s.blocks_as_char - 1) s.blocks_as_char;
      })
]

module _ (lib : Splits) where
  -- The file is the pokemon whose Metadata.bin stands at the path.
  unfoldable pub pokemon_blocks : FileSystem → Bytes → ℕ → ℕ → Outcome (List Bytes × FileSystem)
  pokemon_blocks fs pokemon blocks_needed size_array_positions = elim (lookup pokemon fs.files) [
    | none ↦ undefined
    | some metadata ↦
        let actual_blocks = lib.string_get_string_as_array metadata.blocks in
        let start : Blocks = record {
          fs = fs;
          blocks_as_array = add_each [] actual_blocks;
          blocks_as_char = actual_blocks;
        } in
        drop_blocks (length actual_blocks - blocks_needed)
          (take_blocks (blocks_needed - length actual_blocks) start)
        >>= λ s. done (
          s.blocks_as_char,
          record s.fs {
            files =
                store pokemon
                  (record metadata {
                    blocks = s.blocks_as_array;
                    size = number_text size_array_positions;
                  })
                  s.fs.files;
          },
        )
  ]
