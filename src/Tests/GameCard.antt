-- ===== src/Tests/GameCard.antt =====
-- The game card's file system at concrete inputs.
use tp_so_delibird.Common.{
  zero, suc, ◌<◌, false, true, arith, ◌≡◌, ◌∷◌, [], ℕ, List, All, some, none,
}
use tp_so_delibird.Common.Decimal.{atoi_digits, atoi_signed, atoi, int_text, digits, number_text}
use tp_so_delibird.Common.Int.{pos, ℤ}
use tp_so_delibird.Wire.Bytes.{Bytes}
use tp_so_delibird.Wire.Types.{NewPokemon, GetPokemon, CatchPokemon}
use tp_so_delibird.Broker.State.{done}
use tp_so_delibird.GameCard.Allotment.{IsFile}
use tp_so_delibird.GameCard.ArrayText.{remove_last_block-array_text}
use tp_so_delibird.GameCard.Available.{Taken, HasBit, IsFirstClear, IsCounted}
use tp_so_delibird.GameCard.Bitmap.{remove_block_from_bitmap, get_available_block, count_clear}
use tp_so_delibird.GameCard.Blocks.{remove_last_block_from_array}
use tp_so_delibird.GameCard.Catching.{
  handle_catch_pokemon-missed, handle_catch_pokemon-Caught, Caught,
}
use tp_so_delibird.GameCard.Contents.{write_blocks_and_metadata-Saved, Saved}
use tp_so_delibird.GameCard.Create.{create_and_mount, create_tall_grass}
use tp_so_delibird.GameCard.Files.{read_loop, read_blocks_content}
use tp_so_delibird.GameCard.Handlers.{handle_get_pokemon}
use tp_so_delibird.GameCard.Lines.{get_positions-text, IsPlain}
use tp_so_delibird.GameCard.NewPokemons.{
  handle_new_pokemon-made, made, handle_new_pokemon-known, Answered,
}
use tp_so_delibird.GameCard.Places.{one_taken, with_new-OnlyAt, with_new-Elsewhere, more_at, OnlyAt}
use tp_so_delibird.GameCard.Positions.{
  pokemon_position_to_array_of_position, create_position, get_positions_from_buffer,
}
use tp_so_delibird.GameCard.Released.{remove_block-IsCounted, remove_block-get_available_block}
use tp_so_delibird.GameCard.Requested.{handle_get_pokemon-Asked, Asked}
use tp_so_delibird.GameCard.Rewriting.{HasRoom, IsMounted}
use tp_so_delibird.GameCard.State.{array_text, Position, Metadata, FileSystem}
use tp_so_delibird.GameCard.Storing.{KeepsFile, Grows}
use tp_so_delibird.GameCard.Updates.{with_new}
use tp_so_delibird.Tests.Data.{commons}
use tp_so_delibird.Tests.Splits.{splits, splits-IsLibrary}
use mathlib.Core.Path.{refl}

abbrev spot : Position
spot = create_position (pos 1) (pos 2) (pos 3)

abbrev other_spot : Position
other_spot = create_position (pos 4) (pos 5) (pos 1)

abbrev spots : List Position
spots = spot ∷ other_spot ∷ []

-- "pika"
abbrev pika : Bytes
pika = b'p' ∷ b'i' ∷ b'k' ∷ b'a' ∷ []

abbrev pika_metadata : Metadata
pika_metadata = record {
  directory = b'N' ∷ [];
  size = b'1' ∷ b'2' ∷ [];
  blocks = b'[' ∷ b'0' ∷ b',' ∷ b'2' ∷ b']' ∷ [];
  is_open = b'N' ∷ [];
}

-- Four blocks of eight bytes: the positions stand in the blocks 0 and 2.
abbrev disk : FileSystem
disk = record {
  files = (pika, pika_metadata) ∷ [];
  block_files =
      (b'0' ∷ [], b'1' ∷ b'-' ∷ b'2' ∷ b'=' ∷ b'3' ∷ b'\n' ∷ b'4' ∷ b'-' ∷ [])
      ∷ (b'2' ∷ [], b'5' ∷ b'=' ∷ b'1' ∷ b'\n' ∷ [])
      ∷ [];
  bitmap = true ∷ false ∷ true ∷ false ∷ [];
  blocks_available = pos 2;
  block_size = 8;
}

abbrev small_disk : FileSystem
small_disk = record disk { files = []; bitmap = true ∷ false ∷ []; blocks_available = pos 1 }

spots-IsPlain : All IsPlain spots
spots-IsPlain =
    ((omega arith, (omega arith, omega arith)), ((omega arith, (omega arith, omega arith)), tt))

get_positions-text_example :
    get_positions_from_buffer splits (pokemon_position_to_array_of_position spots) ≡ done spots
get_positions-text_example = get_positions-text commons splits splits-IsLibrary spots spots-IsPlain

disk-IsFile : IsFile disk pika (0 ∷ 2 ∷ [])
unfolding number_text digits
disk-IsFile = record {
  metadata = pika_metadata;
  found = refl;
  blocks = refl;
  filled = omega arith;
  apart = ((refl, tt), (tt, tt));
  held = (refl, (refl, tt));
}

disk-IsMounted : IsMounted disk
unfolding count_clear
disk-IsMounted = record { block_size = omega arith; bits = omega arith; counted = refl }

two_clear : count_clear disk.bitmap ≡ 2
unfolding count_clear
two_clear = refl

abbrev content : Bytes
content =
    b'1' ∷ b'-' ∷ b'2' ∷ b'=' ∷ b'3' ∷ b'3' ∷ b'3' ∷ b'\n' ∷ b'4' ∷ b'-' ∷ b'5' ∷ b'=' ∷ b'1' ∷ b'1'
    ∷ b'1' ∷ b'1' ∷ b'\n' ∷ []

write_blocks_and_metadata-Saved_example :
    Saved commons splits disk pika disk-IsFile.metadata content
unfolding count_clear
write_blocks_and_metadata-Saved_example =
    write_blocks_and_metadata-Saved commons splits splits-IsLibrary disk pika content (0 ∷ 2 ∷ [])
      disk-IsFile (omega arith) (omega arith) (omega arith) (omega arith) (omega arith)

remove_block-get_available_block_example :
    (n : ℕ) × (IsFirstClear disk.bitmap n
      × (((get_available_block disk).0 ≡ some n)
          × (remove_block_from_bitmap (get_available_block disk).1 (number_text n) ≡ done disk)))
remove_block-get_available_block_example =
    remove_block-get_available_block disk (omega (arith, two_clear)) (omega arith)

remove_block-IsCounted_example :
    IsCounted (get_available_block disk).1
    × ((fs' : FileSystem) × ((remove_block_from_bitmap disk (number_text 2) ≡ done fs')
          × (IsCounted fs' × HasBit fs'.bitmap false 2)))
unfolding count_clear
remove_block-IsCounted_example = remove_block-IsCounted disk 2 refl refl (omega arith)

remove_last_block-array_text_example :
    (remove_last_block_from_array disk (array_text ((b'7' ∷ []) ∷ ((b'4' ∷ []) ∷ [])))
      ≡ done (array_text ((b'7' ∷ []) ∷ []), disk))
    × (remove_last_block_from_array disk
          (array_text ((b'7' ∷ []) ∷ ((b'1' ∷ b'2' ∷ b'4' ∷ []) ∷ [])))
        ≡ done (array_text ((b'7' ∷ []) ∷ ((b'1' ∷ []) ∷ [])), disk))
remove_last_block-array_text_example =
    remove_last_block-array_text disk (b'7' ∷ []) [] (b'1' ∷ []) b'2' b'4'

disk-KeepsFile : KeepsFile commons splits splits-IsLibrary disk pika spots
unfolding disk-IsFile pokemon_position_to_array_of_position number_text int_text digits
    read_blocks_content read_loop atoi atoi_signed atoi_digits
disk-KeepsFile = record {
  mounted = disk-IsMounted;
  holds = record {
    numbers = 0 ∷ 2 ∷ [];
    is_file = disk-IsFile;
    count = refl;
    plain = spots-IsPlain;
    reads = refl;
  };
  closed = refl;
}

abbrev arrived : NewPokemon
arrived = record { pokemon_len = 4; pokemon = pika; pos_x = 4; pos_y = 5; count = 20 }

spots-OnlyAt : OnlyAt (pos 4) (pos 5) (spot ∷ []) other_spot []
spots-OnlyAt = record { here = refl; before = (refl, tt); behind = tt }

with_new-OnlyAt_example : with_new spots arrived ≡ spot ∷ more_at other_spot arrived ∷ []
with_new-OnlyAt_example = with_new-OnlyAt arrived other_spot (spot ∷ []) [] spots-OnlyAt

new_spots : with_new spots arrived ≡ spot ∷ create_position (pos 4) (pos 5) (pos 21) ∷ []
new_spots = with_new-OnlyAt arrived other_spot (spot ∷ []) [] spots-OnlyAt

arrived-Grows : Grows commons splits splits-IsLibrary disk spots (with_new spots arrived)
unfolding pokemon_position_to_array_of_position number_text int_text digits
arrived-Grows = rw new_spots (record {
  plain =
      ((omega arith, (omega arith, omega arith)), ((omega arith, (omega arith, omega arith)), tt));
  short = omega arith;
  enough = omega arith;
})

handle_new_pokemon-known_example :
    Answered commons splits splits-IsLibrary disk arrived 9 disk spots
handle_new_pokemon-known_example =
    handle_new_pokemon-known commons splits splits-IsLibrary disk arrived 9 spots disk-KeepsFile
      arrived-Grows

below_one : (m : ℕ) → m < 1 → HasBit small_disk.bitmap true m
below_one zero l = refl
below_one (suc m) l = absurd (omega arith)

first_free : Taken small_disk 1
unfolding get_available_block count_clear
first_free = record {
  first = record { found = refl; was_clear = refl; below = below_one; left = refl };
  taken = refl;
}

small_disk-IsMounted : IsMounted small_disk
unfolding count_clear
small_disk-IsMounted = record { block_size = omega arith; bits = omega arith; counted = refl }

first_spot : with_new [] arrived ≡ create_position (pos 4) (pos 5) (pos 20) ∷ []
first_spot = with_new-Elsewhere arrived [] tt

made-Grows : Grows commons splits splits-IsLibrary (made small_disk pika 1) [] (with_new [] arrived)
unfolding pokemon_position_to_array_of_position number_text int_text digits
made-Grows = rw first_spot (record {
  plain = ((omega arith, (omega arith, omega arith)), tt);
  short = omega arith;
  enough = omega arith;
})

handle_new_pokemon-made_example :
    Answered commons splits splits-IsLibrary small_disk arrived 9 (made small_disk pika 1) []
handle_new_pokemon-made_example =
    handle_new_pokemon-made commons splits splits-IsLibrary small_disk arrived 9 1
      small_disk-IsMounted refl first_free made-Grows

abbrev unset : ℕ → ℤ
unset n = pos 0

abbrev asked : GetPokemon
asked = record { pokemon_len = 4; pokemon = pika }

handle_get_pokemon-Asked_example :
    Asked commons splits splits-IsLibrary pika spots
      (handle_get_pokemon commons splits unset disk asked 9)
handle_get_pokemon-Asked_example =
    handle_get_pokemon-Asked commons splits splits-IsLibrary unset disk asked 9 spots disk-KeepsFile

abbrev thrown : CatchPokemon
thrown = record { pokemon_len = 4; pokemon = pika; pos_x = 1; pos_y = 2 }

spot-OnlyAt : OnlyAt (pos 1) (pos 2) [] spot (other_spot ∷ [])
spot-OnlyAt = record { here = refl; before = tt; behind = (refl, tt) }

thrown-HasRoom :
    HasRoom commons splits splits-IsLibrary disk spots (one_taken [] spot (other_spot ∷ []))
unfolding pokemon_position_to_array_of_position number_text int_text digits count_clear
thrown-HasRoom = record {
  plain =
      ((omega arith, (omega arith, omega arith)), ((omega arith, (omega arith, omega arith)), tt));
  short = omega arith;
  enough = omega arith;
  room = omega arith;
}

handle_catch_pokemon-Caught_example :
    Caught commons splits splits-IsLibrary disk thrown 9 1
      (create_position (pos 1) (pos 2) (pos 2) ∷ other_spot ∷ [])
handle_catch_pokemon-Caught_example =
    handle_catch_pokemon-Caught commons splits splits-IsLibrary disk thrown 9 [] spot
      (other_spot ∷ []) disk-KeepsFile spot-OnlyAt thrown-HasRoom

abbrev wide : CatchPokemon
wide = record thrown { pos_x = 7 }

handle_catch_pokemon-missed_example : Caught commons splits splits-IsLibrary disk wide 9 0 spots
handle_catch_pokemon-missed_example =
    handle_catch_pokemon-missed commons splits splits-IsLibrary disk wide 9 spots disk-KeepsFile
      (refl, (refl, tt))

no_arguments : create_and_mount (pika ∷ []) ≡ done none
unfolding create_and_mount create_tall_grass
no_arguments = refl
