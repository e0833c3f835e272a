-- ===== src/GameCard/NewPokemons.antt =====
-- gamecard/src/gamecard.c: handle_new_pokemon, from message to file.
use tp_so_delibird.Common.{
  ◌^◌, false, inr, arith, inl, ◌∷◌, map, ◌<◌, same_refl, lookup-store, if◌then◌else◌, [], ◌≡◌,
  store, lookup, true, List, ℕ, some, none, ◌∙◌,
}
use tp_so_delibird.Common.Decimal.{number_text, atoi_digits, atoi_signed, int_text, atoi}
use tp_so_delibird.Common.Int.{pos, decrement}
use tp_so_delibird.Wire.Bytes.{Bytes}
use tp_so_delibird.Wire.Types.{EventCode, NewPokemon}
use tp_so_delibird.Broker.State.{Commons, done}
use tp_so_delibird.GameCard.Access.{new_metadata, check_pokemon_directory}
use tp_so_delibird.GameCard.Available.{
  after_taking, IsCounted, zero_or_more, get_available_block_full, Taken,
}
use tp_so_delibird.GameCard.Bitmap.{count_clear, set_bit}
use tp_so_delibird.GameCard.Blocks.{my_ceil}
use tp_so_delibird.GameCard.Contents.{needs_content}
use tp_so_delibird.GameCard.Files.{read_blocks_content}
use tp_so_delibird.GameCard.Growth.{set_bit_sets, length-set_bit}
use tp_so_delibird.GameCard.Handlers.{
  store_in, handle_new_pokemon, create_appeared_pokemon, send_appeared_to_broker,
}
use tp_so_delibird.GameCard.Positions.{pokemon_position_to_array_of_position}
use tp_so_delibird.GameCard.Rewriting.{blocks_for, IsMounted}
use tp_so_delibird.GameCard.State.{array_text, Position, Metadata, IsLibrary, Splits, FileSystem}
use tp_so_delibird.GameCard.Storing.{KeepsFile, with_file-store, fits, Grows}
use tp_so_delibird.GameCard.Updates.{at_least_one, with_new}
use tp_so_delibird.GameCard.Writing.{my_ceil-Fits}
use tp_so_delibird.Team.State.{c_text}
use mathlib.Core.Path.{ap, sym, refl, subst}

-- The frame that answers a NEW_POKEMON.
abbrev pub appeared_frame : NewPokemon → ℕ → Bytes
appeared_frame m id = send_appeared_to_broker (create_appeared_pokemon m) id

-- The directory that is made for a pokemon.
abbrev pub made : FileSystem → Bytes → ℕ → FileSystem
made fs name n = record fs {
  bitmap = set_bit n true fs.bitmap;
  blocks_available = decrement fs.blocks_available;
  files = store name (new_metadata n) fs.files;
}

size_zero : atoi (b'0' ∷ []) ≡ pos 0
unfolding atoi atoi_signed atoi_digits
size_zero = refl

module _ (commons : Commons) (lib : Splits) (law : IsLibrary commons lib) where
  -- After the handler: the frame is sent, the file is closed and holds the positions.
  abbrev pub Answered : FileSystem → NewPokemon → ℕ → FileSystem → List Position → Type 0
  Answered fs m id opened ps =
      (after : FileSystem) × ((handle_new_pokemon commons lib fs m id
          ≡ done (some (appeared_frame m id), after))
        × KeepsFile commons lib law after (c_text m.pokemon)
            (if fits commons lib law opened ps (with_new ps m) then with_new ps m else ps))

  new_run :
      (fs fs1 : FileSystem) (m : NewPokemon) (id n : ℕ) (ps : List Position)
      → check_pokemon_directory fs (c_text m.pokemon) EventCode.new_pokemon ≡ (pos n, fs1)
      → KeepsFile commons lib law fs1 (c_text m.pokemon) ps
      → Grows commons lib law fs1 ps (with_new ps m)
      → Answered fs m id fs1 ps
  unfolding handle_new_pokemon
  new_run fs fs1 m id n ps c k g =
      let (after, (r, kept)) =
        with_file-store commons lib law fs1 (c_text m.pokemon) (appeared_frame m id) m ps k g in
      (after, (ap (store_in commons lib m id) c ∙ r, kept))

  pub check_found :
      (fs : FileSystem) (name : Bytes) (m : Metadata) (code : EventCode)
      → lookup name fs.files ≡ some m
      → check_pokemon_directory fs name code ≡ (pos 1, fs)
  unfolding check_pokemon_directory
  check_found fs name m code f = rw (check_pokemon_directory, f) refl

  check_made :
      (fs : FileSystem) (name : Bytes) (n : ℕ)
      → lookup name fs.files ≡ none
      → Taken fs n
      → check_pokemon_directory fs name EventCode.new_pokemon ≡ (pos 0, made fs name n)
  unfolding check_pokemon_directory
  check_made fs name n f t = rw (check_pokemon_directory, f, t.taken) refl

  -- A NEW_POKEMON for a pokemon whose file is closed: the appeared message goes out, and afterwards
  -- the file is closed again and read as the positions with the new pokemons among them if the free
  -- blocks are enough for their text, and as before if not. The new positions are plain, and their
  -- text has less than 2^31 bytes and takes no less blocks than the file had.
  pub handle_new_pokemon-known :
      (fs : FileSystem) (m : NewPokemon) (id : ℕ) (ps : List Position)
      → KeepsFile commons lib law fs (c_text m.pokemon) ps
      → Grows commons lib law fs ps (with_new ps m)
      → Answered fs m id fs ps
  handle_new_pokemon-known fs m id ps k g =
      new_run fs fs m id 1 ps
        (check_found fs (c_text m.pokemon) k.holds.is_file.metadata EventCode.new_pokemon
          k.holds.is_file.found)
        k g

  made_found :
      (fs : FileSystem) (name : Bytes) (n : ℕ)
      → lookup name (made fs name n).files ≡ some (new_metadata n)
  made_found fs name n = lookup-store name name (new_metadata n) fs.files ∙ rw (same_refl name) refl

  made_blocks : (n : ℕ) → (new_metadata n).blocks ≡ array_text (map number_text (n ∷ []))
  unfolding int_text
  made_blocks n = refl

  made_reads :
      (fs : FileSystem) (name : Bytes) (n : ℕ)
      → read_blocks_content lib (made fs name n) name
        ≡ done (pokemon_position_to_array_of_position [])
  unfolding read_blocks_content pokemon_position_to_array_of_position
  made_reads fs name n = rw (read_blocks_content, made_found fs name n, size_zero) refl

  ceil_zero : (fs : FileSystem) → 0 < fs.block_size → blocks_for fs [] ≡ 0
  unfolding pokemon_position_to_array_of_position
  ceil_zero fs h = elim (zero_or_more (my_ceil 0 fs.block_size)) [
    | inl e ↦ e
    | inr l ↦
        let bad : 0 < 0 =
          needs_content commons lib law (my_ceil 0 fs.block_size) fs.block_size 0 l
            (my_ceil-Fits 0 fs.block_size h) in
        absurd (omega arith)
  ]

  made-KeepsFile :
      (fs : FileSystem) (name : Bytes) (n : ℕ)
      → IsMounted fs
      → Taken fs n
      → KeepsFile commons lib law (made fs name n) name []
  made-KeepsFile fs name n w t = record {
    mounted = record {
      block_size = w.block_size;
      bits = subst (λ b. b < 2 ^ 31) (sym (length-set_bit fs.bitmap n true)) w.bits;
      counted = subst (λ r. IsCounted r.1) t.taken (after_taking fs n w.counted t);
    };
    holds = record {
      numbers = n ∷ [];
      is_file = record {
        metadata = new_metadata n;
        found = made_found fs name n;
        blocks = made_blocks n;
        filled = omega arith;
        apart = (tt, tt);
        held = (set_bit_sets fs.bitmap n false t.first.was_clear, tt);
      };
      count = sym (ap at_least_one (ceil_zero fs w.block_size.0));
      plain = tt;
      reads = made_reads fs name n;
    };
    closed = refl;
  }

  -- A NEW_POKEMON for a pokemon that has no directory while a block is free: the directory is made
  -- with the first free block, and the rest is as for the closed and empty file of that directory.
  pub handle_new_pokemon-made :
      (fs : FileSystem) (m : NewPokemon) (id n : ℕ)
      → IsMounted fs
      → lookup (c_text m.pokemon) fs.files ≡ none
      → Taken fs n
      → Grows commons lib law (made fs (c_text m.pokemon) n) [] (with_new [] m)
      → Answered fs m id (made fs (c_text m.pokemon) n) []
  handle_new_pokemon-made fs m id n w f t g =
      new_run fs (made fs (c_text m.pokemon) n) m id 0 [] (check_made fs (c_text m.pokemon) n f t)
        (made-KeepsFile fs (c_text m.pokemon) n w t) g

  -- A NEW_POKEMON for a pokemon that has no directory while no block is free: the appeared message
  -- goes out although nothing is stored.
  pub handle_new_pokemon-full :
      (fs : FileSystem) (m : NewPokemon) (id : ℕ)
      → lookup (c_text m.pokemon) fs.files ≡ none
      → count_clear fs.bitmap ≡ 0
      → handle_new_pokemon commons lib fs m id ≡ done (some (appeared_frame m id), fs)
  unfolding handle_new_pokemon check_pokemon_directory
  handle_new_pokemon-full fs m id f c =
      rw (handle_new_pokemon, check_pokemon_directory, f, get_available_block_full fs c) refl
