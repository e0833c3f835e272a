-- ===== src/GameCard/Updates.antt =====
-- gamecard/src/gamecard.c: the positions of a file with a pokemon more or less.
use tp_so_delibird.Common.{
  length, ◌++◌, ◌^◌, ◌+◌, zero, remove_at, get_elem?, find?, ◌==◌, ◌%◌, suc, leb, if◌then◌else◌,
  Option, ℕ, List, Bool, [], ◌∷◌, none, some, false,
}
use tp_so_delibird.Common.Decimal.{u32_of_int, int_of_u32}
use tp_so_delibird.Common.Int.{ℤ, pos, negsuc, decrement}
use tp_so_delibird.Wire.Bytes.{Bytes}
use tp_so_delibird.Wire.Types.{NewPokemon, CatchPokemon}
use tp_so_delibird.Broker.State.{done, undefined, Outcome, ◌>>=◌, Commons}
use tp_so_delibird.GameCard.Blocks.{my_ceil}
use tp_so_delibird.GameCard.Files.{write_positions_on_files, read_blocks_content}
use tp_so_delibird.GameCard.Positions.{
  pokemon_position_to_array_of_position, create_position, same_place, get_positions_from_buffer,
  position_list,
}
use tp_so_delibird.GameCard.State.{FileSystem, Splits, Position}

-- `count += n` with a `uint32_t`.
abbrev pub add_count : ℤ → ℕ → ℤ
add_count count n = int_of_u32 ((u32_of_int count + n) % 2 ^ 32)

-- `needed - have <= available`
abbrev pub fits_in : ℕ → ℕ → ℤ → Bool
fits_in needed have (pos available) = leb needed (have + available)
fits_in needed have (negsuc n) = leb (needed + suc n) have

abbrev pub replace_at : ℕ → Position → List Position → List Position
replace_at i p [] = []
replace_at zero p (q ∷ qs) = p ∷ qs
replace_at (suc i) p (q ∷ qs) = q ∷ replace_at i p qs

-- A write through the pointer that `list_find` returned.
abbrev pub update_first : ℤ → ℤ → Position → List Position → List Position
update_first x y p [] = []
update_first x y p (q ∷ qs) = if same_place x y q then p ∷ qs else q ∷ update_first x y p qs

abbrev pub replace_found : Position → List Position → Option ℕ → List Position
replace_found p ps none = ps
replace_found p ps (some i) = replace_at i p ps

-- The positions with the new pokemons among them, before the room for them is known.
unfoldable pub with_new : List Position → NewPokemon → List Position
with_new ps pokemon =
    let x = int_of_u32 pokemon.pos_x in
    let y = int_of_u32 pokemon.pos_y in
    elim (find? (same_place x y) ps) [
      | none ↦ ps ++ (create_position x y (int_of_u32 pokemon.count) ∷ [])
      | some p ↦
          let p' = record p { count = add_count p.count pokemon.count } in
          let qs = update_first x y p' ps in replace_found p' qs (position_list 0 qs p')
    ]

abbrev pub at_least_one : ℕ → ℕ
at_least_one zero = 1
at_least_one (suc n) = suc n

-- The list with one pokemon less at the index of the position, or without that position. A
-- position that is not in the list is a NULL that the source reads.
abbrev pub less_one : List Position → Option ℕ → Outcome (List Position)
less_one ps none = undefined
less_one ps (some i) = elim (get_elem? ps i) [
  | none ↦ undefined
  | some p ↦ done (replace_at i (record p { count = decrement p.count }) ps)
]

abbrev pub without : List Position → Option ℕ → Outcome (List Position)
without ps none = undefined
without ps (some i) = done (remove_at i ps)

abbrev pub is_one : ℤ → Bool
is_one (pos n) = n == 1
is_one (negsuc n) = false

module _ (lib : Splits) where
  abbrev pub read_positions : FileSystem → Bytes → Outcome (List Position)
  read_positions fs pokemon =
      read_blocks_content lib fs pokemon >>= λ content. get_positions_from_buffer lib content

  -- An empty list if there is no room.
  unfoldable pub ckeck_position_exists_new_pokemon :
      FileSystem → Bytes → NewPokemon → Outcome (List Position)
  ckeck_position_exists_new_pokemon fs name pokemon =
      read_blocks_content lib fs name >>= λ blocks_content.
      get_positions_from_buffer lib blocks_content >>= λ ps.
      let blocks_have = at_least_one (my_ceil (length blocks_content) fs.block_size) in
      let added = with_new ps pokemon in
      let blocks_needed =
        my_ceil (length (pokemon_position_to_array_of_position added)) fs.block_size in
      done (if fits_in blocks_needed blocks_have fs.blocks_available then added else [])

  -- The first position at the place of the message.
  unfoldable pub ckeck_position_exists_catch_pokemon :
      FileSystem → Bytes → CatchPokemon → Outcome (Option Position)
  ckeck_position_exists_catch_pokemon fs name pokemon = read_positions fs name >>= λ ps.
      done (find? (same_place (int_of_u32 pokemon.pos_x) (int_of_u32 pokemon.pos_y)) ps)

module _ (commons : Commons) (lib : Splits) where
  abbrev pub write_any : FileSystem → List Position → Bytes → Outcome FileSystem
  write_any fs [] name = done fs
  write_any fs (p ∷ ps) name = write_positions_on_files commons lib fs (p ∷ ps) name

  unfoldable pub store_new : FileSystem → Bytes → NewPokemon → Outcome FileSystem
  store_new fs name pokemon =
      ckeck_position_exists_new_pokemon lib fs name pokemon >>= λ ps. write_any fs ps name

  unfoldable pub decrease_position : FileSystem → Position → Bytes → Outcome FileSystem
  decrease_position fs position name = read_positions lib fs name >>= λ ps.
      less_one ps (position_list 0 ps position) >>= λ qs.
      write_positions_on_files commons lib fs qs name

  unfoldable pub remove_position : FileSystem → Position → Bytes → Outcome FileSystem
  remove_position fs position name = read_positions lib fs name >>= λ ps.
      without ps (position_list 0 ps position) >>= λ qs.
      write_positions_on_files commons lib fs qs name

  -- `result` and what the file system becomes.
  unfoldable pub take_one : FileSystem → Bytes → Option Position → Outcome (ℕ × FileSystem)
  take_one fs name none = done (0, fs)
  take_one fs name (some position) =
      (if is_one position.count
        then remove_position fs position name
        else decrease_position fs position name)
      >>= λ fs'. done (1, fs')
