-- ===== src/GameCard/Arrivals.antt =====
-- gamecard/src/gamecard.c: handle_new_pokemon, with the file of its pokemon.
use tp_so_delibird.Common.{
  ◌^◌, false, true, same_refl, inr, store, lookup-store, ◌∙◌, inl, Bool-cases, arith, All, ◌≤◌, ◌+◌,
  if◌then◌else◌, length, leb, [], ◌∷◌, ◌<◌, Bool, ◌≡◌, ℕ, lookup, List, some,
}
use tp_so_delibird.Wire.Bytes.{Bytes}
use tp_so_delibird.Wire.Types.{NewPokemon}
use tp_so_delibird.Broker.State.{Outcome, Commons, done}
use tp_so_delibird.GameCard.Access.{file_is_open, set_open}
use tp_so_delibird.GameCard.Available.{IsCounted}
use tp_so_delibird.GameCard.Bitmap.{count_clear}
use tp_so_delibird.GameCard.Blocks.{my_ceil}
use tp_so_delibird.GameCard.Contents.{needs_content}
use tp_so_delibird.GameCard.Files.{read_blocks_content, write_positions_on_files}
use tp_so_delibird.GameCard.Lines.{get_positions-text, IsPlain}
use tp_so_delibird.GameCard.Positions.{pokemon_position_to_array_of_position}
use tp_so_delibird.GameCard.Rewriting.{
  at_least_one_more, write_positions-Rewritten, Rewritten, blocks_for, Holds, IsMounted,
}
use tp_so_delibird.GameCard.State.{Position, Metadata, IsLibrary, Splits, FileSystem}
use tp_so_delibird.GameCard.Updates.{
  at_least_one, write_any, with_new, fits_in, store_new, ckeck_position_exists_new_pokemon,
}
use tp_so_delibird.GameCard.Writing.{my_ceil-Fits}
use mathlib.Core.Path.{refl}

module _ (commons : Commons) (lib : Splits) (law : IsLibrary commons lib) where
  abbrev with_metadata : FileSystem → Bytes → Metadata → FileSystem
  with_metadata fs pokemon m = record fs { files = store pokemon m fs.files }

  lookup-with :
      (fs : FileSystem) (pokemon : Bytes) (m : Metadata)
      → lookup pokemon (with_metadata fs pokemon m).files ≡ some m
  lookup-with fs pokemon m = lookup-store pokemon pokemon m fs.files ∙ rw (same_refl pokemon) refl

  read-with :
      (fs : FileSystem) (pokemon : Bytes) (m m' : Metadata)
      → lookup pokemon fs.files ≡ some m
      → m'.blocks ≡ m.blocks
      → m'.size ≡ m.size
      → read_blocks_content lib (with_metadata fs pokemon m') pokemon
        ≡ read_blocks_content lib fs pokemon
  unfolding read_blocks_content
  read-with fs pokemon m m' f b s =
      rw (read_blocks_content, lookup-with fs pokemon m', f, b, s) refl

  Holds-with :
      (fs : FileSystem) (pokemon : Bytes) (ps : List Position) (m' : Metadata)
      → (h : Holds lib fs pokemon ps) → m'.blocks ≡ h.is_file.metadata.blocks
      → m'.size ≡ h.is_file.metadata.size
      → (k : Holds lib (with_metadata fs pokemon m') pokemon ps) × (k.is_file.metadata ≡ m')
  Holds-with fs pokemon ps m' h b s = (
    record {
      numbers = h.numbers;
      is_file = record {
        metadata = m';
        found = lookup-with fs pokemon m';
        blocks = b ∙ h.is_file.blocks;
        filled = h.is_file.filled;
        apart = h.is_file.apart;
        held = h.is_file.held;
      };
      count = h.count;
      plain = h.plain;
      reads = read-with fs pokemon h.is_file.metadata m' h.is_file.found b s ∙ h.reads;
    },
    refl,
  )

  -- The file with another flag holds what it held.
  pub Holds-set_open :
      (fs : FileSystem) (pokemon : Bytes) (ps : List Position) (value : Bool)
      (h : Holds lib fs pokemon ps)
      → (k : Holds lib (set_open value pokemon h.is_file.metadata fs) pokemon ps)
        × (k.is_file.metadata ≡ file_is_open value h.is_file.metadata)
  Holds-set_open fs pokemon ps true h =
      Holds-with fs pokemon ps (file_is_open true h.is_file.metadata) h refl refl
  Holds-set_open fs pokemon ps false h =
      Holds-with fs pokemon ps (file_is_open false h.is_file.metadata) h refl refl

  fits_in_counted :
      (fs : FileSystem) (needed have : ℕ)
      → IsCounted fs
      → fits_in needed have fs.blocks_available ≡ leb needed (have + count_clear fs.bitmap)
  fits_in_counted fs needed have c = rw c refl

  check_new :
      (fs : FileSystem) (name : Bytes) (m : NewPokemon) (ps : List Position)
      → IsMounted fs
      → Holds lib fs name ps
      → ckeck_position_exists_new_pokemon lib fs name m
        ≡ done (
            if leb
              (blocks_for fs (with_new ps m))
              (at_least_one (blocks_for fs ps) + count_clear fs.bitmap)
            then with_new ps m
            else [])
  unfolding ckeck_position_exists_new_pokemon
  check_new fs name m ps w h =
      rw
        (
          ckeck_position_exists_new_pokemon,
          h.reads,
          get_positions-text commons lib law ps h.plain,
          fits_in_counted fs (blocks_for fs (with_new ps m)) (at_least_one (blocks_for fs ps))
              w.counted,
        )
        refl

  -- What becomes of the file: the positions with the new pokemons among them if there is room, and
  -- nothing if there is none.
  pub data Stored (fs : FileSystem) (name : Bytes) (m : Metadata) (ps qs : List Position)
      (r : Outcome FileSystem) : Type 0 where
    stored :
        blocks_for fs qs ≤ at_least_one (blocks_for fs ps) + count_clear fs.bitmap
        → (w : Rewritten commons lib fs name m qs) → r ≡ done w.after
        → Stored fs name m ps qs r
    no_room :
        at_least_one (blocks_for fs ps) + count_clear fs.bitmap < blocks_for fs qs
        → r ≡ done fs
        → Stored fs name m ps qs r

  written_some :
      (fs : FileSystem) (qs : List Position)
      → 0 < fs.block_size
      → 0 < blocks_for fs qs
      → 0 < length qs
  unfolding pokemon_position_to_array_of_position
  written_some fs [] p h =
      needs_content commons lib law (my_ceil 0 fs.block_size) fs.block_size 0 h
        (my_ceil-Fits 0 fs.block_size p)
  written_some fs (q ∷ qs) p h = omega arith

  write_some :
      (fs : FileSystem) (qs : List Position) (name : Bytes)
      → 0 < length qs
      → write_any commons lib fs qs name ≡ write_positions_on_files commons lib fs qs name
  write_some fs [] name h = absurd (omega arith)
  write_some fs (q ∷ qs) name h = refl

  pub store_new-Stored :
      (fs : FileSystem) (name : Bytes) (m : NewPokemon) (ps : List Position)
      → IsMounted fs
      → (h : Holds lib fs name ps) → All IsPlain (with_new ps m)
      → length (pokemon_position_to_array_of_position (with_new ps m)) < 2 ^ 31
      → at_least_one (blocks_for fs ps) ≤ blocks_for fs (with_new ps m)
      → Stored fs name h.is_file.metadata ps (with_new ps m) (store_new commons lib fs name m)
  unfolding store_new
  store_new-Stored fs name m ps w h plain short enough =
      let some_new : 0 < length (with_new ps m) =
        written_some fs (with_new ps m) w.block_size.0
          (omega (arith, at_least_one_more (blocks_for fs ps))) in
      elim (Bool-cases (
        leb (blocks_for fs (with_new ps m))
          (at_least_one (blocks_for fs ps) + count_clear fs.bitmap))) [
            | inl e ↦
                let room : blocks_for fs (with_new ps m)
                    ≤ at_least_one (blocks_for fs ps) + count_clear fs.bitmap =
                  ground arith in
                let r =
                  write_positions-Rewritten commons lib law fs name ps (with_new ps m) w h
                    (record { plain = plain; short = short; enough = enough; room = room }) in
                stored room r (
                  rw (store_new, check_new fs name m ps w h, e)
                    (write_some fs (with_new ps m) name some_new ∙ r.result))
            | inr e ↦ no_room (ground arith) (rw (store_new, check_new fs name m ps w h, e) refl)
          ]
