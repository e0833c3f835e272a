-- ===== src/GameCard/Catching.antt =====
-- gamecard/src/gamecard.c: handle_catch_pokemon, from message to file.
use tp_so_delibird.Common.{
  inl, inr, Bool-cases, false, [], ◌∷◌, true, ◌++◌, find?, All, ◌≡◌, List, ℕ, some, ◌∙◌,
}
use tp_so_delibird.Common.Decimal.{int_of_u32}
use tp_so_delibird.Common.Int.{decrement, ℤ}
use tp_so_delibird.Wire.Bytes.{Bytes}
use tp_so_delibird.Wire.Types.{EventCode, CatchPokemon}
use tp_so_delibird.Broker.State.{◌>>=◌, Outcome, Commons, done}
use tp_so_delibird.GameCard.Access.{set_open}
use tp_so_delibird.GameCard.Arrivals.{Holds-set_open}
use tp_so_delibird.GameCard.Files.{write_positions_on_files}
use tp_so_delibird.GameCard.Handlers.{catch_in, caught_frame, handle_catch_pokemon}
use tp_so_delibird.GameCard.NewPokemons.{check_found}
use tp_so_delibird.GameCard.Places.{
  less_one-OnlyAt, without-OnlyAt, find-OnlyAt, one_taken, find-none, OnlyAt, Elsewhere,
}
use tp_so_delibird.GameCard.Positions.{same_place}
use tp_so_delibird.GameCard.Rewriting.{
  write_positions-Rewritten, HasRoom, Rewritten, read_positions-Holds, IsMounted, Holds,
}
use tp_so_delibird.GameCard.State.{Metadata, Position, FileSystem, IsLibrary, Splits}
use tp_so_delibird.GameCard.Storing.{closed-KeepsFile, with_file-run, KeepsFile}
use tp_so_delibird.GameCard.Updates.{
  is_one, decrease_position, remove_position, take_one, ckeck_position_exists_catch_pokemon,
}
use tp_so_delibird.Team.State.{c_text}
use mathlib.Core.Path.{sym, ap, refl}

abbrev pub x_of : CatchPokemon → ℤ
x_of m = int_of_u32 m.pos_x

abbrev pub y_of : CatchPokemon → ℤ
y_of m = int_of_u32 m.pos_y

module _ (commons : Commons) (lib : Splits) (law : IsLibrary commons lib) where
  -- The handler answers, and the file is closed and holds the positions.
  abbrev pub Caught : FileSystem → CatchPokemon → ℕ → ℕ → List Position → Type 0
  Caught fs m id result qs =
      (after : FileSystem) × ((handle_catch_pokemon commons lib fs m id
          ≡ done (some (caught_frame result id), after))
        × KeepsFile commons lib law after (c_text m.pokemon) qs)

  abbrev catch_body : CatchPokemon → ℕ → FileSystem → Outcome (Bytes × FileSystem)
  catch_body m id opened =
      ckeck_position_exists_catch_pokemon lib opened (c_text m.pokemon) m >>= λ found.
      take_one commons lib opened (c_text m.pokemon) found >>= λ (result, fs').
      done (caught_frame result id, fs')

  -- The handler on a closed file, once its body is known.
  catch_run :
      (fs : FileSystem) (m : CatchPokemon) (id result : ℕ) (ps qs : List Position)
      (k : KeepsFile commons lib law fs (c_text m.pokemon) ps) (after : FileSystem)
      → catch_body m id (set_open true (c_text m.pokemon) k.holds.is_file.metadata fs)
        ≡ done (caught_frame result id, after)
      → IsMounted after
      → (h : Holds lib after (c_text m.pokemon) qs) → h.is_file.metadata.is_open ≡ b'Y' ∷ []
      → Caught fs m id result qs
  unfolding handle_catch_pokemon
  catch_run fs m id result ps qs k after b w h o = (
    set_open false (c_text m.pokemon) h.is_file.metadata after,
    (
      ap (catch_in commons lib m id) (
            check_found commons lib law fs (c_text m.pokemon) k.holds.is_file.metadata
              EventCode.catch_pokemon k.holds.is_file.found)
          ∙ with_file-run commons lib law fs (c_text m.pokemon) k.holds.is_file.metadata
              (catch_body m id) (caught_frame result id) after h.is_file.metadata
              k.holds.is_file.found k.closed b h.is_file.found o,
      closed-KeepsFile commons lib law after (c_text m.pokemon) qs w h,
    ),
  )

  found_in :
      (fs : FileSystem) (m : CatchPokemon) (ps : List Position)
      → Holds lib fs (c_text m.pokemon) ps
      → ckeck_position_exists_catch_pokemon lib fs (c_text m.pokemon) m
        ≡ done (find? (same_place (x_of m) (y_of m)) ps)
  unfolding ckeck_position_exists_catch_pokemon
  found_in fs m ps h =
      rw
        (
          ckeck_position_exists_catch_pokemon,
          read_positions-Holds commons lib law fs (c_text m.pokemon) ps h,
        )
        refl

  -- A CATCH_POKEMON for a place that the closed file does not have: the answer is 0, and the file
  -- is closed and read as before.
  pub handle_catch_pokemon-missed :
      (fs : FileSystem) (m : CatchPokemon) (id : ℕ) (ps : List Position)
      → KeepsFile commons lib law fs (c_text m.pokemon) ps
      → All (Elsewhere (x_of m) (y_of m)) ps
      → Caught fs m id 0 ps
  unfolding take_one
  handle_catch_pokemon-missed fs m id ps k a =
      let (h, e) = Holds-set_open commons lib law fs (c_text m.pokemon) ps true k.holds in
      let opened = set_open true (c_text m.pokemon) k.holds.is_file.metadata fs in
      catch_run fs m id 0 ps ps k opened
        (rw (found_in opened m ps h, find-none (x_of m) (y_of m) ps a) refl)
        (record {
          block_size = k.mounted.block_size;
          bits = k.mounted.bits;
          counted = k.mounted.counted;
        })
        h (ap Metadata.is_open e)

  take_run :
      (fs : FileSystem) (name : Bytes) (x y : ℤ) (pre post : List Position) (p : Position)
      (h : Holds lib fs name (pre ++ (p ∷ post)))
      → OnlyAt x y pre p post
      → (w : Rewritten commons lib fs name h.is_file.metadata (one_taken pre p post))
      → take_one commons lib fs name (some p) ≡ done (1, w.after)
  unfolding take_one remove_position decrease_position
  take_run fs name x y pre post p h o w = elim (Bool-cases (is_one p.count)) [
    | inl e ↦
        let t : one_taken pre p post ≡ pre ++ post = rw e refl in
        let r : write_positions_on_files commons lib fs (pre ++ post) name ≡ done w.after =
          ap (λ qs. write_positions_on_files commons lib fs qs name) (sym t) ∙ w.result in
        rw
          (
            take_one,
            e,
            remove_position,
            read_positions-Holds commons lib law fs name (pre ++ (p ∷ post)) h,
            without-OnlyAt x y pre p post o,
            r,
          )
          refl
    | inr e ↦
        let less = record p { count = decrement p.count } in
        let t : one_taken pre p post ≡ pre ++ (less ∷ post) = rw e refl in
        let r : write_positions_on_files commons lib fs (pre ++ (less ∷ post)) name ≡ done w.after =
          ap (λ qs. write_positions_on_files commons lib fs qs name) (sym t) ∙ w.result in
        rw
          (
            take_one,
            e,
            decrease_position,
            read_positions-Holds commons lib law fs name (pre ++ (p ∷ post)) h,
            less_one-OnlyAt x y pre p post o,
            r,
          )
          refl
  ]

  -- A CATCH_POKEMON for a place that the closed file has once: the answer is 1, and afterwards the
  -- file is closed and read with one pokemon less at the place, or without the place if it had one
  -- pokemon. The new positions have room and take no less blocks than the file had.
  pub handle_catch_pokemon-Caught :
      (fs : FileSystem) (m : CatchPokemon) (id : ℕ) (pre : List Position) (p : Position)
      (post : List Position)
      → KeepsFile commons lib law fs (c_text m.pokemon) (pre ++ (p ∷ post))
      → OnlyAt (x_of m) (y_of m) pre p post
      → HasRoom commons lib law fs (pre ++ (p ∷ post)) (one_taken pre p post)
      → Caught fs m id 1 (one_taken pre p post)
  handle_catch_pokemon-Caught fs m id pre p post k o r =
      let ps = pre ++ (p ∷ post) in
      let (h, e) = Holds-set_open commons lib law fs (c_text m.pokemon) ps true k.holds in
      let opened = set_open true (c_text m.pokemon) k.holds.is_file.metadata fs in
      let mounted : IsMounted opened = record {
        block_size = k.mounted.block_size;
        bits = k.mounted.bits;
        counted = k.mounted.counted;
      } in
      let room : HasRoom commons lib law opened ps (one_taken pre p post) = record {
        plain = r.plain;
        short = r.short;
        enough = r.enough;
        room = r.room;
      } in
      let w =
        write_positions-Rewritten commons lib law opened (c_text m.pokemon) ps
          (one_taken pre p post) mounted h room in
      catch_run fs m id 1 ps (one_taken pre p post) k w.after
        (rw
          (
            found_in opened m ps h,
            find-OnlyAt (x_of m) (y_of m) p pre post o,
            take_run opened (c_text m.pokemon) (x_of m) (y_of m) pre post p h o w,
          )
          refl)
        w.mounted w.holds (w.flag ∙ ap Metadata.is_open e)
