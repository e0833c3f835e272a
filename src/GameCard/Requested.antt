-- ===== src/GameCard/Requested.antt =====
-- gamecard/src/gamecard.c: handle_get_pokemon, and the block that positions_to_uint32 writes to.
use tp_so_delibird.Common.{
  inl, inr, ◌∷◌, [], ◌≡◌, ◌<◌, ◌+◌, ◌*◌, suc, leb, Bool-cases, length, Option, if◌then◌else◌, ◌==◌,
  true, false, arith, List, ℕ, some, none, ◌∙◌,
}
use tp_so_delibird.Common.Int.{ℤ}
use tp_so_delibird.Wire.Bytes.{Bytes}
use tp_so_delibird.Wire.Types.{GetPokemon, EventCode}
use tp_so_delibird.Broker.State.{◌>>=◌, Commons, done, undefined}
use tp_so_delibird.GameCard.Access.{Handled, set_open, check_if_file_is_open}
use tp_so_delibird.GameCard.Arrivals.{Holds-set_open}
use tp_so_delibird.GameCard.Handlers.{get_in, localized_frame, handle_get_pokemon}
use tp_so_delibird.GameCard.NewPokemons.{check_found}
use tp_so_delibird.GameCard.Positions.{positions_loop, positions_to_uint32}
use tp_so_delibird.GameCard.Rewriting.{read_positions-Holds, IsMounted}
use tp_so_delibird.GameCard.State.{Position, Metadata, IsLibrary, Splits, FileSystem}
use tp_so_delibird.GameCard.Storing.{closed-KeepsFile, with_file-run, KeepsFile}
use tp_so_delibird.GameCard.Updates.{read_positions}
use tp_so_delibird.Team.State.{c_text}
use mathlib.Core.Path.{ap, refl}

overrun_later :
    (size i : ℕ) (p : Position) (ps : List Position) (numbers : ℕ → ℤ)
    → positions_loop size
        (suc i)
        ps
        (λ j. if j == suc i then p.pos_y else if j == i then p.pos_x else numbers j)
      ≡ undefined
    → positions_loop size i (p ∷ ps) numbers ≡ undefined
unfolding positions_loop
overrun_later size i p ps numbers h = elim (Bool-cases (leb (4 * i + 4) size)) [
  | inr e ↦ rw (positions_loop, e) refl
  | inl e ↦ elim (Bool-cases (leb (4 * suc i + 4) size)) [
    | inr t ↦ rw (positions_loop, e, t) refl
    | inl t ↦ rw (positions_loop, e, t) h
  ]
]

-- A block with less bytes than the numbers from the index `i` on need is overrun.
positions_loop-short :
    (size i : ℕ) (p : Position) (ps : List Position) (numbers : ℕ → ℤ)
    → size < 4 * (i + length ps) + 8
    → positions_loop size i (p ∷ ps) numbers ≡ undefined
unfolding positions_loop
positions_loop-short size i p [] numbers h =
    let t : leb (4 * suc i + 4) size ≡ false = ground arith in
    elim (Bool-cases (leb (4 * i + 4) size)) [
      | inl e ↦ rw (positions_loop, e, t) refl
      | inr e ↦ rw (positions_loop, e) refl
    ]
positions_loop-short size i p (q ∷ ps) numbers h =
    overrun_later size i p (q ∷ ps) numbers (positions_loop-short size (suc i) q ps _ (omega arith))

positions_to_uint32-short :
    (unset : ℕ → ℤ) (p : Position) (ps : List Position)
    → positions_to_uint32 unset (p ∷ ps) ≡ undefined
unfolding positions_to_uint32
positions_to_uint32-short unset p ps =
    positions_loop-short (length (p ∷ ps) * 2) 0 p ps unset (omega arith)

module _ (commons : Commons) (lib : Splits) (law : IsLibrary commons lib) where
  -- How handle_get_pokemon ends.
  pub data Asked (name : Bytes) (ps : List Position) (o : Handled (Option Bytes)) : Type 0 where
    overrun : 0 < length ps → o ≡ undefined → Asked name ps o
    nothing_sent :
        (after : FileSystem)
        → ps ≡ []
        → o ≡ done (some none, after)
        → KeepsFile commons lib law after name []
        → Asked name ps o

  -- A GET_POKEMON for a pokemon whose file is closed: if the file has a position,
  -- positions_to_uint32 writes behind the block that it allocated. If it has none, nothing is sent,
  -- and afterwards the file is closed again and read as before.
  pub handle_get_pokemon-Asked :
      (unset : ℕ → ℤ) (fs : FileSystem) (m : GetPokemon) (id : ℕ) (ps : List Position)
      → KeepsFile commons lib law fs (c_text m.pokemon) ps
      → Asked (c_text m.pokemon) ps (handle_get_pokemon commons lib unset fs m id)
  unfolding handle_get_pokemon check_if_file_is_open positions_to_uint32
  handle_get_pokemon-Asked unset fs m id (p ∷ ps) k =
      let name = c_text m.pokemon in
      let (h, e) = Holds-set_open commons lib law fs name (p ∷ ps) true k.holds in
      let found =
        check_found commons lib law fs name k.holds.is_file.metadata EventCode.get_pokemon
          k.holds.is_file.found in
      overrun (omega arith) (
        ap (get_in commons lib unset m id) found
        ∙ rw
            (
              check_if_file_is_open,
              k.holds.is_file.found,
              k.closed,
              law.equals (b'N' ∷ []),
              read_positions-Holds commons lib law (set_open true name k.holds.is_file.metadata fs)
                  name (p ∷ ps) h,
              positions_to_uint32-short unset p ps,
            )
            refl)
  handle_get_pokemon-Asked unset fs m id [] k =
      let name = c_text m.pokemon in
      let (h, e) = Holds-set_open commons lib law fs name [] true k.holds in
      let opened = set_open true name k.holds.is_file.metadata fs in
      let w : IsMounted opened = record {
        block_size = k.mounted.block_size;
        bits = k.mounted.bits;
        counted = k.mounted.counted;
      } in
      nothing_sent (set_open false name h.is_file.metadata opened) refl
        (ap (get_in commons lib unset m id) (
            check_found commons lib law fs name k.holds.is_file.metadata EventCode.get_pokemon
              k.holds.is_file.found)
          ∙ with_file-run commons lib law fs name k.holds.is_file.metadata
              (λ opened'. read_positions lib opened' name >>= λ qs.
                positions_to_uint32 unset qs >>= λ numbers.
                done (localized_frame numbers m id qs, opened'))
              none opened h.is_file.metadata k.holds.is_file.found k.closed
              (rw (read_positions-Holds commons lib law opened name [] h) refl) h.is_file.found
              (ap Metadata.is_open e))
        (closed-KeepsFile commons lib law opened name [] w h)
