-- ===== src/GameCard/Storing.antt =====
-- gamecard/src/gamecard.c: handle_new_pokemon opens the file of the pokemon, stores and closes.
use tp_so_delibird.Common.{
  ◌^◌, arith, ◌≤◌, ◌<◌, ◌+◌, true, false, [], ◌∷◌, length, if◌then◌else◌, ◌≡◌, leb, lookup, Bool,
  All, List, some, ◌∙◌,
}
use tp_so_delibird.Wire.Bytes.{Bytes}
use tp_so_delibird.Wire.Types.{NewPokemon}
use tp_so_delibird.Broker.State.{◌>>=◌, Outcome, Commons, done}
use tp_so_delibird.GameCard.Access.{set_open, with_file, close_file_pokemon, check_if_file_is_open}
use tp_so_delibird.GameCard.Arrivals.{stored, no_room, store_new-Stored, Holds-set_open}
use tp_so_delibird.GameCard.Bitmap.{count_clear}
use tp_so_delibird.GameCard.Lines.{IsPlain}
use tp_so_delibird.GameCard.Positions.{pokemon_position_to_array_of_position}
use tp_so_delibird.GameCard.Rewriting.{blocks_for, Holds, IsMounted}
use tp_so_delibird.GameCard.State.{Position, Metadata, FileSystem, IsLibrary, Splits}
use tp_so_delibird.GameCard.Updates.{at_least_one, with_new, store_new}
use mathlib.Core.Path.{ap, refl}

module _ (commons : Commons) (lib : Splits) (law : IsLibrary commons lib) where
  -- A body that leaves the file open runs between the opening and the closing.
  pub with_file-run :
      {A : Type 0} (fs : FileSystem) (name : Bytes) (m : Metadata)
      (body : FileSystem → Outcome (A × FileSystem)) (a : A) (fs' : FileSystem) (m' : Metadata)
      → lookup name fs.files ≡ some m
      → m.is_open ≡ b'N' ∷ []
      → body (set_open true name m fs) ≡ done (a, fs')
      → lookup name fs'.files ≡ some m'
      → m'.is_open ≡ b'Y' ∷ []
      → with_file commons fs name body ≡ done (some a, set_open false name m' fs')
  unfolding check_if_file_is_open close_file_pokemon
  with_file-run fs name m body a fs' m' f c b f' o =
      rw
        (
          check_if_file_is_open,
          f,
          c,
          law.equals (b'N' ∷ []),
          b,
          close_file_pokemon,
          f',
          o,
          law.equals (b'Y' ∷ []),
        )
        refl

  -- The file of the pokemon is closed, and its positions are read.
  pub record KeepsFile (fs : FileSystem) (name : Bytes) (qs : List Position) : Type 0 where
    pub mounted : IsMounted fs
    pub holds : Holds lib fs name qs
    pub closed : holds.is_file.metadata.is_open ≡ b'N' ∷ []

  -- What a NEW_POKEMON needs of the positions: the new ones are plain, their text has less than
  -- 2^31 bytes and takes no less blocks than before.
  pub record Grows (fs : FileSystem) (ps qs : List Position) : Type 0 where
    pub plain : All IsPlain qs
    pub short : length (pokemon_position_to_array_of_position qs) < 2 ^ 31
    pub enough : at_least_one (blocks_for fs ps) ≤ blocks_for fs qs

  abbrev pub fits : FileSystem → List Position → List Position → Bool
  fits fs ps qs = leb (blocks_for fs qs) (at_least_one (blocks_for fs ps) + count_clear fs.bitmap)

  abbrev store_body : Bytes → NewPokemon → Bytes → FileSystem → Outcome (Bytes × FileSystem)
  store_body name m frame opened =
      store_new commons lib opened name m >>= λ fs''. done (frame, fs'')

  pub closed-KeepsFile :
      (fs : FileSystem) (name : Bytes) (qs : List Position)
      → IsMounted fs
      → (h : Holds lib fs name qs) → KeepsFile (set_open false name h.is_file.metadata fs) name qs
  closed-KeepsFile fs name qs w h =
      let (k, e) = Holds-set_open commons lib law fs name qs false h in
      record {
        mounted = record { block_size = w.block_size; bits = w.bits; counted = w.counted };
        holds = k;
        closed = ap Metadata.is_open e;
      }

  pub with_file-store :
      (fs : FileSystem) (name frame : Bytes) (m : NewPokemon) (ps : List Position)
      → KeepsFile fs name ps
      → Grows fs ps (with_new ps m)
      → (after : FileSystem) × ((with_file commons fs name (store_body name m frame)
            ≡ done (some frame, after))
          × KeepsFile after name (if fits fs ps (with_new ps m) then with_new ps m else ps))
  with_file-store fs name frame m ps k g =
      let opened = set_open true name k.holds.is_file.metadata fs in
      let (ho, he) = Holds-set_open commons lib law fs name ps true k.holds in
      let wo : IsMounted opened = record {
        block_size = k.mounted.block_size;
        bits = k.mounted.bits;
        counted = k.mounted.counted;
      } in
      let flag : ho.is_file.metadata.is_open ≡ b'Y' ∷ [] = ap Metadata.is_open he in
      elim (store_new-Stored commons lib law opened name m ps wo ho g.plain g.short g.enough) [
        | stored room w r ↦
            let e : fits fs ps (with_new ps m) ≡ true = ground arith in
            (
              set_open false name w.holds.is_file.metadata w.after,
              (
                with_file-run fs name k.holds.is_file.metadata (store_body name m frame) frame
                    w.after w.holds.is_file.metadata k.holds.is_file.found k.closed (rw r refl)
                    w.holds.is_file.found (w.flag ∙ flag),
                rw e (closed-KeepsFile w.after name (with_new ps m) w.mounted w.holds),
              ),
            )
        | no_room room r ↦
            let e : fits fs ps (with_new ps m) ≡ false = ground arith in
            (
              set_open false name ho.is_file.metadata opened,
              (
                with_file-run fs name k.holds.is_file.metadata (store_body name m frame) frame
                    opened ho.is_file.metadata k.holds.is_file.found k.closed (rw r refl)
                    ho.is_file.found flag,
                rw e (closed-KeepsFile opened name ps wo ho),
              ),
            )
      ]
