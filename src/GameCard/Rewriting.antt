-- ===== src/GameCard/Rewriting.antt =====
-- gamecard/src/gamecard.c: the positions of a file after a pokemon is added or taken.
use tp_so_delibird.Common.{◌^◌, ◌∙◌, ◌+◌, ◌≤◌, zero, suc, ◌≡◌, arith, All, length, ◌<◌, List, ℕ}
use tp_so_delibird.Wire.Bytes.{Bytes}
use tp_so_delibird.Broker.State.{Commons, done}
use tp_so_delibird.GameCard.Allotment.{IsFile}
use tp_so_delibird.GameCard.Available.{IsCounted}
use tp_so_delibird.GameCard.Bitmap.{count_clear}
use tp_so_delibird.GameCard.Blocks.{my_ceil}
use tp_so_delibird.GameCard.Contents.{IsSize, write_blocks_and_metadata-Saved}
use tp_so_delibird.GameCard.Files.{read_blocks_content, write_positions_on_files}
use tp_so_delibird.GameCard.Lines.{get_positions-text, IsPlain}
use tp_so_delibird.GameCard.Positions.{pokemon_position_to_array_of_position}
use tp_so_delibird.GameCard.State.{Position, Metadata, IsLibrary, Splits, FileSystem}
use tp_so_delibird.GameCard.Updates.{read_positions, at_least_one}
use mathlib.Core.Path.{sym, refl, subst}

-- The size of the blocks is a positive `int`, their numbers are below 2^31, and the free ones are
-- counted.
pub record IsMounted (fs : FileSystem) : Type 0 where
  pub block_size : IsSize fs.block_size
  pub bits : length fs.bitmap < 2 ^ 31
  pub counted : IsCounted fs

abbrev pub blocks_for : FileSystem → List Position → ℕ
blocks_for fs ps = my_ceil (length (pokemon_position_to_array_of_position ps)) fs.block_size

-- The file of the pokemon holds the positions, in as many blocks as they need, and in one if there
-- is no position.
pub record Holds (lib : Splits) (fs : FileSystem) (pokemon : Bytes) (ps : List Position)
    : Type 0 where
  pub numbers : List ℕ
  pub is_file : IsFile fs pokemon numbers
  pub count : length numbers ≡ at_least_one (blocks_for fs ps)
  pub plain : All IsPlain ps
  pub reads : read_blocks_content lib fs pokemon ≡ done (pokemon_position_to_array_of_position ps)

-- The file system after other positions are written.
pub record Rewritten (commons : Commons) (lib : Splits) (fs : FileSystem) (pokemon : Bytes)
    (m : Metadata) (qs : List Position) : Type 0 where
  pub after : FileSystem
  pub result : write_positions_on_files commons lib fs qs pokemon ≡ done after
  pub mounted : IsMounted after
  pub holds : Holds lib after pokemon qs
  pub flag : holds.is_file.metadata.is_open ≡ m.is_open

at_least_one_same : (n : ℕ) → 0 < n → at_least_one n ≡ n
at_least_one_same zero h = absurd (omega arith)
at_least_one_same (suc n) h = refl

pub at_least_one_more : (n : ℕ) → 0 < at_least_one n
at_least_one_more zero = omega arith
at_least_one_more (suc n) = omega arith

module _ (commons : Commons) (lib : Splits) (law : IsLibrary commons lib) where
  pub read_positions-Holds :
      (fs : FileSystem) (pokemon : Bytes) (ps : List Position)
      → Holds lib fs pokemon ps
      → read_positions lib fs pokemon ≡ done ps
  read_positions-Holds fs pokemon ps h = rw h.reads (get_positions-text commons lib law ps h.plain)

  -- The positions `qs` can be written over `ps`: the text has less than 2^31 bytes, it needs as
  -- many blocks as the file has or more, and those that it lacks are free.
  pub record HasRoom (fs : FileSystem) (ps qs : List Position) : Type 0 where
    pub plain : All IsPlain qs
    pub short : length (pokemon_position_to_array_of_position qs) < 2 ^ 31
    pub enough : at_least_one (blocks_for fs ps) ≤ blocks_for fs qs
    pub room : blocks_for fs qs ≤ at_least_one (blocks_for fs ps) + count_clear fs.bitmap

  pub write_positions-Rewritten :
      (fs : FileSystem) (pokemon : Bytes) (ps qs : List Position)
      → IsMounted fs
      → (h : Holds lib fs pokemon ps) → HasRoom fs ps qs
      → Rewritten commons lib fs pokemon h.is_file.metadata qs
  unfolding write_positions_on_files
  write_positions-Rewritten fs pokemon ps qs w h r =
      let s =
        write_blocks_and_metadata-Saved commons lib law fs pokemon
          (pokemon_position_to_array_of_position qs) h.numbers h.is_file w.block_size w.bits r.short
          (omega (arith, h.count, r.enough)) (omega (arith, h.count, r.room)) in
      let one : 0 < blocks_for fs qs =
        omega (arith, at_least_one_more (blocks_for fs ps), r.enough) in
      let e : at_least_one (blocks_for s.after qs)
          ≡ my_ceil (length (pokemon_position_to_array_of_position qs)) fs.block_size =
        rw s.block_size (at_least_one_same (blocks_for fs qs) one) in
      record {
        after = s.after;
        result = s.result;
        mounted = record {
          block_size = subst IsSize (sym s.block_size) w.block_size;
          bits = subst (λ b. b < 2 ^ 31) (sym s.bits) w.bits;
          counted = s.counted w.counted;
        };
        holds = record {
          numbers = s.numbers;
          is_file = s.is_file;
          count = s.count ∙ sym e;
          plain = r.plain;
          reads = s.reads;
        };
        flag = s.flag;
      }
