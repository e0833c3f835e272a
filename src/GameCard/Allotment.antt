-- ===== src/GameCard/Allotment.antt =====
-- gamecard/src/gamecard.c: pokemon_blocks allots as many blocks as a content needs.
use tp_so_delibird.Common.{
  length-append, ◌∙◌, ◌++◌, true, ◌-◌, suc, some, arith, [], Pairs, ◌≡◌, ◌∷◌, ◌+◌, store, lookup,
  ◌≤◌, ◌<◌, map, length, All, ℕ, List, refl,
}
use tp_so_delibird.Common.Decimal.{IsDigit, number_text-Spelled, Spelled, number_text}
use tp_so_delibird.Wire.Bytes.{Bytes}
use tp_so_delibird.Broker.State.{Outcome, Commons, done}
use tp_so_delibird.GameCard.ArrayText.{add_each-array_text}
use tp_so_delibird.GameCard.Available.{IsCounted, HasBit}
use tp_so_delibird.GameCard.Bitmap.{count_clear}
use tp_so_delibird.GameCard.Blocks.{take_blocks, add_each, pokemon_blocks, drop_blocks, Blocks}
use tp_so_delibird.GameCard.Growth.{SameFiles, take_blocks-Grown, OtherNumber, Owns}
use tp_so_delibird.GameCard.Lines.{number_text-ne-nil}
use tp_so_delibird.GameCard.State.{array_text, Metadata, IsNumeral, IsLibrary, Splits, FileSystem}
use mathlib.Core.Path.{sym, ap, subst}

number_text-IsNumeral : (n : ℕ) → IsNumeral (number_text n)
number_text-IsNumeral n =
    let s : Spelled (number_text n) = number_text-Spelled n in
    (number_text-ne-nil n, subst (All IsDigit) (sym s.text) s.all_digits)

numbers-IsNumeral : (ns : List ℕ) → All IsNumeral (map number_text ns)
numbers-IsNumeral [] = tt
numbers-IsNumeral (n ∷ ns) = (number_text-IsNumeral n, numbers-IsNumeral ns)

length-numbers : (ns : List ℕ) → length (map number_text ns) ≡ length ns
length-numbers [] = refl
length-numbers (n ∷ ns) = ap suc (length-numbers ns)

-- The pokemon has a Metadata.bin whose blocks are the numbers: at least one, and each another bit
-- that is set.
pub record IsFile (fs : FileSystem) (pokemon : Bytes) (ns : List ℕ) : Type 0 where
  pub metadata : Metadata
  pub found : lookup pokemon fs.files ≡ some metadata
  pub blocks : metadata.blocks ≡ array_text (map number_text ns)
  pub filled : 0 < length ns
  pub apart : Pairs OtherNumber ns
  pub held : All (HasBit fs.bitmap true) ns

abbrev pub allotted : FileSystem → Bytes → Metadata → List ℕ → ℕ → FileSystem
allotted fs pokemon metadata ns size = record fs {
  files =
      store pokemon
        (record metadata { blocks = array_text (map number_text ns); size = number_text size })
        fs.files;
}

-- What pokemon_blocks returns, with the numbers of all blocks and the file system before the
-- metadata is saved.
pub record Allotted (lib : Splits) (fs : FileSystem) (pokemon : Bytes) (metadata : Metadata)
    (needed size : ℕ) : Type 0 where
  pub numbers : List ℕ
  pub grown : FileSystem
  pub result :
      pokemon_blocks lib fs pokemon needed size
      ≡ done (map number_text numbers, allotted grown pokemon metadata numbers size)
  pub enough : length numbers ≡ needed
  pub apart : Pairs OtherNumber numbers
  pub held : All (HasBit grown.bitmap true) numbers
  pub same_files : SameFiles fs grown
  pub counted : IsCounted fs → IsCounted grown

module _ (commons : Commons) (lib : Splits) (law : IsLibrary commons lib) where
  pub array_read :
      (ns : List ℕ)
      → 0 < length ns
      → lib.string_get_string_as_array (array_text (map number_text ns)) ≡ map number_text ns
  array_read [] h = absurd (omega arith)
  array_read (n ∷ ns) h =
      law.array_words (number_text n) (map number_text ns) (numbers-IsNumeral (n ∷ ns))

  abbrev start : FileSystem → List ℕ → Blocks
  start fs ns = record {
    fs = fs;
    blocks_as_array = add_each [] (map number_text ns);
    blocks_as_char = map number_text ns;
  }

  start-Owns :
      (fs : FileSystem) (pokemon : Bytes) (ns : List ℕ)
      → IsFile fs pokemon ns
      → Owns (start fs ns) ns
  start-Owns fs pokemon ns f = record {
    chars = refl;
    array = add_each-array_text [] (map number_text ns);
    apart = f.apart;
    held = f.held;
  }

  abbrev saved : FileSystem → Bytes → Metadata → ℕ → Blocks → Outcome (List Bytes × FileSystem)
  saved fs pokemon metadata size s = done (
    s.blocks_as_char,
    record s.fs {
      files =
          store pokemon (record metadata { blocks = s.blocks_as_array; size = number_text size })
            s.fs.files;
    },
  )

  none_dropped : (s : Blocks) → drop_blocks 0 s ≡ done s
  unfolding drop_blocks
  none_dropped s = refl

  pokemon_blocks-take :
      (fs : FileSystem) (pokemon : Bytes) (ns : List ℕ) (f : IsFile fs pokemon ns) (needed size : ℕ)
      → length ns ≤ needed
      → pokemon_blocks lib fs pokemon needed size
        ≡ saved fs pokemon f.metadata size (take_blocks (needed - length ns) (start fs ns))
  unfolding pokemon_blocks
  pokemon_blocks-take fs pokemon ns f needed size h =
      let z : length ns - needed ≡ 0 = omega arith in
      rw
        (
          pokemon_blocks,
          f.found,
          f.blocks,
          array_read ns f.filled,
          length-numbers ns,
          z,
          none_dropped (take_blocks (needed - length ns) (start fs ns)),
        )
        refl

  pub pokemon_blocks-Allotted :
      (fs : FileSystem) (pokemon : Bytes) (ns : List ℕ) (f : IsFile fs pokemon ns) (needed size : ℕ)
      → length ns ≤ needed
      → needed ≤ length ns + count_clear fs.bitmap
      → Allotted lib fs pokemon f.metadata needed size
  pokemon_blocks-Allotted fs pokemon ns f needed size h k =
      let s = take_blocks (needed - length ns) (start fs ns) in
      let g =
        take_blocks-Grown (needed - length ns) (start fs ns) ns (start-Owns fs pokemon ns f)
          (omega arith) in
      record {
        numbers = ns ++ g.more;
        grown = s.fs;
        result =
            pokemon_blocks-take fs pokemon ns f needed size h
            ∙ rw (g.owns.chars, g.owns.array) refl;
        enough = omega (arith, length-append ns g.more, g.count);
        apart = g.owns.apart;
        held = g.owns.held;
        same_files = g.same_files;
        counted = g.counted;
      }
