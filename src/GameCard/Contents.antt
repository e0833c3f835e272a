-- ===== src/GameCard/Contents.antt =====
-- gamecard/src/gamecard.c: what write_blocks_and_metadata writes is what read_blocks_content reads.
use tp_so_delibird.Common.{
  ◌^◌, same_refl, ◌∙◌, lookup-store, get_elem?, ap, ◌*◌, drop, Table, ◌+◌, ◌≤◌, Pairs, zero, [],
  All-map, suc, map, true, arith, ◌≡◌, ◌∷◌, lookup, All, ◌<◌, length, ℕ, Bool, List, some,
}
use tp_so_delibird.Common.Decimal.{atoi-number_text, number_text}
use tp_so_delibird.Wire.Bytes.{Bytes}
use tp_so_delibird.Broker.State.{Commons, done}
use tp_so_delibird.GameCard.Allotment.{allotted, pokemon_blocks-Allotted, array_read, IsFile}
use tp_so_delibird.GameCard.Available.{IsCounted, HasBit}
use tp_so_delibird.GameCard.Bitmap.{count_clear}
use tp_so_delibird.GameCard.Blocks.{my_ceil}
use tp_so_delibird.GameCard.Chunks.{Written, Fits, IsKey}
use tp_so_delibird.GameCard.Files.{
  write_loop, read_loop, write_blocks_and_metadata, read_blocks_content,
}
use tp_so_delibird.GameCard.Growth.{OtherNumber}
use tp_so_delibird.GameCard.State.{array_text, Metadata, IsLibrary, FileSystem, Splits}
use tp_so_delibird.GameCard.Writing.{my_ceil-Fits, write_loop-Written}
use mathlib.Core.Path.{refl, sym, subst}
use native.Mathlib.Nat.{zero-mul}

pub bit-IsKey : (bits : List Bool) (v : Bool) (n : ℕ) → HasBit bits v n → n < length bits
bit-IsKey [] v n h = cc
bit-IsKey (b ∷ bits) v zero h = omega arith
bit-IsKey (b ∷ bits) v (suc n) h = omega (arith, bit-IsKey bits v n h)

held-IsKey :
    (bits : List Bool) (ns : List ℕ)
    → length bits < 2 ^ 31
    → All (HasBit bits true) ns
    → All IsKey ns
held-IsKey bits ns l a =
    All-map (HasBit bits true) IsKey ns (λ n h. omega (arith, bit-IsKey bits true n h)) a

-- A size of blocks, as a positive `int`.
abbrev pub IsSize : ℕ → Type 0
IsSize b = (0 < b) × (b < 2 ^ 31)

-- After the content is written: what read_blocks_content gives, and what the file and the bitmap
-- are.
pub record Saved (commons : Commons) (lib : Splits) (fs : FileSystem) (pokemon : Bytes)
    (m : Metadata) (content : Bytes) : Type 0 where
  pub after : FileSystem
  pub numbers : List ℕ
  pub result : write_blocks_and_metadata commons lib fs content pokemon ≡ done after
  pub reads : read_blocks_content lib after pokemon ≡ done content
  pub is_file : IsFile after pokemon numbers
  pub count : length numbers ≡ my_ceil (length content) fs.block_size
  pub counted : IsCounted fs → IsCounted after
  pub flag : is_file.metadata.is_open ≡ m.is_open
  pub block_size : after.block_size ≡ fs.block_size
  pub bits : length after.bitmap ≡ length fs.bitmap

module _ (commons : Commons) (lib : Splits) (law : IsLibrary commons lib) where
  read_saved :
      (fs : FileSystem) (pokemon : Bytes) (m : Metadata) (numbers : List ℕ) (content : Bytes)
      → 0 < length numbers
      → 0 < length content
      → length content < 2 ^ 31
      → lookup pokemon fs.files
        ≡ some (record m {
          blocks = array_text (map number_text numbers);
          size = number_text (length content);
        })
      → read_loop fs.block_size fs.block_files (length content) (map number_text numbers)
        ≡ done content
      → read_blocks_content lib fs pokemon ≡ done content
  unfolding read_blocks_content
  read_saved fs pokemon m numbers [] h p l e r = absurd (omega arith)
  read_saved fs pokemon m numbers (c ∷ content) h p l e r =
      rw
        (
          read_blocks_content,
          e,
          array_read commons lib law numbers h,
          atoi-number_text (suc (length content)) (omega arith),
        )
        r

  pub needs_content : (r b n : ℕ) → 0 < r → Fits r b n → 0 < n
  needs_content zero b n h f = absurd (omega arith)
  needs_content (suc zero) b n h f = f.0
  needs_content (suc (suc r)) b n h f = omega (arith, f.0)

  -- The whole loop, from the first block on.
  whole_loop :
      (fs : FileSystem) (content : Bytes) (q : ℕ) (numbers : List ℕ)
      → 0 < length numbers
      → length numbers ≡ q
      → All IsKey numbers
      → Pairs OtherNumber numbers
      → Fits q fs.block_size (length content)
      → (table : Table Bytes) × ((write_loop commons lib content q (map number_text numbers) 0 q fs
            ≡ done (record fs { block_files = table }))
          × Written fs.block_size fs.block_files numbers content table)
  whole_loop fs content q [] p h k a f = absurd (omega arith)
  whole_loop fs content q (n ∷ ns) p h k a f =
      let z : drop (0 * fs.block_size) content ≡ content =
        ap (λ j. drop j content) (zero-mul fs.block_size) in
      let follow : (j : ℕ)
          → get_elem? (map number_text (n ∷ ns)) (0 + j) ≡ get_elem? (map number_text (n ∷ ns)) j =
        λ j. (let e : 0 + j ≡ j = omega arith in ap (get_elem? (map number_text (n ∷ ns))) e) in
      let (table, (r, w)) =
        write_loop-Written commons lib law fs.block_size content q (map number_text (n ∷ ns)) ns 0 n
          fs refl follow (omega arith) k a
          (subst (λ t. Fits (suc (length ns)) fs.block_size (length t)) (sym z)
            (subst (λ r. Fits r fs.block_size (length content)) (sym h) f)) in
      (
        table,
        (
          subst
              (λ r.
                write_loop commons lib content q (map number_text (n ∷ ns)) 0 r fs
                ≡ done (record fs { block_files = table }))
              h r,
          subst (λ t. Written fs.block_size fs.block_files (n ∷ ns) t table) z w,
        ),
      )

  -- A file of at least one block, whose blocks are not more than the content needs, takes a content
  -- of less than 2^31 bytes if the blocks that it lacks are free: write_blocks_and_metadata
  -- returns, read_blocks_content then gives the content, the file has as many blocks as the
  -- content fits in, each another bit that is set, and the count of the free blocks stays right.
  -- The size of the blocks is a positive `int`, and there are less than 2^31 of them.
  pub write_blocks_and_metadata-Saved :
      (fs : FileSystem) (pokemon content : Bytes) (ns : List ℕ) (f : IsFile fs pokemon ns)
      → IsSize fs.block_size
      → length fs.bitmap < 2 ^ 31
      → length content < 2 ^ 31
      → length ns ≤ my_ceil (length content) fs.block_size
      → my_ceil (length content) fs.block_size ≤ length ns + count_clear fs.bitmap
      → Saved commons lib fs pokemon f.metadata content
  unfolding write_blocks_and_metadata
  write_blocks_and_metadata-Saved fs pokemon content ns f p lb lc enough room =
      let q = my_ceil (length content) fs.block_size in
      let a =
        pokemon_blocks-Allotted commons lib law fs pokemon ns f q (length content) enough room in
      let fs1 = allotted a.grown pokemon f.metadata a.numbers (length content) in
      let filled : 0 < length a.numbers = omega (arith, f.filled, a.enough) in
      let fits : Fits q fs1.block_size (length content) =
        subst (λ b. Fits q b (length content)) (sym a.same_files.block_size)
          (my_ceil-Fits (length content) fs.block_size p.0) in
      let keys : All IsKey a.numbers =
        held-IsKey a.grown.bitmap a.numbers (omega (arith, a.same_files.bits)) a.held in
      let (table, (r, w)) = whole_loop fs1 content q a.numbers filled a.enough keys a.apart fits in
      let m = record f.metadata {
        blocks = array_text (map number_text a.numbers);
        size = number_text (length content);
      } in
      let here : lookup pokemon fs1.files ≡ some m =
        lookup-store pokemon pokemon m a.grown.files ∙ rw (same_refl pokemon) refl in
      record {
        after = record fs1 { block_files = table };
        numbers = a.numbers;
        result = rw (write_blocks_and_metadata, a.result) r;
        reads =
            read_saved (record fs1 { block_files = table }) pokemon f.metadata a.numbers content
              filled
              (needs_content q fs1.block_size (length content) (omega (arith, f.filled)) fits) lc
              here w.reads;
        is_file = record {
          metadata = m;
          found = here;
          blocks = refl;
          filled = filled;
          apart = a.apart;
          held = a.held;
        };
        count = a.enough;
        counted = a.counted;
        flag = refl;
        block_size = a.same_files.block_size;
        bits = a.same_files.bits;
      }
