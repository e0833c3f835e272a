-- ===== src/GameCard/Create.antt =====
-- create_tall_grass/src/create_tall_grass.c makes an empty file system, which open_bitmap and
-- tall_grass_metadata_info of gamecard/src/gamecard.c mount.
use tp_so_delibird.Common.{
  Option, none, some, inr, inl, ◌%◌, take, Bool-cases, zero, ◌∷◌, ◌/◌, ltb, if◌then◌else◌, arith,
  ◌≤◌, ◌≡◌, ◌*◌, suc, Bool, ◌<◌, ◌+◌, length, false, [], List, ℕ, Table,
}
use tp_so_delibird.Common.Decimal.{atoi, int_text}
use tp_so_delibird.Common.Int.{ℤ, pos, pos_part}
use tp_so_delibird.Wire.Bytes.{Bytes}
use tp_so_delibird.Broker.State.{◌>>=◌, Outcome, done, undefined}
use tp_so_delibird.GameCard.Bitmap.{set_bit, open_bitmap, count_clear}
use tp_so_delibird.GameCard.Rewriting.{IsMounted}
use tp_so_delibird.GameCard.State.{FileSystem}
use mathlib.Core.Path.{ap, refl}

abbrev pub repeated {ℓ} : {A : Type ℓ} → ℕ → A → List A
repeated zero a = []
repeated (suc n) a = a ∷ repeated n a

-- The keys of Metadata/Metadata, as the texts that stand there.
pub record DiskMetadata : Type 0 where
  pub block_size : Bytes
  pub blocks : Bytes
  pub magic_number : Bytes

-- string_itoa prints the number.
abbrev pub create_metadata_file : ℤ → ℤ → Bytes → DiskMetadata
create_metadata_file blocks block_size magic_number = record {
  block_size = int_text block_size;
  blocks = int_text blocks;
  magic_number = magic_number;
}

-- The loop of create_bitmap from the bit `cont` on, with `n` rounds left. A bit that the bitmap
-- does not have is a write outside of it.
unfoldable pub clean_loop : ℕ → ℕ → List Bool → Outcome (List Bool)
clean_loop cont zero bits = done bits
clean_loop cont (suc n) bits =
    let rest = clean_loop (suc cont) n (set_bit cont false bits) in
    if ltb cont (length bits) then rest else undefined

-- truncate fills the file with zeros.
unfoldable pub create_bitmap : ℕ → Outcome (List Bool)
create_bitmap blocks_quantity =
    clean_loop 0 blocks_quantity (repeated (blocks_quantity / 8 * 8) false)

-- The files of the blocks from `i` on, `n` of them.
unfoldable pub create_blocks : ℕ → ℕ → ℕ → Table Bytes
create_blocks block_size i zero = []
create_blocks block_size i (suc n) =
    (int_text (pos i), repeated block_size 0) ∷ create_blocks block_size (suc i) n

-- What tall_grass_metadata_info reads.
abbrev pub tall_grass_metadata_info : DiskMetadata → ℤ × ℤ
tall_grass_metadata_info m = (atoi m.block_size, atoi m.blocks)

-- The file system that is mounted, with no directory of a pokemon. The bitmap has a byte for each
-- eight blocks.
abbrev pub mounted_with : Table Bytes → List Bool → ℤ × ℤ → Outcome FileSystem
mounted_with files bits (pos size, pos blocks) = done (
    open_bitmap (record {
      files = [];
      block_files = files;
      bitmap = take (blocks / 8 * 8) bits;
      blocks_available = pos 0;
      block_size = size;
    }))
mounted_with files bits _ = undefined

-- What stands on the disk.
pub record Disk : Type 0 where
  pub metadata : DiskMetadata
  pub bits : List Bool
  pub block_files : Table Bytes

-- The rest of main, with the two numbers. A loop up to a negative number makes no round, and
-- truncate to a negative size leaves a file empty.
unfoldable pub make_disk : ℤ → ℤ → Bytes → Outcome Disk
make_disk blocks block_size magic_number = create_bitmap (pos_part blocks) >>= λ bits.
    done (record {
      metadata = create_metadata_file blocks block_size magic_number;
      bits = bits;
      block_files = create_blocks (pos_part block_size) 0 (pos_part blocks);
    })

-- main with `argv`; `none` stands for the message that asks for the arguments.
unfoldable pub create_tall_grass : List Bytes → Outcome (Option Disk)
create_tall_grass (program ∷ blocks ∷ block_size ∷ magic_number ∷ []) =
    make_disk (atoi blocks) (atoi block_size) magic_number >>= λ disk. done (some disk)
create_tall_grass _ = done none

-- create_tall_grass with its arguments, and then the start of the game card if there is a disk.
unfoldable pub create_and_mount : List Bytes → Outcome (Option FileSystem)
create_and_mount argv = create_tall_grass argv >>= λ made. elim made [
  | none ↦ done none
  | some disk ↦
      mounted_with disk.block_files disk.bits (tall_grass_metadata_info disk.metadata) >>= λ fs.
      done (some fs)
]

set_bit-repeated : (i n : ℕ) → set_bit i false (repeated n false) ≡ repeated n false
set_bit-repeated i zero = refl
set_bit-repeated zero (suc n) = refl
set_bit-repeated (suc i) (suc n) = ap (◌∷◌ false) (set_bit-repeated i n)

length-repeated {ℓ} : {A : Type ℓ} (n : ℕ) (a : A) → length (repeated n a) ≡ n
length-repeated zero a = refl
length-repeated (suc n) a = ap suc (length-repeated n a)

clean_loop-outside :
    (n cont size : ℕ)
    → cont ≤ size
    → size < cont + n
    → clean_loop cont n (repeated size false) ≡ undefined
unfolding clean_loop
clean_loop-outside zero cont size h l = absurd (omega arith)
clean_loop-outside (suc n) cont size h l =
    elim (Bool-cases (ltb cont (length (repeated size false)))) [
      | inl e ↦
          let c : cont < size = ground (arith, length-repeated size false) in
          rw (e, set_bit-repeated cont size)
            (clean_loop-outside n (suc cont) size (omega arith) (omega arith))
      | inr e ↦ rw e refl
    ]

-- create_bitmap writes outside of the bitmap for a number of blocks that 8 does not divide.
create_bitmap-outside : (n : ℕ) → 0 < n % 8 → create_bitmap n ≡ undefined
unfolding create_bitmap
create_bitmap-outside n h = clean_loop-outside n 0 (n / 8 * 8) (omega arith) (omega arith)

-- A disk that is mounted with all its blocks free.
pub record Mounted (fs : FileSystem) (blocks block_size : ℕ) : Type 0 where
  pub mounted : IsMounted fs
  pub no_files : fs.files ≡ []
  pub all_free : count_clear fs.bitmap ≡ blocks
  pub bits : length fs.bitmap ≡ blocks
  pub size : fs.block_size ≡ block_size
  pub blocks_made : fs.block_files ≡ create_blocks block_size 0 blocks
