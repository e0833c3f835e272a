-- ===== src/GameCard/Growth.antt =====
-- gamecard/src/gamecard.c: pokemon_blocks for a file that needs more blocks than it has.
use tp_so_delibird.Common.{
  arith, inr, ==_iff, All-append, All-map, Pairs-snoc, All, zero, inl, Pairs, ap, [], Bool-cases,
  ◌∷◌, ◌++◌, true, suc, false, ◌≤◌, ◌≡◌, ◌∙◌, ◌==◌, map, length, Bool, ℕ, List, refl,
}
use tp_so_delibird.Common.Decimal.{number_text, int_text}
use tp_so_delibird.Common.Int.{decrement}
use tp_so_delibird.GameCard.ArrayText.{add_block-array_text}
use tp_so_delibird.GameCard.Available.{
  after_taking, get_available_block-Taken, IsCounted, HasBit, Taken,
}
use tp_so_delibird.GameCard.Bitmap.{count_clear, set_bit}
use tp_so_delibird.GameCard.Blocks.{add_block_to_array, take_blocks, Blocks}
use tp_so_delibird.GameCard.State.{array_text, FileSystem}
use mathlib.Core.List.{append_assoc, append-nil, map-append}
use mathlib.Core.Path.{sym, subst}

set_bit_keeps :
    (bits : List Bool) (n m : ℕ) → HasBit bits true m → HasBit (set_bit n true bits) true m
set_bit_keeps [] n m h = h
set_bit_keeps (b ∷ bits) zero zero h = refl
set_bit_keeps (b ∷ bits) zero (suc m) h = h
set_bit_keeps (b ∷ bits) (suc n) zero h = h
set_bit_keeps (b ∷ bits) (suc n) (suc m) h = set_bit_keeps bits n m h

pub set_bit_sets :
    (bits : List Bool) (n : ℕ) (b : Bool) → HasBit bits b n → HasBit (set_bit n true bits) true n
set_bit_sets [] n b h = cc
set_bit_sets (c ∷ bits) zero b h = refl
set_bit_sets (c ∷ bits) (suc n) b h = set_bit_sets bits n b h

pub length-set_bit : (bits : List Bool) (n : ℕ) (b : Bool) → length (set_bit n b bits) ≡ length bits
length-set_bit [] n b = refl
length-set_bit (c ∷ bits) zero b = refl
length-set_bit (c ∷ bits) (suc n) b = ap suc (length-set_bit bits n b)

apart_bits :
    (bits : List Bool) (m n : ℕ) → HasBit bits true m → HasBit bits false n → (m == n) ≡ false
apart_bits bits m n h k = elim (Bool-cases (m == n)) [
  | inl e ↦ let same_bit : m ≡ n = (==_iff m n).0 e in cc
  | inr e ↦ e
]

abbrev pub OtherNumber : ℕ → ℕ → Type 0
OtherNumber m n = (m == n) ≡ false

-- The list and the text of the blocks are those of the numbers, which are different bits that
-- are set.
pub record Owns (s : Blocks) (ns : List ℕ) : Type 0 where
  pub chars : s.blocks_as_char ≡ map number_text ns
  pub array : s.blocks_as_array ≡ array_text (map number_text ns)
  pub apart : Pairs OtherNumber ns
  pub held : All (HasBit s.fs.bitmap true) ns

-- Two file systems with the same files, and blocks of the same number and size.
pub record SameFiles (fs fs' : FileSystem) : Type 0 where
  pub files : fs'.files ≡ fs.files
  pub block_files : fs'.block_files ≡ fs.block_files
  pub block_size : fs'.block_size ≡ fs.block_size
  pub bits : length fs'.bitmap ≡ length fs.bitmap

abbrev SameFiles_refl : (fs : FileSystem) → SameFiles fs fs
SameFiles_refl fs = record { files = refl; block_files = refl; block_size = refl; bits = refl }

SameFiles_trans : (a b c : FileSystem) → SameFiles a b → SameFiles b c → SameFiles a c
SameFiles_trans a b c h k = record {
  files = k.files ∙ h.files;
  block_files = k.block_files ∙ h.block_files;
  block_size = k.block_size ∙ h.block_size;
  bits = k.bits ∙ h.bits;
}

abbrev with_bit : FileSystem → ℕ → FileSystem
with_bit fs n = record fs {
  bitmap = set_bit n true fs.bitmap;
  blocks_available = decrement fs.blocks_available;
}

abbrev one_more : Blocks → ℕ → Blocks
one_more s n = record {
  fs = with_bit s.fs n;
  blocks_as_array = add_block_to_array s.blocks_as_array (number_text n);
  blocks_as_char = s.blocks_as_char ++ (number_text n ∷ []);
}

take_one_more :
    (s : Blocks) (k n : ℕ) → Taken s.fs n → take_blocks (suc k) s ≡ take_blocks k (one_more s n)
unfolding take_blocks int_text
take_one_more s k n t = rw t.taken refl

one_more-Owns :
    (s : Blocks) (ns : List ℕ) (n : ℕ)
    → Owns s ns
    → Taken s.fs n
    → Owns (one_more s n) (ns ++ (n ∷ []))
one_more-Owns s ns n o t = record {
  chars = ap (λ z. z ++ (number_text n ∷ [])) o.chars ∙ sym (map-append number_text ns (n ∷ []));
  array =
      ap (λ z. add_block_to_array z (number_text n)) o.array
      ∙ add_block-array_text (map number_text ns) (number_text n)
      ∙ ap array_text (sym (map-append number_text ns (n ∷ [])));
  apart = Pairs-snoc OtherNumber ns n o.apart (
      All-map (HasBit s.fs.bitmap true) (λ x. OtherNumber x n) ns
        (λ x h. apart_bits s.fs.bitmap x n h t.first.was_clear) o.held);
  held =
      All-append (HasBit (set_bit n true s.fs.bitmap) true) ns (n ∷ [])
        (All-map (HasBit s.fs.bitmap true) (HasBit (set_bit n true s.fs.bitmap) true) ns
          (λ x h. set_bit_keeps s.fs.bitmap n x h) o.held)
        (set_bit_sets s.fs.bitmap n false t.first.was_clear, tt);
}

-- Blocks taken behind those of `ns`.
pub record Grown (k : ℕ) (s s' : Blocks) (ns : List ℕ) : Type 0 where
  pub more : List ℕ
  pub count : length more ≡ k
  pub owns : Owns s' (ns ++ more)
  pub same_files : SameFiles s.fs s'.fs
  pub counted : IsCounted s.fs → IsCounted s'.fs

pub take_blocks-Grown :
    (k : ℕ) (s : Blocks) (ns : List ℕ)
    → Owns s ns
    → k ≤ count_clear s.fs.bitmap
    → Grown k s (take_blocks k s) ns
unfolding take_blocks
take_blocks-Grown zero s ns o h = record {
  more = [];
  count = refl;
  owns = subst (Owns s) (sym (append-nil ns)) o;
  same_files = SameFiles_refl s.fs;
  counted = λ c. c;
}
take_blocks-Grown (suc k) s ns o h =
    let (n, t) = get_available_block-Taken s.fs (omega arith) in
    let g =
      take_blocks-Grown k (one_more s n) (ns ++ (n ∷ [])) (one_more-Owns s ns n o t)
        (omega (arith, t.first.left)) in
    subst (λ s'. Grown (suc k) s s' ns) (sym (take_one_more s k n t))
      (record {
        more = n ∷ g.more;
        count = ap suc g.count;
        owns = subst (Owns (take_blocks k (one_more s n))) (append_assoc ns (n ∷ []) g.more) g.owns;
        same_files =
            SameFiles_trans s.fs (with_bit s.fs n) (take_blocks k (one_more s n)).fs
              (record {
                files = refl;
                block_files = refl;
                block_size = refl;
                bits = length-set_bit s.fs.bitmap n true;
              })
              g.same_files;
        counted = λ c. g.counted (subst (λ r. IsCounted r.1) t.taken (after_taking s.fs n c t));
      })
