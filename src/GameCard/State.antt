-- ===== src/GameCard/State.antt =====
-- gamecard/src/gamecard.h, and the functions of the commons library on texts that the game card
-- calls. string_append and string_from_format put their texts one behind the other, and
-- string_length is the length.
use tp_so_delibird.Common.{
  true, drop, take, ◌≤◌, ℕ, List, Bool, ◌++◌, ◌∷◌, [], ◌≡◌, ◌≢◌, All, Table, ◌==◌, false,
}
use tp_so_delibird.Common.Int.{ℤ}
use tp_so_delibird.Wire.Bytes.{Bytes}
use tp_so_delibird.Broker.State.{Commons}

pub record Splits : Type 0 where
  pub string_split : Bytes → ℕ → List Bytes
  pub string_get_string_as_array : Bytes → List Bytes

-- The text has no such byte.
abbrev pub IsFree : ℕ → Bytes → Type 0
IsFree d t = All (λ c. (c == d) ≡ false) t

-- A t_position: three `int`s.
pub record Position : Type 0 where
  pub pos_x : ℤ
  pub pos_y : ℤ
  pub count : ℤ

-- The keys of a Metadata.bin, as the texts that stand there.
pub record Metadata : Type 0 where
  pub directory : Bytes
  pub size : Bytes
  pub blocks : Bytes
  pub is_open : Bytes

-- What is mounted: for each pokemon of Files its Metadata.bin, for each block of Blocks the bytes
-- of its file, the bits of Bitmap.bin; and the variables `blocks_available` and `block_size`.
pub record FileSystem : Type 0 where
  pub files : Table Metadata
  pub block_files : Table Bytes
  pub bitmap : List Bool
  pub blocks_available : ℤ
  pub block_size : ℕ

-- "[a,b,c]"
abbrev pub more_texts : List Bytes → Bytes
more_texts [] = b']' ∷ []
more_texts (t ∷ ts) = b',' ∷ (t ++ more_texts ts)

abbrev pub array_text : List Bytes → Bytes
array_text [] = []
array_text (t ∷ ts) = b'[' ∷ (t ++ more_texts ts)

abbrev pub IsNumeral : Bytes → Type 0
IsNumeral t = (t ≢ []) × All (λ c. (48 ≤ c) × (c ≤ 57)) t

-- What the functions of the library are documented to do: string_split gives the words between
-- the occurrences of a byte, string_get_string_as_array the words of "[a,b,c]", string_substring
-- a part of a text, and string_equals_ignore_case holds of equal texts.
pub record IsLibrary (commons : Commons) (lib : Splits) : Type 0 where
  pub split_word : (d : ℕ) (a : Bytes) → a ≢ [] → IsFree d a → lib.string_split a d ≡ a ∷ []
  pub split_words :
      (d : ℕ) (a b : Bytes)
      → a ≢ []
      → IsFree d a
      → b ≢ []
      → lib.string_split (a ++ (d ∷ b)) d ≡ a ∷ lib.string_split b d
  pub split_ended :
      (d : ℕ) (a : Bytes) → a ≢ [] → IsFree d a → lib.string_split (a ++ (d ∷ [])) d ≡ a ∷ []
  pub array_words :
      (t : Bytes) (ts : List Bytes)
      → All IsNumeral (t ∷ ts)
      → lib.string_get_string_as_array (array_text (t ∷ ts)) ≡ t ∷ ts
  pub substring :
      (t : Bytes) (start n : ℕ) → commons.string_substring t start n ≡ take n (drop start t)
  pub equals : (t : Bytes) → commons.equals_ignore_case t t ≡ true
