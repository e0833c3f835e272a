-- ===== src/GameCard/Access.antt =====
-- gamecard/src/gamecard.c: the directory of a pokemon, and the flag that opens its file to one handler.
use tp_so_delibird.Common.{
  ◌==◌, ◌++◌, if◌then◌else◌, store, lookup, ℕ, Option, Bool, [], ◌∷◌, none, some, true, false,
}
use tp_so_delibird.Common.Decimal.{int_text}
use tp_so_delibird.Common.Int.{ℤ, pos, negsuc}
use tp_so_delibird.Wire.Bytes.{Bytes}
use tp_so_delibird.Wire.Types.{to_u32, EventCode}
use tp_so_delibird.Broker.State.{done, undefined, Outcome, ◌>>=◌, Commons}
use tp_so_delibird.GameCard.Bitmap.{get_available_block}
use tp_so_delibird.GameCard.State.{FileSystem, Metadata}

abbrev pub file_is_open : Bool → Metadata → Metadata
file_is_open true m = record m { is_open = b'Y' ∷ [] }
file_is_open false m = record m { is_open = b'N' ∷ [] }

abbrev pub set_open : Bool → Bytes → Metadata → FileSystem → FileSystem
set_open value pokemon m fs = record fs { files = store pokemon (file_is_open value m) fs.files }

abbrev pub new_metadata : ℕ → Metadata
new_metadata block = record {
  directory = b'N' ∷ [];
  size = b'0' ∷ [];
  blocks = b'[' ∷ (int_text (pos block) ++ (b']' ∷ []));
  is_open = b'N' ∷ [];
}

abbrev pub new_directory : Bytes → Option ℕ × FileSystem → ℤ × FileSystem
new_directory pokemon (none, fs) = (negsuc 0, fs)
new_directory pokemon (some block, fs) =
    (pos 0, record fs { files = store pokemon (new_metadata block) fs.files })

-- `stat` finds the directory, or a NEW_POKEMON makes it. The number is what is returned: 1, 0, or
-- -1 if no block is left.
unfoldable pub check_pokemon_directory : FileSystem → Bytes → EventCode → ℤ × FileSystem
check_pokemon_directory fs pokemon code = elim (lookup pokemon fs.files) [
  | some metadata ↦ (pos 1, fs)
  | none ↦
      if to_u32 code == to_u32 EventCode.new_pokemon
      then new_directory pokemon (get_available_block fs)
      else (pos 0, fs)
]

-- Once a handler is done, what it sends. `none`: it still waits for the file.
abbrev pub Handled : Type 0 → Type 0
Handled A = Outcome (Option A × FileSystem)

module _ (commons : Commons) where
  -- One round: `none` while the file is open. A file that is neither open nor closed is used as
  -- it is.
  unfoldable pub check_if_file_is_open : FileSystem → Bytes → Outcome (Option FileSystem)
  check_if_file_is_open fs pokemon = elim (lookup pokemon fs.files) [
    | none ↦ undefined
    | some metadata ↦
        if commons.equals_ignore_case metadata.is_open (b'N' ∷ [])
        then done (some (set_open true pokemon metadata fs))
        else if commons.equals_ignore_case metadata.is_open (b'Y' ∷ [])
        then done none
        else done (some fs)
  ]

  unfoldable pub close_file_pokemon : FileSystem → Bytes → Outcome FileSystem
  close_file_pokemon fs pokemon = elim (lookup pokemon fs.files) [
    | none ↦ undefined
    | some metadata ↦
        if commons.equals_ignore_case metadata.is_open (b'Y' ∷ [])
        then done (set_open false pokemon metadata fs)
        else done fs
  ]

  -- A body run on the file while it is open.
  abbrev pub with_file :
      {A : Type 0} → FileSystem → Bytes → (FileSystem → Outcome (A × FileSystem)) → Handled A
  with_file fs pokemon body = check_if_file_is_open fs pokemon >>= λ opened. elim opened [
    | none ↦ done (none, fs)
    | some fs' ↦ body fs' >>= λ (a, fs'').
        close_file_pokemon fs'' pokemon >>= λ closed. done (some a, closed)
  ]
