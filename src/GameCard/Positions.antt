-- ===== src/GameCard/Positions.antt =====
-- gamecard/src/gamecard.c: the text of the positions.
use tp_so_delibird.Common.{
  length, leb, ◌*◌, ◌+◌, if◌then◌else◌, suc, ◌==◌, ◌++◌, ◌&&◌, Option, ℕ, List, Bool, [], ◌∷◌, none,
  some, false,
}
use tp_so_delibird.Common.Decimal.{int_text, atoi}
use tp_so_delibird.Common.Int.{ℤ, pos, negsuc}
use tp_so_delibird.Wire.Bytes.{Bytes}
use tp_so_delibird.Broker.State.{done, undefined, Outcome, ◌>>=◌}
use tp_so_delibird.GameCard.State.{Splits, Position}

abbrev pub create_position : ℤ → ℤ → ℤ → Position
create_position x y pokemon_quantity = record { pos_x = x; pos_y = y; count = pokemon_quantity }

-- "x-y=count\n" for each position.
abbrev pub position_text : Position → Bytes
position_text p =
    int_text p.pos_x ++ (b'-' ∷ (int_text p.pos_y ++ (b'=' ∷ (int_text p.count ++ (b'\n' ∷ [])))))

unfoldable pub pokemon_position_to_array_of_position : List Position → Bytes
pokemon_position_to_array_of_position [] = []
pokemon_position_to_array_of_position (p ∷ ps) =
    position_text p ++ pokemon_position_to_array_of_position ps

-- The first two words; a word that is not there is a NULL that the source reads.
abbrev pub two_words : List Bytes → Outcome (Bytes × Bytes)
two_words (a ∷ b ∷ _) = done (a, b)
two_words (a ∷ []) = undefined
two_words [] = undefined

module _ (lib : Splits) where
  unfoldable pub position_of_line : Bytes → Outcome Position
  position_of_line line = two_words (lib.string_split line b'=') >>= λ (position, quantity).
      two_words (lib.string_split position b'-') >>= λ (x, y).
      done (create_position (atoi x) (atoi y) (atoi quantity))

  unfoldable pub positions_of_lines : List Bytes → Outcome (List Position)
  positions_of_lines [] = done []
  positions_of_lines (line ∷ lines) =
      position_of_line line >>= λ p. positions_of_lines lines >>= λ ps. done (p ∷ ps)

  unfoldable pub get_positions_from_buffer : Bytes → Outcome (List Position)
  get_positions_from_buffer [] = done []
  get_positions_from_buffer (c ∷ buffer) = positions_of_lines (lib.string_split (c ∷ buffer) b'\n')

abbrev pub same_int : ℤ → ℤ → Bool
same_int (pos m) (pos n) = m == n
same_int (negsuc m) (negsuc n) = m == n
same_int _ _ = false

abbrev pub same_place : ℤ → ℤ → Position → Bool
same_place x y p = same_int x p.pos_x && same_int y p.pos_y

-- `position_list` from the index `i` on: the last position of the list at the same place, which
-- is -1 (`none`) if there is none.
unfoldable pub position_list : ℕ → List Position → Position → Option ℕ
position_list i [] find_position = none
position_list i (p ∷ ps) find_position = elim (position_list (suc i) ps find_position) [
  | some j ↦ some j
  | none ↦ if same_place p.pos_x p.pos_y find_position then some i else none
]

-- `positions[i] = v` in the block that `malloc` gave.
abbrev pub write_number : ℕ → ℕ → ℤ → (ℕ → ℤ) → Outcome (ℕ → ℤ)
write_number size i v numbers =
    if leb (4 * i + 4) size then done (λ j. if j == i then v else numbers j) else undefined

-- The loop of `positions_to_uint32` from the index `i` on, in a block of `size` bytes that hold the
-- numbers `numbers`.
unfoldable pub positions_loop : ℕ → ℕ → List Position → (ℕ → ℤ) → Outcome (ℕ → ℤ)
positions_loop size i [] numbers = done numbers
positions_loop size i (p ∷ ps) numbers = write_number size i p.pos_x numbers >>= λ numbers'.
    write_number size (suc i) p.pos_y numbers' >>= λ numbers''.
    positions_loop size (suc i) ps numbers''

-- The block has `list_size * 2` bytes, which nothing has set.
unfoldable pub positions_to_uint32 : (ℕ → ℤ) → List Position → Outcome (ℕ → ℤ)
unfolding positions_loop
positions_to_uint32 unset ps = positions_loop (length ps * 2) 0 ps unset
