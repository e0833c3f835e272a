-- ===== src/GameCard/Handlers.antt =====
-- gamecard/src/gamecard.c: what the game card does with the messages of the broker.
use tp_so_delibird.Common.{
  true, ◌==◌, not, Bool, ◌*◌, zero, suc, if◌then◌else◌, ◌++◌, length, Option, ℕ, List, [], ◌∷◌,
  none, some,
}
use tp_so_delibird.Common.Decimal.{u32_of_int}
use tp_so_delibird.Common.Int.{negsuc, pos, is_minus_one, ℤ}
use tp_so_delibird.Wire.Bytes.{u32_bytes, Bytes}
use tp_so_delibird.Wire.Encode.{
  serialize_t_localized_pokemon_message, serialize_t_caught_pokemon_message,
  serialize_t_appeared_pokemon_message, send_message,
}
use tp_so_delibird.Wire.Types.{
  to_u32, EventCode, NewPokemon, AppearedPokemon, CatchPokemon, CaughtPokemon, GetPokemon,
  LocalizedPokemon,
}
use tp_so_delibird.Broker.State.{done, ◌>>=◌, Commons}
use tp_so_delibird.GameCard.Access.{with_file, check_pokemon_directory, Handled}
use tp_so_delibird.GameCard.Positions.{positions_to_uint32}
use tp_so_delibird.GameCard.State.{FileSystem, Splits, Position}
use tp_so_delibird.GameCard.Updates.{
  take_one, store_new, read_positions, ckeck_position_exists_catch_pokemon,
}
use tp_so_delibird.Team.State.{c_text}

abbrev pub create_appeared_pokemon : NewPokemon → AppearedPokemon
create_appeared_pokemon m = record {
  pokemon_len = m.pokemon_len;
  pokemon = m.pokemon;
  pos_x = m.pos_x;
  pos_y = m.pos_y;
}

abbrev pub send_appeared_to_broker : AppearedPokemon → ℕ → Bytes
send_appeared_to_broker m id =
    send_message (to_u32 EventCode.appeared_pokemon) id 0 (serialize_t_appeared_pokemon_message m)

abbrev pub send_caught_to_broker : CaughtPokemon → ℕ → Bytes
send_caught_to_broker m correlative_id =
    send_message (to_u32 EventCode.caught_pokemon) 0 correlative_id
      (serialize_t_caught_pokemon_message m)

abbrev pub caught_frame : ℕ → ℕ → Bytes
caught_frame result id = send_caught_to_broker (record { result = result }) id

-- `n` numbers of the memory from the index `i` on.
abbrev pub numbers_bytes : (ℕ → ℤ) → ℕ → ℕ → Bytes
numbers_bytes numbers i zero = []
numbers_bytes numbers i (suc n) =
    u32_bytes (u32_of_int (numbers i)) ++ numbers_bytes numbers (suc i) n

abbrev pub create_localized_pokemon : GetPokemon → ℕ → (ℕ → ℤ) → LocalizedPokemon
create_localized_pokemon m positions_count numbers = record {
  pokemon_len = m.pokemon_len;
  pokemon = m.pokemon;
  positions_count = positions_count;
  positions = numbers_bytes numbers 0 (2 * positions_count);
}

abbrev pub send_localized_to_broker : LocalizedPokemon → ℕ → Bytes
send_localized_to_broker m id =
    send_message (to_u32 EventCode.localized_pokemon) id 0 (serialize_t_localized_pokemon_message m)

abbrev pub localized_frame : (ℕ → ℤ) → GetPokemon → ℕ → List Position → Option Bytes
localized_frame numbers m id [] = none
localized_frame numbers m id (p ∷ ps) =
    some (send_localized_to_broker (create_localized_pokemon m (length (p ∷ ps)) numbers) id)

-- What `if` tests.
abbrev pub is_true : ℤ → Bool
is_true (pos n) = not (n == 0)
is_true (negsuc n) = true

module _ (commons : Commons) (lib : Splits) where
  -- Each handler goes on with what check_pokemon_directory returned. The frame that answers a
  -- NEW_POKEMON goes out even if there is no block for the pokemon.
  abbrev pub store_in : NewPokemon → ℕ → ℤ × FileSystem → Handled Bytes
  store_in m id (exists, fs) =
      let frame = send_appeared_to_broker (create_appeared_pokemon m) id in
      if is_minus_one exists
      then done (some frame, fs)
      else with_file commons fs (c_text m.pokemon)
          (λ opened. store_new commons lib opened (c_text m.pokemon) m >>= λ fs'. done (frame, fs'))

  unfoldable pub handle_new_pokemon : FileSystem → NewPokemon → ℕ → Handled Bytes
  handle_new_pokemon fs m id =
      store_in m id (check_pokemon_directory fs (c_text m.pokemon) EventCode.new_pokemon)

  abbrev pub catch_in : CatchPokemon → ℕ → ℤ × FileSystem → Handled Bytes
  catch_in m id (exists, fs) =
      if is_true exists
      then with_file commons fs (c_text m.pokemon) (λ opened.
        ckeck_position_exists_catch_pokemon lib opened (c_text m.pokemon) m >>= λ found.
        take_one commons lib opened (c_text m.pokemon) found >>= λ (result, fs').
        done (caught_frame result id, fs'))
      else done (some (caught_frame 0 id), fs)

  unfoldable pub handle_catch_pokemon : FileSystem → CatchPokemon → ℕ → Handled Bytes
  handle_catch_pokemon fs m id =
      catch_in m id (check_pokemon_directory fs (c_text m.pokemon) EventCode.catch_pokemon)

  -- The inner `none`: there is nothing to send.
  abbrev pub get_in : (ℕ → ℤ) → GetPokemon → ℕ → ℤ × FileSystem → Handled (Option Bytes)
  get_in unset m id (exists, fs) =
      if is_true exists
      then with_file commons fs (c_text m.pokemon) (λ opened.
        read_positions lib opened (c_text m.pokemon) >>= λ ps.
        positions_to_uint32 unset ps >>= λ numbers. done (localized_frame numbers m id ps, opened))
      else done (some none, fs)

  unfoldable pub handle_get_pokemon : (ℕ → ℤ) → FileSystem → GetPokemon → ℕ → Handled (Option Bytes)
  handle_get_pokemon unset fs m id =
      get_in unset m id (check_pokemon_directory fs (c_text m.pokemon) EventCode.get_pokemon)
