-- ===== src/Client/Events.antt =====
-- gameboy/src/gameboy.c `process_message`, gamecard/src/gamecard.c `handle_event` and
-- team/src/team.c `handle_event`, with their `send_message_received_to_broker`. The thread that
-- a handler runs in is given the payload; the acknowledgement is the bytes handed to `send`.
use tp_so_delibird.Common.{ℕ, ◌+◌, ◌-◌, ◌%◌, ◌^◌, ◌++◌, [], ◌∷◌, Option, none, some, length, take}
use tp_so_delibird.Wire.Bytes.{Bytes, Recv, ◌>>=◌, pure, recv_u32}
use tp_so_delibird.Wire.Decode.{
  Header, receive_message, deserialize_new_pokemon_message, deserialize_appeared_pokemon_message,
  deserialize_catch_pokemon_message, deserialize_caught_pokemon_message,
  deserialize_get_pokemon_message, deserialize_localized_pokemon_message,
}
use tp_so_delibird.Wire.Encode.{send_message, serialize_t_message_received}
use tp_so_delibird.Wire.Payload.{Payload, new, appeared, catch, caught, get, localized}
use tp_so_delibird.Wire.Types.{
  EventCode, NewPokemon, AppearedPokemon, CatchPokemon, GetPokemon, LocalizedPokemon,
  MessageReceived, to_u32, of_u32,
}

-- What one round of an event loop leaves: the header, the payload that the handler is given
-- (`none`: no case of the switch) and the acknowledgement.
pub record Delivery : Type 0 where
  pub header : Header
  pub payload : Option Payload
  pub ack : Bytes

-- A C string with its terminator, as `string_length(id) + 1` bytes.
abbrev pub c_string : Bytes → Bytes
c_string text = text ++ 0 ∷ []

abbrev pub received_of : Bytes → ℕ → Header → MessageReceived
received_of own message_type h = record {
  subscriptor_len = (length own + 1) % 2 ^ 32;
  subscriptor_id = c_string own;
  message_type = message_type;
  received_message_id = h.id;
}

unfoldable pub send_message_received_to_broker : MessageReceived → ℕ → ℕ → Bytes
send_message_received_to_broker m id correlative_id =
    send_message (to_u32 EventCode.message_received) id correlative_id
      (serialize_t_message_received m)

-- `pokemon_len += 1` and a copy of the text with a terminator behind it.
abbrev pub longer : ℕ → ℕ
longer len = (len + 1) % 2 ^ 32

abbrev pub pokemon_with_empty : ℕ → Bytes → Bytes
pokemon_with_empty len text = take ((longer len + 2 ^ 32 - 1) % 2 ^ 32) text ++ 0 ∷ []

-- The switches. The number is `message_type`, which stays what `malloc` left (`raw`) where no case
-- sets it.
abbrev pub gameboy_switch : ℕ → Option EventCode → Recv (Option Payload × ℕ)
gameboy_switch raw (some EventCode.localized_pokemon) = do
  m ← deserialize_localized_pokemon_message
  pure (some (localized m.0), to_u32 EventCode.localized_pokemon)
gameboy_switch raw (some EventCode.caught_pokemon) = do
  m ← deserialize_caught_pokemon_message
  pure (some (caught m.0), to_u32 EventCode.caught_pokemon)
gameboy_switch raw (some EventCode.appeared_pokemon) = do
  m ← deserialize_appeared_pokemon_message
  pure (some (appeared m.0), to_u32 EventCode.appeared_pokemon)
gameboy_switch raw (some EventCode.new_pokemon) = do
  m ← deserialize_new_pokemon_message
  pure (some (new m.0), to_u32 EventCode.new_pokemon)
gameboy_switch raw (some EventCode.catch_pokemon) = do
  m ← deserialize_catch_pokemon_message
  pure (some (catch m.0), to_u32 EventCode.catch_pokemon)
gameboy_switch raw (some EventCode.get_pokemon) = do
  m ← deserialize_get_pokemon_message
  pure (some (get m.0), to_u32 EventCode.get_pokemon)
gameboy_switch raw _ = pure (none, raw)

abbrev pub terminated_new : NewPokemon → NewPokemon
terminated_new m = record m {
  pokemon_len = longer m.pokemon_len;
  pokemon = pokemon_with_empty m.pokemon_len m.pokemon;
}

abbrev pub terminated_catch : CatchPokemon → CatchPokemon
terminated_catch m = record m {
  pokemon_len = longer m.pokemon_len;
  pokemon = pokemon_with_empty m.pokemon_len m.pokemon;
}

abbrev pub terminated_get : GetPokemon → GetPokemon
terminated_get m = record m {
  pokemon_len = longer m.pokemon_len;
  pokemon = pokemon_with_empty m.pokemon_len m.pokemon;
}

abbrev pub terminated_appeared : AppearedPokemon → AppearedPokemon
terminated_appeared m = record m {
  pokemon_len = longer m.pokemon_len;
  pokemon = pokemon_with_empty m.pokemon_len m.pokemon;
}

abbrev pub terminated_localized : LocalizedPokemon → LocalizedPokemon
terminated_localized m = record m {
  pokemon_len = longer m.pokemon_len;
  pokemon = pokemon_with_empty m.pokemon_len m.pokemon;
}

abbrev pub gamecard_switch : ℕ → Option EventCode → Recv (Option Payload × ℕ)
gamecard_switch raw (some EventCode.new_pokemon) = do
  m ← deserialize_new_pokemon_message
  pure (some (new (terminated_new m.0)), to_u32 EventCode.new_pokemon)
gamecard_switch raw (some EventCode.catch_pokemon) = do
  m ← deserialize_catch_pokemon_message
  pure (some (catch (terminated_catch m.0)), to_u32 EventCode.catch_pokemon)
gamecard_switch raw (some EventCode.get_pokemon) = do
  m ← deserialize_get_pokemon_message
  pure (some (get (terminated_get m.0)), to_u32 EventCode.get_pokemon)
gamecard_switch raw _ = pure (none, raw)

abbrev pub team_switch : ℕ → Option EventCode → Recv (Option Payload × ℕ)
team_switch raw (some EventCode.localized_pokemon) = do
  m ← deserialize_localized_pokemon_message
  pure (some (localized (terminated_localized m.0)), to_u32 EventCode.localized_pokemon)
team_switch raw (some EventCode.caught_pokemon) = do
  m ← deserialize_caught_pokemon_message
  pure (some (caught m.0), to_u32 EventCode.caught_pokemon)
team_switch raw (some EventCode.appeared_pokemon) = do
  m ← deserialize_appeared_pokemon_message
  pure (some (appeared (terminated_appeared m.0)), to_u32 EventCode.appeared_pokemon)
team_switch raw _ = pure (none, raw)

-- One round of an event loop, over the program's switch and its own identifier.
abbrev pub rest_of_round :
    (Option EventCode → Recv (Option Payload × ℕ)) → Bytes → ℕ → Header → Recv Delivery
rest_of_round switch own code header = switch (of_u32 code) >>= λ (payload, message_type).
    pure (record {
      header = header;
      payload = payload;
      ack =
          send_message_received_to_broker (received_of own message_type header) header.id
            header.correlative_id;
    })

abbrev pub round : (Option EventCode → Recv (Option Payload × ℕ)) → Bytes → Recv Delivery
round switch own = recv_u32 >>= λ code. receive_message code >>= rest_of_round switch own code

module _ (raw : ℕ) (id : Bytes) where
  unfoldable pub process_message : Recv Delivery
  process_message = round (gameboy_switch raw) id

  unfoldable pub team_handle_event : Recv Delivery
  team_handle_event = round (team_switch raw) id

-- The text "Game Card".
abbrev pub game_card : Bytes
game_card = b'G' ∷ b'a' ∷ b'm' ∷ b'e' ∷ b' ' ∷ b'C' ∷ b'a' ∷ b'r' ∷ b'd' ∷ []

unfoldable pub gamecard_handle_event : ℕ → Recv Delivery
gamecard_handle_event raw = round (gamecard_switch raw) game_card
