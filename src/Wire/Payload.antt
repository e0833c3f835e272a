-- ===== src/Wire/Payload.antt =====
-- The messages of the six queues as one type: what `msg->buffer->payload` points to once a client
-- has read it, the code that announces each, and the serializer that belongs to it.
use tp_so_delibird.Common.{ℕ, ◌+◌, ◌^◌, ◌<◌}
use tp_so_delibird.Wire.Encode.{
  size_q_positions, serialize_t_new_pokemon_message, serialize_t_appeared_pokemon_message,
  serialize_t_catch_pokemon_message, serialize_t_caught_pokemon_message,
  serialize_t_get_pokemon_message, serialize_t_localized_pokemon_message,
}
use tp_so_delibird.Wire.Readers.{
  IsNewPokemon, IsAppearedPokemon, IsCatchPokemon, IsCaughtPokemon, IsGetPokemon,
  IsLocalizedPokemon,
}
use tp_so_delibird.Wire.Types.{
  EventCode, Buffer, NewPokemon, AppearedPokemon, CatchPokemon, CaughtPokemon, GetPokemon,
  LocalizedPokemon, to_u32,
}

pub data Payload : Type 0 where
  new : NewPokemon → Payload
  appeared : AppearedPokemon → Payload
  catch : CatchPokemon → Payload
  caught : CaughtPokemon → Payload
  get : GetPokemon → Payload
  localized : LocalizedPokemon → Payload

abbrev pub code_of : Payload → ℕ
code_of (new m) = to_u32 EventCode.new_pokemon
code_of (appeared m) = to_u32 EventCode.appeared_pokemon
code_of (catch m) = to_u32 EventCode.catch_pokemon
code_of (caught m) = to_u32 EventCode.caught_pokemon
code_of (get m) = to_u32 EventCode.get_pokemon
code_of (localized m) = to_u32 EventCode.localized_pokemon

abbrev pub serialize : Payload → Buffer
serialize (new m) = serialize_t_new_pokemon_message m
serialize (appeared m) = serialize_t_appeared_pokemon_message m
serialize (catch m) = serialize_t_catch_pokemon_message m
serialize (caught m) = serialize_t_caught_pokemon_message m
serialize (get m) = serialize_t_get_pokemon_message m
serialize (localized m) = serialize_t_localized_pokemon_message m

-- The fields fit, and so does a frame with the whole message.
abbrev pub IsPayload : Payload → Type 0
IsPayload (new m) = IsNewPokemon m × (m.pokemon_len + 32 < 2 ^ 32)
IsPayload (appeared m) = IsAppearedPokemon m × (m.pokemon_len + 28 < 2 ^ 32)
IsPayload (catch m) = IsCatchPokemon m × (m.pokemon_len + 28 < 2 ^ 32)
IsPayload (caught m) = IsCaughtPokemon m
IsPayload (get m) = IsGetPokemon m × (m.pokemon_len + 20 < 2 ^ 32)
IsPayload (localized m) =
    IsLocalizedPokemon m × (m.pokemon_len + size_q_positions m.positions_count + 24 < 2 ^ 32)
