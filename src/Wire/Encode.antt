-- ===== src/Wire/Encode.antt =====
-- The functions serialize_t_..., serialize_message and send_message of
-- operavirus-commons/operavirus-commons.c. Each `memcpy(payload + offset, ...)` with its
-- `offset += ...` appends to the payload; `size` is computed in `size_t` and kept in a `uint32_t`.
use tp_so_delibird.Common.{ℕ, ◌+◌, ◌*◌, ◌%◌, ◌^◌, ◌++◌, take}
use tp_so_delibird.Wire.Bytes.{Bytes, u32_bytes}
use tp_so_delibird.Wire.Types.{
  Buffer, Message, NewPokemon, AppearedPokemon, CatchPokemon, CaughtPokemon, GetPokemon,
  LocalizedPokemon, SubscriptionPetition, MessageReceived,
}

unfoldable pub serialize_t_new_pokemon_message : NewPokemon → Buffer
serialize_t_new_pokemon_message m = record {
  size = (4 * 4 + m.pokemon_len) % 2 ^ 32;
  payload =
      u32_bytes m.pokemon_len
      ++ (take m.pokemon_len m.pokemon
          ++ (u32_bytes m.pos_x ++ (u32_bytes m.pos_y ++ u32_bytes m.count)));
}

unfoldable pub serialize_t_appeared_pokemon_message : AppearedPokemon → Buffer
serialize_t_appeared_pokemon_message m = record {
  size = (4 * 3 + m.pokemon_len) % 2 ^ 32;
  payload =
      u32_bytes m.pokemon_len
      ++ (take m.pokemon_len m.pokemon ++ (u32_bytes m.pos_x ++ u32_bytes m.pos_y));
}

unfoldable pub serialize_t_catch_pokemon_message : CatchPokemon → Buffer
serialize_t_catch_pokemon_message m = record {
  size = (4 * 3 + m.pokemon_len) % 2 ^ 32;
  payload =
      u32_bytes m.pokemon_len
      ++ (take m.pokemon_len m.pokemon ++ (u32_bytes m.pos_x ++ u32_bytes m.pos_y));
}

unfoldable pub serialize_t_caught_pokemon_message : CaughtPokemon → Buffer
serialize_t_caught_pokemon_message m = record { size = 4; payload = u32_bytes m.result }

unfoldable pub serialize_t_get_pokemon_message : GetPokemon → Buffer
serialize_t_get_pokemon_message m = record {
  size = (4 + m.pokemon_len) % 2 ^ 32;
  payload = u32_bytes m.pokemon_len ++ take m.pokemon_len m.pokemon;
}

-- The bytes of the positions: `2 * positions_count * sizeof(uint32_t)` in a `uint32_t`.
abbrev pub size_q_positions : ℕ → ℕ
size_q_positions count = 2 * count * 4 % 2 ^ 32

unfoldable pub serialize_t_localized_pokemon_message : LocalizedPokemon → Buffer
serialize_t_localized_pokemon_message m = record {
  size = (4 * 2 + m.pokemon_len + size_q_positions m.positions_count) % 2 ^ 32;
  payload =
      u32_bytes m.pokemon_len
      ++ (u32_bytes m.positions_count
          ++ (take m.pokemon_len m.pokemon
              ++ take (size_q_positions m.positions_count) m.positions));
}

unfoldable pub serialize_t_new_subscriptor_message : SubscriptionPetition → Buffer
serialize_t_new_subscriptor_message m = record {
  size = (m.subscriptor_len + m.ip_len + 4 * 4 + 4) % 2 ^ 32;
  payload =
      u32_bytes m.subscriptor_len
      ++ (take m.subscriptor_len m.subscriptor_id
          ++ (u32_bytes m.queue
              ++ (u32_bytes m.ip_len
                  ++ (take m.ip_len m.ip ++ (u32_bytes m.port ++ u32_bytes m.duration)))));
}

unfoldable pub serialize_t_message_received_message : MessageReceived → Buffer
serialize_t_message_received_message m = record {
  size = (m.subscriptor_len + 2 * 4 + 4) % 2 ^ 32;
  payload =
      u32_bytes m.subscriptor_len
      ++ (take m.subscriptor_len m.subscriptor_id
          ++ (u32_bytes m.message_type ++ u32_bytes m.received_message_id));
}

unfoldable pub serialize_t_message_received : MessageReceived → Buffer
serialize_t_message_received m = record {
  size = (3 * 4 + m.subscriptor_len) % 2 ^ 32;
  payload =
      u32_bytes m.subscriptor_len
      ++ (take m.subscriptor_len m.subscriptor_id
          ++ (u32_bytes m.message_type ++ u32_bytes m.received_message_id));
}

unfoldable pub serialize_message : Message → Bytes
serialize_message m =
    u32_bytes m.event_code
    ++ (u32_bytes m.id
        ++ (u32_bytes m.correlative_id
            ++ (u32_bytes m.buffer.size ++ take m.buffer.size m.buffer.payload)))

-- What reaches the socket: the first `bytes_to_send` bytes of the serialized message.
unfoldable pub send_message : ℕ → ℕ → ℕ → Buffer → Bytes
send_message event_code id correlative_id buffer =
    let message : Message = record {
      event_code = event_code;
      id = id;
      correlative_id = correlative_id;
      buffer = buffer;
    } in
    take ((buffer.size + 4 + 4 + 4 + 4) % 2 ^ 32) (serialize_message message)

unfoldable pub return_message_id : ℕ → Bytes
return_message_id id = u32_bytes id
