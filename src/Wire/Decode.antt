-- ===== src/Wire/Decode.antt =====
-- The functions deserialize_... and receive_message of operavirus-commons/operavirus-commons.c.
-- Each deserializer returns the message and the value that it stores through `size`.
use tp_so_delibird.Common.{ℕ, ◌+◌, ◌*◌, ◌%◌, ◌^◌}
use tp_so_delibird.Wire.Bytes.{Recv, ◌>>=◌, pure, recv_u32, recv_bytes}
use tp_so_delibird.Wire.Encode.{size_q_positions}
use tp_so_delibird.Wire.Types.{
  NewPokemon, AppearedPokemon, CatchPokemon, CaughtPokemon, GetPokemon, LocalizedPokemon,
}

unfoldable pub deserialize_new_pokemon_message : Recv (NewPokemon × ℕ)
deserialize_new_pokemon_message = do
  pokemon_len ← recv_u32
  pokemon ← recv_bytes pokemon_len
  pos_x ← recv_u32
  pos_y ← recv_u32
  count ← recv_u32
  pure (
    record {
      pokemon_len = pokemon_len;
      pokemon = pokemon;
      pos_x = pos_x;
      pos_y = pos_y;
      count = count;
    },
    (4 * 4 + pokemon_len) % 2 ^ 32,
  )

unfoldable pub deserialize_appeared_pokemon_message : Recv (AppearedPokemon × ℕ)
deserialize_appeared_pokemon_message = do
  pokemon_len ← recv_u32
  pokemon ← recv_bytes pokemon_len
  pos_x ← recv_u32
  pos_y ← recv_u32
  pure (
    record { pokemon_len = pokemon_len; pokemon = pokemon; pos_x = pos_x; pos_y = pos_y },
    (3 * 4 + pokemon_len) % 2 ^ 32,
  )

unfoldable pub deserialize_catch_pokemon_message : Recv (CatchPokemon × ℕ)
deserialize_catch_pokemon_message = do
  pokemon_len ← recv_u32
  pokemon ← recv_bytes pokemon_len
  pos_x ← recv_u32
  pos_y ← recv_u32
  pure (
    record { pokemon_len = pokemon_len; pokemon = pokemon; pos_x = pos_x; pos_y = pos_y },
    (3 * 4 + pokemon_len) % 2 ^ 32,
  )

unfoldable pub deserialize_caught_pokemon_message : Recv (CaughtPokemon × ℕ)
deserialize_caught_pokemon_message = do result ← recv_u32; pure (record { result = result }, 1)

unfoldable pub deserialize_get_pokemon_message : Recv (GetPokemon × ℕ)
deserialize_get_pokemon_message = do
  pokemon_len ← recv_u32
  pokemon ← recv_bytes pokemon_len
  pure (record { pokemon_len = pokemon_len; pokemon = pokemon }, (4 + pokemon_len) % 2 ^ 32)

unfoldable pub deserialize_localized_pokemon_message : Recv (LocalizedPokemon × ℕ)
deserialize_localized_pokemon_message = do
  pokemon_len ← recv_u32
  count ← recv_u32
  pokemon ← recv_bytes pokemon_len
  positions ← recv_bytes (size_q_positions count)
  pure (
    record {
      pokemon_len = pokemon_len;
      pokemon = pokemon;
      positions_count = count;
      positions = positions;
    },
    (2 * 4 + pokemon_len + size_q_positions count) % 2 ^ 32,
  )

-- The header of a frame, read after its event code. The payload is allocated and not yet read.
pub record Header : Type 0 where
  pub event_code : ℕ
  pub id : ℕ
  pub correlative_id : ℕ
  pub size : ℕ

unfoldable pub receive_message : ℕ → Recv Header
receive_message event_code = do
  id ← recv_u32
  correlative_id ← recv_u32
  size ← recv_u32
  pure (record { event_code = event_code; id = id; correlative_id = correlative_id; size = size })
