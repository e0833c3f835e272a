-- ===== src/Wire/RoundTrip.antt =====
-- A deserializer reads back what the serializer of the same message wrote, whatever follows it.
use tp_so_delibird.Common.{◌≡◌, some, ◌++◌}
use tp_so_delibird.Wire.Bytes.{Bytes}
use tp_so_delibird.Wire.Decode.{
  deserialize_new_pokemon_message, deserialize_appeared_pokemon_message,
  deserialize_catch_pokemon_message, deserialize_caught_pokemon_message,
  deserialize_get_pokemon_message, deserialize_localized_pokemon_message,
}
use tp_so_delibird.Wire.Encode.{
  serialize_t_new_pokemon_message, serialize_t_appeared_pokemon_message,
  serialize_t_catch_pokemon_message, serialize_t_caught_pokemon_message,
  serialize_t_get_pokemon_message, serialize_t_localized_pokemon_message,
}
use tp_so_delibird.Wire.Readers.{
  readers, IsNewPokemon, IsAppearedPokemon, IsCatchPokemon, IsCaughtPokemon, IsGetPokemon,
  IsLocalizedPokemon,
}
use tp_so_delibird.Wire.Types.{
  NewPokemon, AppearedPokemon, CatchPokemon, CaughtPokemon, GetPokemon, LocalizedPokemon,
}

-- From the bytes of a NEW_POKEMON whose fields fit, with any bytes behind them, the deserializer
-- returns the message and its buffer's size, and leaves the bytes behind.
pub new_pokemon_roundtrip :
    (m : NewPokemon) (rest : Bytes)
    → IsNewPokemon m
    → deserialize_new_pokemon_message ((serialize_t_new_pokemon_message m).payload ++ rest)
      ≡ some ((m, (serialize_t_new_pokemon_message m).size), rest)
unfolding deserialize_new_pokemon_message serialize_t_new_pokemon_message
new_pokemon_roundtrip m rest h = simp (readers, h.name.fits, h.name, h.x, h.y, h.quantity)

-- From the bytes of an APPEARED_POKEMON whose fields fit, with any bytes behind them, the deserializer
-- returns the message and its buffer's size, and leaves the bytes behind.
pub appeared_pokemon_roundtrip :
    (m : AppearedPokemon) (rest : Bytes)
    → IsAppearedPokemon m
    → deserialize_appeared_pokemon_message
        ((serialize_t_appeared_pokemon_message m).payload ++ rest)
      ≡ some ((m, (serialize_t_appeared_pokemon_message m).size), rest)
unfolding deserialize_appeared_pokemon_message serialize_t_appeared_pokemon_message
appeared_pokemon_roundtrip m rest h = simp (readers, h.name.fits, h.name, h.x, h.y)

-- From the bytes of a CATCH_POKEMON whose fields fit, with any bytes behind them, the deserializer
-- returns the message and its buffer's size, and leaves the bytes behind.
pub catch_pokemon_roundtrip :
    (m : CatchPokemon) (rest : Bytes)
    → IsCatchPokemon m
    → deserialize_catch_pokemon_message ((serialize_t_catch_pokemon_message m).payload ++ rest)
      ≡ some ((m, (serialize_t_catch_pokemon_message m).size), rest)
unfolding deserialize_catch_pokemon_message serialize_t_catch_pokemon_message
catch_pokemon_roundtrip m rest h = simp (readers, h.name.fits, h.name, h.x, h.y)

-- From the bytes of a CAUGHT_POKEMON whose fields fit, with any bytes behind them, the deserializer
-- returns the message and the constant 1, and leaves the bytes behind.
pub caught_pokemon_roundtrip :
    (m : CaughtPokemon) (rest : Bytes)
    → IsCaughtPokemon m
    → deserialize_caught_pokemon_message ((serialize_t_caught_pokemon_message m).payload ++ rest)
      ≡ some ((m, 1), rest)
unfolding deserialize_caught_pokemon_message serialize_t_caught_pokemon_message
caught_pokemon_roundtrip m rest h = simp (readers, h)

-- From the bytes of a GET_POKEMON whose fields fit, with any bytes behind them, the deserializer
-- returns the message and its buffer's size, and leaves the bytes behind.
pub get_pokemon_roundtrip :
    (m : GetPokemon) (rest : Bytes)
    → IsGetPokemon m
    → deserialize_get_pokemon_message ((serialize_t_get_pokemon_message m).payload ++ rest)
      ≡ some ((m, (serialize_t_get_pokemon_message m).size), rest)
unfolding deserialize_get_pokemon_message serialize_t_get_pokemon_message
get_pokemon_roundtrip m rest h = simp (readers, h.fits, h)

-- From the bytes of a LOCALIZED_POKEMON whose fields fit, with any bytes behind them, the deserializer
-- returns the message and its buffer's size, and leaves the bytes behind.
pub localized_pokemon_roundtrip :
    (m : LocalizedPokemon) (rest : Bytes)
    → IsLocalizedPokemon m
    → deserialize_localized_pokemon_message
        ((serialize_t_localized_pokemon_message m).payload ++ rest)
      ≡ some ((m, (serialize_t_localized_pokemon_message m).size), rest)
unfolding deserialize_localized_pokemon_message serialize_t_localized_pokemon_message
localized_pokemon_roundtrip m rest h = simp (readers, h.name.fits, h.name, h.quantity, h.places)
