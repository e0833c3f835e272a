-- ===== src/Tests/Wire.antt =====
-- The theorems on the wire format and on the clients at concrete messages.
use tp_so_delibird.Common.{◌++◌, [], ◌∷◌, refl, arith, some, ◌≡◌}
use tp_so_delibird.Wire.Encode.{send_message}
use tp_so_delibird.Wire.Payload.{serialize, new}
use tp_so_delibird.Wire.Readers.{
  IsText, IsNewPokemon, IsMessageReceived, IsLocalizedPokemon, IsCatchPokemon, IsAppearedPokemon,
}
use tp_so_delibird.Wire.Types.{
  NewPokemon, MessageReceived, LocalizedPokemon, GetPokemon, CaughtPokemon, CatchPokemon,
  AppearedPokemon,
}
use tp_so_delibird.Client.Delivery.{process_message-send, delivered}
use tp_so_delibird.Client.Events.{process_message}
use tp_so_delibird.Tests.Data.{pika-IsText, pika, ash}

abbrev a_new : NewPokemon
a_new = record { pokemon_len = 4; pokemon = pika; pos_x = 1; pos_y = 2; count = 3 }

abbrev an_appeared : AppearedPokemon
an_appeared = record { pokemon_len = 4; pokemon = pika; pos_x = 1; pos_y = 2 }

abbrev a_catch : CatchPokemon
a_catch = record { pokemon_len = 4; pokemon = pika; pos_x = 1; pos_y = 2 }

abbrev a_caught : CaughtPokemon
a_caught = record { result = 1 }

abbrev a_get : GetPokemon
a_get = record { pokemon_len = 4; pokemon = pika }

abbrev a_localized : LocalizedPokemon
a_localized = record {
  pokemon_len = 4;
  pokemon = pika;
  positions_count = 1;
  positions = 1 ∷ 0 ∷ 0 ∷ 0 ∷ 2 ∷ 0 ∷ 0 ∷ 0 ∷ [];
}

abbrev an_ack : MessageReceived
an_ack = record {
  subscriptor_len = 3;
  subscriptor_id = ash;
  message_type = 1;
  received_message_id = 9;
}

abbrev a_new-IsNewPokemon : IsNewPokemon a_new
a_new-IsNewPokemon = record {
  name = pika-IsText;
  x = omega arith;
  y = omega arith;
  quantity = omega arith;
}

abbrev an_appeared-IsAppearedPokemon : IsAppearedPokemon an_appeared
an_appeared-IsAppearedPokemon = record { name = pika-IsText; x = omega arith; y = omega arith }

abbrev a_catch-IsCatchPokemon : IsCatchPokemon a_catch
a_catch-IsCatchPokemon = record { name = pika-IsText; x = omega arith; y = omega arith }

abbrev a_localized-IsLocalizedPokemon : IsLocalizedPokemon a_localized
a_localized-IsLocalizedPokemon = record {
  name = pika-IsText;
  quantity = omega arith;
  places = record { fits = omega arith; exact = refl };
}

abbrev ash-IsText : IsText 3 ash
ash-IsText = record { fits = omega arith; exact = refl }

abbrev an_ack-IsMessageReceived : IsMessageReceived an_ack
an_ack-IsMessageReceived = record { name = ash-IsText; code = omega arith; number = omega arith }

process_message-send_example :
    process_message 0 ash (send_message 1 9 0 (serialize (new a_new)) ++ (7 ∷ []))
    ≡ some (delivered ash (new a_new) 9 0 (new a_new), 7 ∷ [])
process_message-send_example =
    process_message-send 0 ash 9 0 (new a_new) (7 ∷ []) (omega arith) (omega arith)
      (a_new-IsNewPokemon, omega arith)
