-- ===== src/Client/Delivery.antt =====
-- What a client gets of a message that `send_message` framed.
use tp_so_delibird.Common.{ℕ, ◌≡◌, ◌++◌, Option, some, none, arith}
use tp_so_delibird.Wire.Bytes.{Bytes, Recv, IsU32, ◌>>=◌}
use tp_so_delibird.Wire.Decode.{Header}
use tp_so_delibird.Wire.Encode.{send_message}
use tp_so_delibird.Wire.Frame.{serialize-IsBuffer, read_frame}
use tp_so_delibird.Wire.Payload.{
  Payload, new, appeared, catch, caught, get, localized, serialize, IsPayload, code_of,
}
use tp_so_delibird.Wire.RoundTrip.{
  new_pokemon_roundtrip, appeared_pokemon_roundtrip, catch_pokemon_roundtrip,
  caught_pokemon_roundtrip, get_pokemon_roundtrip, localized_pokemon_roundtrip,
}
use tp_so_delibird.Wire.Types.{of_u32, EventCode}
use tp_so_delibird.Client.Events.{
  Delivery, round, rest_of_round, game_card, terminated_new, terminated_catch, terminated_get,
  terminated_appeared, terminated_localized, received_of, send_message_received_to_broker,
  gameboy_switch, gamecard_switch, team_switch, process_message, gamecard_handle_event,
  team_handle_event,
}

abbrev pub header_of : Payload → ℕ → ℕ → Header
header_of p id corr = record {
  event_code = code_of p;
  id = id;
  correlative_id = corr;
  size = (serialize p).size;
}

-- The outcome of a round that read the payload `p` of the frame of `q`.
abbrev pub delivered : Bytes → Payload → ℕ → ℕ → Payload → Delivery
delivered own q id corr p = record {
  header = header_of q id corr;
  payload = some p;
  ack = send_message_received_to_broker (received_of own (code_of q) (header_of q id corr)) id corr;
}

pub code_of-IsU32 : (p : Payload) → IsU32 (code_of p)
code_of-IsU32 (new m) = omega arith
code_of-IsU32 (appeared m) = omega arith
code_of-IsU32 (catch m) = omega arith
code_of-IsU32 (caught m) = omega arith
code_of-IsU32 (get m) = omega arith
code_of-IsU32 (localized m) = omega arith

-- A round reads the frame and then whatever the switch reads of the payload.
round_lem :
    (switch : Option EventCode → Recv (Option Payload × ℕ)) (own rest : Bytes) (id corr : ℕ)
    (p q : Payload)
    → IsU32 id
    → IsU32 corr
    → IsPayload q
    → switch (of_u32 (code_of q)) ((serialize q).payload ++ rest) ≡ some ((some p, code_of q), rest)
    → round switch own (send_message (code_of q) id corr (serialize q) ++ rest)
      ≡ some (delivered own q id corr p, rest)
round_lem switch own rest id corr p q hi hr h e =
    rw
      (read_frame (code_of q) id corr (serialize q) rest (rest_of_round switch own)
        (code_of-IsU32 q) hi hr (serialize-IsBuffer q h))
      (rw (e, ◌>>=◌))

gameboy_switch_lem :
    (raw : ℕ) (p : Payload) (rest : Bytes)
    → IsPayload p
    → gameboy_switch raw (of_u32 (code_of p)) ((serialize p).payload ++ rest)
      ≡ some ((some p, code_of p), rest)
gameboy_switch_lem raw (new m) rest h = rw (new_pokemon_roundtrip m rest h.0, ◌>>=◌)
gameboy_switch_lem raw (appeared m) rest h = rw (appeared_pokemon_roundtrip m rest h.0, ◌>>=◌)
gameboy_switch_lem raw (catch m) rest h = rw (catch_pokemon_roundtrip m rest h.0, ◌>>=◌)
gameboy_switch_lem raw (caught m) rest h = rw (caught_pokemon_roundtrip m rest h, ◌>>=◌)
gameboy_switch_lem raw (get m) rest h = rw (get_pokemon_roundtrip m rest h.0, ◌>>=◌)
gameboy_switch_lem raw (localized m) rest h = rw (localized_pokemon_roundtrip m rest h.0, ◌>>=◌)

-- From the frame of any of the six messages whose fields fit 32 bits, with any bytes behind it,
-- `process_message` reads exactly that frame: it returns the message with the identifiers that
-- were sent, and acknowledges that identifier and that kind of message.
pub process_message-send :
    (raw : ℕ) (own : Bytes) (id corr : ℕ) (p : Payload) (rest : Bytes)
    → IsU32 id
    → IsU32 corr
    → IsPayload p
    → process_message raw own (send_message (code_of p) id corr (serialize p) ++ rest)
      ≡ some (delivered own p id corr p, rest)
unfolding process_message
process_message-send raw own id corr p rest hi hr h =
    round_lem (gameboy_switch raw) own rest id corr p p hi hr h (gameboy_switch_lem raw p rest h)

-- What a handler of the game card and of a team is given of a message; `none` for the messages
-- that the program has no case for.
abbrev pub gamecard_view : Payload → Option Payload
gamecard_view (new m) = some (new (terminated_new m))
gamecard_view (catch m) = some (catch (terminated_catch m))
gamecard_view (get m) = some (get (terminated_get m))
gamecard_view _ = none

abbrev pub team_view : Payload → Option Payload
team_view (appeared m) = some (appeared (terminated_appeared m))
team_view (caught m) = some (caught m)
team_view (localized m) = some (localized (terminated_localized m))
team_view _ = none

gamecard_switch_lem :
    (raw : ℕ) (p q : Payload) (rest : Bytes)
    → IsPayload p
    → gamecard_view p ≡ some q
    → gamecard_switch raw (of_u32 (code_of p)) ((serialize p).payload ++ rest)
      ≡ some ((some q, code_of p), rest)
gamecard_switch_lem raw (new m) q rest h e = rw (new_pokemon_roundtrip m rest h.0, ◌>>=◌) (cc)
gamecard_switch_lem raw (catch m) q rest h e = rw (catch_pokemon_roundtrip m rest h.0, ◌>>=◌) (cc)
gamecard_switch_lem raw (get m) q rest h e = rw (get_pokemon_roundtrip m rest h.0, ◌>>=◌) (cc)
gamecard_switch_lem raw _ q rest h e = cc

team_switch_lem :
    (raw : ℕ) (p q : Payload) (rest : Bytes)
    → IsPayload p
    → team_view p ≡ some q
    → team_switch raw (of_u32 (code_of p)) ((serialize p).payload ++ rest)
      ≡ some ((some q, code_of p), rest)
team_switch_lem raw (appeared m) q rest h e = rw (appeared_pokemon_roundtrip m rest h.0, ◌>>=◌) (cc)
team_switch_lem raw (caught m) q rest h e = rw (caught_pokemon_roundtrip m rest h, ◌>>=◌) (cc)
team_switch_lem raw (localized m) q rest h e =
    rw (localized_pokemon_roundtrip m rest h.0, ◌>>=◌) (cc)
team_switch_lem raw _ q rest h e = cc

-- The game card reads the frame of a NEW, CATCH or GET message whose fields fit 32 bits: its
-- handler is given the message with a terminated name, and the acknowledgement of "Game Card"
-- names the identifier and the kind that were sent.
gamecard_handle_event-send :
    (raw id corr : ℕ) (p q : Payload) (rest : Bytes)
    → IsU32 id
    → IsU32 corr
    → IsPayload p
    → gamecard_view p ≡ some q
    → gamecard_handle_event raw (send_message (code_of p) id corr (serialize p) ++ rest)
      ≡ some (delivered game_card p id corr q, rest)
unfolding gamecard_handle_event
gamecard_handle_event-send raw id corr p q rest hi hr h e =
    round_lem (gamecard_switch raw) game_card rest id corr q p hi hr h
      (gamecard_switch_lem raw p q rest h e)

-- A team reads the frame of an APPEARED, CAUGHT or LOCALIZED message whose fields fit 32 bits: its
-- handler is given the message, a name in it terminated, and the acknowledgement names the
-- identifier and the kind that were sent.
team_handle_event-send :
    (raw : ℕ) (own : Bytes) (id corr : ℕ) (p q : Payload) (rest : Bytes)
    → IsU32 id
    → IsU32 corr
    → IsPayload p
    → team_view p ≡ some q
    → team_handle_event raw own (send_message (code_of p) id corr (serialize p) ++ rest)
      ≡ some (delivered own p id corr q, rest)
unfolding team_handle_event
team_handle_event-send raw own id corr p q rest hi hr h e =
    round_lem (team_switch raw) own rest id corr q p hi hr h (team_switch_lem raw p q rest h e)
