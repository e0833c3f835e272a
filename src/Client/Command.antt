-- ===== src/Client/Command.antt =====
-- The command line of the game boy: main, get_payload_content and validate_arg_count of
-- gameboy/src/gameboy.c, and serialize_buffer with what it calls of
-- operavirus-commons/operavirus-commons.c. A text of the command line has no byte 0.
use tp_so_delibird.Common.{
  ◌+◌, ◌-◌, ◌++◌, ◌%◌, get_elem?, ◌^◌, length, if◌then◌else◌, [], ◌∷◌, ℕ, Option, List, some, none,
}
use tp_so_delibird.Common.Decimal.{atoi, u32_of_int}
use tp_so_delibird.Wire.Bytes.{Bytes}
use tp_so_delibird.Wire.Encode.{
  serialize_t_new_subscriptor_message, serialize_t_new_pokemon_message,
  serialize_t_get_pokemon_message, serialize_t_caught_pokemon_message,
  serialize_t_catch_pokemon_message, serialize_t_appeared_pokemon_message,
}
use tp_so_delibird.Wire.Types.{to_u32, Buffer, EventCode}
use tp_so_delibird.Broker.State.{Outcome, Commons, done, undefined}
use tp_so_delibird.Client.Events.{c_string}

-- Texts of the source.
abbrev pub broker_text : Bytes
broker_text = b'B' ∷ b'R' ∷ b'O' ∷ b'K' ∷ b'E' ∷ b'R' ∷ []

abbrev pub suscriptor_text : Bytes
suscriptor_text = b'S' ∷ b'U' ∷ b'S' ∷ b'C' ∷ b'R' ∷ b'I' ∷ b'P' ∷ b'T' ∷ b'O' ∷ b'R' ∷ []

abbrev pub team_text : Bytes
team_text = b'T' ∷ b'E' ∷ b'A' ∷ b'M' ∷ []

abbrev pub gamecard_text : Bytes
gamecard_text = b'G' ∷ b'A' ∷ b'M' ∷ b'E' ∷ b'C' ∷ b'A' ∷ b'R' ∷ b'D' ∷ []

abbrev pub ok_text : Bytes
ok_text = b'O' ∷ b'K' ∷ []

abbrev pokemon_text : Bytes
pokemon_text = b'_' ∷ b'P' ∷ b'O' ∷ b'K' ∷ b'E' ∷ b'M' ∷ b'O' ∷ b'N' ∷ []

abbrev pub event_code_to_string : EventCode → Option Bytes
event_code_to_string EventCode.new_pokemon = some ((b'N' ∷ b'E' ∷ b'W' ∷ []) ++ pokemon_text)
event_code_to_string EventCode.appeared_pokemon =
    some ((b'A' ∷ b'P' ∷ b'P' ∷ b'E' ∷ b'A' ∷ b'R' ∷ b'E' ∷ b'D' ∷ []) ++ pokemon_text)
event_code_to_string EventCode.catch_pokemon =
    some ((b'C' ∷ b'A' ∷ b'T' ∷ b'C' ∷ b'H' ∷ []) ++ pokemon_text)
event_code_to_string EventCode.caught_pokemon =
    some ((b'C' ∷ b'A' ∷ b'U' ∷ b'G' ∷ b'H' ∷ b'T' ∷ []) ++ pokemon_text)
event_code_to_string EventCode.get_pokemon = some ((b'G' ∷ b'E' ∷ b'T' ∷ []) ++ pokemon_text)
event_code_to_string EventCode.localized_pokemon =
    some ((b'L' ∷ b'O' ∷ b'C' ∷ b'A' ∷ b'L' ∷ b'I' ∷ b'Z' ∷ b'E' ∷ b'D' ∷ []) ++ pokemon_text)
event_code_to_string EventCode.new_subscriptor = none
event_code_to_string EventCode.message_received = none

-- An argument that is not there is a pointer that was never set.
abbrev pub argument : List Bytes → ℕ → (Bytes → Outcome Buffer) → Outcome Buffer
argument args i k = elim (get_elem? args i) [ none ↦ undefined | some text ↦ k text ]

-- `atoi` into a `uint32_t`, and `strlen`.
abbrev pub number_of : Bytes → ℕ
number_of text = u32_of_int (atoi text)

abbrev pub strlen : Bytes → ℕ
strlen text = length text % 2 ^ 32

unfoldable pub serialize_new_pokemon_message : List Bytes → Outcome Buffer
serialize_new_pokemon_message args = argument args 0 (λ name. argument args 1 (λ x.
    argument args 2 (λ y. argument args 3 (λ n. done (
      serialize_t_new_pokemon_message (record {
        pokemon_len = strlen name;
        pokemon = name;
        pos_x = number_of x;
        pos_y = number_of y;
        count = number_of n;
      }))))))

unfoldable pub serialize_appeared_pokemon_message : List Bytes → Outcome Buffer
serialize_appeared_pokemon_message args = argument args 0 (λ name. argument args 1 (λ x.
    argument args 2 (λ y. done (
      serialize_t_appeared_pokemon_message (record {
        pokemon_len = strlen name;
        pokemon = name;
        pos_x = number_of x;
        pos_y = number_of y;
      })))))

unfoldable pub serialize_catch_pokemon_message : List Bytes → Outcome Buffer
serialize_catch_pokemon_message args = argument args 0 (λ name. argument args 1 (λ x.
    argument args 2 (λ y. done (
      serialize_t_catch_pokemon_message (record {
        pokemon_len = strlen name;
        pokemon = name;
        pos_x = number_of x;
        pos_y = number_of y;
      })))))

unfoldable pub serialize_get_pokemon_message : List Bytes → Outcome Buffer
serialize_get_pokemon_message args = argument args 0 (λ name.
    done (serialize_t_get_pokemon_message (record { pokemon_len = strlen name; pokemon = name })))

abbrev pub code_number : Option EventCode → ℕ
code_number none = 2 ^ 32 - 1
code_number (some code) = to_u32 code

-- What the configuration of the game boy says of itself.
pub record Sender : Type 0 where
  pub sender_id : Bytes
  pub sender_ip : Bytes
  pub sender_port : ℕ

module _ (commons : Commons) where
  -- The code of the first text that is equal; `none` stands for -1.
  abbrev pub first_equal : Bytes → List (Bytes × EventCode) → Option EventCode
  first_equal code [] = none
  first_equal code ((text, c) ∷ rest) =
      if commons.equals_ignore_case code text then some c else first_equal code rest

  unfoldable pub string_to_event_code : Bytes → Option EventCode
  string_to_event_code code = first_equal code (
      ((b'N' ∷ b'E' ∷ b'W' ∷ []) ++ pokemon_text, EventCode.new_pokemon)
      ∷ (
        (b'A' ∷ b'P' ∷ b'P' ∷ b'E' ∷ b'A' ∷ b'R' ∷ b'E' ∷ b'D' ∷ []) ++ pokemon_text,
        EventCode.appeared_pokemon,
      )
      ∷ ((b'C' ∷ b'A' ∷ b'T' ∷ b'C' ∷ b'H' ∷ []) ++ pokemon_text, EventCode.catch_pokemon)
      ∷ ((b'C' ∷ b'A' ∷ b'U' ∷ b'G' ∷ b'H' ∷ b'T' ∷ []) ++ pokemon_text, EventCode.caught_pokemon)
      ∷ ((b'G' ∷ b'E' ∷ b'T' ∷ []) ++ pokemon_text, EventCode.get_pokemon)
      ∷ (
        (b'L' ∷ b'O' ∷ b'C' ∷ b'A' ∷ b'L' ∷ b'I' ∷ b'Z' ∷ b'E' ∷ b'D' ∷ []) ++ pokemon_text,
        EventCode.localized_pokemon,
      )
      ∷ (suscriptor_text, EventCode.new_subscriptor)
      ∷ [])

  unfoldable pub serialize_caught_pokemon_message : List Bytes → Outcome Buffer
  serialize_caught_pokemon_message args = argument args 1 (λ status. done (
      serialize_t_caught_pokemon_message
        (record { result = if commons.equals_ignore_case status ok_text then 1 else 0 })))

  unfoldable pub serialize_new_subscriptor_message : List Bytes → Sender → Outcome Buffer
  serialize_new_subscriptor_message args sender = argument args 0 (λ queue.
      argument args 1 (λ duration. done (
        serialize_t_new_subscriptor_message (record {
          subscriptor_len = (length sender.sender_id + 1) % 2 ^ 32;
          subscriptor_id = c_string sender.sender_id;
          queue = code_number (string_to_event_code queue);
          ip_len = (length sender.sender_ip + 1) % 2 ^ 32;
          ip = c_string sender.sender_ip;
          port = sender.sender_port;
          duration = number_of duration;
        }))))

  -- The default is a NULL that send_message reads.
  abbrev pub serialize_buffer : EventCode → List Bytes → Sender → Outcome Buffer
  serialize_buffer EventCode.new_pokemon args sender = serialize_new_pokemon_message args
  serialize_buffer EventCode.appeared_pokemon args sender = serialize_appeared_pokemon_message args
  serialize_buffer EventCode.catch_pokemon args sender = serialize_catch_pokemon_message args
  serialize_buffer EventCode.caught_pokemon args sender = serialize_caught_pokemon_message args
  serialize_buffer EventCode.get_pokemon args sender = serialize_get_pokemon_message args
  serialize_buffer EventCode.new_subscriptor args sender =
      serialize_new_subscriptor_message args sender
  serialize_buffer _ args sender = undefined
