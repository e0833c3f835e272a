-- ===== src/Client/GameBoy.antt =====
-- gameboy/src/gameboy.c: main with get_payload_content and validate_arg_count, from the command
-- line to the frame that is sent.
use tp_so_delibird.Common.{
  ◌∷◌, true, length, ◌||◌, get_elem?, false, if◌then◌else◌, drop, ◌==◌, ◌-◌, ℕ, Option, List, Bool,
  some, none,
}
use tp_so_delibird.Wire.Bytes.{Bytes}
use tp_so_delibird.Wire.Encode.{send_message}
use tp_so_delibird.Wire.Types.{to_u32, EventCode}
use tp_so_delibird.Broker.State.{◌>>=◌, Outcome, Commons, done, undefined}
use tp_so_delibird.Client.Command.{
  team_text, gamecard_text, string_to_event_code, number_of, suscriptor_text, serialize_buffer,
  broker_text, Sender,
}

-- The process that the game boy connects to.
pub data Process : Type 0 where
  to_broker to_team to_gamecard : Process

abbrev pub validate_arg_count : ℕ → ℕ → Bool
validate_arg_count arg_count args = arg_count == args

-- The array is taken to have room: for a subscriber it has a place less than is written.
abbrev pub get_payload_content : List Bytes → Bool → List Bytes
get_payload_content argv is_new_subscriptor = drop (if is_new_subscriptor then 2 else 3) argv

-- The `switch` on the code.
abbrev pub arg_is_valid : Option EventCode → Bool → ℕ → Bool
arg_is_valid (some EventCode.new_pokemon) broker argc =
    validate_arg_count (argc - 3) (if broker then 4 else 5)
arg_is_valid (some EventCode.appeared_pokemon) broker argc =
    validate_arg_count (argc - 3) (if broker then 4 else 3)
arg_is_valid (some EventCode.catch_pokemon) broker argc =
    validate_arg_count (argc - 3) (if broker then 3 else 4)
arg_is_valid (some EventCode.caught_pokemon) broker argc = validate_arg_count (argc - 3) 2
arg_is_valid (some EventCode.get_pokemon) broker argc =
    validate_arg_count (argc - 3) (if broker then 1 else 2)
arg_is_valid (some EventCode.new_subscriptor) broker argc = validate_arg_count (argc - 2) 2
arg_is_valid _ broker argc = false

abbrev pub number_at : List Bytes → ℕ → (ℕ → ℕ × ℕ) → Outcome (ℕ × ℕ)
number_at args i k = elim (get_elem? args i) [
  | none ↦ undefined
  | some text ↦ done (k (number_of text))
]

-- The id and the correlative id of the frame.
abbrev pub ids_of : EventCode → Bool → Bool → List Bytes → Outcome (ℕ × ℕ)
ids_of EventCode.appeared_pokemon broker gamecard args =
    if broker then number_at args 3 (λ n. (0, n)) else done (0, 0)
ids_of EventCode.caught_pokemon broker gamecard args = number_at args 0 (λ n. (0, n))
ids_of EventCode.new_pokemon broker gamecard args =
    if gamecard then number_at args 4 (λ n. (n, 0)) else done (0, 0)
ids_of EventCode.catch_pokemon broker gamecard args =
    if gamecard then number_at args 3 (λ n. (n, 0)) else done (0, 0)
ids_of EventCode.get_pokemon broker gamecard args =
    if gamecard then number_at args 1 (λ n. (n, 0)) else done (0, 0)
ids_of _ broker gamecard args = done (0, 0)

module _ (commons : Commons) (sender : Sender) where
  abbrev pub process_of : Bytes → Option Process
  process_of text =
      if commons.equals_ignore_case text broker_text
        || commons.equals_ignore_case text suscriptor_text
      then some to_broker
      else if commons.equals_ignore_case text team_text
      then some to_team
      else if commons.equals_ignore_case text gamecard_text
      then some to_gamecard
      else none

  abbrev pub frame_to :
      Process → Bytes → Option EventCode → List Bytes → Bool → Outcome (Option (Process × Bytes))
  frame_to process text none args valid = done none
  frame_to process text (some code) args false = done none
  frame_to process text (some code) args true =
      serialize_buffer commons code args sender >>= λ buffer.
      ids_of code (commons.equals_ignore_case text broker_text)
        (commons.equals_ignore_case text gamecard_text) args
      >>= λ (id, correlative_id).
          done (some (process, send_message (to_u32 code) id correlative_id buffer))

  -- `text` and `type` are argv[1] and argv[2].
  abbrev pub connected :
      List Bytes → Bytes → Bytes → Option Process → Outcome (Option (Process × Bytes))
  connected argv text type none = done none
  connected argv text type (some process) =
      let subscriptor = commons.equals_ignore_case text suscriptor_text in
      let code =
        if subscriptor then some EventCode.new_subscriptor else string_to_event_code commons type in
      frame_to process text code (get_payload_content argv subscriptor)
        (arg_is_valid code (commons.equals_ignore_case text broker_text) (length argv))

  -- What is sent, and to whom; `none` if the command line is refused.
  unfoldable pub game_boy : List Bytes → Outcome (Option (Process × Bytes))
  game_boy (program ∷ text ∷ type ∷ rest) =
      connected (program ∷ text ∷ type ∷ rest) text type (process_of text)
  game_boy _ = done none
