-- ===== src/Client/Entered.antt =====
-- From the command line of gameboy/src/gameboy.c to the broker that serves the frame.
use tp_so_delibird.Common.{
  ◌++◌, ◌%◌, false, arith, ◌==◌, ◌^◌, ◌+◌, true, [], ◌≡◌, ◌∷◌, ◌<◌, length, List, ℕ, some,
}
use tp_so_delibird.Common.Decimal.{atoi-number_text, number_text}
use tp_so_delibird.Wire.Bytes.{Bytes}
use tp_so_delibird.Wire.Encode.{send_message}
use tp_so_delibird.Wire.Payload.{serialize, code_of, IsPayload, new}
use tp_so_delibird.Wire.Types.{NewPokemon}
use tp_so_delibird.Broker.Publish.{serve_client-send, published}
use tp_so_delibird.Broker.Requests.{and_rest, serve_client, Context}
use tp_so_delibird.Broker.State.{Broker, Commons, done, undefined}
use tp_so_delibird.Client.Command.{
  gamecard_text, suscriptor_text, serialize_new_pokemon_message, string_to_event_code, number_of,
  broker_text, Sender,
}
use tp_so_delibird.Client.GameBoy.{game_boy, to_broker}
use mathlib.Core.Path.{refl}
use tp_so_delibird.Broker.State

-- string_equals_ignore_case as documented: equal texts are equal, and texts of different length
-- are not.
pub record IsComparison (commons : Commons) : Type 0 where
  pub equal : (t : Bytes) → commons.equals_ignore_case t t ≡ true
  pub differ :
      (t u : Bytes) → (length t == length u) ≡ false → commons.equals_ignore_case t u ≡ false

abbrev pub new_text : Bytes
new_text = b'N' ∷ b'E' ∷ b'W' ∷ b'_' ∷ b'P' ∷ b'O' ∷ b'K' ∷ b'E' ∷ b'M' ∷ b'O' ∷ b'N' ∷ []

-- The message of the command line.
abbrev pub entered : Bytes → ℕ → ℕ → ℕ → NewPokemon
entered name x y n = record {
  pokemon_len = length name;
  pokemon = name;
  pos_x = x;
  pos_y = y;
  count = n;
}

abbrev pub command : Bytes → Bytes → ℕ → ℕ → ℕ → List Bytes
command program name x y n =
    program ∷ broker_text ∷ new_text ∷ name ∷ number_text x ∷ number_text y ∷ number_text n ∷ []

same_number : (n : ℕ) → n < 2 ^ 32 → number_of (number_text n) ≡ n
same_number n h = let e : n % 2 ^ 32 ≡ n = omega arith in rw (atoi-number_text n (omega arith)) e

entered-IsPayload :
    (name : Bytes) (x y n : ℕ)
    → length name + 32 < 2 ^ 32
    → x < 2 ^ 32
    → y < 2 ^ 32
    → n < 2 ^ 32
    → IsPayload (new (entered name x y n))
entered-IsPayload name x y n h hx hy hn = (
  record { name = record { fits = omega arith; exact = refl }; x = hx; y = hy; quantity = hn },
  h,
)

module _ (commons : Commons) (sender : Sender) (law : IsComparison commons) where
  game_boy-new :
      (program name : Bytes) (x y n : ℕ)
      → length name < 2 ^ 32
      → x < 2 ^ 32
      → y < 2 ^ 32
      → n < 2 ^ 32
      → game_boy commons sender (command program name x y n)
        ≡ done (
            some (
              to_broker,
              send_message
                  (code_of (new (entered name x y n)))
                  0
                  0
                  (serialize (new (entered name x y n))),
            ))
  unfolding game_boy string_to_event_code serialize_new_pokemon_message
  game_boy-new program name x y n h hx hy hn =
      let e : length name % 2 ^ 32 ≡ length name = omega arith in
      rw
        (
          game_boy,
          law.equal broker_text,
          law.differ broker_text suscriptor_text refl,
          string_to_event_code,
          law.equal new_text,
          law.equal broker_text,
          serialize_new_pokemon_message,
          law.differ broker_text gamecard_text refl,
          e,
          same_number x hx,
          same_number y hy,
          same_number n hn,
        )
        refl

  -- The command line `gameboy BROKER NEW_POKEMON name x y n`, with numbers of 32 bits and a name of
  -- less than 2 ^ 32 - 32 bytes, sends the broker a frame that it serves as the message of the
  -- same name, place and number, whatever comes behind it.
  pub game_boy-serve_client :
      (program name : Bytes) (x y n : ℕ) (ctx : Context) (socket : ℕ) (rest : Bytes) (b : Broker)
      → length name + 32 < 2 ^ 32
      → x < 2 ^ 32
      → y < 2 ^ 32
      → n < 2 ^ 32
      → (frame : Bytes) × ((game_boy commons sender (command program name x y n)
            ≡ done (some (to_broker, frame)))
          × (serve_client ctx socket (frame ++ rest) b
              ≡ State.◌>>=◌ (published ctx socket 0 (new (entered name x y n)) b) (and_rest rest)))
  game_boy-serve_client program name x y n ctx socket rest b h hx hy hn = (
    send_message (code_of (new (entered name x y n))) 0 0 (serialize (new (entered name x y n))),
    (
      game_boy-new program name x y n (omega arith) hx hy hn,
      serve_client-send ctx socket 0 0 (new (entered name x y n)) rest b (omega arith) (omega arith)
          (entered-IsPayload name x y n h hx hy hn),
    ),
  )
