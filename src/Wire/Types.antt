-- ===== src/Wire/Types.antt =====
-- The structs and the enumeration of operavirus-commons/operavirus-commons.h. A `char*` with its
-- length is a list of bytes; a `uint32_t` is a number.
use tp_so_delibird.Common.{ℕ, Option, none, some, ◌==◌, if◌then◌else◌, ◌≡◌, refl}
use tp_so_delibird.Wire.Bytes.{Bytes}

pub data EventCode : Type 0 where
  new_pokemon appeared_pokemon catch_pokemon caught_pokemon : EventCode
  get_pokemon localized_pokemon new_subscriptor message_received : EventCode

-- The value that the compiler gives each constant of the enumeration.
abbrev pub to_u32 : EventCode → ℕ
to_u32 new_pokemon = 1
to_u32 appeared_pokemon = 2
to_u32 catch_pokemon = 3
to_u32 caught_pokemon = 4
to_u32 get_pokemon = 5
to_u32 localized_pokemon = 6
to_u32 new_subscriptor = 7
to_u32 message_received = 8

-- What a `switch` on a received code selects; `none` is the default case.
abbrev pub of_u32 : ℕ → Option EventCode
of_u32 n =
    if n == 1
    then some new_pokemon
    else if n == 2
    then some appeared_pokemon
    else if n == 3
    then some catch_pokemon
    else if n == 4
    then some caught_pokemon
    else if n == 5
    then some get_pokemon
    else if n == 6
    then some localized_pokemon
    else if n == 7
    then some new_subscriptor
    else if n == 8
    then some message_received
    else none

pub of_u32-to_u32 : (c : EventCode) → of_u32 (to_u32 c) ≡ some c
of_u32-to_u32 new_pokemon = refl
of_u32-to_u32 appeared_pokemon = refl
of_u32-to_u32 catch_pokemon = refl
of_u32-to_u32 caught_pokemon = refl
of_u32-to_u32 get_pokemon = refl
of_u32-to_u32 localized_pokemon = refl
of_u32-to_u32 new_subscriptor = refl
of_u32-to_u32 message_received = refl

pub record Buffer : Type 0 where
  pub size : ℕ
  pub payload : Bytes

pub record Message : Type 0 where
  pub event_code : ℕ
  pub id : ℕ
  pub correlative_id : ℕ
  pub buffer : Buffer

pub record NewPokemon : Type 0 where
  pub pokemon_len : ℕ
  pub pokemon : Bytes
  pub pos_x : ℕ
  pub pos_y : ℕ
  pub count : ℕ

pub record AppearedPokemon : Type 0 where
  pub pokemon_len : ℕ
  pub pokemon : Bytes
  pub pos_x : ℕ
  pub pos_y : ℕ

pub record CatchPokemon : Type 0 where
  pub pokemon_len : ℕ
  pub pokemon : Bytes
  pub pos_x : ℕ
  pub pos_y : ℕ

pub record CaughtPokemon : Type 0 where
  pub result : ℕ

pub record GetPokemon : Type 0 where
  pub pokemon_len : ℕ
  pub pokemon : Bytes

-- `positions` is the memory behind the `uint32_t*`, four bytes for each number.
pub record LocalizedPokemon : Type 0 where
  pub pokemon_len : ℕ
  pub pokemon : Bytes
  pub positions_count : ℕ
  pub positions : Bytes

pub record SubscriptionPetition : Type 0 where
  pub subscriptor_len : ℕ
  pub subscriptor_id : Bytes
  pub queue : ℕ
  pub ip_len : ℕ
  pub ip : Bytes
  pub port : ℕ
  pub duration : ℕ

pub record MessageReceived : Type 0 where
  pub subscriptor_len : ℕ
  pub subscriptor_id : Bytes
  pub message_type : ℕ
  pub received_message_id : ℕ
