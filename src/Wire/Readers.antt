-- ===== src/Wire/Readers.antt =====
-- What the readers do on bytes that the serializers wrote, and when a message fits its fields.
use tp_so_delibird.Common.{
  ℕ, ◌%◌, ◌^◌, ◌≤◌, ◌<◌, ◌≡◌, refl, ap, ◌++◌, append_assoc, arith, length, take, take_all,
}
use tp_so_delibird.Wire.Bytes.{
  Bytes, IsU32, Recv, ◌>>=◌, u32_bytes, recv_u32, recv_bytes, recv_u32-u32_bytes, recv_bytes-append,
}
use tp_so_delibird.Wire.Encode.{size_q_positions}
use tp_so_delibird.Wire.Types.{
  NewPokemon, AppearedPokemon, CatchPokemon, CaughtPokemon, GetPokemon, LocalizedPokemon,
  SubscriptionPetition, MessageReceived,
}

-- A text and the `uint32_t` that holds its length.
pub record IsText (len : ℕ) (text : Bytes) : Type 0 where
  pub fits : IsU32 len
  pub exact : length text ≡ len

pub record IsNewPokemon (m : NewPokemon) : Type 0 where
  pub name : IsText m.pokemon_len m.pokemon
  pub x : IsU32 m.pos_x
  pub y : IsU32 m.pos_y
  pub quantity : IsU32 m.count

pub record IsAppearedPokemon (m : AppearedPokemon) : Type 0 where
  pub name : IsText m.pokemon_len m.pokemon
  pub x : IsU32 m.pos_x
  pub y : IsU32 m.pos_y

pub record IsCatchPokemon (m : CatchPokemon) : Type 0 where
  pub name : IsText m.pokemon_len m.pokemon
  pub x : IsU32 m.pos_x
  pub y : IsU32 m.pos_y

abbrev pub IsCaughtPokemon : CaughtPokemon → Type 0
IsCaughtPokemon m = IsU32 m.result

abbrev pub IsGetPokemon : GetPokemon → Type 0
IsGetPokemon m = IsText m.pokemon_len m.pokemon

pub record IsLocalizedPokemon (m : LocalizedPokemon) : Type 0 where
  pub name : IsText m.pokemon_len m.pokemon
  pub quantity : IsU32 m.positions_count
  pub places : IsText (size_q_positions m.positions_count) m.positions

pub record IsSubscriptionPetition (m : SubscriptionPetition) : Type 0 where
  pub name : IsText m.subscriptor_len m.subscriptor_id
  pub code : IsU32 m.queue
  pub address : IsText m.ip_len m.ip
  pub door : IsU32 m.port
  pub time : IsU32 m.duration

pub record IsMessageReceived (m : MessageReceived) : Type 0 where
  pub name : IsText m.subscriptor_len m.subscriptor_id
  pub code : IsU32 m.message_type
  pub number : IsU32 m.received_message_id

-- One step of a reader, on a stored number and on a stored text.
pub read_u32 {ℓ} :
    {A : Type ℓ} (n : ℕ) (rest : Bytes) (f : ℕ → Recv A)
    → IsU32 n
    → (recv_u32 >>= f) (u32_bytes n ++ rest) ≡ f n rest
read_u32 n rest f h = rw (recv_u32-u32_bytes n rest, ◌>>=◌) (ap (λ (k : ℕ). f k rest) (omega arith))

pub read_text {ℓ} :
    {A : Type ℓ} (n : ℕ) (bs rest : Bytes) (f : Bytes → Recv A)
    → IsText n bs
    → (recv_bytes n >>= f) (take n bs ++ rest) ≡ f bs rest
read_text n bs rest f h =
    rw (take_all n bs (omega arith), recv_bytes-append n bs rest h.exact, ◌>>=◌)

pub ruleset readers = (append_assoc, read_u32, read_text)
