-- ===== src/Wire/Frame.antt =====
-- Sizes of the buffers, and the frame that `send_message` puts round one.
use tp_so_delibird.Common.{
  ℕ, ◌+◌, ◌^◌, ◌<◌, ◌≡◌, refl, ◌++◌, append_assoc, arith, some, length, take_all, length-append,
  length-take,
}
use tp_so_delibird.Wire.Bytes.{Bytes, Recv, IsU32, ◌>>=◌, u32_bytes, length-u32_bytes, recv_u32}
use tp_so_delibird.Wire.Decode.{receive_message, Header}
use tp_so_delibird.Wire.Encode.{
  send_message, serialize_message, serialize_t_new_pokemon_message,
  serialize_t_appeared_pokemon_message, serialize_t_catch_pokemon_message,
  serialize_t_caught_pokemon_message, serialize_t_get_pokemon_message,
  serialize_t_localized_pokemon_message, serialize_t_message_received,
}
use tp_so_delibird.Wire.Payload.{
  Payload, new, appeared, catch, caught, get, localized, serialize, IsPayload,
}
use tp_so_delibird.Wire.Readers.{read_u32, IsMessageReceived}
use tp_so_delibird.Wire.Types.{Buffer, MessageReceived}

-- A buffer whose size is that of its payload, and which fits a frame.
pub record IsBuffer (b : Buffer) : Type 0 where
  pub exact : length b.payload ≡ b.size
  pub fits : b.size + 16 < 2 ^ 32

ruleset lengths = (length-append, length-u32_bytes, length-take)

-- For each of the six messages whose fields and frame fit 32 bits, the size that the serializer
-- computes and allocates is the number of bytes that it writes.
pub serialize-IsBuffer : (p : Payload) → IsPayload p → IsBuffer (serialize p)
unfolding serialize_t_new_pokemon_message serialize_t_appeared_pokemon_message
    serialize_t_catch_pokemon_message serialize_t_caught_pokemon_message
    serialize_t_get_pokemon_message serialize_t_localized_pokemon_message
serialize-IsBuffer (new m) (h, f) = record {
  exact = simp lengths (omega arith);
  fits = omega arith;
}
serialize-IsBuffer (appeared m) (h, f) = record {
  exact = simp lengths (omega arith);
  fits = omega arith;
}
serialize-IsBuffer (catch m) (h, f) = record {
  exact = simp lengths (omega arith);
  fits = omega arith;
}
serialize-IsBuffer (caught m) h = record { exact = simp lengths (omega arith); fits = omega arith }
serialize-IsBuffer (get m) (h, f) = record {
  exact = simp lengths (omega arith);
  fits = omega arith;
}
serialize-IsBuffer (localized m) (h, f) = record {
  exact = simp lengths (omega arith);
  fits = omega arith;
}

-- For an acknowledgement whose fields and frame fit 32 bits, the size that the serializer computes
-- and allocates is the number of bytes that it writes.
pub message_received-IsBuffer :
    (m : MessageReceived)
    → IsMessageReceived m
    → m.subscriptor_len + 28 < 2 ^ 32
    → IsBuffer (serialize_t_message_received m)
unfolding serialize_t_message_received
message_received-IsBuffer m h f = record { exact = simp lengths (omega arith); fits = omega arith }

-- A frame is four header words and the whole payload.
pub send_message_lem :
    (code id corr : ℕ) (b : Buffer)
    → IsBuffer b
    → send_message code id corr b
      ≡ u32_bytes code ++ (u32_bytes id ++ (u32_bytes corr ++ (u32_bytes b.size ++ b.payload)))
unfolding send_message serialize_message
send_message_lem code id corr b h =
    rw (take_all b.size b.payload (omega arith))
      (take_all _ _ (simp (length-append, length-u32_bytes) (omega arith)))

pub read_header :
    (code id corr size : ℕ) (rest : Bytes)
    → IsU32 id
    → IsU32 corr
    → IsU32 size
    → receive_message code (u32_bytes id ++ (u32_bytes corr ++ (u32_bytes size ++ rest)))
      ≡ some (record { event_code = code; id = id; correlative_id = corr; size = size }, rest)
unfolding receive_message
read_header code id corr size rest hi hr hs = simp (read_u32, hi, hr, hs)

-- The header of a frame comes back, and the reader goes on at the payload.
pub read_frame {ℓ} :
    {A : Type ℓ} (code id corr : ℕ) (b : Buffer) (rest : Bytes) (f : ℕ → Header → Recv A)
    → IsU32 code
    → IsU32 id
    → IsU32 corr
    → IsBuffer b
    → (recv_u32 >>= λ c. receive_message c >>= f c) (send_message code id corr b ++ rest)
      ≡ f code
          (record { event_code = code; id = id; correlative_id = corr; size = b.size })
          (b.payload ++ rest)
read_frame code id corr b rest f hc hi hr h = rw (send_message_lem code id corr b h) (
    simp (append_assoc, read_u32, hc)
      (rw (read_header code id corr b.size (b.payload ++ rest) hi hr (omega arith), ◌>>=◌) refl))
