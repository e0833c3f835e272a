-- ===== src/Broker/Publish.antt =====
-- What a client's frame makes the broker do: the requests are read back as they were sent, and a
-- published message goes to every subscriptor.
use tp_so_delibird.Common.{refl, append_assoc, arith, ◌∙◌, ◌^◌, ◌%◌, ◌+◌, map, ℕ, some, ◌++◌, ◌≡◌}
use tp_so_delibird.Wire.Bytes.{u32_bytes, Recv, recv_u32-u32_bytes, IsU32, Bytes, ◌>>=◌}
use tp_so_delibird.Wire.Decode.{receive_message, Header}
use tp_so_delibird.Wire.Encode.{
  send_message, serialize_t_new_subscriptor_message, serialize_t_message_received,
}
use tp_so_delibird.Wire.Frame.{read_header, IsBuffer, send_message_lem, serialize-IsBuffer}
use tp_so_delibird.Wire.Payload.{
  localized, get, caught, catch, appeared, serialize, code_of, new, IsPayload, Payload,
}
use tp_so_delibird.Wire.Readers.{readers, IsSubscriptionPetition, IsMessageReceived}
use tp_so_delibird.Wire.RoundTrip.{
  localized_pokemon_roundtrip, get_pokemon_roundtrip, caught_pokemon_roundtrip,
  catch_pokemon_roundtrip, appeared_pokemon_roundtrip, new_pokemon_roundtrip,
}
use tp_so_delibird.Wire.Types.{Buffer, of_u32, Message, SubscriptionPetition, MessageReceived}
use tp_so_delibird.Broker.Requests.{
  read, to_subscriptor, process_request, and_rest, acknowledgement, serve_client, publish, Response,
  dispatch, recv_payload, Context, recv_subscription_petition, recv_message_received,
}
use tp_so_delibird.Broker.State.{
  get_queue, queue_localized_pokemon, queue_get_pokemon, queue_caught_pokemon, queue_catch_pokemon,
  queue_appeared_pokemon, get_message_id, queue_new_pokemon, Outcome, Broker, QueueName,
}
use tp_so_delibird.Broker.Store.{store_message}
use tp_so_delibird.Client.Delivery.{header_of, code_of-IsU32}
use tp_so_delibird.Broker.State

-- A subscription is read back as it was sent, whatever follows it.
subscription_roundtrip :
    (m : SubscriptionPetition) (rest : Bytes)
    → IsSubscriptionPetition m
    → recv_subscription_petition ((serialize_t_new_subscriptor_message m).payload ++ rest)
      ≡ some (m, rest)
unfolding recv_subscription_petition serialize_t_new_subscriptor_message
subscription_roundtrip m rest h =
    simp (readers, h.name.fits, h.name, h.code, h.address.fits, h.address, h.door, h.time)

-- An acknowledgement is read back as it was sent, whatever follows it.
pub message_received_roundtrip :
    (m : MessageReceived) (rest : Bytes)
    → IsMessageReceived m
    → recv_message_received ((serialize_t_message_received m).payload ++ rest) ≡ some (m, rest)
unfolding recv_message_received serialize_t_message_received
message_received_roundtrip m rest h = simp (readers, h.name.fits, h.name, h.code, h.number)

abbrev pub queue_of : Payload → QueueName
queue_of (new m) = queue_new_pokemon
queue_of (appeared m) = queue_appeared_pokemon
queue_of (catch m) = queue_catch_pokemon
queue_of (caught m) = queue_caught_pokemon
queue_of (get m) = queue_get_pokemon
queue_of (localized m) = queue_localized_pokemon

-- The message of a frame under the id that the broker gives it.
abbrev pub message_of : Payload → ℕ → ℕ → Message
message_of p n corr = record {
  event_code = code_of p;
  id = n;
  correlative_id = corr;
  buffer = serialize p;
}

recv_payload_lem :
    (p : Payload) (rest : Bytes)
    → IsPayload p
    → recv_payload (queue_of p) ((serialize p).payload ++ rest) ≡ some (p, rest)
recv_payload_lem (new m) rest h = rw (new_pokemon_roundtrip m rest h.0, ◌>>=◌)
recv_payload_lem (appeared m) rest h = rw (appeared_pokemon_roundtrip m rest h.0, ◌>>=◌)
recv_payload_lem (catch m) rest h = rw (catch_pokemon_roundtrip m rest h.0, ◌>>=◌)
recv_payload_lem (caught m) rest h = rw (caught_pokemon_roundtrip m rest h, ◌>>=◌)
recv_payload_lem (get m) rest h = rw (get_pokemon_roundtrip m rest h.0, ◌>>=◌)
recv_payload_lem (localized m) rest h = rw (localized_pokemon_roundtrip m rest h.0, ◌>>=◌)

-- What the broker does with the published message: it stores it, tells the sender its id, where
-- that is done, and sends each subscriptor the frame that carries the id.
abbrev pub published : Context → ℕ → ℕ → Payload → Broker → Outcome Response
published ctx socket corr p b =
    let (n, b') = get_message_id b in
    let frame = send_message (code_of p) n corr (serialize p) in
    State.◌>>=◌
      (store_message ctx.lib ctx.cfg ctx.unset ctx.fuel ctx.clock (message_of p n corr) (queue_of p)
        b')
      (λ after. State.done (record {
        broker = after;
        sent =
            acknowledgement (queue_of p) socket n
            ++ map (to_subscriptor frame) (get_queue (queue_of p) b.queues).subscriptors;
      }))

read_lem {ℓ κ} :
    {A : Type ℓ} {B : Type κ} (m : Recv A) (stream : Bytes) (f : A → Bytes → Outcome B) (x : A)
    (rest : Bytes)
    → m stream ≡ some (x, rest)
    → read m stream f ≡ f x rest
read_lem m stream f x rest e = rw (read, e) refl

dispatch-publish :
    (ctx : Context) (socket n : ℕ) (h : Header) (p : Payload) (rest : Bytes) (b : Broker)
    → IsPayload p
    → dispatch ctx (of_u32 (code_of p)) socket n h ((serialize p).payload ++ rest) b
      ≡ State.◌>>=◌ (publish ctx (queue_of p) socket n h p b) (and_rest rest)
dispatch-publish ctx socket n h (new m) rest b k =
    read_lem (recv_payload (queue_of (new m))) ((serialize (new m)).payload ++ rest) _ (new m) rest
      (recv_payload_lem (new m) rest k)
dispatch-publish ctx socket n h (appeared m) rest b k =
    read_lem (recv_payload (queue_of (appeared m))) ((serialize (appeared m)).payload ++ rest) _
      (appeared m) rest (recv_payload_lem (appeared m) rest k)
dispatch-publish ctx socket n h (catch m) rest b k =
    read_lem (recv_payload (queue_of (catch m))) ((serialize (catch m)).payload ++ rest) _ (catch m)
      rest (recv_payload_lem (catch m) rest k)
dispatch-publish ctx socket n h (caught m) rest b k =
    read_lem (recv_payload (queue_of (caught m))) ((serialize (caught m)).payload ++ rest) _
      (caught m) rest (recv_payload_lem (caught m) rest k)
dispatch-publish ctx socket n h (get m) rest b k =
    read_lem (recv_payload (queue_of (get m))) ((serialize (get m)).payload ++ rest) _ (get m) rest
      (recv_payload_lem (get m) rest k)
dispatch-publish ctx socket n h (localized m) rest b k =
    read_lem (recv_payload (queue_of (localized m))) ((serialize (localized m)).payload ++ rest) _
      (localized m) rest (recv_payload_lem (localized m) rest k)

serve_client_frame :
    (ctx : Context) (socket code id corr : ℕ) (f : Buffer) (rest : Bytes) (b : Broker)
    → IsU32 code
    → IsU32 id
    → IsU32 corr
    → IsBuffer f
    → let n = (get_message_id b).0 in
      let b' = (get_message_id b).1 in
      serve_client ctx socket (send_message code id corr f ++ rest) b
      ≡ dispatch ctx
          (of_u32 code)
          socket
          n
          (record { event_code = code; id = id; correlative_id = corr; size = f.size })
          (f.payload ++ rest)
          b'
unfolding serve_client process_request
serve_client_frame ctx socket code id corr f rest b hc hi hr h =
    let e : code % 2 ^ 32 ≡ code = omega arith in
    let tail = u32_bytes id ++ (u32_bytes corr ++ (u32_bytes f.size ++ (f.payload ++ rest))) in
    let whole : send_message code id corr f ++ rest ≡ u32_bytes code ++ tail =
      rw (send_message_lem code id corr f h) (simp append_assoc) in
    rw (whole, serve_client, recv_u32-u32_bytes code tail, e, process_request)
      (read_lem (receive_message code) tail _ _ (f.payload ++ rest)
        (read_header code id corr f.size (f.payload ++ rest) hi hr (omega (arith, h.fits))))

-- A client's frame of any of the six messages, whose fields fit 32 bits and with any bytes behind
-- it, makes the broker read exactly that frame, store the message under the next id, tell the
-- sender that id (for all messages but GET and LOCALIZED) and send each subscriptor of the queue
-- the frame of the same message with the id in place of the client's.
pub serve_client-send :
    (ctx : Context) (socket id corr : ℕ) (p : Payload) (rest : Bytes) (b : Broker)
    → IsU32 id
    → IsU32 corr
    → IsPayload p
    → serve_client ctx socket (send_message (code_of p) id corr (serialize p) ++ rest) b
      ≡ State.◌>>=◌ (published ctx socket corr p b) (and_rest rest)
unfolding publish get_message_id send_message
serve_client-send ctx socket id corr p rest b hi hr h =
    let f = serialize-IsBuffer p h in
    let n = (b.message_count + 1) % 2 ^ 32 in
    serve_client_frame ctx socket (code_of p) id corr (serialize p) rest b (code_of-IsU32 p) hi hr f
    ∙ dispatch-publish ctx socket n (header_of p id corr) p rest (record b { message_count = n }) h
    ∙ refl
