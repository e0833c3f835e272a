-- ===== src/Broker/Requests.antt =====
-- broker/src/broker.c `process_request`, `process_new_subscription` and
-- `process_message_received`. The six cases for messages differ in their queue, in their
-- deserializer and in whether the sender is told the new id.
use tp_so_delibird.Common.{
  none, some, true, false, List, [], ◌∷◌, map, ◌++◌, ◌^◌, ◌%◌, ◌+◌, take, if◌then◌else◌, Bool,
  Option, ℕ,
}
use tp_so_delibird.Wire.Bytes.{recv_bytes, recv_u32, Bytes, ◌>>=◌, Recv, pure}
use tp_so_delibird.Wire.Decode.{
  deserialize_localized_pokemon_message, deserialize_get_pokemon_message,
  deserialize_caught_pokemon_message, deserialize_catch_pokemon_message,
  deserialize_appeared_pokemon_message, receive_message, deserialize_new_pokemon_message, Header,
}
use tp_so_delibird.Wire.Encode.{serialize_message, return_message_id}
use tp_so_delibird.Wire.Payload.{new, appeared, catch, caught, get, localized, serialize, Payload}
use tp_so_delibird.Wire.Types.{Message, of_u32, SubscriptionPetition, MessageReceived, EventCode}
use tp_so_delibird.Broker.Queues.{
  UnsetLocals, send_all_messages, process_message_ack, add_subscriptor,
}
use tp_so_delibird.Broker.State.{
  set_queue, undefined, queue_new_pokemon, queue_appeared_pokemon, queue_catch_pokemon,
  queue_caught_pokemon, queue_get_pokemon, queue_localized_pokemon, get_queue, get_message_id,
  Unset, queue_of_code, Subscriptor, Outcome, Config, QueueName, Commons, Broker, done,
}
use tp_so_delibird.Broker.Store.{Clock, store_message}
use tp_so_delibird.Broker.State

unfoldable pub recv_subscription_petition : Recv SubscriptionPetition
recv_subscription_petition = do
  subscriptor_len ← recv_u32
  subscriptor_id ← recv_bytes subscriptor_len
  queue_type ← recv_u32
  ip_len ← recv_u32
  ip ← recv_bytes ip_len
  port ← recv_u32
  duration ← recv_u32
  pure (record {
    subscriptor_len = subscriptor_len;
    subscriptor_id = subscriptor_id;
    queue = queue_type;
    ip_len = ip_len;
    ip = ip;
    port = port;
    duration = duration;
  })

unfoldable pub recv_message_received : Recv MessageReceived
recv_message_received = do
  subscriptor_len ← recv_u32
  subscriptor_id ← recv_bytes subscriptor_len
  message_type ← recv_u32
  received_message_id ← recv_u32
  pure (record {
    subscriptor_len = subscriptor_len;
    subscriptor_id = subscriptor_id;
    message_type = message_type;
    received_message_id = received_message_id;
  })

-- The deserializers of the six cases.
abbrev pub recv_payload : QueueName → Recv Payload
recv_payload queue_new_pokemon = do m ← deserialize_new_pokemon_message; pure (new m.0)
recv_payload queue_appeared_pokemon = do
  m ← deserialize_appeared_pokemon_message
  pure (appeared m.0)
recv_payload queue_catch_pokemon = do m ← deserialize_catch_pokemon_message; pure (catch m.0)
recv_payload queue_caught_pokemon = do m ← deserialize_caught_pokemon_message; pure (caught m.0)
recv_payload queue_get_pokemon = do m ← deserialize_get_pokemon_message; pure (get m.0)
recv_payload queue_localized_pokemon = do
  m ← deserialize_localized_pokemon_message
  pure (localized m.0)

-- The cases that call `return_message_id`.
abbrev pub returns_id : QueueName → Bool
returns_id queue_get_pokemon = false
returns_id queue_localized_pokemon = false
returns_id _ = true

-- What a request leaves: the broker, and the bytes handed to `send` for each socket, in order.
pub record Response : Type 0 where
  pub broker : Broker
  pub sent : List (ℕ × Bytes)

-- What the environment gives one request.
pub record Context : Type 0 where
  pub lib : Commons
  pub cfg : Config
  pub unset : Unset
  pub locals : UnsetLocals
  pub fuel : ℕ
  pub clock : Clock
  pub time : ℕ → ℕ

abbrev pub to_subscriptor : Bytes → Subscriptor → ℕ × Bytes
to_subscriptor frame s = (s.socket, frame)

abbrev pub acknowledgement : QueueName → ℕ → ℕ → List (ℕ × Bytes)
acknowledgement name socket n = if returns_id name then (socket, return_message_id n) ∷ [] else []

-- One of the six cases, once the message is read: it is sent to the subscriptors and stored.
-- The broker is the one that has given out the id `n`.
unfoldable pub publish : Context → QueueName → ℕ → ℕ → Header → Payload → Broker → Outcome Response
unfolding store_message
publish ctx name socket n header payload b =
    let buffer = serialize payload in
    let message : Message = record {
      event_code = header.event_code;
      id = n;
      correlative_id = header.correlative_id;
      buffer = buffer;
    } in
    let frame = take ((buffer.size + 4 + 4 + 4 + 4) % 2 ^ 32) (serialize_message message) in
    State.◌>>=◌ (store_message ctx.lib ctx.cfg ctx.unset ctx.fuel ctx.clock message name b) (λ b'.
      done (record {
        broker = b';
        sent =
            acknowledgement name socket n
            ++ map (to_subscriptor frame) (get_queue name b.queues).subscriptors;
      }))

-- The subscriptor is added, and is sent the messages of the queue. An unknown queue ends the
-- thread. (`process_subscriptor` then goes on reading requests from the socket.)
unfoldable pub subscribe : Context → ℕ → SubscriptionPetition → Broker → Response
unfolding add_subscriptor send_all_messages
subscribe ctx socket petition b = elim (queue_of_code (of_u32 petition.queue)) [
  | none ↦ record { broker = b; sent = [] }
  | some name ↦
      let s : Subscriptor = record { subscriptor_info = petition; socket = socket } in
      let added = record b {
        queues = set_queue name (add_subscriptor ctx.lib s (get_queue name b.queues)) b.queues;
      } in
      let (frames, locked, b') =
        send_all_messages ctx.lib ctx.locals ctx.time socket petition name added in
      record { broker = b'; sent = map (λ frame. (socket, frame)) frames }
]

unfoldable pub acknowledge : Context → MessageReceived → Broker → Broker
unfolding process_message_ack
acknowledge ctx m b = elim (queue_of_code (of_u32 m.message_type)) [
  | none ↦ b
  | some name ↦ record b {
    queues =
        set_queue name
          (process_message_ack ctx.lib (get_queue name b.queues) m.subscriptor_id
            m.received_message_id)
          b.queues;
  }
]

-- A message that ends early leaves the source with variables that it never set.
abbrev pub read {ℓ κ} :
    {A : Type ℓ} {B : Type κ} → Recv A → Bytes → (A → Bytes → Outcome B) → Outcome B
read m stream f = elim (m stream) [ none ↦ undefined | some (a, rest) ↦ f a rest ]

abbrev pub and_rest : Bytes → Response → Outcome (Response × Bytes)
and_rest rest r = done (r, rest)

-- The switch of `process_request`, with the id `n` that the request was given.
abbrev pub dispatch :
    Context → Option EventCode → ℕ → ℕ → Header → Bytes → Broker → Outcome (Response × Bytes)
dispatch ctx (some EventCode.new_subscriptor) socket n header stream b =
    read recv_subscription_petition stream
      (λ petition rest. and_rest rest (subscribe ctx socket petition b))
dispatch ctx (some EventCode.message_received) socket n header stream b =
    read recv_message_received stream
      (λ m rest. and_rest rest (record { broker = acknowledge ctx m b; sent = [] }))
dispatch ctx code socket n header stream b = elim (queue_of_code code) [
  | none ↦ and_rest stream (record { broker = b; sent = [] })
  | some name ↦
      read (recv_payload name) stream
        (λ payload rest. State.◌>>=◌ (publish ctx name socket n header payload b) (and_rest rest))
]

-- The bytes that the request did not read are returned with its response.
unfoldable pub process_request : Context → ℕ → ℕ → Bytes → Broker → Outcome (Response × Bytes)
unfolding publish subscribe acknowledge
process_request ctx code socket stream b = read (receive_message code) stream (λ header rest.
    let (n, b') = get_message_id b in dispatch ctx (of_u32 code) socket n header rest b')

-- The thread of a new connection: a peer that closes at once changes nothing, otherwise the code
-- is read and the request processed.
unfoldable pub serve_client : Context → ℕ → Bytes → Broker → Outcome (Response × Bytes)
unfolding process_request
serve_client ctx socket stream b = elim (recv_u32 stream) [
  | none ↦ elim stream [ [] ↦ done (record { broker = b; sent = [] }, []) | _ ∷ _ ↦ undefined ]
  | some (code, rest) ↦ process_request ctx code socket rest b
]
