-- ===== src/Broker/Queues.antt =====
-- broker/src/broker.c: acknowledgements, subscriptions and the sending of a queue's messages.
use tp_so_delibird.Common.{
  ◌||◌, true, some, read_at, [], ◌∷◌, ◌+◌, ◌++◌, ◌&&◌, none, map, find?, ◌^◌, ◌==◌, if◌then◌else◌,
  false, Option, ◌%◌, List, Bool, ℕ, suc,
}
use tp_so_delibird.Wire.Bytes.{Bytes}
use tp_so_delibird.Wire.Encode.{send_message}
use tp_so_delibird.Wire.Types.{SubscriptionPetition}
use tp_so_delibird.Broker.Consolidate.{write_through}
use tp_so_delibird.Broker.State.{
  set_queue, get_queue, Broker, QueueName, Subscriptor, QueueMessage, Queue, Receiver, Partition,
  Commons,
}

-- The first receiver with the socket is marked; `none` if there is none.
unfoldable pub ack_receivers : ℕ → List Receiver → Option (List Receiver)
ack_receivers socket [] = none
ack_receivers socket (r ∷ rs) =
    let rest = ack_receivers socket rs in
    if r.receiver_socket == socket
    then some (record r { received = 1 } ∷ rs)
    else elim rest [ none ↦ none | some rs' ↦ some (r ∷ rs') ]

-- The first message with the id that has such a receiver.
unfoldable pub ack_messages : ℕ → ℕ → List QueueMessage → Option (List QueueMessage)
unfolding ack_receivers
ack_messages socket n [] = none
ack_messages socket n (m ∷ ms) =
    let rest = ack_messages socket n ms in
    let later = elim rest as (λ _. Option (List QueueMessage)) [
      | none ↦ none
      | some ms' ↦ some (m ∷ ms')
    ] in
    if m.message.id == n
    then elim (ack_receivers socket m.receivers) [
      | some rs ↦ some (record m { receivers = rs } ∷ ms)
      | none ↦ later
    ]
    else later

module _ (lib : Commons) where
  abbrev pub has_id : Bytes → Subscriptor → Bool
  has_id id s = lib.equals_ignore_case s.subscriptor_info.subscriptor_id id

  unfoldable pub ack_subscriptors :
      Bytes → ℕ → List Subscriptor → List QueueMessage → List QueueMessage
  unfolding ack_messages
  ack_subscriptors id n [] ms = ms
  ack_subscriptors id n (s ∷ ss) ms =
      let later = ack_subscriptors id n ss ms in
      if has_id id s
      then elim (ack_messages s.socket n ms) [ some ms' ↦ ms' | none ↦ later ]
      else later

  unfoldable pub process_message_ack : Queue → Bytes → ℕ → Queue
  unfolding ack_subscriptors
  process_message_ack q id n = record q {
    messages = ack_subscriptors id n q.subscriptors q.messages;
  }

  -- The socket of the subscriptor with this id, 0 if there is none.
  unfoldable pub exist_in_queue : Queue → Bytes → ℕ
  exist_in_queue q id = elim (find? (has_id id) q.subscriptors) [ none ↦ 0 | some s ↦ s.socket ]

  -- A case of the switch of `process_new_subscription`.
  unfoldable pub add_subscriptor : Subscriptor → Queue → Queue
  unfolding exist_in_queue
  add_subscriptor s q =
      if exist_in_queue q s.subscriptor_info.subscriptor_id == 0
      then record q { subscriptors = q.subscriptors ++ (s ∷ []) }
      else q

  -- The first loop of `send_all_messages`: the subscriptors, `old_socket` and
  -- `already_subscribed`. The last two are what the source never set if no one has the id.
  unfoldable pub resubscribe : Bytes → ℕ → List Subscriptor → ℕ × Bool → List Subscriptor × ℕ × Bool
  resubscribe id socket [] (old, already) = ([], old, already)
  resubscribe id socket (s ∷ ss) (old, already) =
      let known = has_id id s in
      let rest = resubscribe id socket ss (if known then (s.socket, true) else (old, already)) in
      ((if known then record s { socket = socket } else s) ∷ rest.0, rest.1, rest.2)

-- Some receiver with the old socket has acknowledged the message.
unfoldable pub already_received : ℕ → List Receiver → Bool
already_received old [] = false
already_received old (r ∷ rs) =
    (r.receiver_socket == old && r.received == 1) || already_received old rs

abbrev pub move_receiver : ℕ → ℕ → Receiver → Receiver
move_receiver old socket r =
    if r.receiver_socket == old then record r { receiver_socket = socket } else r

abbrev pub with_partition_id : ℕ → Partition → Bool
with_partition_id n p = p.id == n

-- What the second loop leaves. `locked` says that it returned with `mutex_messages` held.
pub record Sending : Type 0 where
  pub frames : List Bytes
  pub messages : List QueueMessage
  pub partitions : List Partition
  pub locked : Bool

-- One message to a subscriptor: its content is read from memory and framed.
unfoldable pub content_frame : ℕ → Bytes → QueueMessage → Partition → Bytes
content_frame code cells m p =
    send_message code m.message.id m.message.correlative_id
      (record { size = p.content_size; payload = read_at p.begin p.content_size cells })

module _ (code socket old : ℕ) (already : Bool) (raw_receiver : Receiver) (cells : Bytes) where
  abbrev pub receivers_after : List Receiver → List Receiver
  receivers_after rs =
      if already
      then map (move_receiver old socket) rs
      else rs ++ (record raw_receiver { receiver_socket = socket } ∷ [])

  abbrev pub skips : QueueMessage → Bool
  skips m = already && already_received old m.receivers

  -- `time i` is the clock when the message `i` is sent.
  unfoldable pub send_loop : (ℕ → ℕ) → ℕ → List QueueMessage → List Partition → Sending
  unfolding content_frame write_through already_received
  send_loop time i [] ps = record { frames = []; messages = []; partitions = ps; locked = false }
  send_loop time i (m ∷ ms) ps = elim (skips m) [
    | true ↦ let rest = send_loop time (suc i) ms ps in record rest { messages = m ∷ rest.messages }
    | false ↦ elim (find? (with_partition_id m.message.memory_partition_id) ps) [
      | none ↦ record { frames = []; messages = m ∷ ms; partitions = ps; locked = true }
      | some p ↦
          let rest =
            send_loop time (suc i) ms (write_through (record p { lru_timestamp = time i }) ps) in
          record rest {
            frames = content_frame code cells m p ∷ rest.frames;
            messages = record m { receivers = receivers_after m.receivers } ∷ rest.messages;
          }
    ]
  ]

-- What `send_all_messages` reads and the source never set: `old_socket`, `already_subscribed`, and
-- the receiver that it allocates.
pub record UnsetLocals : Type 0 where
  pub old_socket : ℕ
  pub already_subscribed : Bool
  pub raw_receiver : Receiver

-- The frames sent to the subscriptor, whether the mutex stays locked, and the broker.
unfoldable pub send_all_messages :
    Commons
    → UnsetLocals
    → (ℕ → ℕ)
    → ℕ
    → SubscriptionPetition
    → QueueName
    → Broker
    → List Bytes × Bool × Broker
unfolding resubscribe send_loop
send_all_messages lib locals time socket petition name b =
    let q = get_queue name b.queues in
    let (subscriptors, old, already) =
      resubscribe lib petition.subscriptor_id socket q.subscriptors
        (locals.old_socket, locals.already_subscribed) in
    let s =
      send_loop petition.queue socket old already locals.raw_receiver b.memory.cells time 0
        q.messages b.memory.partitions in
    (
      s.frames,
      s.locked,
      record b {
        queues =
            set_queue name (record { messages = s.messages; subscriptors = subscriptors }) b.queues;
        memory = record (b.memory) { partitions = s.partitions };
      },
    )

-- `process_subscriptor` serves its socket while `time(NULL)` is below this `uint32_t`. The
-- duration is unsigned, so the source's test `duration < 0` never holds.
unfoldable pub end_subscription_time : ℕ → ℕ → ℕ
end_subscription_time now duration = (now % 2 ^ 32 + duration) % 2 ^ 32
