-- ===== src/Tests/Queues.antt =====
-- The theorems on the queues at a queue with one message and one subscriptor.
use tp_so_delibird.Common.{
  some, All, map, false, ◌++◌, Pairs, true, ◌+◌, List, [], ◌∷◌, refl, arith, none, ◌≡◌,
}
use tp_so_delibird.Wire.Bytes.{Bytes}
use tp_so_delibird.Wire.Encode.{send_message}
use tp_so_delibird.Wire.Payload.{serialize, new}
use tp_so_delibird.Wire.Types.{NewPokemon}
use tp_so_delibird.Broker.Acknowledgements.{ack_messages-Acked, Acked}
use tp_so_delibird.Broker.Again.{subscribe-again}
use tp_so_delibird.Broker.Late.{subscribe-NeverSent}
use tp_so_delibird.Broker.Publish.{serve_client-send, published}
use tp_so_delibird.Broker.Queues.{already_received, send_loop, add_subscriptor, ack_messages}
use tp_so_delibird.Broker.Requests.{and_rest, subscribe, serve_client, Context}
use tp_so_delibird.Broker.Sending.{send_loop-frames, pending, frames_of}
use tp_so_delibird.Broker.State.{
  done, QueueMessage, Commons, get_queue, set_queue, Broker, Receiver, queue_new_pokemon,
}
use tp_so_delibird.Broker.Subscriptors.{add_subscriptor-Distinct, IsOpen, Distinct}
use tp_so_delibird.Client.Command.{Sender}
use tp_so_delibird.Client.Entered.{game_boy-serve_client, entered, command}
use tp_so_delibird.Client.GameBoy.{game_boy, to_broker}
use tp_so_delibird.Tests.Data.{
  taken, pika-IsText, unset, partitions, broker, petition, ash, ash_at, news, memory, config,
  stored, pika, commons,
}
use tp_so_delibird.Tests.Splits.{commons-IsComparison}
use tp_so_delibird.Broker.State

abbrev raw_receiver : Receiver
raw_receiver = record { receiver_socket = 77; received = 77 }

abbrev context : Context
context = record {
  lib = commons;
  cfg = config;
  unset = unset;
  locals = record { old_socket = 0; already_subscribed = false; raw_receiver = raw_receiver };
  fuel = 1;
  clock = record { lru_time = 100; occupied_time = 101 };
  time = λ i. 200 + i;
}

abbrev a_new : NewPokemon
a_new = record { pokemon_len = 4; pokemon = pika; pos_x = 1; pos_y = 2; count = 3 }

abbrev other : Bytes
other = b'G' ∷ b'a' ∷ b'r' ∷ []

serve_client-send_example :
    serve_client context 4 (send_message 1 0 0 (serialize (new a_new)) ++ (7 ∷ [])) broker
    ≡ State.◌>>=◌ (published context 4 0 (new a_new) broker) (and_rest (7 ∷ []))
serve_client-send_example =
    serve_client-send context 4 0 0 (new a_new) (7 ∷ []) broker (omega arith) (omega arith) (
      record { name = pika-IsText; x = omega arith; y = omega arith; quantity = omega arith },
      omega arith,
    )

ack_messages-Acked_example : Acked 5 9 (stored ∷ []) (ack_messages 5 9 (stored ∷ []))
ack_messages-Acked_example = ack_messages-Acked 5 9 (stored ∷ [])

abbrev marked_receivers : List Receiver
marked_receivers = record { receiver_socket = 5; received = 1 } ∷ []

send_loop-frames_example :
    (let s =
        send_loop 1 5 5 true raw_receiver memory.cells (λ i. 200 + i) 0 (stored ∷ []) partitions in
      (s.frames
        ≡ frames_of 1 memory.cells partitions
            (pending 1 5 5 true raw_receiver memory.cells (stored ∷ [])))
      × (s.locked ≡ false))
send_loop-frames_example =
    send_loop-frames 1 5 5 true raw_receiver memory.cells (λ i. 200 + i) 0 (stored ∷ []) partitions
      ((taken, refl), tt)

subscribe-NeverSent_example :
    (let after =
        get_queue queue_new_pokemon (subscribe context 6 (petition other) broker).broker.queues in
      (after.messages ≡ stored ∷ []) × (ack_messages 6 9 after.messages ≡ none))
subscribe-NeverSent_example =
    subscribe-NeverSent context queue_new_pokemon 6 9 (petition other) broker refl refl (refl, tt)
      ((refl, tt), tt)

add_subscriptor-Distinct_example :
    (let after =
        add_subscriptor commons (record { subscriptor_info = petition other; socket = 6 }) news in
      Pairs (Distinct commons) after.subscriptors × All IsOpen after.subscriptors)
add_subscriptor-Distinct_example =
    add_subscriptor-Distinct commons (record { subscriptor_info = petition other; socket = 6 }) news
      (λ h. absurd (omega (arith, h))) ((λ h. absurd (omega (arith, h))), tt) (tt, tt)

abbrev acknowledged : QueueMessage
acknowledged = record stored { receivers = marked_receivers }

abbrev returning : Broker
returning = record broker {
  queues = set_queue queue_new_pokemon (record news { messages = acknowledged ∷ [] }) broker.queues;
}

subscribe-again_example :
    (let once = subscribe context 6 (petition ash) returning in
      (once.sent ≡ [])
      × ((subscribe context 7 (petition ash) once.broker).sent
          ≡ map
              (λ frame. (7, frame))
              (frames_of 1 memory.cells returning.memory.partitions (acknowledged ∷ []))))
unfolding already_received
subscribe-again_example =
    subscribe-again context queue_new_pokemon (petition ash) refl 5 6 7 returning
      (record {
        before = [];
        member = ash_at 5;
        after = [];
        split = refl;
        earlier = tt;
        later = tt;
        same = refl;
        over = refl;
        open_socket = refl;
      })
      refl (refl, tt) ((refl, tt), tt) ((taken, refl), tt)

abbrev player : Sender
player = record { sender_id = b'g' ∷ b'b' ∷ []; sender_ip = b'h' ∷ []; sender_port = 5003 }

game_boy-serve_client_example :
    (frame : Bytes) × ((game_boy commons player (command [] (b'm' ∷ b'e' ∷ b'w' ∷ []) 3 4 2)
        ≡ done (some (to_broker, frame)))
      × (serve_client context 4 (frame ++ (7 ∷ [])) broker
          ≡ State.◌>>=◌
              (published context 4 0 (new (entered (b'm' ∷ b'e' ∷ b'w' ∷ []) 3 4 2)) broker)
              (and_rest (7 ∷ []))))
game_boy-serve_client_example =
    game_boy-serve_client commons player commons-IsComparison [] (b'm' ∷ b'e' ∷ b'w' ∷ []) 3 4 2
      context 4 (7 ∷ []) broker (omega arith) (omega arith) (omega arith) (omega arith)
