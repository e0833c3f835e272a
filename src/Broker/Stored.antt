-- ===== src/Broker/Stored.antt =====
use tp_so_delibird.Common.{
  ◌∙◌, All-Elem, ◌≤◌, [], ◌∷◌, ◌^◌, ◌<◌, map, ◌++◌, read_at, true, Elem, length, none, ◌≡◌, List,
  refl, arith,
}
use tp_so_delibird.Common.Int.{pos}
use tp_so_delibird.Wire.Encode.{send_message}
use tp_so_delibird.Wire.Types.{Message}
use tp_so_delibird.Broker.Contents.{place-read}
use tp_so_delibird.Broker.Layout.{place-Layout, Inside, Layout}
use tp_so_delibird.Broker.Partitions.{particiones, at_least}
use tp_so_delibird.Broker.Queues.{content_frame}
use tp_so_delibird.Broker.State.{
  ◌>>=◌, set_queue, get_queue, Queues, Queue, is_occupied, done, Partition, Broker, QueueName,
  QueueMessage, Receiver, Unset, Config, Commons, queue_new_pokemon, queue_appeared_pokemon,
  queue_catch_pokemon, queue_caught_pokemon, queue_get_pokemon, queue_localized_pokemon,
}
use tp_so_delibird.Broker.Store.{
  carved, receiver_of, place, store_payload_particiones, store_message, Clock,
}
use tp_so_delibird.Broker.Waiting.{
  get_free_partition_particiones-Got, Got, free_bytes, Elem-append_middle,
}
use Prim.Native.Nat.{suc, ℕ}
use mathlib.Core.Path.{subst}

-- What `store_message` leaves with the algorithm PARTICIONES: the message is stored whenever the
-- free partitions have together enough bytes.

-- The message that the queue holds.
abbrev pub queued : Message → ℕ → List Receiver → QueueMessage
queued msg n rs = record {
  message = record {
    event_code = msg.event_code;
    id = msg.id;
    correlative_id = msg.correlative_id;
    memory_partition_id = n;
  };
  receivers = rs;
}

pub record IsStored (lib : Commons) (cfg : Config) (unset : Unset) (room fuel : ℕ) (clock : Clock)
    (msg : Message) (name : QueueName) (b : Broker) : Type 0 where
  pub after : Broker
  pub partition : Partition
  pub returned : store_message lib cfg unset fuel clock msg name b ≡ done after
  pub layout : Layout room after.memory
  pub member : Elem partition after.memory.partitions
  pub taken : is_occupied partition ≡ true
  pub content : read_at partition.begin msg.buffer.size after.memory.cells ≡ msg.buffer.payload
  pub content_size : partition.content_size ≡ at_least cfg.tamano_minimo_particion msg.buffer.size
  pub queue : get_queue name after.queues ≡ (
      let q = get_queue name b.queues in
      record q {
        messages = q.messages ++ (queued msg partition.id (map (receiver_of) q.subscriptors) ∷ []);
      })

pub get-set_queue :
    (name : QueueName) (q : Queue) (qs : Queues) → get_queue name (set_queue name q qs) ≡ q
get-set_queue queue_new_pokemon q qs = refl
get-set_queue queue_appeared_pokemon q qs = refl
get-set_queue queue_catch_pokemon q qs = refl
get-set_queue queue_caught_pokemon q qs = refl
get-set_queue queue_get_pokemon q qs = refl
get-set_queue queue_localized_pokemon q qs = refl

module _ (lib : Commons) (cfg : Config) (unset : Unset) (null : unset.best_partition ≡ none)
    (room : ℕ) (size_of : cfg.tamano_memoria ≡ room) (block : length unset.raw_cells ≡ room) (k : ℕ)
    (often : cfg.frecuencia_compactacion ≡ pos (suc k))
    (simple : lib.equals_ignore_case cfg.algoritmo_memoria particiones ≡ true) where
  -- With PARTICIONES, a compaction frequency of at least 1 and best fit from NULL: in a whole
  -- memory without overlaps whose free partitions have together enough bytes for the payload and
  -- the configured minimum, `store_message` returns. The queue has the message behind the others,
  -- with one unacknowledged receiver for each subscriptor and no message lost; an occupied
  -- partition holds the payload, and the memory is still whole and without overlaps. (The size of
  -- the buffer is that of the payload, the configured size is that of the memory, and fewer than
  -- 2^32 - 2 partitions were made before.)
  pub store_message-IsStored :
      (fuel : ℕ) (clock : Clock) (msg : Message) (name : QueueName) (b : Broker)
      → Layout room b.memory
      → suc (suc b.memory.partition_count) < 2 ^ 32
      → length msg.buffer.payload ≡ msg.buffer.size
      → at_least cfg.tamano_minimo_particion msg.buffer.size ≤ free_bytes b.memory.partitions
      → IsStored lib cfg unset room (suc fuel) clock msg name b
  unfolding store_message store_payload_particiones place
  store_message-IsStored fuel clock msg name b l few exact h =
      let size = msg.buffer.size in
      let size' : ℕ = at_least cfg.tamano_minimo_particion size in
      let g : Got lib cfg unset room (suc fuel) size b =
        get_free_partition_particiones-Got lib cfg unset null room size_of block k often fuel size b
          l (omega arith) h in
      let (n, m) = place cfg unset clock msg.buffer.payload size g.hole g.after.memory in
      let at : Inside room g.hole =
        All-Elem (Inside room) g.after.memory.partitions g.layout.inside g.member in
      let fits : size' ≤ g.hole.partition_size = ground (arith, g.fit) in
      let q = get_queue name b.queues in
      record {
        after = record g.after {
          memory = m;
          queues =
              set_queue name
                (record q {
                  messages = q.messages ++ (queued msg n (map receiver_of q.subscriptors) ∷ []);
                })
                b.queues;
        };
        partition = carved unset clock n size' g.hole;
        returned = rw (simple, g.returned, ◌>>=◌, g.queues) refl;
        layout =
            place-Layout cfg unset clock msg.buffer.payload size room g.hole g.after.memory g.layout
              g.member fits (omega (arith, g.count));
        member = Elem-append_middle _ _ [];
        taken = refl;
        content =
            subst
              (λ n.
                read_at g.hole.begin n
                  (place cfg unset clock msg.buffer.payload n g.hole g.after.memory).1.cells
                ≡ msg.buffer.payload)
              exact
              (place-read cfg unset clock msg.buffer.payload g.hole g.after.memory
                (omega (arith, g.layout.room)) (ground (arith)));
        content_size = refl;
        queue = get-set_queue name _ _;
      }

-- If the payload of a stored message has at least the configured minimum of bytes, a subscriptor
-- that comes later is sent the frame of that very payload.
IsStored-content_frame :
    (lib : Commons) (cfg : Config) (unset : Unset) (room fuel code : ℕ) (clock : Clock)
    (msg : Message) (name : QueueName) (b : Broker)
    → (s : IsStored lib cfg unset room fuel clock msg name b)
    → cfg.tamano_minimo_particion ≤ msg.buffer.size
    → content_frame code s.after.memory.cells (queued msg s.partition.id []) s.partition
      ≡ send_message code msg.id msg.correlative_id msg.buffer
unfolding content_frame
IsStored-content_frame lib cfg unset room fuel code clock msg name b s h =
    let e : s.partition.content_size ≡ msg.buffer.size = s.content_size ∙ ground arith in
    rw (e, s.content) refl
