-- ===== src/Broker/Store.antt =====
-- broker/src/broker.c `store_payload_particiones`, `store_payload_bs` and `store_message`.
use tp_so_delibird.Common.{
  map, leb, false, ◌++◌, insert_at, ◌/◌, ◌-◌, take, some, ◌^◌, ◌==◌, ◌&&◌, write_at, none, ◌%◌, not,
  if◌then◌else◌, [], ◌∷◌, ◌+◌, Option, List, Bool, ℕ, zero, suc,
}
use tp_so_delibird.Wire.Bytes.{Bytes}
use tp_so_delibird.Wire.Types.{Message}
use tp_so_delibird.Broker.Consolidate.{write_through}
use tp_so_delibird.Broker.Evict.{get_free_partition_particiones, get_free_partition_bs}
use tp_so_delibird.Broker.Partitions.{particiones, at_least}
use tp_so_delibird.Broker.State.{
  set_queue, QueueMessage, get_queue, ◌>>=◌, done, undefined, out_of_fuel, Receiver, QueueName,
  Subscriptor, Outcome, Broker, occupied, free, Memory, Config, get_partition_id, Unset, Partition,
  Commons,
}

-- The two readings of the clock that a stored partition takes.
pub record Clock : Type 0 where
  pub lru_time : ℕ
  pub occupied_time : ℕ

-- The partition that takes the front of the free partition `hole`, and what is left of the hole.
abbrev pub carved : Unset → Clock → ℕ → ℕ → Partition → Partition
carved unset clock n size hole = record (unset.raw n) {
  begin = hole.begin;
  partition_size = size;
  content_size = size;
  status = occupied;
  lru_timestamp = clock.lru_time;
  occupied_timestamp = clock.occupied_time;
  id = n;
}

abbrev pub shrunk : ℕ → Partition → Partition
shrunk size hole = record hole {
  begin = (hole.begin + size) % 2 ^ 32;
  partition_size = (hole.partition_size + 2 ^ 32 - size) % 2 ^ 32;
}

-- The part of `store_payload_particiones` behind the search: the payload is written at the front
-- of `hole`. The result is the id of the new partition.
unfoldable pub place : Config → Unset → Clock → Bytes → ℕ → Partition → Memory → ℕ × Memory
unfolding get_partition_id write_through
place cfg unset clock payload size hole m =
    let size' = at_least cfg.tamano_minimo_particion size in
    let (n, m') = get_partition_id m in
    (
      n,
      record m' {
        cells = write_at hole.begin (take size payload) m.cells;
        partitions =
            write_through (shrunk size' hole) m.partitions
            ++ (carved unset clock n size' hole ∷ []);
      },
    )

abbrev pub side_0 : Bytes
side_0 = b'0' ∷ []

abbrev pub side_1 : Bytes
side_1 = b'1' ∷ []

abbrev pub half : Unset → Partition → Bytes → Bytes → ℕ → ℕ → ℕ → Partition
half unset p father side n begin size = record (unset.raw n) {
  id = n;
  begin = begin;
  partition_size = size;
  lru_timestamp = 0;
  occupied_timestamp = 0;
  status = free;
  father = father;
  side = side;
}

-- The loop that takes the partition with the id `n` off the list. The element behind a removed one
-- is passed over, which `skip` says.
unfoldable pub remove_each : ℕ → Bool → List Partition → List Partition
remove_each n skip [] = []
remove_each n skip (p ∷ ps) =
    let gone = not skip && p.id == n in
    let rest = remove_each n gone ps in if gone then rest else p ∷ rest

-- The last index of the partition with the id `n`.
unfoldable pub part_index : ℕ → ℕ → List Partition → Option ℕ → Option ℕ
part_index n i [] found = found
part_index n i (p ∷ ps) found = part_index n (suc i) ps (if p.id == n then some i else found)

-- `while (partition_size_to_use / 2 >= minimum_size)`: the partition is halved, and the first half
-- is taken.
unfoldable pub split_loop :
    Commons → Unset → ℕ → ℕ → ℕ → ℕ → Partition → Memory → Outcome (Partition × Memory)
unfolding get_partition_id remove_each
split_loop lib unset zero index minimum size p m = out_of_fuel
split_loop lib unset (suc fuel) index minimum size p m =
    let father = lib.string_append p.father p.side in
    let (n₁, m₁) = get_partition_id m in
    let (n₂, m₂) = get_partition_id m₁ in
    let first = half unset p father side_0 n₁ p.begin (size / 2) in
    let second = half unset p father side_1 n₂ ((p.begin + size / 2) % 2 ^ 32) (size / 2) in
    let list = insert_at (suc index) second (insert_at index first m.partitions) in
    let rest =
      split_loop lib unset fuel index minimum (size / 2) first
        (record m₂ { partitions = remove_each p.id false list }) in
    if leb minimum (size / 2) then rest else done (p, m)

-- The part of `store_payload_bs` behind the search.
unfoldable pub place_bs :
    Commons → Config → Unset → Clock → Bytes → ℕ → Partition → Memory → Outcome (ℕ × Memory)
unfolding split_loop part_index write_through
place_bs lib cfg unset clock payload size hole m = elim (part_index hole.id 0 m.partitions none) [
  | none ↦ undefined
  | some index ↦
      split_loop lib unset 33 index (at_least cfg.tamano_minimo_particion size) hole.partition_size
        hole m
      >>= λ (p, m'). done (
        p.id,
        record m' {
          cells = write_at p.begin (take size payload) m'.cells;
          partitions =
              write_through
                (record p {
                  status = occupied;
                  lru_timestamp = clock.lru_time;
                  occupied_timestamp = clock.occupied_time;
                  content_size = size;
                })
                m'.partitions;
        },
      )
]

abbrev pub receiver_of : Subscriptor → Receiver
receiver_of s = record { receiver_socket = s.socket; received = 0 }

module _ (lib : Commons) (cfg : Config) (unset : Unset) (fuel : ℕ) (clock : Clock) where
  unfoldable pub store_payload_particiones : Bytes → ℕ → Broker → Outcome (ℕ × Broker)
  unfolding get_free_partition_particiones place
  store_payload_particiones payload size b =
      get_free_partition_particiones lib cfg unset fuel size b >>= λ (hole, b').
      let (n, m) = place cfg unset clock payload size hole b'.memory in
      done (n, record b' { memory = m })

  unfoldable pub store_payload_bs : Bytes → ℕ → Broker → Outcome (ℕ × Broker)
  unfolding get_free_partition_bs place_bs
  store_payload_bs payload size b =
      get_free_partition_bs lib cfg unset fuel size b >>= λ (hole, b').
      place_bs lib cfg unset clock payload size hole b'.memory >>= λ (n, m).
      done (n, record b' { memory = m })

  abbrev pub store_payload : Bytes → ℕ → Broker → Outcome (ℕ × Broker)
  store_payload payload size b =
      if lib.equals_ignore_case cfg.algoritmo_memoria particiones
      then store_payload_particiones payload size b
      else store_payload_bs payload size b

  -- The message is stored and put on its queue, with a receiver for each subscriptor.
  unfoldable pub store_message : Message → QueueName → Broker → Outcome Broker
  unfolding store_payload_particiones store_payload_bs
  store_message msg name b = store_payload msg.buffer.payload msg.buffer.size b >>= λ (n, b').
      let q = get_queue name b'.queues in
      let stored : QueueMessage = record {
        message = record {
          event_code = msg.event_code;
          id = msg.id;
          correlative_id = msg.correlative_id;
          memory_partition_id = n;
        };
        receivers = map receiver_of q.subscriptors;
      } in
      done (record b' {
        queues = set_queue name (record q { messages = q.messages ++ (stored ∷ []) }) b'.queues;
      })
