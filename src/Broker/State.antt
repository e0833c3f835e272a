-- ===== src/Broker/State.antt =====
-- The structs and globals of broker/src/broker.h. A `t_list*` is a list; a pointer to a partition
-- is the partition, and a write through it reaches the list's element with the same id.
use tp_so_delibird.Common.{ℕ, ◌+◌, ◌%◌, ◌^◌, List, [], Option, none, some, Bool, true, false}
use tp_so_delibird.Common.Int.{ℤ}
use tp_so_delibird.Wire.Bytes.{Bytes}
use tp_so_delibird.Wire.Types.{EventCode, SubscriptionPetition}

-- The functions of the commons library that the broker calls on texts.
pub record Commons : Type 0 where
  pub equals_ignore_case : Bytes → Bytes → Bool
  pub string_append : Bytes → Bytes → Bytes
  pub string_substring : Bytes → ℕ → ℕ → Bytes

-- What a call leaves: a result, a read of a variable or pointer that the source never set, or a
-- loop that has not ended within its fuel.
pub data Outcome {ℓ} (A : Type ℓ) : Type ℓ where
  done : A → Outcome A
  undefined : Outcome A
  out_of_fuel : Outcome A

infixl 5 ◌>>=◌
abbrev pub ◌>>=◌ {ℓ κ} : {A : Type ℓ} {B : Type κ} → Outcome A → (A → Outcome B) → Outcome B
done a >>= f = f a
undefined >>= f = undefined
out_of_fuel >>= f = out_of_fuel

pub data PartitionStatus : Type 0 where
  free occupied : PartitionStatus

pub record Partition : Type 0 where
  pub begin : ℕ
  pub id : ℕ
  pub status : PartitionStatus
  pub content_size : ℕ
  pub partition_size : ℕ
  pub lru_timestamp : ℕ
  pub occupied_timestamp : ℕ
  pub father : Bytes
  pub side : Bytes

pub record Config : Type 0 where
  pub algoritmo_memoria : Bytes
  pub algoritmo_reemplazo : Bytes
  pub algoritmo_particion_libre : Bytes
  pub tamano_memoria : ℕ
  pub tamano_minimo_particion : ℕ
  pub frecuencia_compactacion : ℤ

pub record Receiver : Type 0 where
  pub receiver_socket : ℕ
  pub received : ℕ

pub record MemoryMessage : Type 0 where
  pub event_code : ℕ
  pub id : ℕ
  pub correlative_id : ℕ
  pub memory_partition_id : ℕ

pub record QueueMessage : Type 0 where
  pub message : MemoryMessage
  pub receivers : List Receiver

pub record Subscriptor : Type 0 where
  pub subscriptor_info : SubscriptionPetition
  pub socket : ℕ

pub record Queue : Type 0 where
  pub messages : List QueueMessage
  pub subscriptors : List Subscriptor

pub data QueueName : Type 0 where
  queue_new_pokemon queue_appeared_pokemon queue_catch_pokemon : QueueName
  queue_caught_pokemon queue_get_pokemon queue_localized_pokemon : QueueName

-- The queue that a case of a switch names; `none` is the default case.
abbrev pub queue_of_code : Option EventCode → Option QueueName
queue_of_code (some EventCode.new_pokemon) = some queue_new_pokemon
queue_of_code (some EventCode.appeared_pokemon) = some queue_appeared_pokemon
queue_of_code (some EventCode.catch_pokemon) = some queue_catch_pokemon
queue_of_code (some EventCode.caught_pokemon) = some queue_caught_pokemon
queue_of_code (some EventCode.get_pokemon) = some queue_get_pokemon
queue_of_code (some EventCode.localized_pokemon) = some queue_localized_pokemon
queue_of_code _ = none

pub record Queues : Type 0 where
  pub new_pokemon : Queue
  pub appeared_pokemon : Queue
  pub catch_pokemon : Queue
  pub caught_pokemon : Queue
  pub get_pokemon : Queue
  pub localized_pokemon : Queue

abbrev pub get_queue : QueueName → Queues → Queue
get_queue queue_new_pokemon qs = qs.new_pokemon
get_queue queue_appeared_pokemon qs = qs.appeared_pokemon
get_queue queue_catch_pokemon qs = qs.catch_pokemon
get_queue queue_caught_pokemon qs = qs.caught_pokemon
get_queue queue_get_pokemon qs = qs.get_pokemon
get_queue queue_localized_pokemon qs = qs.localized_pokemon

abbrev pub set_queue : QueueName → Queue → Queues → Queues
set_queue queue_new_pokemon q qs = record qs { new_pokemon = q }
set_queue queue_appeared_pokemon q qs = record qs { appeared_pokemon = q }
set_queue queue_catch_pokemon q qs = record qs { catch_pokemon = q }
set_queue queue_caught_pokemon q qs = record qs { caught_pokemon = q }
set_queue queue_get_pokemon q qs = record qs { get_pokemon = q }
set_queue queue_localized_pokemon q qs = record qs { localized_pokemon = q }

-- The bytes behind `memory`, the partitions and the counter of their ids.
pub record Memory : Type 0 where
  pub cells : Bytes
  pub partitions : List Partition
  pub partition_count : ℕ

pub record Broker : Type 0 where
  pub memory : Memory
  pub queues : Queues
  pub message_count : ℕ

-- What the source reads before it writes: the two locals that it never initialises, the fields of
-- a partition fresh from `malloc` (given the id that it will carry), and a fresh block of memory.
pub record Unset : Type 0 where
  pub best_partition : Option Partition
  pub search_count : ℤ
  pub raw : ℕ → Partition
  pub raw_cells : Bytes

unfoldable pub get_message_id : Broker → ℕ × Broker
get_message_id b = let n = (b.message_count + 1) % 2 ^ 32 in (n, record b { message_count = n })

unfoldable pub get_partition_id : Memory → ℕ × Memory
get_partition_id m =
    let n = (m.partition_count + 1) % 2 ^ 32 in (n, record m { partition_count = n })

abbrev empty_queue : Queue
empty_queue = record { messages = []; subscriptors = [] }

unfoldable pub queues_init : Queues
queues_init = record {
  new_pokemon = empty_queue;
  appeared_pokemon = empty_queue;
  catch_pokemon = empty_queue;
  caught_pokemon = empty_queue;
  get_pokemon = empty_queue;
  localized_pokemon = empty_queue;
}

abbrev pub is_free : Partition → Bool
is_free p = elim p.status [ free ↦ true | occupied ↦ false ]

abbrev pub is_occupied : Partition → Bool
is_occupied p = elim p.status [ free ↦ false | occupied ↦ true ]
