-- ===== src/Tests/Data.antt =====
-- Messages, partitions and queues that the examples share.
use tp_so_delibird.Common.{
  false, ◌==◌, ◌&&◌, drop, true, take, leb, ◌++◌, inl, if◌then◌else◌, Bool, ℕ, List, [], ◌∷◌, ◌-◌,
  refl, arith, none, zero, suc,
}
use tp_so_delibird.Common.Int.{pos}
use tp_so_delibird.Wire.Bytes.{Bytes}
use tp_so_delibird.Wire.Readers.{IsText}
use tp_so_delibird.Wire.Types.{SubscriptionPetition}
use tp_so_delibird.Broker.Layout.{Layout}
use tp_so_delibird.Broker.Partitions.{first_fit, fifo, particiones}
use tp_so_delibird.Broker.State.{
  queues_init, Subscriptor, Unset, QueueMessage, Queue, Partition, Memory, Config, Commons, Broker,
  free, occupied,
}

-- Concrete stand-ins for the functions of the commons library.
abbrev upper : ℕ → ℕ
upper c = if leb 97 c && leb c 122 then c - 32 else c

abbrev equals_ignore_case : Bytes → Bytes → Bool
equals_ignore_case [] [] = true
equals_ignore_case (a ∷ xs) (b ∷ ys) = (upper a == upper b) && equals_ignore_case xs ys
equals_ignore_case _ _ = false

abbrev pub commons : Commons
commons = record {
  equals_ignore_case = equals_ignore_case;
  string_append = λ a b. a ++ b;
  string_substring = λ text start length. take length (drop start text);
}

abbrev zeros : ℕ → Bytes
zeros zero = []
zeros (suc n) = 0 ∷ zeros n

abbrev pub raw_partition : ℕ → Partition
raw_partition n = record {
  begin = 7;
  id = n;
  status = free;
  content_size = 7;
  partition_size = 7;
  lru_timestamp = 7;
  occupied_timestamp = 7;
  father = [];
  side = [];
}

abbrev pub unset : Unset
unset = record {
  best_partition = none;
  search_count = pos 0;
  raw = raw_partition;
  raw_cells = zeros 64;
}

abbrev pub config : Config
config = record {
  algoritmo_memoria = particiones;
  algoritmo_reemplazo = fifo;
  algoritmo_particion_libre = first_fit;
  tamano_memoria = 64;
  tamano_minimo_particion = 4;
  frecuencia_compactacion = pos 1;
}

abbrev pub never : Config
never = record config { frecuencia_compactacion = pos 0 }

abbrev pub small : Partition
small = record (raw_partition 1) { begin = 0; partition_size = 16 }

abbrev pub taken : Partition
taken = record (raw_partition 2) {
  begin = 16;
  partition_size = 16;
  content_size = 4;
  status = occupied;
  occupied_timestamp = 5;
}

abbrev pub large : Partition
large = record (raw_partition 3) { begin = 32; partition_size = 32 }

abbrev pub partitions : List Partition
partitions = small ∷ taken ∷ large ∷ []

abbrev pub memory : Memory
memory = record { cells = zeros 64; partitions = partitions; partition_count = 3 }

pub memory-Layout : Layout 64 memory
memory-Layout = record {
  room = refl;
  word = omega arith;
  inside = (omega arith, (omega arith, (omega arith, tt)));
  apart = ((inl (omega arith), (inl (omega arith), tt)), ((inl (omega arith), tt), (tt, tt)));
  whole = refl;
  ids = (
    ((λ h. absurd (omega (arith, h))), ((λ h. absurd (omega (arith, h))), tt)),
    (((λ h. absurd (omega (arith, h))), tt), (tt, tt)),
  );
  known = (omega arith, (omega arith, (omega arith, tt)));
}

-- "Pika"
abbrev pub pika : Bytes
pika = b'P' ∷ b'i' ∷ b'k' ∷ b'a' ∷ []

abbrev pub ash : Bytes
ash = b'A' ∷ b's' ∷ b'h' ∷ []

abbrev pub pika-IsText : IsText 4 pika
pika-IsText = record { fits = omega arith; exact = refl }

abbrev pub petition : Bytes → SubscriptionPetition
petition id = record {
  subscriptor_len = 3;
  subscriptor_id = id;
  queue = 1;
  ip_len = 0;
  ip = [];
  port = 6009;
  duration = 30;
}

abbrev pub ash_at : ℕ → Subscriptor
ash_at socket = record { subscriptor_info = petition ash; socket = socket }

abbrev pub stored : QueueMessage
stored = record {
  message = record { event_code = 1; id = 9; correlative_id = 0; memory_partition_id = 2 };
  receivers = record { receiver_socket = 5; received = 0 } ∷ [];
}

abbrev pub news : Queue
news = record { messages = stored ∷ []; subscriptors = ash_at 5 ∷ [] }

abbrev pub broker : Broker
broker = record {
  memory = memory;
  queues = record queues_init { new_pokemon = news };
  message_count = 9;
}
