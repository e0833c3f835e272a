-- ===== src/Tests/Memory.antt =====
-- The theorems on the partitioned memory at a memory of 64 bytes with two free partitions.
use tp_so_delibird.Common.{inl, inr, [], ◌∷◌, refl, arith, none, ◌≡◌}
use tp_so_delibird.Wire.Bytes.{Bytes}
use tp_so_delibird.Wire.Types.{Message}
use tp_so_delibird.Broker.Compaction.{
  perform_compaction-Layout, perform_compaction-IsCompaction, IsCompaction,
}
use tp_so_delibird.Broker.Consolidate.{consolidate_particiones}
use tp_so_delibird.Broker.Evict.{get_free_partition_particiones}
use tp_so_delibird.Broker.Joins.{consolidate_particiones-lost}
use tp_so_delibird.Broker.Layout.{place-Layout, Layout}
use tp_so_delibird.Broker.Neighbours.{consolidate_particiones-joined}
use tp_so_delibird.Broker.Partitions.{
  find_free_partition, perform_compaction, find_free_partition_bf,
}
use tp_so_delibird.Broker.Search.{find_free_partition_bf-BestFit, BestFit}
use tp_so_delibird.Broker.State.{Partition, out_of_fuel, queue_new_pokemon}
use tp_so_delibird.Broker.Store.{place, Clock}
use tp_so_delibird.Broker.Stored.{store_message-IsStored, IsStored}
use tp_so_delibird.Broker.Waiting.{
  get_free_partition_particiones_forever, get_free_partition_particiones-Got, Got,
}
use tp_so_delibird.Tests.Data.{
  taken, memory-Layout, large, broker, unset, never, config, raw_partition, partitions, memory,
  commons,
}

abbrev clock : Clock
clock = record { lru_time = 100; occupied_time = 101 }

abbrev text : Bytes
text = 1 ∷ 2 ∷ 3 ∷ 4 ∷ 5 ∷ 6 ∷ []

abbrev published_message : Message
published_message = record {
  event_code = 1;
  id = 10;
  correlative_id = 0;
  buffer = record { size = 6; payload = text };
}

find_free_partition_bf-BestFit_example :
    BestFit 6 partitions (find_free_partition_bf none config 6 partitions)
find_free_partition_bf-BestFit_example = find_free_partition_bf-BestFit config 6 partitions

place-Layout_example : Layout 64 (place config unset clock text 6 large memory).1
place-Layout_example =
    place-Layout config unset clock text 6 64 large memory memory-Layout (inr (inr (inl refl)))
      (omega arith) (omega arith)

perform_compaction-IsCompaction_example :
    IsCompaction 64 memory (perform_compaction config unset memory)
perform_compaction-IsCompaction_example =
    perform_compaction-IsCompaction config unset 64 memory memory-Layout refl refl (omega arith)

perform_compaction-Layout_example : Layout 64 (perform_compaction config unset memory)
perform_compaction-Layout_example =
    perform_compaction-Layout config unset 64 memory memory-Layout refl refl (omega arith)

get_free_partition_particiones-Got_example : Got commons config unset 64 1 40 broker
get_free_partition_particiones-Got_example =
    get_free_partition_particiones-Got commons config unset refl 64 refl refl 0 refl 0 40 broker
      memory-Layout (omega arith) (omega arith)

get_free_partition_particiones_forever_example :
    get_free_partition_particiones commons never unset 1000 40 broker ≡ out_of_fuel
unfolding find_free_partition
get_free_partition_particiones_forever_example =
    get_free_partition_particiones_forever commons never unset refl 1000 0 40 broker refl refl

store_message-IsStored_example :
    IsStored commons config unset 64 1 clock published_message queue_new_pokemon broker
store_message-IsStored_example =
    store_message-IsStored commons config unset refl 64 refl refl 0 refl refl 0 clock
      published_message queue_new_pokemon broker memory-Layout (omega arith) refl (omega arith)

abbrev before_small : Partition
before_small = record (raw_partition 9) { begin = 60; partition_size = 4 }

abbrev at_end : Partition
at_end = record (raw_partition 8) { begin = 64; partition_size = 4 }

consolidate_particiones-lost_example :
    (consolidate_particiones (at_end ∷ taken ∷ before_small ∷ [], at_end)).0 ≡ taken ∷ []
consolidate_particiones-lost_example =
    consolidate_particiones-lost at_end taken before_small refl refl refl refl refl

abbrev freed_one : Partition
freed_one = record (raw_partition 4) { begin = 32; partition_size = 16 }

abbrev last_one : Partition
last_one = record (raw_partition 5) { begin = 48; partition_size = 16 }

consolidate_particiones-joined_example :
    consolidate_particiones (taken ∷ freed_one ∷ last_one ∷ [], freed_one) ≡ (
      taken ∷ record freed_one { partition_size = 32 } ∷ [],
      record freed_one { partition_size = 32 },
    )
consolidate_particiones-joined_example =
    consolidate_particiones-joined freed_one last_one refl refl refl (taken ∷ []) []
      (refl, (refl, (refl, tt))) (refl, tt) tt (refl, tt) tt
