-- ===== src/Broker/Evict.antt =====
-- broker/src/broker.c: a victim is chosen, freed and joined, and a free partition is waited for.
use tp_so_delibird.Common.{
  ℕ, zero, suc, ◌*◌, ◌%◌, ◌^◌, List, [], ◌∷◌, Option, none, some, Bool, true, false, not, ◌&&◌,
  ◌||◌, ltb, ◌==◌, if◌then◌else◌, length, get_elem?, remove_at,
}
use tp_so_delibird.Common.Int.{ℤ, pos, rounds, max_ℤ, is_minus_one}
use tp_so_delibird.Broker.Consolidate.{consolidate, write_through}
use tp_so_delibird.Broker.Partitions.{fifo, find_free_partition, perform_compaction}
use tp_so_delibird.Broker.State.{
  Commons, Partition, Config, Queues, QueueName, QueueMessage, Broker, Unset, Outcome, done,
  undefined, out_of_fuel, ◌>>=◌, is_occupied, free, get_queue, set_queue, queue_new_pokemon,
  queue_appeared_pokemon, queue_catch_pokemon, queue_caught_pokemon, queue_get_pokemon,
  queue_localized_pokemon,
}

abbrev pub limit : ℕ
limit = 9999999999

-- The scan of both eviction functions over the timestamps that `stamp` reads: the index of the
-- occupied partition with the smallest one below 9999999999, the first of equals.
unfoldable pub oldest : (Partition → ℕ) → List Partition → ℕ → ℕ → Option ℕ → Option ℕ
oldest stamp [] i smallest index = index
oldest stamp (p ∷ ps) i smallest index =
    let older = ltb (stamp p) smallest && is_occupied p in
    oldest stamp ps (suc i) (if older then stamp p else smallest) (if older then some i else index)

abbrev pub freed_partition : Partition → Partition
freed_partition p = record p {
  status = free;
  lru_timestamp = 0;
  occupied_timestamp = 0;
  content_size = 0;
}

abbrev pub in_partition : ℕ → QueueMessage → Bool
in_partition n m = m.message.memory_partition_id == n

-- The index of the first message that the partition holds.
unfoldable pub index_in : ℕ → List QueueMessage → Option ℕ
index_in n [] = none
index_in n (m ∷ ms) =
    let rest = index_in n ms in
    if in_partition n m then some 0 else elim rest [ none ↦ none | some i ↦ some (suc i) ]

abbrev pub all_queues : List QueueName
all_queues =
    queue_new_pokemon ∷ queue_appeared_pokemon ∷ queue_catch_pokemon ∷ queue_caught_pokemon
    ∷ queue_get_pokemon ∷ queue_localized_pokemon ∷ []

-- The message that a partition holds is taken off the first queue that has it.
unfoldable pub delete_message : ℕ → List QueueName → Queues → Option Queues
unfolding index_in
delete_message n [] qs = none
delete_message n (name ∷ names) qs =
    let q = get_queue name qs in
    let rest = delete_message n names qs in
    elim (index_in n q.messages) [
      | some i ↦ some (set_queue name (record q { messages = remove_at i q.messages }) qs)
      | none ↦ rest
    ]

unfoldable pub delete_and_consolidate : Commons → Config → ℕ → Broker → Outcome Broker
unfolding delete_message consolidate
delete_and_consolidate lib cfg n b = elim (delete_message n all_queues b.queues) [
  | none ↦ done b
  | some qs ↦ consolidate lib cfg n b.memory.partitions >>= λ ps.
      done (record b { queues = qs; memory = record (b.memory) { partitions = ps } })
]

-- The partition at the index is marked free, and its message is deleted.
unfoldable pub free_at : Commons → Config → Option ℕ → Broker → Outcome Broker
unfolding delete_and_consolidate write_through
free_at lib cfg none b = undefined
free_at lib cfg (some i) b = elim (get_elem? b.memory.partitions i) [
  | none ↦ undefined
  | some p ↦ delete_and_consolidate lib cfg p.id (record b {
    memory = record (b.memory) {
      partitions = write_through (freed_partition p) b.memory.partitions;
    };
  })
]

unfoldable pub delete_partition_and_consolidate_fifo : Commons → Config → Broker → Outcome Broker
unfolding oldest free_at
delete_partition_and_consolidate_fifo lib cfg b =
    free_at lib cfg (oldest (λ p. p.occupied_timestamp) b.memory.partitions 0 limit none) b

unfoldable pub delete_partition_and_consolidate_lru : Commons → Config → Broker → Outcome Broker
unfolding oldest free_at
delete_partition_and_consolidate_lru lib cfg b =
    free_at lib cfg (oldest (λ p. p.lru_timestamp) b.memory.partitions 0 limit none) b

unfoldable pub delete_partition_and_consolidate : Commons → Config → Broker → Outcome Broker
unfolding delete_partition_and_consolidate_fifo delete_partition_and_consolidate_lru
delete_partition_and_consolidate lib cfg b =
    if lib.equals_ignore_case cfg.algoritmo_reemplazo fifo
    then delete_partition_and_consolidate_fifo lib cfg b
    else delete_partition_and_consolidate_lru lib cfg b

module _ (lib : Commons) (cfg : Config) (unset : Unset) where
  abbrev pub search : ℕ → Broker → Option Partition
  search size b = find_free_partition lib cfg unset size b.memory.partitions

  -- `while (FRECUENCIA_COMPACTACION > search_count)`, with the rounds that are left. The result
  -- has a partition if one was found.
  unfoldable pub search_rounds : ℕ → ℕ → Broker → Outcome (Option Partition × Broker)
  unfolding delete_partition_and_consolidate find_free_partition
  search_rounds zero size b = done (none, b)
  search_rounds (suc k) size b = elim (search size b) [
    | some p ↦ done (some p, b)
    | none ↦ delete_partition_and_consolidate lib cfg b >>= λ b'. search_rounds k size b'
  ]

  abbrev pub compacts : Broker → Bool
  compacts b = not (is_minus_one cfg.frecuencia_compactacion) || length b.memory.partitions == 1

  abbrev pub compacted : Broker → Broker
  compacted b =
      if compacts b then record b { memory = perform_compaction cfg unset b.memory } else b

  -- One round of the `while (true)` of `get_free_partition_particiones`: compaction, then the
  -- searches that `search_count` allows.
  abbrev pub next_count : ℤ → Broker → ℤ
  next_count count b = if compacts b then pos 0 else count

  -- The inner loop of a round, from a value of `search_count`, and what follows it.
  unfoldable pub search_and :
      (ℤ → Broker → Outcome (Partition × Broker)) → ℤ → ℕ → Broker → Outcome (Partition × Broker)
  unfolding search_rounds
  search_and next count size b =
      search_rounds (rounds cfg.frecuencia_compactacion count) size b >>= λ (found, b').
      elim found [
        | some p ↦ done (p, b')
        | none ↦ next (max_ℤ cfg.frecuencia_compactacion count) b'
      ]

  unfoldable pub wait_particiones : ℕ → ℤ → ℕ → Broker → Outcome (Partition × Broker)
  unfolding search_and perform_compaction
  wait_particiones zero count size b = out_of_fuel
  wait_particiones (suc fuel) count size b =
      search_and (λ c b'. wait_particiones fuel c size b') (next_count count b) size (compacted b)

  unfoldable pub get_free_partition_particiones : ℕ → ℕ → Broker → Outcome (Partition × Broker)
  unfolding wait_particiones find_free_partition
  get_free_partition_particiones fuel size b = elim (search size b) [
    | some p ↦ done (p, b)
    | none ↦ wait_particiones fuel unset.search_count size b
  ]

  -- `while (bs_size < size) bs_size = bs_size * 2`, with fuel.
  unfoldable pub round_up : ℕ → ℕ → ℕ → Outcome ℕ
  round_up zero size bs_size = out_of_fuel
  round_up (suc fuel) size bs_size = elim (ltb bs_size size) [
    | true ↦ round_up fuel size (bs_size * 2 % 2 ^ 32)
    | false ↦ done bs_size
  ]

  unfoldable pub wait_bs : ℕ → ℕ → Broker → Outcome (Partition × Broker)
  unfolding delete_partition_and_consolidate find_free_partition
  wait_bs zero size b = out_of_fuel
  wait_bs (suc fuel) size b = delete_partition_and_consolidate lib cfg b >>= λ b'.
      elim (search size b') [ some p ↦ done (p, b') | none ↦ wait_bs fuel size b' ]

  unfoldable pub get_free_partition_bs : ℕ → ℕ → Broker → Outcome (Partition × Broker)
  unfolding wait_bs round_up find_free_partition
  get_free_partition_bs fuel size b = do
    bs_size ← round_up 33 size 1
    elim (search bs_size b) [ some p ↦ done (p, b) | none ↦ wait_bs fuel bs_size b ]
