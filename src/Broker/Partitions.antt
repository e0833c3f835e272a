-- ===== src/Broker/Partitions.antt =====
-- broker/src/broker.c: the first partition, the search for a free one, and compaction.
use tp_so_delibird.Common.{
  ℕ, zero, suc, ◌+◌, ◌-◌, ◌*◌, ◌%◌, ◌^◌, List, [], ◌∷◌, ◌++◌, Option, none, some, Bool, ◌&&◌, ltb,
  leb, if◌then◌else◌, find?, keep, write_at, read_at,
}
use tp_so_delibird.Wire.Bytes.{Bytes}
use tp_so_delibird.Broker.State.{
  Commons, Partition, Config, Memory, Unset, free, is_free, is_occupied, get_partition_id,
}

-- The names of the algorithms that the configuration gives.
abbrev pub particiones : Bytes
particiones = b'P' ∷ b'A' ∷ b'R' ∷ b'T' ∷ b'I' ∷ b'C' ∷ b'I' ∷ b'O' ∷ b'N' ∷ b'E' ∷ b'S' ∷ []

abbrev pub fifo : Bytes
fifo = b'F' ∷ b'I' ∷ b'F' ∷ b'O' ∷ []

abbrev pub first_fit : Bytes
first_fit = b'F' ∷ b'F' ∷ []

-- The loop of `memory_init` that doubles the first buddy while it fits; `fuel` rounds at most.
unfoldable pub buddy_size : ℕ → ℕ → ℕ → ℕ
buddy_size tamano zero size = size
buddy_size tamano (suc fuel) size =
    let doubled = size * 2 % 2 ^ 32 in
    let rest = buddy_size tamano fuel doubled in
    if ltb size tamano then (if leb doubled tamano then rest else size) else size

abbrev pub first_partition_size : Bool → Config → ℕ
first_partition_size by_partitions cfg =
    if by_partitions then cfg.tamano_memoria else buddy_size cfg.tamano_memoria 32 1

-- `"0"`, printed with `%d`: the source prints the pointer, and `root_father` is that text.
unfoldable pub memory_init : Commons → Config → Unset → Bytes → Bytes → Memory
unfolding get_partition_id
memory_init lib cfg unset cells root_father =
    let by_partitions = lib.equals_ignore_case cfg.algoritmo_memoria particiones in
    let (n, m) =
      get_partition_id (record { cells = cells; partitions = []; partition_count = 0 }) in
    let first : Partition = record (unset.raw n) {
      id = n;
      begin = 0;
      partition_size = first_partition_size by_partitions cfg;
      lru_timestamp = 0;
      occupied_timestamp = 0;
      status = free;
    } in
    let root : Partition =
      if by_partitions then first else record first { father = root_father; side = [] } in
    record m { partitions = root ∷ [] }

abbrev pub at_least : ℕ → ℕ → ℕ
at_least minimum size = if leb size minimum then minimum else size

-- A free partition in which `size` bytes fit.
abbrev pub is_fit : ℕ → Partition → Bool
is_fit size p = is_free p && leb size p.partition_size

-- `none` stands for the partition with id -1 that the source returns when nothing fits.
unfoldable pub find_free_partition_ff : Config → ℕ → List Partition → Option Partition
find_free_partition_ff cfg size ps = find? (is_fit (at_least cfg.tamano_minimo_particion size)) ps

abbrev pub better : ℕ → Option Partition → Partition → Option Partition
better size none p = if is_fit size p then some p else none
better size (some best) p =
    if is_fit size p && ltb p.partition_size best.partition_size then some p else some best

unfoldable pub bf_loop : ℕ → Option Partition → List Partition → Option Partition
bf_loop size best [] = best
bf_loop size best (p ∷ ps) = bf_loop size (better size best p) ps

-- The first argument is what the uninitialised `best_partition` holds; NULL is `none`.
unfoldable pub find_free_partition_bf :
    Option Partition → Config → ℕ → List Partition → Option Partition
find_free_partition_bf best cfg size ps =
    bf_loop (at_least cfg.tamano_minimo_particion size) best ps

unfoldable pub find_free_partition :
    Commons → Config → Unset → ℕ → List Partition → Option Partition
unfolding find_free_partition_ff find_free_partition_bf
find_free_partition lib cfg unset size ps =
    if lib.equals_ignore_case cfg.algoritmo_particion_libre first_fit
    then find_free_partition_ff cfg size ps
    else find_free_partition_bf unset.best_partition cfg size ps

-- The second loop of `perform_compaction`: each occupied partition is copied to the offset.
-- The result is the new list, the offset behind it and the new memory.
unfoldable pub compact_loop : List Partition → ℕ → Bytes → Bytes → List Partition × ℕ × Bytes
compact_loop [] offset old new = ([], offset, new)
compact_loop (p ∷ ps) offset old new =
    let content = read_at p.begin p.partition_size old in
    let rest = compact_loop ps (offset + p.partition_size) old (write_at offset content new) in
    (record p { begin = offset } ∷ rest.0, rest.1, rest.2)

-- The free partition behind the occupied ones.
abbrev pub free_rest : Config → Unset → ℕ → ℕ → Partition
free_rest cfg unset n offset = record (unset.raw n) {
  id = n;
  begin = offset;
  partition_size = (cfg.tamano_memoria + 2 ^ 32 - offset) % 2 ^ 32;
  lru_timestamp = 0;
  status = free;
}

unfoldable pub perform_compaction : Config → Unset → Memory → Memory
unfolding compact_loop get_partition_id
perform_compaction cfg unset m =
    let moved = compact_loop (keep is_occupied m.partitions) 0 m.cells unset.raw_cells in
    let (n, m') = get_partition_id m in
    record m' { cells = moved.2; partitions = moved.0 ++ (free_rest cfg unset n moved.1 ∷ []) }
