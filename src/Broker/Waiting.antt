-- ===== src/Broker/Waiting.antt =====
-- When `get_free_partition_particiones` returns, what it returns, and when it never does.
use tp_so_delibird.Common.{
  ◌∙◌, ap, zero, All-Elem, false, ◌≤◌, ◌^◌, ◌<◌, suc, arith, keep, ◌+◌, length, Bool-cases, true,
  inr, ◌≡◌, inl, ◌++◌, Elem, ℕ, none, some, List, [], ◌∷◌, Option, refl,
}
use tp_so_delibird.Common.Int.{max_ℤ, pos_part, is_minus_one, ℤ, pos, rounds}
use tp_so_delibird.Broker.Compaction.{perform_compaction-Layout, perform_compaction-IsCompaction}
use tp_so_delibird.Broker.Evict.{
  next_count, compacted, search_and, compacts, search_rounds, wait_particiones,
  get_free_partition_particiones,
}
use tp_so_delibird.Broker.Layout.{Layout, total}
use tp_so_delibird.Broker.Partitions.{
  perform_compaction, first_fit, at_least, is_fit, find_free_partition,
}
use tp_so_delibird.Broker.Search.{
  smallest, nothing, find_free_partition_bf-BestFit, at, nowhere, find_free_partition_ff-FirstOf,
  NoneFits,
}
use tp_so_delibird.Broker.State.{
  Outcome, out_of_fuel, ◌>>=◌, is_occupied, is_free, done, Memory, Broker, Unset, Config, Partition,
  Commons,
}

-- What a search comes to, by either algorithm.
pub data Searched (size : ℕ) (ps : List Partition) (r : Option Partition) : Type 0 where
  missed : NoneFits size ps → r ≡ none → Searched size ps r
  found : (p : Partition) → r ≡ some p → Elem p ps → is_fit size p ≡ true → Searched size ps r

pub Elem-append_middle {ℓ} :
    {A : Type ℓ} (xs : List A) (y : A) (ys : List A) → Elem y (xs ++ (y ∷ ys))
Elem-append_middle [] y ys = inl refl
Elem-append_middle (x ∷ xs) y ys = inr (Elem-append_middle xs y ys)

module _ (lib : Commons) (cfg : Config) (unset : Unset) (null : unset.best_partition ≡ none) where
  pub find_free_partition-Searched :
      (size : ℕ) (ps : List Partition)
      → Searched
          (at_least cfg.tamano_minimo_particion size)
          ps
          (find_free_partition lib cfg unset size ps)
  unfolding find_free_partition
  find_free_partition-Searched size ps =
      elim (Bool-cases (lib.equals_ignore_case cfg.algoritmo_particion_libre first_fit)) [
        | inl e ↦ rw e (elim (find_free_partition_ff-FirstOf cfg size ps) [
          | nowhere a r ↦ missed a r
          | at before p after split a h r ↦
              found p r (rw split (Elem-append_middle before p after)) h
        ])
        | inr e ↦
            rw (e, null)
              (elim (find_free_partition_bf-BestFit cfg size ps) [
                | nothing a r ↦ missed a r
                | smallest p r m h l ↦ found p r m h
              ])
      ]

-- The bytes of the free partitions.
abbrev pub free_bytes : List Partition → ℕ
free_bytes ps = total (keep is_free ps)

free_and_occupied : (ps : List Partition) → free_bytes ps + total (keep is_occupied ps) ≡ total ps
free_and_occupied [] = omega arith
free_and_occupied (p ∷ ps) = ground (arith, free_and_occupied ps)

-- A search that succeeds ends the wait.
pub record Got (lib : Commons) (cfg : Config) (unset : Unset) (room fuel size : ℕ) (b : Broker)
    : Type 0 where
  pub hole : Partition
  pub after : Broker
  pub returned : get_free_partition_particiones lib cfg unset fuel size b ≡ done (hole, after)
  pub member : Elem hole after.memory.partitions
  pub fit : is_fit (at_least cfg.tamano_minimo_particion size) hole ≡ true
  pub layout : Layout room after.memory
  pub queues : after.queues ≡ b.queues
  pub count : after.memory.partition_count ≤ suc b.memory.partition_count

module _ (lib : Commons) (cfg : Config) (unset : Unset) (null : unset.best_partition ≡ none)
    (room : ℕ) (size_of : cfg.tamano_memoria ≡ room) (block : length unset.raw_cells ≡ room) where
  -- After a compaction a search succeeds, if the free bytes are enough.
  search_compacted :
      (size : ℕ) (m : Memory)
      → Layout room m
      → suc m.partition_count < 2 ^ 32
      → at_least cfg.tamano_minimo_particion size ≤ free_bytes m.partitions
      → let ps = (perform_compaction cfg unset m).partitions in
        (p : Partition) × (find_free_partition lib cfg unset size ps ≡ some p)
        × Elem p ps
        × (is_fit (at_least cfg.tamano_minimo_particion size) p ≡ true)
  search_compacted size m l few h =
      let c = perform_compaction-IsCompaction cfg unset room m l size_of block few in
      let ps = (perform_compaction cfg unset m).partitions in
      elim (find_free_partition-Searched lib cfg unset null size ps) [
        | found p r e k ↦ (p, r, e, k)
        | missed a r ↦
            let e : Elem c.rest ps = rw c.list (Elem-append_middle c.occupied c.rest []) in
            let n : at_least cfg.tamano_minimo_particion size ≤ c.rest.partition_size =
              omega (arith, c.dense, c.reaches_end, free_and_occupied m.partitions, l.whole) in
            let k : is_fit (at_least cfg.tamano_minimo_particion size) c.rest ≡ false =
              All-Elem _ ps a e in
            absurd (ground (arith, c.free))
      ]

  module _ (k : ℕ) (often : cfg.frecuencia_compactacion ≡ pos (suc k)) where
    not_minus_one : is_minus_one cfg.frecuencia_compactacion ≡ false
    not_minus_one = rw often

    some_rounds : rounds cfg.frecuencia_compactacion (pos 0) ≡ suc k
    some_rounds = rw often (omega arith)

    search_rounds_found :
        (size : ℕ) (b : Broker) {p : Partition}
        → find_free_partition lib cfg unset size b.memory.partitions ≡ some p
        → search_rounds lib cfg unset (suc k) size b ≡ done (some p, b)
    unfolding search_rounds
    search_rounds_found size b e = rw (e, search_rounds)

    wait_particiones_first :
        (fuel size : ℕ) (count : ℤ) (b : Broker) {p : Partition}
        → find_free_partition lib cfg unset size (perform_compaction cfg unset b.memory).partitions
          ≡ some p
        → wait_particiones lib cfg unset (suc fuel) count size b
          ≡ done (p, record b { memory = perform_compaction cfg unset b.memory })
    unfolding wait_particiones search_and
    wait_particiones_first fuel size count b e =
        rw (not_minus_one, some_rounds)
          (rw (
            search_rounds_found size (record b { memory = perform_compaction cfg unset b.memory })
                e,
            ◌>>=◌,
          ))

    -- Let the compaction frequency be at least 1, and let best fit start from NULL. If the free
    -- partitions of a whole memory without overlaps have together enough bytes for the size and
    -- the configured minimum, one round of fuel is enough: a free partition with that room is
    -- returned, after a compaction at most, with no message lost from a queue, and the memory is
    -- still whole and without overlaps. (The configured size is that of the memory, and fewer than
    -- 2^32 - 1 partitions were made before.)
    pub get_free_partition_particiones-Got :
        (fuel size : ℕ) (b : Broker)
        → Layout room b.memory
        → suc b.memory.partition_count < 2 ^ 32
        → at_least cfg.tamano_minimo_particion size ≤ free_bytes b.memory.partitions
        → Got lib cfg unset room (suc fuel) size b
    unfolding get_free_partition_particiones perform_compaction
    get_free_partition_particiones-Got fuel size b l few h =
        elim (find_free_partition-Searched lib cfg unset null size b.memory.partitions) [
          | found p r e f ↦ record {
            hole = p;
            after = b;
            returned = rw (r, get_free_partition_particiones);
            member = e;
            fit = f;
            layout = l;
            queues = refl;
            count = omega arith;
          }
          | missed a r ↦
              let (p, s, e, f) = search_compacted size b.memory l few h in
              record {
                hole = p;
                after = record b { memory = perform_compaction cfg unset b.memory };
                returned =
                    rw (r, get_free_partition_particiones)
                      (wait_particiones_first fuel size unset.search_count b s);
                member = e;
                fit = f;
                layout = perform_compaction-Layout cfg unset room b.memory l size_of block few;
                queues = refl;
                count = omega arith;
              }
        ]

module _ (lib : Commons) (cfg : Config) (unset : Unset)
    (rare : pos_part cfg.frecuencia_compactacion ≡ 0) where
  no_rounds : (n : ℕ) → rounds cfg.frecuencia_compactacion (pos n) ≡ 0
  no_rounds n = omega arith

  max_stays : (n : ℕ) → max_ℤ cfg.frecuencia_compactacion (pos n) ≡ pos n
  max_stays n = rw (max_ℤ, no_rounds n) refl

  search_and_nothing :
      (next : ℤ → Broker → Outcome (Partition × Broker)) (n size : ℕ) (b : Broker)
      → search_and lib cfg unset next (pos n) size b ≡ next (pos n) b
  unfolding search_and search_rounds
  search_and_nothing next n size b = rw (no_rounds n, ◌>>=◌) (rw (max_stays n) refl)

  next_count-pos : (n : ℕ) (b : Broker) → (k : ℕ) × (next_count lib cfg unset (pos n) b ≡ pos k)
  next_count-pos n b = elim (Bool-cases (compacts lib cfg unset b)) [
    | inl e ↦ (0, rw e refl)
    | inr e ↦ (n, rw e refl)
  ]

  wait_particiones_forever :
      (fuel n size : ℕ) (b : Broker)
      → wait_particiones lib cfg unset fuel (pos n) size b ≡ out_of_fuel
  unfolding wait_particiones
  wait_particiones_forever zero n size b = refl
  wait_particiones_forever (suc fuel) n size b =
      let again : ℤ → Broker → Outcome (Partition × Broker) =
        λ x y. wait_particiones lib cfg unset fuel x size y in
      let c = compacted lib cfg unset b in
      let (k, e) = next_count-pos n b in
      ap (λ x. search_and lib cfg unset again x size c) e
      ∙ search_and_nothing again k size c
      ∙ wait_particiones_forever fuel k size c

  -- With a compaction frequency of 0 or below (and an uninitialised `search_count` that is not
  -- negative), a message that finds no partition at once waits for ever: no amount of fuel is
  -- enough, whatever a compaction would have set free.
  pub get_free_partition_particiones_forever :
      (fuel n size : ℕ) (b : Broker)
      → unset.search_count ≡ pos n
      → find_free_partition lib cfg unset size b.memory.partitions ≡ none
      → get_free_partition_particiones lib cfg unset fuel size b ≡ out_of_fuel
  unfolding get_free_partition_particiones
  get_free_partition_particiones_forever fuel n size b s e =
      rw (e, get_free_partition_particiones) (rw s (wait_particiones_forever fuel n size b))
