-- ===== src/Broker/Consolidate.antt =====
-- broker/src/broker.c `consolidate`: a freed partition is joined with its free neighbours. The
-- loops go by index over the list that they shorten, so each takes the length of the list as fuel.
use tp_so_delibird.Common.{
  ltb, not, Bool, ℕ, zero, suc, ◌+◌, ◌%◌, ◌^◌, List, [], ◌∷◌, Option, none, some, true, false, ◌&&◌,
  ◌==◌, if◌then◌else◌, length, get_elem?, remove_at,
}
use tp_so_delibird.Wire.Bytes.{Bytes}
use tp_so_delibird.Broker.Partitions.{particiones}
use tp_so_delibird.Broker.State.{
  ◌>>=◌, undefined, out_of_fuel, done, Outcome, Config, Commons, Partition, is_free,
}

-- A write through a pointer to the partition `p`.
unfoldable pub write_through : Partition → List Partition → List Partition
write_through p [] = []
write_through p (q ∷ ps) = (if q.id == p.id then p else q) ∷ write_through p ps

abbrev pub end_of : Partition → ℕ
end_of p = (p.begin + p.partition_size) % 2 ^ 32

-- `p->partition_size += q->partition_size`
abbrev pub enlarge : Partition → Partition → Partition
enlarge p q = record p { partition_size = (p.partition_size + q.partition_size) % 2 ^ 32 }

-- The list and the partition that `memory_partition_to_consolidate` points to.
abbrev pub Joining : Type 0
Joining = List Partition × Partition

-- The inner loop of the first pass, from index `j` on: the freed partition is taken off the list
-- and its bytes are given to the free `partition` before it.
unfoldable pub join_left : ℕ → ℕ → Partition → Joining → Joining
unfolding write_through
join_left zero j partition (ps, freed) = (ps, freed)
join_left (suc fuel) j partition (ps, freed) = elim (get_elem? ps j) [
  | none ↦ (ps, freed)
  | some q ↦
      let joined = enlarge partition freed in
      elim (freed.id == q.id) [
        | true ↦ join_left fuel (suc j) joined (write_through joined (remove_at j ps), joined)
        | false ↦ join_left fuel (suc j) partition (ps, freed)
      ]
]

unfoldable pub left_pass : ℕ → ℕ → Joining → Joining
left_pass zero i (ps, freed) = (ps, freed)
left_pass (suc fuel) i (ps, freed) = elim (get_elem? ps i) [
  | none ↦ (ps, freed)
  | some partition ↦ elim (is_free partition && end_of partition == freed.begin) [
    | true ↦ left_pass fuel (suc i) (join_left (length ps) 0 partition (ps, freed))
    | false ↦ left_pass fuel (suc i) (ps, freed)
  ]
]

-- The inner loop of the second pass: the free `partition` at index `i` is taken off the list and
-- its bytes are given to the freed one before it.
unfoldable pub join_right : ℕ → ℕ → ℕ → Partition → Joining → Joining
unfolding write_through
join_right zero j i partition (ps, freed) = (ps, freed)
join_right (suc fuel) j i partition (ps, freed) = elim (get_elem? ps j) [
  | none ↦ (ps, freed)
  | some q ↦
      let joined = enlarge q partition in
      elim (freed.id == q.id) [
        | true ↦ join_right fuel (suc j) i partition (write_through joined (remove_at i ps), joined)
        | false ↦ join_right fuel (suc j) i partition (ps, freed)
      ]
]

unfoldable pub right_pass : ℕ → ℕ → Joining → Joining
right_pass zero i (ps, freed) = (ps, freed)
right_pass (suc fuel) i (ps, freed) = elim (get_elem? ps i) [
  | none ↦ (ps, freed)
  | some partition ↦ elim (is_free partition && end_of freed == partition.begin) [
    | true ↦ right_pass fuel (suc i) (join_right (length ps) 0 i partition (ps, freed))
    | false ↦ right_pass fuel (suc i) (ps, freed)
  ]
]

unfoldable pub consolidate_particiones : Joining → Joining
unfolding left_pass right_pass join_left join_right
consolidate_particiones (ps, freed) =
    let first = left_pass (length ps) 0 (ps, freed) in right_pass (length first.0) 0 first

-- The last partition with this id.
unfoldable pub partition_with : ℕ → List Partition → Option Partition → Option Partition
partition_with n [] found = found
partition_with n (p ∷ ps) found = partition_with n ps (if p.id == n then some p else found)

-- The father and side that a joined buddy takes: its father's text without the last letter, and
-- that letter. The source reads before an empty text.
unfoldable pub inherit : Commons → Bytes → Partition → Outcome Partition
inherit lib father p = elim (length father) [
  | ℕ.zero ↦ undefined
  | ℕ.suc n ↦ done (record p {
    father = lib.string_substring father 0 n;
    side = lib.string_substring father n (suc n);
  })
]

-- The list, the freed partition, the free `partition` beside it and the flag `consolidated`.
pub record Buddies : Type 0 where
  pub list : List Partition
  pub freed : Partition
  pub partition : Partition
  pub consolidated : Bool

-- The buddy at the lower address stays; `j` is the index of the freed one.
unfoldable pub join_lower : Commons → ℕ → Partition → Buddies → Outcome Buddies
unfolding inherit write_through
join_lower lib j q b = do
  joined ← inherit lib q.father (enlarge b.partition q)
  done (record {
    list = write_through joined (remove_at j b.list);
    freed = joined;
    partition = joined;
    consolidated = true;
  })

-- The freed partition stays, and the one at index `i` is taken off the list.
unfoldable pub join_upper : Commons → ℕ → Buddies → Outcome Buddies
unfolding inherit write_through
join_upper lib i b = elim (get_elem? b.list i) [
  | none ↦ undefined
  | some r ↦ inherit lib r.father (enlarge b.freed r) >>= λ joined. done (record {
    list = write_through joined (remove_at i b.list);
    freed = joined;
    partition = if r.id == joined.id then joined else r;
    consolidated = true;
  })
]

unfoldable pub join_buddy : Commons → ℕ → ℕ → ℕ → Buddies → Outcome Buddies
unfolding join_lower join_upper
join_buddy lib zero j i b = done b
join_buddy lib (suc fuel) j i b = elim (get_elem? b.list j) [
  | none ↦ done b
  | some q ↦ elim (b.freed.id == q.id && (is_free b.freed && is_free b.partition)) [
    | true ↦
        (if ltb b.partition.begin b.freed.begin then join_lower lib j q b else join_upper lib i b)
        >>= λ b'. join_buddy lib fuel (suc j) i b'
    | false ↦ join_buddy lib fuel (suc j) i b
  ]
]

abbrev pub are_buddies : Commons → Partition → Partition → Bool
are_buddies lib freed p =
    is_free p
    && (lib.equals_ignore_case freed.father p.father
        && (not (p.id == freed.id) && freed.partition_size == p.partition_size))

unfoldable pub buddy_pass :
    Commons → ℕ → ℕ → Bool → Joining → Outcome (List Partition × Partition × Bool)
unfolding join_buddy
buddy_pass lib zero i consolidated (ps, freed) = done (ps, freed, consolidated)
buddy_pass lib (suc fuel) i consolidated (ps, freed) = elim (get_elem? ps i) [
  | none ↦ done (ps, freed, consolidated)
  | some p ↦ elim (are_buddies lib freed p) [
    | true ↦
        join_buddy lib (length ps) 0 i
          (record { list = ps; freed = freed; partition = p; consolidated = consolidated })
        >>= λ b. buddy_pass lib fuel (suc i) b.consolidated (b.list, b.freed)
    | false ↦ buddy_pass lib fuel (suc i) consolidated (ps, freed)
  ]
]

-- The `do ... while (consolidated == 1)`; each round but the last shortens the list.
unfoldable pub consolidate_bs : Commons → ℕ → Joining → Outcome Joining
unfolding buddy_pass
consolidate_bs lib zero (ps, freed) = out_of_fuel
consolidate_bs lib (suc fuel) (ps, freed) =
    buddy_pass lib (length ps) 0 false (ps, freed) >>= λ (ps', freed', consolidated).
    elim consolidated [ true ↦ consolidate_bs lib fuel (ps', freed') | false ↦ done (ps', freed') ]

unfoldable pub consolidate : Commons → Config → ℕ → List Partition → Outcome (List Partition)
unfolding partition_with consolidate_particiones consolidate_bs
consolidate lib cfg n ps = elim (partition_with n ps none) [
  | none ↦ undefined
  | some freed ↦
      if lib.equals_ignore_case cfg.algoritmo_memoria particiones
      then done (consolidate_particiones (ps, freed)).0
      else consolidate_bs lib (suc (length ps)) (ps, freed) >>= λ r. done r.0
]
