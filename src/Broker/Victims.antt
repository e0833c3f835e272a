-- ===== src/Broker/Victims.antt =====
-- Which partition an eviction chooses and frees.
use tp_so_delibird.Common.{
  ◌<◌, ◌≤◌, true, ◌⊎◌, ◌+◌, get_elem?, false, All, Option, Bool, List, ℕ, ◌≡◌, none, some,
}
use tp_so_delibird.Broker.Consolidate.{write_through}
use tp_so_delibird.Broker.Evict.{limit, delete_and_consolidate}
use tp_so_delibird.Broker.State.{
  is_occupied, free, undefined, Outcome, Broker, Commons, Config, Partition,
}

-- The partition is free, or its stamp is at least `least`.
abbrev pub NotOlder : (Partition → ℕ) → ℕ → Partition → Type 0
NotOlder stamp least q = (is_occupied q ≡ false) ⊎ (least ≤ stamp q)

-- What the scan ends with, from the index `i`, the smallest stamp so far and its index.
data Scanned (stamp : Partition → ℕ) (i smallest : ℕ) (index : Option ℕ) (ps : List Partition)
    (r : Option ℕ) : Type 0 where
  stays : All (NotOlder stamp smallest) ps → r ≡ index → Scanned stamp i smallest index ps r
  moves :
      (k : ℕ) (p : Partition)
      → r ≡ some (i + k)
      → get_elem? ps k ≡ some p
      → is_occupied p ≡ true
      → stamp p < smallest
      → All (NotOlder stamp (stamp p)) ps
      → Scanned stamp i smallest index ps r

-- The choice of an eviction that reads `stamp`.
pub data Victim (stamp : Partition → ℕ) (ps : List Partition) (r : Option ℕ) : Type 0 where
  nobody : All (NotOlder stamp limit) ps → r ≡ none → Victim stamp ps r
  victim :
      (k : ℕ) (p : Partition)
      → r ≡ some k
      → get_elem? ps k ≡ some p
      → is_occupied p ≡ true
      → All (NotOlder stamp (stamp p)) ps
      → Victim stamp ps r

-- What an eviction looks for: the arrival time with FIFO, the time of the last use otherwise.
abbrev pub age : Bool → Partition → ℕ
age true p = p.occupied_timestamp
age false p = p.lru_timestamp

module _ (lib : Commons) (cfg : Config) (b : Broker) where
  -- How an eviction by `stamp` ends: with nothing to choose, or by the deletion of the message of
  -- the chosen partition, which is free by then.
  pub data Evicted (stamp : Partition → ℕ) (o : Outcome Broker) : Type 0 where
    nobody_left : All (NotOlder stamp limit) b.memory.partitions → o ≡ undefined → Evicted stamp o
    evicted :
        (k : ℕ) (p : Partition)
        → get_elem? b.memory.partitions k ≡ some p
        → is_occupied p ≡ true
        → All (NotOlder stamp (stamp p)) b.memory.partitions
        → o
          ≡ delete_and_consolidate lib cfg p.id (record b {
            memory = record (b.memory) {
              partitions =
                  write_through
                    (record p {
                      status = free;
                      lru_timestamp = 0;
                      occupied_timestamp = 0;
                      content_size = 0;
                    })
                    b.memory.partitions;
            };
          })
        → Evicted stamp o
