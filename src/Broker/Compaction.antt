-- ===== src/Broker/Compaction.antt =====
-- What `perform_compaction` leaves.
use tp_so_delibird.Common.{
  Pairs-keep, Pairs-snoc, All-map, All-append, true, All-keep, All, Bool-cases, ◌≤◌, [], ◌∷◌, ◌<◌,
  keep, ◌++◌, length, List, Bool, ℕ, refl, arith, ◌≡◌, inl, inr, suc, ◌^◌, ◌%◌, ◌+◌,
}
use tp_so_delibird.Broker.Contents.{
  Packed-Apart, Copied-Differ, total-Copied, Copied-ids, compact_loop-Compacted, Packed-bounds,
  Copied, Packed, Compacted,
}
use tp_so_delibird.Broker.Layout.{Differ, total-snoc, Apart, Inside, total, Layout}
use tp_so_delibird.Broker.Partitions.{free_rest, perform_compaction, compact_loop}
use tp_so_delibird.Broker.State.{is_free, is_occupied, Unset, Memory, Partition, Config}
use mathlib.Core.Path.{subst, sym, ◌∙◌}

total-keep : (f : Partition → Bool) (ps : List Partition) → total (keep f ps) ≤ total ps
total-keep f [] = omega arith
total-keep f (p ∷ ps) = elim (Bool-cases (f p)) [
  | inl e ↦ rw e (omega (arith, total-keep f ps))
  | inr e ↦ rw e (omega (arith, total-keep f ps))
]

-- The partitions after a compaction of `m`: the occupied ones, with their contents, from address 0
-- on without gaps, and one free partition with all the rest behind them.
pub record IsCompaction (room : ℕ) (m after : Memory) : Type 0 where
  pub occupied : List Partition
  pub rest : Partition
  pub list : after.partitions ≡ occupied ++ (rest ∷ [])
  pub packed : Packed 0 occupied rest.begin
  pub copied : Copied m.cells after.cells (keep is_occupied m.partitions) occupied
  pub dense : rest.begin ≡ total (keep is_occupied m.partitions)
  pub free : is_free rest ≡ true
  pub reaches_end : rest.begin + rest.partition_size ≡ room

module _ (cfg : Config) (unset : Unset) (room : ℕ) (m : Memory) (l : Layout room m)
    (size : cfg.tamano_memoria ≡ room) (block : length unset.raw_cells ≡ room)
    (few : suc m.partition_count < 2 ^ 32) where
  kept : List Partition
  kept = keep is_occupied m.partitions

  moved :
      let r = compact_loop kept 0 m.cells unset.raw_cells in
      Compacted kept 0 m.cells unset.raw_cells r.0 r.1 r.2
  unfolding kept
  moved =
      compact_loop-Compacted kept 0 m.cells unset.raw_cells
        (All-keep (Inside (length m.cells)) is_occupied m.partitions
          (subst (λ k. All (Inside k) m.partitions) (sym l.room) l.inside))
        (omega (arith, total-keep is_occupied m.partitions, l.whole))

  kept_fits : total kept ≤ room
  unfolding kept
  kept_fits = omega (arith, total-keep is_occupied m.partitions, l.whole)

  -- A compaction of a whole memory without overlaps leaves the occupied partitions with their
  -- contents, packed from address 0 on, and one free partition with all the bytes behind them.
  -- (The configured size is that of the memory, `malloc` gives a block of that size, and fewer
  -- than 2^32 - 1 partitions were made before.)
  pub perform_compaction-IsCompaction : IsCompaction room m (perform_compaction cfg unset m)
  unfolding perform_compaction kept
  perform_compaction-IsCompaction = record {
    occupied = (compact_loop kept 0 m.cells unset.raw_cells).0;
    rest =
        free_rest cfg unset ((m.partition_count + 1) % 2 ^ 32)
          (compact_loop kept 0 m.cells unset.raw_cells).1;
    list = refl;
    packed = moved.packed;
    copied = moved.copied;
    dense = omega (arith, moved.size);
    free = refl;
    reaches_end = omega (arith, moved.size, kept_fits, l.word, size);
  }

  -- A compaction of a whole memory without overlaps leaves it whole and without overlaps. (The
  -- configured size is that of the memory, `malloc` gives a block of that size, and fewer than
  -- 2^32 - 1 partitions were made before.)
  pub perform_compaction-Layout : Layout room (perform_compaction cfg unset m)
  unfolding perform_compaction kept
  perform_compaction-Layout =
      let qs = (compact_loop kept 0 m.cells unset.raw_cells).0 in
      let to = (compact_loop kept 0 m.cells unset.raw_cells).1 in
      let n = (m.partition_count + 1) % 2 ^ 32 in
      let rest = free_rest cfg unset n to in
      let (_, bounds) = Packed-bounds 0 qs to moved.packed in
      let known : All (λ q. q.id ≤ m.partition_count) qs =
        Copied-ids m.cells _ (λ k. k ≤ m.partition_count) kept qs moved.copied
          (All-keep _ is_occupied m.partitions l.known) in
      record {
        room = moved.room ∙ block;
        word = l.word;
        inside =
            All-append (Inside room) qs (rest ∷ [])
              (All-map _ (Inside room) qs (λ q k. omega (arith, k.1, moved.size, kept_fits)) bounds)
              (omega (arith, moved.size, kept_fits, l.word, size), tt);
        apart =
            Pairs-snoc Apart qs rest (Packed-Apart 0 qs to moved.packed)
              (All-map _ (λ q. Apart q rest) qs (λ q k. inl k.1) bounds);
        whole =
            total-snoc qs rest
            ∙ omega (
              arith,
              moved.size,
              kept_fits,
              l.word,
              size,
              total-Copied m.cells _ kept qs moved.copied,
            );
        ids =
            Pairs-snoc Differ qs rest
              (Copied-Differ m.cells _ kept qs moved.copied
                (Pairs-keep Differ is_occupied m.partitions l.ids))
              (All-map _ (λ q. Differ q rest) qs (λ q k h. absurd (omega arith)) known);
        known =
            All-append (λ q. q.id ≤ n) qs (rest ∷ [])
              (All-map _ (λ q. q.id ≤ n) qs (λ q k. omega arith) known) (omega arith, tt);
      }
