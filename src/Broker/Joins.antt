-- ===== src/Broker/Joins.antt =====
-- What `consolidate` does, with the algorithm PARTICIONES, to a freed partition.
use tp_so_delibird.Common.{false, ◌&&◌, true, ◌==◌, ℕ, refl, arith, ◌≡◌, [], ◌∷◌}
use tp_so_delibird.Broker.Consolidate.{
  enlarge, write_through, join_left, end_of, right_pass, left_pass, consolidate_particiones,
}
use tp_so_delibird.Broker.State.{is_free, Partition}

same_id : (n : ℕ) → (n == n) ≡ true
same_id n = ground arith

module _ (freed x left : Partition) (full : (is_free freed && end_of freed == freed.begin) ≡ false)
    (busy : is_free x ≡ false) (spare : is_free left ≡ true)
    (beside : (end_of left == freed.begin) ≡ true) (ids : (x.id == left.id) ≡ false) where
  joined : Partition
  joined = enlarge left freed

  join_left-lost :
      join_left 3 0 left (freed ∷ x ∷ left ∷ [], freed) ≡ (x ∷ [], enlarge joined joined)
  unfolding join_left write_through joined
  join_left-lost =
      rw (join_left, same_id freed.id, same_id left.id)
        (rw (same_id left.id) (rw ids (rw ids refl)))

  left_pass-lost : left_pass 3 0 (freed ∷ x ∷ left ∷ [], freed) ≡ (x ∷ [], enlarge joined joined)
  unfolding left_pass
  left_pass-lost =
      rw (left_pass, full, left_pass, busy, left_pass, spare, beside, join_left-lost) refl

  -- In the list of a freed partition, an occupied one and the free partition before the freed one,
  -- the freed partition is joined and the joined one is then taken off too: only the occupied
  -- partition is left in the list. (The freed partition does not end where it begins, and the
  -- occupied one and the free one have different identifiers.)
  pub consolidate_particiones-lost :
      (consolidate_particiones (freed ∷ x ∷ left ∷ [], freed)).0 ≡ x ∷ []
  unfolding consolidate_particiones right_pass
  consolidate_particiones-lost = rw (consolidate_particiones, left_pass-lost, right_pass, busy) refl
