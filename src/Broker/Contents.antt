-- ===== src/Broker/Contents.antt =====
-- What the memory holds after a message is stored, and what the loop of a compaction copies.
use tp_so_delibird.Common.{
  ◌≢◌, Pairs, All-map, inl, read-write_apart, length-write_at, write_at, read-write_self, take_all,
  length-drop, take, drop, length-take, ◌≤◌, length, ◌+◌, read_at, ◌≡◌, All, ℕ, List, [], ◌∷◌,
  arith, refl, sym, ◌∙◌,
}
use tp_so_delibird.Wire.Bytes.{Bytes}
use tp_so_delibird.Broker.Layout.{Differ, Apart, total, Inside}
use tp_so_delibird.Broker.Partitions.{compact_loop}
use tp_so_delibird.Broker.State.{Memory, Unset, Config, Partition}
use tp_so_delibird.Broker.Store.{Clock, place}
use mathlib.Core.Path.{ap, subst}

-- If the payload has `size` bytes and the free partition `hole` lies in the memory with room for
-- them, the payload can be read at the beginning of the hole after it is placed.
pub place-read :
    (cfg : Config) (unset : Unset) (clock : Clock) (payload : Bytes) (hole : Partition) (m : Memory)
    → Inside (length m.cells) hole
    → length payload ≤ hole.partition_size
    → let after = (place cfg unset clock payload (length payload) hole m).1 in
      read_at hole.begin (length payload) after.cells ≡ payload
unfolding place
place-read cfg unset clock payload hole m h k =
    let e : take (length payload) payload ≡ payload =
      take_all (length payload) payload (omega arith) in
    rw e (read-write_self hole.begin payload m.cells (omega arith))

-- If the hole lies in the memory with room for the payload, a partition that does not overlap the
-- hole reads after the payload is placed as before.
place-read-Apart :
    (cfg : Config) (unset : Unset) (clock : Clock) (payload : Bytes) (hole r : Partition)
    (m : Memory)
    → Inside (length m.cells) hole
    → length payload ≤ hole.partition_size
    → Apart hole r
    → let after = (place cfg unset clock payload (length payload) hole m).1 in
      read_at r.begin r.partition_size after.cells ≡ read_at r.begin r.partition_size m.cells
unfolding place
place-read-Apart cfg unset clock payload hole r m h k a =
    let e : take (length payload) payload ≡ payload =
      take_all (length payload) payload (omega arith) in
    rw e (
      read-write_apart hole.begin payload m.cells (omega arith) r.begin r.partition_size
        (ground arith))

-- The list `qs` is `ps` with new beginnings, and each reads in `new` what it read in `old`.
abbrev pub Copied : Bytes → Bytes → List Partition → List Partition → Type 0
Copied old new [] [] = Unit
Copied old new (p ∷ ps) (q ∷ qs) =
    (q ≡ record p { begin = q.begin })
    × (read_at q.begin q.partition_size new ≡ read_at p.begin p.partition_size old)
    × Copied old new ps qs
Copied old new _ _ = ⊥

-- The partitions follow one another from `from` to `to`.
abbrev pub Packed : ℕ → List Partition → ℕ → Type 0
Packed from [] to = from ≡ to
Packed from (q ∷ qs) to = (q.begin ≡ from) × Packed (from + q.partition_size) qs to

pub record Compacted (ps : List Partition) (from : ℕ) (old new : Bytes) (qs : List Partition)
    (to : ℕ) (cells : Bytes) : Type 0 where
  pub packed : Packed from qs to
  pub copied : Copied old cells ps qs
  pub size : to ≡ from + total ps
  pub room : length cells ≡ length new
  pub below : (j n : ℕ) → j + n ≤ from → read_at j n cells ≡ read_at j n new

pub compact_loop-Compacted :
    (ps : List Partition) (from : ℕ) (old new : Bytes)
    → All (Inside (length old)) ps
    → from + total ps ≤ length new
    → let r = compact_loop ps from old new in Compacted ps from old new r.0 r.1 r.2
unfolding compact_loop
compact_loop-Compacted [] from old new a h = record {
  packed = refl;
  copied = tt;
  size = omega arith;
  room = refl;
  below = λ j n k. refl;
}
compact_loop-Compacted (p ∷ ps) from old new a h =
    let content = read_at p.begin p.partition_size old in
    let len : length content ≡ p.partition_size =
      omega
        (arith, length-take p.partition_size (drop p.begin old), length-drop p.begin old, a.0) in
    let fits : from + length content ≤ length new = omega arith in
    let next = write_at from content new in
    let same : length next ≡ length new = length-write_at from content new fits in
    let r : let r = compact_loop ps (from + p.partition_size) old next in
        Compacted ps (from + p.partition_size) old next r.0 r.1 r.2 =
      compact_loop-Compacted ps (from + p.partition_size) old next a.1 (omega arith) in
    record {
      packed = (refl, r.packed);
      copied = (
        refl,
        r.below from p.partition_size (omega arith)
            ∙ subst (λ k. read_at from k next ≡ content) len
                (read-write_self from content new fits),
        r.copied,
      );
      size = omega (arith, r.size);
      room = r.room ∙ same;
      below =
          λ j n k. r.below j n (omega arith) ∙ read-write_apart from content new fits j n (inl k);
    }

pub Packed-bounds :
    (from : ℕ) (qs : List Partition) (to : ℕ)
    → Packed from qs to
    → (from ≤ to) × All (λ q. (from ≤ q.begin) × (q.begin + q.partition_size ≤ to)) qs
Packed-bounds from [] to h = (omega arith, tt)
Packed-bounds from (q ∷ qs) to h =
    let (le, a) = Packed-bounds (from + q.partition_size) qs to h.1 in
    (omega arith, ((omega arith, omega arith), All-map _ _ qs (λ x k. (omega arith, k.1)) a))

pub Packed-Apart : (from : ℕ) (qs : List Partition) (to : ℕ) → Packed from qs to → Pairs Apart qs
Packed-Apart from [] to h = tt
Packed-Apart from (q ∷ qs) to h =
    let (le, a) = Packed-bounds (from + q.partition_size) qs to h.1 in
    (
      All-map _ (Apart q) qs (λ x k. inl (omega arith)) a,
      Packed-Apart (from + q.partition_size) qs to h.1,
    )

module _ (old new : Bytes) where
  pub Copied-ids :
      (P : ℕ → Type 0) (ps qs : List Partition)
      → Copied old new ps qs
      → All (λ p. P p.id) ps
      → All (λ q. P q.id) qs
  Copied-ids P [] [] c a = tt
  Copied-ids P [] (q ∷ qs) c a = elim c [ ]
  Copied-ids P (p ∷ ps) [] c a = elim c [ ]
  Copied-ids P (p ∷ ps) (q ∷ qs) c a =
      (subst P (sym (ap (λ x. x.id) c.0)) a.0, Copied-ids P ps qs c.2 a.1)

  pub Copied-Differ :
      (ps qs : List Partition) → Copied old new ps qs → Pairs Differ ps → Pairs Differ qs
  Copied-Differ [] [] c d = tt
  Copied-Differ [] (q ∷ qs) c d = elim c [ ]
  Copied-Differ (p ∷ ps) [] c d = elim c [ ]
  Copied-Differ (p ∷ ps) (q ∷ qs) c d = (
    subst (λ k. All (λ x. x.id ≢ k) qs) (sym (ap (λ x. x.id) c.0))
        (Copied-ids (λ k. k ≢ p.id) ps qs c.2 d.0),
    Copied-Differ ps qs c.2 d.1,
  )

  pub total-Copied : (ps qs : List Partition) → Copied old new ps qs → total qs ≡ total ps
  total-Copied [] [] c = refl
  total-Copied [] (q ∷ qs) c = elim c [ ]
  total-Copied (p ∷ ps) [] c = elim c [ ]
  total-Copied (p ∷ ps) (q ∷ qs) c =
      omega (arith, ap (λ x. x.partition_size) c.0, total-Copied ps qs c.2)
