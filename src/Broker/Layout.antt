-- ===== src/Broker/Layout.antt =====
-- The memory as the algorithm PARTICIONES keeps it: partitions that do not overlap and together
-- are the whole memory. Storing a message keeps that.
use tp_so_delibird.Common.{
  length-write_at, Pairs-snoc, All-append, take, ◌%◌, length-take, ◌++◌, ==_iff, All-map, refl, sym,
  ◌∙◌, ◌⊎◌, ◌^◌, All-Elem, ◌≤◌, ◌==◌, ◌<◌, inr, Pairs, Bool-cases, ◌≢◌, ◌≡◌, ◌+◌, length, inl, Elem,
  All, ℕ, suc, List, [], ◌∷◌, arith,
}
use tp_so_delibird.Wire.Bytes.{Bytes}
use tp_so_delibird.Broker.Consolidate.{write_through}
use tp_so_delibird.Broker.Partitions.{at_least}
use tp_so_delibird.Broker.State.{Unset, Config, Partition, Memory}
use tp_so_delibird.Broker.Store.{carved, shrunk, Clock, place}
use mathlib.Core.Path.{ap, subst}

abbrev pub total : List Partition → ℕ
total [] = 0
total (p ∷ ps) = p.partition_size + total ps

-- The partition lies in a memory of `n` bytes.
abbrev pub Inside : ℕ → Partition → Type 0
Inside n p = p.begin + p.partition_size ≤ n

-- The two partitions share no byte.
abbrev pub Apart : Partition → Partition → Type 0
Apart p q = (p.begin + p.partition_size ≤ q.begin) ⊎ (q.begin + q.partition_size ≤ p.begin)

abbrev pub Differ : Partition → Partition → Type 0
Differ p q = q.id ≢ p.id

pub record Layout (size : ℕ) (m : Memory) : Type 0 where
  pub room : length m.cells ≡ size
  pub word : size < 2 ^ 32
  pub inside : All (Inside size) m.partitions
  pub apart : Pairs Apart m.partitions
  pub whole : total m.partitions ≡ size
  pub ids : Pairs Differ m.partitions
  pub known : All (λ p. p.id ≤ m.partition_count) m.partitions

All-write_through :
    (P : Partition → Type 0) (p : Partition) (ps : List Partition)
    → P p
    → All P ps
    → All P (write_through p ps)
unfolding write_through
All-write_through P p [] h a = tt
All-write_through P p (q ∷ ps) h a = elim (Bool-cases (q.id == p.id)) [
  | inl e ↦ rw e (h, All-write_through P p ps h a.1)
  | inr e ↦ rw e (a.0, All-write_through P p ps h a.1)
]

write_through_absent :
    (p : Partition) (ps : List Partition) → All (λ q. q.id ≢ p.id) ps → write_through p ps ≡ ps
unfolding write_through
write_through_absent p [] a = refl
write_through_absent p (q ∷ ps) a = ground (arith, write_through_absent p ps a.1, a.0)

-- `q` lies within `p`, under the same id, and is shorter by `n`.
pub record Within (p q : Partition) (n : ℕ) : Type 0 where
  pub same : q.id ≡ p.id
  pub left : p.begin + n ≤ q.begin
  pub right : q.begin + q.partition_size ≤ p.begin + p.partition_size
  pub shorter : q.partition_size + n ≡ p.partition_size

Apart-sym : (p q : Partition) → Apart p q → Apart q p
Apart-sym p q (inl h) = inr h
Apart-sym p q (inr h) = inl h

module _ (p q : Partition) (n : ℕ) (w : Within p q n) where
  Apart-within : (r : Partition) → Apart r p → Apart r q
  Apart-within r (inl h) = inl (omega (arith, w.left))
  Apart-within r (inr h) = inr (omega (arith, w.right))

  within-Apart : (r : Partition) → Apart p r → Apart q r
  within-Apart r (inl h) = inl (omega (arith, w.right))
  within-Apart r (inr h) = inr (omega (arith, w.left))

  write_here :
      (r : Partition) (ps : List Partition)
      → p ≡ r
      → All (Differ r) ps
      → write_through q (r ∷ ps) ≡ q ∷ ps
  unfolding write_through
  write_here r ps e d =
      let s : r.id ≡ q.id = cc (w.same, e) in
      let a : All (λ x. x.id ≢ q.id) ps =
        All-map (Differ r) (λ x. x.id ≢ q.id) ps (λ x h k. h (k ∙ sym s)) d in
      rw ((==_iff r.id q.id).1 s, write_through_absent q ps a)

  write_there :
      (r : Partition) (ps : List Partition)
      → Elem p ps
      → All (Differ r) ps
      → write_through q (r ∷ ps) ≡ r ∷ write_through q ps
  unfolding write_through
  write_there r ps m d = ground (arith, All-Elem (Differ r) ps d m, w.same)

  write_through-Apart :
      (ps : List Partition)
      → Elem p ps
      → Pairs Differ ps
      → Pairs Apart ps
      → Pairs Apart (write_through q ps)
  write_through-Apart [] m d a = elim m [ ]
  write_through-Apart (r ∷ ps) (inl e) d a = rw (write_here r ps e d.0) (
    All-map (Apart r) (Apart q) ps (λ x h. within-Apart x (subst (λ y. Apart y x) (sym e) h)) a.0,
    a.1,
  )
  write_through-Apart (r ∷ ps) (inr m) d a = rw (write_there r ps m d.0) (
    All-write_through (Apart r) q ps (Apart-within r (All-Elem (Apart r) ps a.0 m)) a.0,
    write_through-Apart ps m d.1 a.1,
  )

  write_through-Differ :
      (ps : List Partition) → Elem p ps → Pairs Differ ps → Pairs Differ (write_through q ps)
  write_through-Differ [] m d = elim m [ ]
  write_through-Differ (r ∷ ps) (inl e) d =
      rw (write_here r ps e d.0)
        (All-map (Differ r) (Differ q) ps (λ x h k. h (k ∙ w.same ∙ ap (λ y. y.id) e)) d.0, d.1)
  write_through-Differ (r ∷ ps) (inr m) d = rw (write_there r ps m d.0) (
    All-write_through (Differ r) q ps (λ k. All-Elem (Differ r) ps d.0 m (sym w.same ∙ k)) d.0,
    write_through-Differ ps m d.1,
  )

  total-write_through :
      (ps : List Partition)
      → Elem p ps
      → Pairs Differ ps
      → total (write_through q ps) + n ≡ total ps
  total-write_through [] m d = elim m [ ]
  total-write_through (r ∷ ps) (inl e) d =
      rw (write_here r ps e d.0) (omega (arith, w.shorter, ap (λ y. y.partition_size) e))
  total-write_through (r ∷ ps) (inr m) d =
      rw (write_there r ps m d.0) (omega (arith, total-write_through ps m d.1))

  -- What is cut off at the front of `p` is apart from all the rest.
  module _ (x : Partition) (b : x.begin ≡ p.begin) (s : x.partition_size ≡ n) where
    Apart-front : (r : Partition) → Apart r p → Apart r x
    Apart-front r (inl h) = inl (omega arith)
    Apart-front r (inr h) = inr (omega (arith, w.shorter))

    write_through-front :
        (ps : List Partition)
        → Elem p ps
        → Pairs Differ ps
        → Pairs Apart ps
        → All (λ r. Apart r x) (write_through q ps)
    write_through-front [] m d a = elim m [ ]
    write_through-front (r ∷ ps) (inl e) d a = rw (write_here r ps e d.0) (
      inr (omega (arith, w.left)),
      All-map (Apart r) (λ y. Apart y x) ps
          (λ y h. Apart-front y (Apart-sym p y (subst (λ z. Apart z y) (sym e) h))) a.0,
    )
    write_through-front (r ∷ ps) (inr m) d a =
        rw (write_there r ps m d.0)
          (Apart-front r (All-Elem (Apart r) ps a.0 m), write_through-front ps m d.1 a.1)

pub total-snoc :
    (ps : List Partition) (p : Partition) → total (ps ++ (p ∷ [])) ≡ total ps + p.partition_size
total-snoc [] p = omega arith
total-snoc (q ∷ ps) p = omega (arith, total-snoc ps p)

shrunk-Within :
    (hole : Partition) (n : ℕ)
    → n ≤ hole.partition_size
    → hole.begin + hole.partition_size < 2 ^ 32
    → Within hole (shrunk n hole) n
shrunk-Within hole n h f = record {
  same = refl;
  left = omega arith;
  right = omega arith;
  shorter = omega arith;
}

-- In a whole memory without overlaps, a message of at most 2^32 - 1 bytes whose rounded-up size
-- fits the free partition `hole` is placed so that the memory stays whole and without overlaps:
-- the bytes of the hole are shared between the new partition and what is left of the hole.
-- (Fewer than 2^32 - 1 partitions were made before.)
pub place-Layout :
    (cfg : Config) (unset : Unset) (clock : Clock) (payload : Bytes) (size room : ℕ)
    (hole : Partition) (m : Memory)
    → Layout room m
    → Elem hole m.partitions
    → at_least cfg.tamano_minimo_particion size ≤ hole.partition_size
    → suc m.partition_count < 2 ^ 32
    → Layout room (place cfg unset clock payload size hole m).1
unfolding place
place-Layout cfg unset clock payload size room hole m l e fit few =
    let size' : ℕ = at_least cfg.tamano_minimo_particion size in
    let le : size ≤ size' = ground arith in
    let at : Inside room hole = All-Elem (Inside room) m.partitions l.inside e in
    let old : hole.id ≤ m.partition_count =
      All-Elem (λ p. p.id ≤ m.partition_count) m.partitions l.known e in
    let n : ℕ = (m.partition_count + 1) % 2 ^ 32 in
    let n_eq : n ≡ suc m.partition_count = omega arith in
    let q : Partition = shrunk size' hole in
    let x : Partition = carved unset clock n size' hole in
    let w : Within hole q size' = shrunk-Within hole size' fit (omega (arith, l.word)) in
    record {
      room =
          length-write_at hole.begin (take size payload) m.cells
            (omega (arith, length-take size payload, l.room))
          ∙ l.room;
      word = l.word;
      inside =
          All-append (Inside room) _ _
            (All-write_through (Inside room) q m.partitions (omega (arith, w.right)) l.inside)
            (omega arith, tt);
      apart =
          Pairs-snoc Apart _ x (write_through-Apart hole q size' w m.partitions e l.ids l.apart)
            (write_through-front hole q size' w x refl refl m.partitions e l.ids l.apart);
      whole = total-snoc _ x ∙ total-write_through hole q size' w m.partitions e l.ids ∙ l.whole;
      ids = Pairs-snoc Differ _ x (write_through-Differ hole q size' w m.partitions e l.ids) (
          All-write_through (λ r. Differ r x) q m.partitions (λ k. omega arith)
            (All-map _ _ m.partitions (λ r h k. absurd (omega arith)) l.known));
      known =
          All-append (λ r. r.id ≤ n) _ _
            (All-write_through (λ r. r.id ≤ n) q m.partitions (omega arith)
              (All-map _ _ m.partitions (λ r h. omega arith) l.known))
            (omega arith, tt);
    }
