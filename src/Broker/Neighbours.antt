-- ===== src/Broker/Neighbours.antt =====
-- What `consolidate`, with the algorithm PARTICIONES, does to a freed partition whose one free
-- neighbour is the partition behind it.
use tp_so_delibird.Common.{
  inr, false, inl, ◌&&◌, ◌++◌, true, length, get_elem?, Option-cases, Bool-cases, ◌==◌, All, ℕ,
  List, refl, arith, ◌≡◌, [], ◌∷◌, zero, suc, get_elem?-All,
}
use tp_so_delibird.Broker.Consolidate.{
  enlarge, write_through, join_right, end_of, right_pass, left_pass, consolidate_particiones,
  Joining,
}
use tp_so_delibird.Broker.State.{is_free, Partition}
use mathlib.Core.Path.{◌∙◌, ap}

-- The partition is not a free one that ends where the freed one begins.
abbrev pub NotBefore : Partition → Partition → Type 0
NotBefore freed p = (is_free p && end_of p == freed.begin) ≡ false

-- The partition is not a free one that begins where the freed one ends.
abbrev pub NotBehind : Partition → Partition → Type 0
NotBehind freed p = (is_free p && end_of freed == p.begin) ≡ false

abbrev pub OtherId : Partition → Partition → Type 0
OtherId freed p = (freed.id == p.id) ≡ false

abbrev push : Partition → Joining → Joining
push x r = (x ∷ r.0, r.1)

left_pass-NotBefore :
    (freed : Partition) (ps : List Partition) (fuel i : ℕ)
    → All (NotBefore freed) ps
    → left_pass fuel i (ps, freed) ≡ (ps, freed)
unfolding left_pass
left_pass-NotBefore freed ps zero i a = refl
left_pass-NotBefore freed ps (suc fuel) i a = elim (Option-cases (get_elem? ps i)) [
  | inl e ↦ rw (left_pass, e) refl
  | inr (p, e) ↦
      rw (left_pass, e, get_elem?-All (NotBefore freed) ps i p a e)
        (left_pass-NotBefore freed ps fuel (suc i) a)
]

right_pass-NotBehind :
    (freed y : Partition) (ps : List Partition) (fuel i : ℕ)
    → All (NotBehind freed) ps
    → right_pass fuel (suc i) (y ∷ ps, freed) ≡ (y ∷ ps, freed)
unfolding right_pass
right_pass-NotBehind freed y ps zero i a = refl
right_pass-NotBehind freed y ps (suc fuel) i a = elim (Option-cases (get_elem? ps i)) [
  | inl e ↦ rw (right_pass, e) refl
  | inr (p, e) ↦
      rw (right_pass, e, get_elem?-All (NotBehind freed) ps i p a e)
        (right_pass-NotBehind freed y ps fuel (suc i) a)
]

join_right-OtherId :
    (freed y p : Partition) (ps : List Partition) (fuel j i : ℕ)
    → All (OtherId freed) ps
    → join_right fuel (suc j) i p (y ∷ ps, freed) ≡ (y ∷ ps, freed)
unfolding join_right
join_right-OtherId freed y p ps zero j i a = refl
join_right-OtherId freed y p ps (suc fuel) j i a = elim (Option-cases (get_elem? ps j)) [
  | inl e ↦ rw (join_right, e) refl
  | inr (q, e) ↦
      rw (join_right, e, get_elem?-All (OtherId freed) ps j q a e)
        (join_right-OtherId freed y p ps fuel (suc j) i a)
]

write_through-OtherId :
    (p : Partition) (ps : List Partition) → All (OtherId p) ps → write_through p ps ≡ ps
unfolding write_through
write_through-OtherId p [] a = refl
write_through-OtherId p (q ∷ ps) (h, a) =
    let e : (q.id == p.id) ≡ false = ground arith in rw (e, write_through-OtherId p ps a) refl

-- The join keeps the identifier of the freed partition.
join_right-id :
    (fuel j i : ℕ) (p freed : Partition) (ps : List Partition)
    → (join_right fuel j i p (ps, freed)).1.id ≡ freed.id
unfolding join_right
join_right-id zero j i p freed ps = refl
join_right-id (suc fuel) j i p freed ps = elim (Option-cases (get_elem? ps j)) [
  | inl e ↦ rw (join_right, e) refl
  | inr (q, e) ↦ elim (Bool-cases (freed.id == q.id)) [
    | inr h ↦ rw (join_right, e, h) (join_right-id fuel (suc j) i p freed ps)
    | inl h ↦
        let same : q.id ≡ freed.id = ground arith in
        rw (join_right, e, h) (join_right-id fuel (suc j) i p (enlarge q p) _ ∙ same)
  ]
]

-- A partition with another identifier at the head of the list is passed over.
join_right-push :
    (fuel j i : ℕ) (p x freed : Partition) (ps : List Partition)
    → OtherId freed x
    → join_right fuel (suc j) (suc i) p (x ∷ ps, freed) ≡ push x (join_right fuel j i p (ps, freed))
unfolding join_right write_through
join_right-push zero j i p x freed ps h = refl
join_right-push (suc fuel) j i p x freed ps h = elim (Option-cases (get_elem? ps j)) [
  | inl e ↦ rw (join_right, e) refl
  | inr (q, e) ↦ elim (Bool-cases (freed.id == q.id)) [
    | inr k ↦ rw (join_right, e, k) (join_right-push fuel (suc j) i p x freed ps h)
    | inl k ↦
        let other : OtherId (enlarge q p) x = ground arith in
        let kept : (x.id == q.id) ≡ false = ground arith in
        rw (join_right, e, k) (rw kept (join_right-push fuel (suc j) i p x (enlarge q p) _ other))
  ]
]

right_pass-push :
    (fuel i : ℕ) (x freed : Partition) (ps : List Partition)
    → OtherId freed x
    → right_pass fuel (suc i) (x ∷ ps, freed) ≡ push x (right_pass fuel i (ps, freed))
unfolding right_pass join_right
right_pass-push zero i x freed ps h = refl
right_pass-push (suc fuel) i x freed ps h = elim (Option-cases (get_elem? ps i)) [
  | inl e ↦ rw (right_pass, e) refl
  | inr (p, e) ↦ elim (Bool-cases (is_free p && end_of freed == p.begin)) [
    | inr k ↦ rw (right_pass, e, k) (right_pass-push fuel (suc i) x freed ps h)
    | inl k ↦
        let r = join_right (length ps) 0 i p (ps, freed) in
        let other : OtherId r.1 x = rw (join_right-id (length ps) 0 i p freed ps) h in
        let j : join_right (length (x ∷ ps)) 0 (suc i) p (x ∷ ps, freed) ≡ push x r =
          rw (join_right, h) (join_right-push (length ps) 0 i p x freed ps h) in
        rw (right_pass, e, k, j) (right_pass-push fuel (suc i) x r.1 r.0 other)
  ]
]

module _ (freed behind : Partition) (spare : is_free behind ≡ true)
    (beside : (end_of freed == behind.begin) ≡ true) (own : NotBehind freed freed) where
  joined : Partition
  joined = enlarge freed behind

  same_id : (freed.id == freed.id) ≡ true
  same_id = ground arith

  written :
      (zs : List Partition)
      → All (OtherId freed) zs
      → write_through joined (freed ∷ zs) ≡ joined ∷ zs
  unfolding write_through joined
  written zs a = rw (same_id, write_through-OtherId joined zs a) refl

  right_pass-here :
      (zs : List Partition)
      → All (OtherId freed) zs
      → All (NotBehind joined) zs
      → right_pass (length (freed ∷ behind ∷ zs)) 0 (freed ∷ behind ∷ zs, freed)
        ≡ (joined ∷ zs, joined)
  unfolding right_pass join_right joined
  right_pass-here zs ids a =
      let j : join_right (length (freed ∷ behind ∷ zs)) 0 1 behind (freed ∷ behind ∷ zs, freed)
          ≡ (joined ∷ zs, joined) =
        rw (join_right, same_id)
          (ap (λ l. join_right (suc (length zs)) 1 1 behind (l, joined)) (written zs ids)
            ∙ join_right-OtherId joined joined behind zs (suc (length zs)) 0 1 ids) in
      rw (right_pass, own, right_pass, spare, beside, j)
        (right_pass-NotBehind joined joined zs (length zs) 1 a)

  right_pass-joined :
      (xs zs : List Partition)
      → All (OtherId freed) xs
      → All (NotBehind freed) xs
      → All (OtherId freed) zs
      → All (NotBehind joined) zs
      → right_pass (length (xs ++ (freed ∷ behind ∷ zs))) 0 (xs ++ (freed ∷ behind ∷ zs), freed)
        ≡ (xs ++ (joined ∷ zs), joined)
  unfolding right_pass
  right_pass-joined [] zs u v w a = right_pass-here zs w a
  right_pass-joined (x ∷ xs) zs (u, us) (v, vs) w a =
      let rest = xs ++ (freed ∷ behind ∷ zs) in
      rw (right_pass, v)
        (right_pass-push (length rest) 0 x freed rest u
          ∙ ap (push x) (right_pass-joined xs zs us vs w a))

  -- In the list `xs`, the freed partition, the free one that begins where it ends, `zs`: let no
  -- free partition end where the freed one begins, none of `xs` begin where it ends and none of
  -- `zs` where the joined one ends, and let none of them have its identifier. Then `consolidate`
  -- gives the bytes of the partition behind it to the freed one, takes that partition off the list,
  -- and leaves all the others as they are. (The freed partition is not empty.)
  pub consolidate_particiones-joined :
      (xs zs : List Partition)
      → All (NotBefore freed) (xs ++ (freed ∷ behind ∷ zs))
      → All (NotBehind freed) xs
      → All (NotBehind (enlarge freed behind)) zs
      → All (OtherId freed) xs
      → All (OtherId freed) zs
      → consolidate_particiones (xs ++ (freed ∷ behind ∷ zs), freed)
        ≡ (xs ++ (enlarge freed behind ∷ zs), enlarge freed behind)
  unfolding consolidate_particiones joined
  consolidate_particiones-joined xs zs before v a u w =
      let ps = xs ++ (freed ∷ behind ∷ zs) in
      let l : left_pass (length ps) 0 (ps, freed) ≡ (ps, freed) =
        left_pass-NotBefore freed ps (length ps) 0 before in
      rw (consolidate_particiones, l) (right_pass-joined xs zs u v w a)
