-- ===== src/Broker/Search.antt =====
-- What the searches of `find_free_partition_ff` and `find_free_partition_bf` return.
use tp_so_delibird.Common.{
  Elem, none, some, List, [], Option, ap, ltb, inr, ◌&&◌, ◌++◌, inl, arith, ◌⊎◌, true, Bool-cases,
  ◌≤◌, ◌∷◌, false, find?, All, Bool, ℕ, ◌≡◌, refl,
}
use tp_so_delibird.Broker.Partitions.{
  find_free_partition_bf, at_least, is_fit, find_free_partition_ff, bf_loop,
}
use tp_so_delibird.Broker.State.{Config, Partition}

-- Where a search by `p` over a list ends: at the first element that passes, or nowhere.
pub data FirstOf {ℓ} {A : Type ℓ} (p : A → Bool) (xs : List A) (r : Option A) : Type ℓ where
  nowhere : All (λ x. p x ≡ false) xs → r ≡ none → FirstOf p xs r
  at :
      (before : List A) (x : A) (after : List A)
      → xs ≡ before ++ (x ∷ after)
      → All (λ y. p y ≡ false) before
      → p x ≡ true
      → r ≡ some x
      → FirstOf p xs r

pub find?-FirstOf {ℓ} : {A : Type ℓ} (p : A → Bool) (xs : List A) → FirstOf p xs (find? p xs)
find?-FirstOf p [] = nowhere tt refl
find?-FirstOf p (x ∷ xs) = elim (Bool-cases (p x)) [
  | inl e ↦ at [] x xs refl tt e (rw e)
  | inr e ↦ elim (find?-FirstOf p xs) [
    | nowhere a r ↦ nowhere (e, a) (rw e r)
    | at before y after split a h r ↦ at (x ∷ before) y after (ap (◌∷◌ x) split) (e, a) h (rw e r)
  ]
]

-- `find_free_partition_ff` returns the first partition of the list that is free and has room for
-- the larger of the size and the configured minimum, and nothing exactly when there is none.
pub find_free_partition_ff-FirstOf :
    (cfg : Config) (size : ℕ) (ps : List Partition)
    → FirstOf
        (is_fit (at_least cfg.tamano_minimo_particion size))
        ps
        (find_free_partition_ff cfg size ps)
unfolding find_free_partition_ff
find_free_partition_ff-FirstOf cfg size ps = find?-FirstOf _ ps

abbrev pub NoneFits : ℕ → List Partition → Type 0
NoneFits size ps = All (λ q. is_fit size q ≡ false) ps

abbrev pub NoneSmaller : ℕ → ℕ → List Partition → Type 0
NoneSmaller size least ps = All (λ q. (is_fit size q ≡ false) ⊎ (least ≤ q.partition_size)) ps

-- What the loop of best fit ends with, from the candidate `best`.
pub record Best (size : ℕ) (best : Partition) (ps : List Partition) : Type 0 where
  pub winner : Partition
  pub found : bf_loop size (some best) ps ≡ some winner
  pub below : winner.partition_size ≤ best.partition_size
  pub least : NoneSmaller size winner.partition_size ps
  pub origin : (winner ≡ best) ⊎ ((is_fit size winner ≡ true) × Elem winner ps)

bf_loop-Best : (size : ℕ) (best : Partition) (ps : List Partition) → Best size best ps
unfolding bf_loop
bf_loop-Best size best [] = record {
  winner = best;
  found = refl;
  below = omega arith;
  least = tt;
  origin = inl refl;
}
bf_loop-Best size best (q ∷ ps) =
    elim (Bool-cases (is_fit size q && ltb q.partition_size best.partition_size)) [
      | inl e ↦
          let b : Best size q ps = bf_loop-Best size q ps in
          record {
            winner = b.winner;
            found = rw e b.found;
            below = ground (arith, b.below);
            least = (inr b.below, b.least);
            origin = ground (arith, b.origin);
          }
      | inr e ↦
          let b : Best size best ps = bf_loop-Best size best ps in
          record {
            winner = b.winner;
            found = rw e b.found;
            below = b.below;
            least = (ground (arith, b.below), b.least);
            origin = ground (arith, b.origin);
          }
    ]

-- With the candidate that starts as NULL, best fit returns nothing exactly when nothing fits, and
-- otherwise a partition of the list that fits and than which no fitting one is smaller.
pub data BestFit (size : ℕ) (ps : List Partition) (r : Option Partition) : Type 0 where
  nothing : NoneFits size ps → r ≡ none → BestFit size ps r
  smallest :
      (p : Partition)
      → r ≡ some p
      → Elem p ps
      → is_fit size p ≡ true
      → NoneSmaller size p.partition_size ps
      → BestFit size ps r

bf_loop-BestFit : (size : ℕ) (ps : List Partition) → BestFit size ps (bf_loop size none ps)
unfolding bf_loop
bf_loop-BestFit size [] = nothing tt refl
bf_loop-BestFit size (q ∷ ps) = elim (Bool-cases (is_fit size q)) [
  | inl e ↦
      let b : Best size q ps = bf_loop-Best size q ps in
      rw e (
        smallest b.winner b.found (ground (arith, b.origin)) (ground (arith, b.origin))
          (inr b.below, b.least))
  | inr e ↦ elim (bf_loop-BestFit size ps) [
    | nothing a r ↦ nothing (e, a) (rw e r)
    | smallest p r m h l ↦ smallest p (rw e r) (inr m) h (inl e, l)
  ]
]

-- If `best_partition` starts as NULL, `find_free_partition_bf` returns nothing exactly when no
-- partition is free with room for the larger of the size and the minimum, and otherwise one of the
-- list that is, and than which no other such partition is smaller.
pub find_free_partition_bf-BestFit :
    (cfg : Config) (size : ℕ) (ps : List Partition)
    → BestFit
        (at_least cfg.tamano_minimo_particion size)
        ps
        (find_free_partition_bf none cfg size ps)
unfolding find_free_partition_bf
find_free_partition_bf-BestFit cfg size ps = bf_loop-BestFit _ ps

-- Whatever pointer the uninitialised `best_partition` holds is returned if nothing fits.
find_free_partition_bf_garbage :
    (cfg : Config) (size : ℕ) (junk : Partition) (ps : List Partition)
    → NoneFits (at_least cfg.tamano_minimo_particion size) ps
    → find_free_partition_bf (some junk) cfg size ps ≡ some junk
unfolding find_free_partition_bf bf_loop
find_free_partition_bf_garbage cfg size junk [] h = refl
find_free_partition_bf_garbage cfg size junk (q ∷ ps) (e, h) =
    rw e (find_free_partition_bf_garbage cfg size junk ps h)
