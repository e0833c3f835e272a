-- ===== src/Team/Remaining.antt =====
-- team/src/team.c: what remains to be caught when a team starts.
use tp_so_delibird.Common.{
  ◌||◌, ◌&&◌, not, true, Bool, same→eq, same_sym, Bool-cases, false, ltb, leb, ◌%◌, Option-cases,
  ◌≤◌, ◌-◌, arith, ◌^◌, ◌+◌, same, ◌<◌, if◌then◌else◌, ◌≡◌, ℕ, refl, inl, inr, some, [], ◌∷◌, All,
}
use tp_so_delibird.Wire.Bytes.{Bytes}
use tp_so_delibird.Team.Counts.{
  NotKey, quantity-put, put-IsCounter, quantity-same, IsCounter, quantity,
}
use tp_so_delibird.Team.Dictionary.{
  dictionary_put, dictionary_get, Dictionary, shares, dictionary_has_key,
}
use tp_so_delibird.Team.Pieces.{quantity-cons, quantity-NotKey}
use mathlib.Core.Path.{refl}
use tp_so_delibird.Team.Start.{Remaining, add_remaining, build_remaining_pokemons}

-- The text is wanted, and no trainer holds it.
abbrev pub is_unheld : Dictionary → Dictionary → Bytes → Bool
is_unheld objective caught j = dictionary_has_key objective j && not (dictionary_has_key caught j)

-- The dictionary after a text of the objective.
record Added (caught : Dictionary) (remaining : Remaining) (k : Bytes) (v : ℕ) : Type 0 where
  pub result : Remaining
  pub returned : add_remaining caught remaining k v ≡ some result
  pub counter : IsCounter result.quantities
  pub counts :
      (j : Bytes)
      → quantity result.quantities j
        ≡ (if same k j then v - quantity caught k else quantity remaining.quantities j)
  pub pointers :
      (j : Bytes)
      → shares result.shared j
        ≡ (shares remaining.shared j || (same k j && not (dictionary_has_key caught k)))

added_none :
    (remaining : Dictionary) (k j : Bytes)
    → quantity remaining k ≡ 0
    → quantity remaining j ≡ (if same k j then 0 else quantity remaining j)
added_none remaining k j z = ground (arith, quantity-same remaining k j)

add_remaining-Added :
    (caught : Dictionary) (remaining : Remaining) (k : Bytes) (v : ℕ)
    → IsCounter caught
    → IsCounter remaining.quantities
    → quantity remaining.quantities k ≡ 0
    → 0 < v
    → v < 2 ^ 31
    → quantity caught k ≤ v
    → Added caught remaining k v
unfolding add_remaining
add_remaining-Added caught remaining k v c r z p l h =
    elim (Option-cases (dictionary_get caught k)) [
      | inl e ↦
          let q : quantity caught k ≡ 0 = rw (quantity, e) refl in
          let absent : dictionary_has_key caught k ≡ false = rw (dictionary_has_key, e) refl in
          record {
            result = record {
              quantities = dictionary_put remaining.quantities k v;
              shared = k ∷ remaining.shared;
            };
            returned = rw (add_remaining, e) refl;
            counter = put-IsCounter remaining.quantities k v p l r;
            counts = λ j. ground (arith, quantity-put remaining.quantities k v j);
            pointers = λ j. ground (arith, absent);
          }
      | inr (w, e) ↦
          let q : quantity caught k ≡ w = rw (quantity, e) refl in
          let present : dictionary_has_key caught k ≡ true = rw (dictionary_has_key, e) refl in
          let d : (v + 2 ^ 32 - w) % 2 ^ 32 ≡ v - w = omega arith in
          let n : leb (2 ^ 31) (v - w) ≡ false = ground arith in
          elim (Bool-cases (ltb 0 (v - w))) [
            | inl t ↦ record {
              result = record remaining {
                quantities = dictionary_put remaining.quantities k (v - w);
              };
              returned = rw (add_remaining, e, d, n, t) refl;
              counter = put-IsCounter remaining.quantities k (v - w) (ground arith) (omega arith) r;
              counts = λ j. ground (arith, quantity-put remaining.quantities k (v - w) j);
              pointers = λ j. ground (arith, present);
            }
            | inr t ↦ record {
              result = remaining;
              returned = rw (add_remaining, e, d, n, t) refl;
              counter = r;
              counts = λ j. ground (arith, added_none remaining.quantities k j z);
              pointers = λ j. ground (arith, present);
            }
          ]
    ]

-- What remains once the loop has gone through the objective `g`.
record Built (g caught : Dictionary) (remaining : Remaining) : Type 0 where
  pub result : Remaining
  pub returned : build_remaining_pokemons g caught remaining ≡ some result
  pub counter : IsCounter result.quantities
  pub counts :
      (j : Bytes)
      → quantity result.quantities j
        ≡ quantity remaining.quantities j + (quantity g j - quantity caught j)
  pub pointers :
      (j : Bytes) → shares result.shared j ≡ (shares remaining.shared j || is_unheld g caught j)

-- The dictionary holds none of the keys.
abbrev Apart : Dictionary → Dictionary → Type 0
Apart remaining g = All (λ e. quantity remaining e.0 ≡ 0) g

Apart-Added :
    (caught : Dictionary) (remaining : Remaining) (k : Bytes) (v : ℕ) (g : Dictionary)
    → (a : Added caught remaining k v) → NotKey k g
    → Apart remaining.quantities g
    → Apart a.result.quantities g
Apart-Added caught remaining k v [] a n h = tt
Apart-Added caught remaining k v ((key, w) ∷ g) a (n, ns) (h, hs) =
    (ground (arith, a.counts key, same_sym key k), Apart-Added caught remaining k v g a ns hs)

counts-Built :
    (caught remaining result' result : Dictionary) (k j : Bytes) (v : ℕ) (g : Dictionary)
    → NotKey k g
    → quantity remaining k ≡ 0
    → quantity result' j ≡ (if same k j then v - quantity caught k else quantity remaining j)
    → quantity result j ≡ quantity result' j + (quantity g j - quantity caught j)
    → quantity result j ≡ quantity remaining j + (quantity ((k, v) ∷ g) j - quantity caught j)
counts-Built caught remaining result' result k j v g n z a b = elim (Bool-cases (same k j)) [
  | inl t ↦
      let y : quantity g j ≡ 0 = quantity-NotKey j k g n t in
      let c : quantity caught k ≡ quantity caught j = quantity-same caught k j t in
      let r : quantity remaining k ≡ quantity remaining j = quantity-same remaining k j t in
      rw (quantity-cons k v g j, t) (ground (arith, a, b))
  | inr t ↦ rw (quantity-cons k v g j, t) (ground (arith, a, b))
]

has_key-same :
    (d : Dictionary) (k j : Bytes)
    → same k j ≡ true
    → dictionary_has_key d k ≡ dictionary_has_key d j
has_key-same d k j t = rw (same→eq k j t) refl

has_key-cons :
    (k : Bytes) (v : ℕ) (d : Dictionary) (j : Bytes)
    → dictionary_has_key ((k, v) ∷ d) j ≡ (same k j || dictionary_has_key d j)
has_key-cons k v d j = elim (Bool-cases (same k j)) [
  | inl t ↦ rw (dictionary_has_key, t) refl
  | inr t ↦ rw (dictionary_has_key, t) refl
]

pointers-Built :
    (caught g : Dictionary) (k j : Bytes) (v : ℕ) (before between after : Bool)
    → between ≡ (before || (same k j && not (dictionary_has_key caught k)))
    → after ≡ (between || is_unheld g caught j)
    → after ≡ (before || is_unheld ((k, v) ∷ g) caught j)
pointers-Built caught g k j v before between after a b =
    ground (arith, a, b, has_key-cons k v g j, has_key-same caught k j)

build_remaining-Built :
    (g caught : Dictionary) (remaining : Remaining)
    → IsCounter g
    → IsCounter caught
    → IsCounter remaining.quantities
    → Apart remaining.quantities g
    → All (λ e. quantity caught e.0 ≤ e.1) g
    → Built g caught remaining
unfolding build_remaining_pokemons
build_remaining-Built [] caught remaining x c r a h = record {
  result = remaining;
  returned = refl;
  counter = r;
  counts = λ j. omega arith;
  pointers = λ j. ground arith;
}
build_remaining-Built ((k, v) ∷ g) caught remaining (n, p, l, x) c r (z, a) (h, hs) =
    let s : Added caught remaining k v = add_remaining-Added caught remaining k v c r z p l h in
    let t : Built g caught s.result =
      build_remaining-Built g caught s.result x c s.counter
        (Apart-Added caught remaining k v g s n a) hs in
    record {
      result = t.result;
      returned = rw (build_remaining_pokemons, s.returned) t.returned;
      counter = t.counter;
      counts = λ j.
          counts-Built caught remaining.quantities s.result.quantities t.result.quantities k j v g n
            z (s.counts j) (t.counts j);
      pointers = λ j. pointers-Built caught g k j v _ _ _ (s.pointers j) (t.pointers j);
    }

nothing-Apart : (g : Dictionary) → Apart [] g
nothing-Apart [] = tt
nothing-Apart (e ∷ g) = (refl, nothing-Apart g)

-- Nothing, before the objective is gone through.
abbrev pub nothing : Remaining
nothing = record { quantities = []; shared = [] }

-- What a team starts with.
pub record Started (objective caught : Dictionary) : Type 0 where
  pub remaining : Remaining
  pub returned : build_remaining_pokemons objective caught nothing ≡ some remaining
  pub counter : IsCounter remaining.quantities
  pub counts :
      (j : Bytes) → quantity remaining.quantities j ≡ quantity objective j - quantity caught j
  pub pointers : (j : Bytes) → shares remaining.shared j ≡ is_unheld objective caught j

-- If the trainers of a team hold at most as many of each pokemon of the objective as it asks for,
-- the team starts; of each text as many remain as the objective asks for beyond those held, and
-- no text stands twice or with a quantity of 0 among those that remain. A text that is wanted and
-- that no trainer holds, and no other, has the very quantity of the objective.
pub build_remaining_pokemons-Started :
    (objective caught : Dictionary)
    → IsCounter objective
    → IsCounter caught
    → All (λ e. quantity caught e.0 ≤ e.1) objective
    → Started objective caught
build_remaining_pokemons-Started objective caught x c h =
    let b : Built objective caught nothing =
      build_remaining-Built objective caught nothing x c tt (nothing-Apart objective) h in
    record {
      remaining = b.result;
      returned = b.returned;
      counter = b.counter;
      counts = λ j. omega (arith, b.counts j);
      pointers = b.pointers;
    }
