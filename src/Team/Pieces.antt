-- ===== src/Team/Pieces.antt =====
-- What `generate_dictionary_by_string` counts, and what `get_dictionary_difference` lists.
use tp_so_delibird.Common.{
  ◌∙◌, inr, inl, Bool-cases, same→eq, count-append, ◌-◌, ◌+◌, true, if◌then◌else◌, Option-cases,
  ◌^◌, same, ◌<◌, length, count, ℕ, List, [], ◌∷◌, zero, suc, refl, arith, ◌≡◌,
}
use tp_so_delibird.Wire.Bytes.{Bytes}
use tp_so_delibird.Team.Counts.{
  get-bounds, quantity-same, add_to_dictionary-IsCounter, quantity-add, get-NotKey, quantity,
  NotKey, IsCounter,
}
use tp_so_delibird.Team.Dictionary.{
  dictionary_get, add_to_dictionary, q_diff, copies, get_difference, get_dictionary_difference,
  generate_dictionary, Dictionary,
}
use mathlib.Core.Path.{ap}

-- What the dictionary `d` comes to be with the items in it.
record Counted (d : Dictionary) (items : List Bytes) : Type 0 where
  pub counter : IsCounter (generate_dictionary d items)
  pub counts : (j : Bytes) → quantity (generate_dictionary d items) j ≡ quantity d j + count j items

generate_dictionary-Counted :
    (d : Dictionary) (items : List Bytes)
    → IsCounter d
    → ((x : Bytes) → quantity d x + length items < 2 ^ 31)
    → Counted d items
unfolding generate_dictionary
generate_dictionary-Counted d [] c h = record { counter = c; counts = λ j. omega arith }
generate_dictionary-Counted d (item ∷ items) c h =
    let d' = add_to_dictionary d item in
    let add : (j : Bytes)
        → quantity d' j ≡ (if same item j then suc (quantity d j) else quantity d j) =
      λ j. quantity-add d item j c in
    let r =
      generate_dictionary-Counted d' items
        (add_to_dictionary-IsCounter d item (omega (arith, h item)) c)
        (λ x. ground (arith, h x, add x)) in
    record { counter = r.counter; counts = λ j. ground (arith, r.counts j, add j) }

-- The dictionary that `generate_dictionary_by_string` builds of fewer than 2^31 pieces holds of
-- each text how often it stands among them.
quantity-generate_dictionary :
    (items : List Bytes) (j : Bytes)
    → length items < 2 ^ 31
    → quantity (generate_dictionary [] items) j ≡ count j items
quantity-generate_dictionary items j h =
    (generate_dictionary-Counted [] items tt (λ x. omega arith)).counts j ∙ omega arith

pub generate_dictionary-IsCounter :
    (items : List Bytes) → length items < 2 ^ 31 → IsCounter (generate_dictionary [] items)
generate_dictionary-IsCounter items h =
    (generate_dictionary-Counted [] items tt (λ x. omega arith)).counter

count-copies :
    (j : Bytes) (n : ℕ) (key : Bytes) → count j (copies n key) ≡ (if same key j then n else 0)
count-copies j zero key = ground arith
count-copies j (suc n) key = ground (arith, count-copies j n key)

quantity-bound : (b : Dictionary) (k : Bytes) → IsCounter b → quantity b k < 2 ^ 31
quantity-bound b k c = elim (Option-cases (dictionary_get b k)) [
  | inl e ↦ rw (quantity, e) (omega arith)
  | inr (v, e) ↦ rw (quantity, e) (get-bounds b k c e).1
]

q_diff-lt : (value q : ℕ) → value < 2 ^ 31 → q < 2 ^ 31 → q_diff value q ≡ value - q
q_diff-lt value q h k = ground arith

get_difference_lem :
    (b : Dictionary) (key : Bytes) (value : ℕ)
    → IsCounter b
    → value < 2 ^ 31
    → get_difference b key value ≡ copies (value - quantity b key) key
unfolding get_difference
get_difference_lem b key value c h = elim (Option-cases (dictionary_get b key)) [
  | inl e ↦
      let q : quantity b key ≡ 0 = rw (quantity, e) refl in
      rw (get_difference, e)
        (ap (λ (n : ℕ). copies n key) (q_diff-lt value 0 h (omega arith) ∙ omega (arith, q)))
  | inr (v, e) ↦
      let q : quantity b key ≡ v = rw (quantity, e) refl in
      rw (get_difference, e)
        (ap (λ (n : ℕ). copies n key)
          (q_diff-lt value v h (get-bounds b key c e).1 ∙ omega (arith, q)))
]

pub quantity-NotKey :
    (j k : Bytes) (d : Dictionary) → NotKey k d → same k j ≡ true → quantity d j ≡ 0
quantity-NotKey j k d n t = rw (← same→eq k j t) (rw (quantity, get-NotKey k d n) refl)

pub quantity-cons :
    (key : Bytes) (v : ℕ) (a : Dictionary) (j : Bytes)
    → quantity ((key, v) ∷ a) j ≡ (if same key j then v else quantity a j)
quantity-cons key v a j = elim (Bool-cases (same key j)) [
  | inl t ↦ rw (quantity, t) refl
  | inr t ↦ rw (quantity, t) refl
]

-- For two dictionaries that hold no key twice and no value of 0 or above 2^31 - 1, the difference
-- lists each text as often as the first holds more of it than the second.
pub count-get_dictionary_difference :
    (a b : Dictionary) (j : Bytes)
    → IsCounter a
    → IsCounter b
    → count j (get_dictionary_difference a b) ≡ quantity a j - quantity b j
unfolding get_dictionary_difference
count-get_dictionary_difference [] b j ca cb = omega arith
count-get_dictionary_difference ((key, v) ∷ a) b j (n, p, l, ca) cb =
    let rest = count-get_dictionary_difference a b j ca cb in
    rw
      (
        get_difference_lem b key v cb l,
        count-append j (copies (v - quantity b key) key) (get_dictionary_difference a b),
        count-copies j (v - quantity b key) key,
      )
      (elim (Bool-cases (same key j)) [
        | inl t ↦
            let z : quantity a j ≡ 0 = quantity-NotKey j key a n t in
            let s : quantity b key ≡ quantity b j = quantity-same b key j t in
            rw (t, quantity-cons key v a j) (ground arith)
        | inr t ↦ rw (t, quantity-cons key v a j) (ground (arith, rest))
      ])
