-- ===== src/Team/Counts.antt =====
-- A dictionary stands for the number of each text: what the operations do to that number.
use tp_so_delibird.Common.{
  ◌%◌, ◌+◌, ◌∙◌, ◌-◌, Option-cases, same_sym, inr, inl, Bool-cases, same→eq, if◌then◌else◌, ◌^◌,
  true, false, ◌<◌, ℕ, same, All, [], ◌∷◌, zero, suc, refl, arith, none, some, ◌≡◌,
}
use tp_so_delibird.Wire.Bytes.{Bytes}
use tp_so_delibird.Team.Dictionary.{
  substract_from_dictionary, dictionary_remove, add_to_dictionary, dictionary_put, dictionary_get,
  Dictionary,
}
use mathlib.Core.Path.{ap, subst, sym}

-- The number that the dictionary holds of a text.
abbrev pub quantity : Dictionary → Bytes → ℕ
quantity d k = elim (dictionary_get d k) [ none ↦ 0 | some v ↦ v ]

-- No key stands twice, and every value is a positive `int`.
abbrev pub NotKey : Bytes → Dictionary → Type 0
NotKey k d = All (λ e. same e.0 k ≡ false) d

abbrev pub IsCounter : Dictionary → Type 0
IsCounter [] = Unit
IsCounter ((k, v) ∷ d) = NotKey k d × (0 < v) × (v < 2 ^ 31) × IsCounter d

same_via : (x y z : Bytes) → same x y ≡ true → same y z ≡ same x z
same_via x y z h = rw (same→eq x y h) refl

same_apart : (x y z : Bytes) → same x y ≡ false → same y z ≡ true → same x z ≡ false
same_apart x y z h e = rw (← same→eq y z e) h

pub get-NotKey : (k : Bytes) (d : Dictionary) → NotKey k d → dictionary_get d k ≡ none
get-NotKey k [] a = refl
get-NotKey k ((key, v) ∷ d) a = rw (a.0) (get-NotKey k d a.1)

pub get-put :
    (d : Dictionary) (k : Bytes) (v : ℕ) (j : Bytes)
    → dictionary_get (dictionary_put d k v) j ≡ (if same k j then some v else dictionary_get d j)
get-put [] k v j = refl
get-put ((key, w) ∷ d) k v j = elim (Bool-cases (same key k)) [
  | inl e ↦ rw (e, same_via key k j e) (ground arith)
  | inr e ↦ rw (e, get-put d k v j) (ground (arith, same_apart key k j))
]

get-remove :
    (d : Dictionary) (k j : Bytes)
    → IsCounter d
    → dictionary_get (dictionary_remove d k) j ≡ (if same k j then none else dictionary_get d j)
get-remove [] k j c = ground arith
get-remove ((key, w) ∷ d) k j (n, _, _, c) = elim (Bool-cases (same key k)) [
  | inl e ↦
      rw (e, same_via key k j e)
        (elim (Bool-cases (same key j)) [
          | inl t ↦ rw t (rw (← same→eq key j t) (get-NotKey key d n))
          | inr t ↦ rw t refl
        ])
  | inr e ↦ rw (e, get-remove d k j c) (ground (arith, same_apart key k j))
]

put-NotKey :
    (d : Dictionary) (k : Bytes) (v : ℕ) (key : Bytes)
    → NotKey key d
    → same k key ≡ false
    → NotKey key (dictionary_put d k v)
put-NotKey [] k v key a e = (e, tt)
put-NotKey ((key', w) ∷ d) k v key a e = elim (Bool-cases (same key' k)) [
  | inl t ↦ rw t a
  | inr t ↦ rw t (a.0, put-NotKey d k v key a.1 e)
]

pub put-IsCounter :
    (d : Dictionary) (k : Bytes) (v : ℕ)
    → 0 < v
    → v < 2 ^ 31
    → IsCounter d
    → IsCounter (dictionary_put d k v)
put-IsCounter [] k v p l c = (tt, p, l, tt)
put-IsCounter ((key, w) ∷ d) k v p l (n, q, m, c) = elim (Bool-cases (same key k)) [
  | inl t ↦ rw t (n, p, l, c)
  | inr t ↦ rw t (put-NotKey d k v key n (same_sym k key ∙ t), q, m, put-IsCounter d k v p l c)
]

remove-NotKey : (d : Dictionary) (k key : Bytes) → NotKey key d → NotKey key (dictionary_remove d k)
remove-NotKey [] k key a = tt
remove-NotKey ((key', w) ∷ d) k key a = elim (Bool-cases (same key' k)) [
  | inl t ↦ rw t a.1
  | inr t ↦ rw t (a.0, remove-NotKey d k key a.1)
]

remove-IsCounter : (d : Dictionary) (k : Bytes) → IsCounter d → IsCounter (dictionary_remove d k)
remove-IsCounter [] k c = tt
remove-IsCounter ((key, w) ∷ d) k (n, q, m, c) = elim (Bool-cases (same key k)) [
  | inl t ↦ rw t c
  | inr t ↦ rw t (remove-NotKey d k key n, q, m, remove-IsCounter d k c)
]

pub get-bounds :
    (d : Dictionary) (k : Bytes) {v : ℕ}
    → IsCounter d
    → dictionary_get d k ≡ some v
    → (0 < v) × (v < 2 ^ 31)
get-bounds [] k c e = absurd (cc)
get-bounds ((key, w) ∷ d) k {v} (n, q, m, c) e = elim (Bool-cases (same key k)) [
  | inl t ↦ ground arith
  | inr t ↦ get-bounds d k {v = v} c (ground arith)
]

pub quantity-put :
    (d : Dictionary) (k : Bytes) (v : ℕ) (j : Bytes)
    → quantity (dictionary_put d k v) j ≡ (if same k j then v else quantity d j)
quantity-put d k v j =
    rw (quantity, get-put d k v j)
      (elim (Bool-cases (same k j)) [ inl t ↦ rw t refl | inr t ↦ rw t refl ])

quantity-remove :
    (d : Dictionary) (k j : Bytes)
    → IsCounter d
    → quantity (dictionary_remove d k) j ≡ (if same k j then 0 else quantity d j)
quantity-remove d k j c =
    rw (quantity, get-remove d k j c)
      (elim (Bool-cases (same k j)) [ inl t ↦ rw t refl | inr t ↦ rw t refl ])

pub quantity-same : (d : Dictionary) (k j : Bytes) → same k j ≡ true → quantity d k ≡ quantity d j
quantity-same d k j t = rw (same→eq k j t) refl

-- What each of the two operations comes to.
data Added (d : Dictionary) (item : Bytes) : Type 0 where
  first : quantity d item ≡ 0 → add_to_dictionary d item ≡ dictionary_put d item 1 → Added d item
  again :
      (v : ℕ)
      → quantity d item ≡ v
      → v < 2 ^ 31
      → add_to_dictionary d item ≡ dictionary_put d item (suc v)
      → Added d item

add_to_dictionary-Added : (d : Dictionary) (item : Bytes) → IsCounter d → Added d item
unfolding add_to_dictionary
add_to_dictionary-Added d item c = elim (Option-cases (dictionary_get d item)) [
  | inl e ↦ first (rw (quantity, e) refl) (rw (add_to_dictionary, e) refl)
  | inr (v, e) ↦
      let b = get-bounds d item c e in
      again v (rw (quantity, e) refl) b.1
        (rw (add_to_dictionary, e) (ap (dictionary_put d item) (omega arith)))
]

data Substracted (d : Dictionary) (item : Bytes) : Type 0 where
  absent : quantity d item ≡ 0 → substract_from_dictionary d item ≡ d → Substracted d item
  last :
      quantity d item ≡ 1
      → substract_from_dictionary d item ≡ dictionary_remove d item
      → Substracted d item
  more :
      (v : ℕ)
      → quantity d item ≡ suc (suc v)
      → suc v < 2 ^ 31
      → substract_from_dictionary d item ≡ dictionary_put d item (suc v)
      → Substracted d item

substracted :
    (d : Dictionary) (item : Bytes) (v : ℕ)
    → dictionary_get d item ≡ some v
    → 0 < v
    → v < 2 ^ 31
    → Substracted d item
unfolding substract_from_dictionary
substracted d item zero e p l = absurd (omega arith)
substracted d item (suc zero) e p l =
    last (rw (quantity, e) refl) (rw (substract_from_dictionary, e) refl)
substracted d item (suc (suc v)) e p l =
    let n : (suc (suc v) + 2 ^ 32 - 1) % 2 ^ 32 ≡ suc v = omega arith in
    more v (rw (quantity, e) refl) (omega arith)
      (rw (substract_from_dictionary, e, n) (ground arith))

substract_from_dictionary-Substracted :
    (d : Dictionary) (item : Bytes) → IsCounter d → Substracted d item
unfolding substract_from_dictionary
substract_from_dictionary-Substracted d item c = elim (Option-cases (dictionary_get d item)) [
  | inl e ↦ absent (rw (quantity, e) refl) (rw (substract_from_dictionary, e) refl)
  | inr (v, e) ↦ let b = get-bounds d item c e in substracted d item v e b.0 b.1
]

-- One more of the item and of no other text.
pub quantity-add :
    (d : Dictionary) (item j : Bytes)
    → IsCounter d
    → quantity (add_to_dictionary d item) j
      ≡ (if same item j then suc (quantity d j) else quantity d j)
quantity-add d item j c = elim (add_to_dictionary-Added d item c) [
  | first z e ↦ rw (e, quantity-put d item 1 j) (ground (arith, quantity-same d item j))
  | again v z l e ↦ rw (e, quantity-put d item (suc v) j) (ground (arith, quantity-same d item j))
]

pub add_to_dictionary-IsCounter :
    (d : Dictionary) (item : Bytes)
    → suc (quantity d item) < 2 ^ 31
    → IsCounter d
    → IsCounter (add_to_dictionary d item)
add_to_dictionary-IsCounter d item l c = elim (add_to_dictionary-Added d item c) [
  | first z e ↦ subst IsCounter (sym e) (put-IsCounter d item 1 (omega arith) (omega arith) c)
  | again v z b e ↦
      subst IsCounter (sym e) (put-IsCounter d item (suc v) (omega arith) (omega arith) c)
]

-- One less of the item, if there is one, and of no other text.
pub quantity-substract :
    (d : Dictionary) (item j : Bytes)
    → IsCounter d
    → quantity (substract_from_dictionary d item) j
      ≡ (if same item j then quantity d j - 1 else quantity d j)
quantity-substract d item j c = elim (substract_from_dictionary-Substracted d item c) [
  | absent z e ↦ rw e (ground (arith, quantity-same d item j))
  | last z e ↦ rw (e, quantity-remove d item j c) (ground (arith, quantity-same d item j))
  | more v z l e ↦ rw (e, quantity-put d item (suc v) j) (ground (arith, quantity-same d item j))
]

pub substract_from_dictionary-IsCounter :
    (d : Dictionary) (item : Bytes) → IsCounter d → IsCounter (substract_from_dictionary d item)
substract_from_dictionary-IsCounter d item c =
    elim (substract_from_dictionary-Substracted d item c) [
      | absent z e ↦ subst IsCounter (sym e) c
      | last z e ↦ subst IsCounter (sym e) (remove-IsCounter d item c)
      | more v z l e ↦ subst IsCounter (sym e) (put-IsCounter d item (suc v) (omega arith) l c)
    ]
