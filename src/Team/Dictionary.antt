-- ===== src/Team/Dictionary.antt =====
-- team/src/util.c: dictionaries of quantities. A t_dictionary is the list of its pairs, in the
-- order in which dictionary_iterator visits them.
use tp_so_delibird.Common.{
  ◌||◌, ltb, ◌-◌, true, ◌^◌, ◌%◌, some, same, false, ◌+◌, ◌++◌, none, if◌then◌else◌, Option, Bool,
  ℕ, List, [], ◌∷◌, zero, suc,
}
use tp_so_delibird.Wire.Bytes.{Bytes}

abbrev pub Dictionary : Type 0
Dictionary = List (Bytes × ℕ)

abbrev pub dictionary_get : Dictionary → Bytes → Option ℕ
dictionary_get [] k = none
dictionary_get ((key, v) ∷ d) k = if same key k then some v else dictionary_get d k

abbrev pub dictionary_has_key : Dictionary → Bytes → Bool
dictionary_has_key d k = elim (dictionary_get d k) [ none ↦ false | some _ ↦ true ]

abbrev pub dictionary_put : Dictionary → Bytes → ℕ → Dictionary
dictionary_put [] k v = (k, v) ∷ []
dictionary_put ((key, w) ∷ d) k v =
    if same key k then (key, v) ∷ d else (key, w) ∷ dictionary_put d k v

-- The text stands among those that share a quantity with another dictionary.
abbrev pub shares : List Bytes → Bytes → Bool
shares [] k = false
shares (text ∷ texts) k = same text k || shares texts k

abbrev pub dictionary_remove : Dictionary → Bytes → Dictionary
dictionary_remove [] k = []
dictionary_remove ((key, w) ∷ d) k = if same key k then d else (key, w) ∷ dictionary_remove d k

unfoldable pub add_to_dictionary : Dictionary → Bytes → Dictionary
add_to_dictionary d item = elim (dictionary_get d item) [
  | none ↦ dictionary_put d item 1
  | some quantity ↦ dictionary_put d item ((quantity + 1) % 2 ^ 32)
]

-- The new quantity is a `uint32_t`: below 0 it wraps.
unfoldable pub substract_from_dictionary : Dictionary → Bytes → Dictionary
substract_from_dictionary d item = elim (dictionary_get d item) [
  | none ↦ d
  | some quantity ↦
      let left = (quantity + 2 ^ 32 - 1) % 2 ^ 32 in
      if ltb 0 left then dictionary_put d item left else dictionary_remove d item
]

abbrev pub copies : ℕ → Bytes → List Bytes
copies zero text = []
copies (suc n) text = text ∷ copies n text

-- `q_diff`, the rounds of the loop up to it: the difference of two `uint32_t` in an `int`.
abbrev pub q_diff : ℕ → ℕ → ℕ
q_diff value q_b = let n = (value + 2 ^ 32 - q_b) % 2 ^ 32 in if ltb n (2 ^ 31) then n else 0

unfoldable pub get_difference : Dictionary → Bytes → ℕ → List Bytes
get_difference b key value = elim (dictionary_get b key) [
  | none ↦ copies (q_diff value 0) key
  | some q_b ↦ copies (q_diff value q_b) key
]

unfoldable pub get_dictionary_difference : Dictionary → Dictionary → List Bytes
unfolding get_difference
get_dictionary_difference [] b = []
get_dictionary_difference ((key, value) ∷ a) b =
    get_difference b key value ++ get_dictionary_difference a b

-- The loop of `generate_dictionary_by_string` over the pieces that `string_split` returns.
unfoldable pub generate_dictionary : Dictionary → List Bytes → Dictionary
unfolding add_to_dictionary
generate_dictionary d [] = d
generate_dictionary d (item ∷ items) = generate_dictionary (add_to_dictionary d item) items

unfoldable pub dictionary_add_values : Dictionary → ℕ
dictionary_add_values [] = 0
dictionary_add_values ((key, v) ∷ d) = (v + dictionary_add_values d) % 2 ^ 32

-- The first text that is equal but for the case of its letters is taken off the list.
unfoldable pub list_remove_by_value : (Bytes → Bytes → Bool) → List Bytes → Bytes → List Bytes
list_remove_by_value equals [] value = []
list_remove_by_value equals (x ∷ xs) value =
    if equals value x then xs else x ∷ list_remove_by_value equals xs value
