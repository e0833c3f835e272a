-- ===== src/Tests/Splits.antt =====
-- The functions of the commons library on texts, as functions that the examples run.
use tp_so_delibird.Common.{
  ◌&&◌, length, append_assoc, ◌∙◌, if◌then◌else◌, append-nil, ◌++◌, arith, All-map, ◌≢◌, ◌∷◌, ◌||◌,
  true, false, [], All, ◌≤◌, ◌≡◌, ◌==◌, List, Bool,
}
use tp_so_delibird.Wire.Bytes.{Bytes}
use tp_so_delibird.Client.Entered.{IsComparison}
use tp_so_delibird.GameCard.State.{more_texts, IsNumeral, Splits, IsLibrary}
use tp_so_delibird.Tests.Data.{commons}
use Prim.Native.Nat.{◌≤◌, ℕ}
use mathlib.Core.Path.{sym, ◌≡◌, ap, refl}

-- Words between the characters that pass the test; empty words are passed over.
abbrev word_before : Bytes → List Bytes → List Bytes
word_before [] ws = ws
word_before (c ∷ w) ws = (c ∷ w) ∷ ws

abbrev words : (ℕ → Bool) → Bytes → Bytes → List Bytes
words sep w [] = word_before w []
words sep w (c ∷ s) =
    let ended = word_before w (words sep [] s) in
    let longer = words sep (w ++ (c ∷ [])) s in if sep c then ended else longer

abbrev is_mark : ℕ → Bool
is_mark c = (c == b',') || ((c == b'[') || (c == b']'))

abbrev pub splits : Splits
splits = record {
  string_split = λ text d. words (λ c. c == d) [] text;
  string_get_string_as_array = λ text. words is_mark [] text;
}

passed :
    (sep : ℕ → Bool) (w a s : Bytes)
    → All (λ c. sep c ≡ false) a
    → words sep w (a ++ s) ≡ words sep (w ++ a) s
passed sep w [] s h = rw (append-nil w) refl
passed sep w (c ∷ a) s h =
    rw h.0
      (passed sep (w ++ (c ∷ [])) a s h.1 ∙ ap (λ v. words sep v s) (append_assoc w (c ∷ []) a))

word_some : (w : Bytes) (ws : List Bytes) → w ≢ [] → word_before w ws ≡ w ∷ ws
word_some [] ws h = absurd (h refl)
word_some (c ∷ w) ws h = refl

ended :
    (sep : ℕ → Bool) (w : Bytes) (c : ℕ) (s : Bytes)
    → w ≢ []
    → sep c ≡ true
    → words sep w (c ∷ s) ≡ w ∷ words sep [] s
ended sep w c s h e = rw e (word_some w (words sep [] s) h)

mark_free : (c : ℕ) → (48 ≤ c) × (c ≤ 57) → is_mark c ≡ false
mark_free c h = ground arith

numeral_free : (t : Bytes) → IsNumeral t → All (λ c. is_mark c ≡ false) t
numeral_free t h =
    All-map (λ c. (48 ≤ c) × (c ≤ 57)) (λ c. is_mark c ≡ false) t (λ c h. mark_free c h) h.1

array_rest :
    (t : Bytes) (ts : List Bytes)
    → t ≢ []
    → All IsNumeral ts
    → words is_mark t (more_texts ts) ≡ t ∷ ts
array_rest t [] h a = ended is_mark t b']' [] h refl
array_rest t (u ∷ us) h a =
    ended is_mark t b',' (u ++ more_texts us) h refl
    ∙ ap (◌∷◌ t)
        (passed is_mark [] u (more_texts us) (numeral_free u a.0) ∙ array_rest u us a.0.0 a.1)

same_byte : (d : ℕ) → (d == d) ≡ true
same_byte d = ground arith

equals_self : (t : Bytes) → commons.equals_ignore_case t t ≡ true
equals_self [] = refl
equals_self (c ∷ t) = ground (arith, equals_self t)

and_false : (b : Bool) → (b && false) ≡ false
and_false true = refl
and_false false = refl

equals_length :
    (t u : Bytes) → (length t == length u) ≡ false → commons.equals_ignore_case t u ≡ false
equals_length [] [] h = h
equals_length [] (c ∷ u) h = refl
equals_length (c ∷ t) [] h = refl
equals_length (c ∷ t) (d ∷ u) h =
    let k : (length t == length u) ≡ false = ground arith in rw (equals_length t u k) (and_false _)

pub commons-IsComparison : IsComparison commons
commons-IsComparison = record { equal = equals_self; differ = equals_length }

pub splits-IsLibrary : IsLibrary commons splits
splits-IsLibrary = record {
  split_word = λ d a h f.
      (ap (words (λ c. c == d) []) (sym (append-nil a))
        ∙ passed (λ c. c == d) [] a [] f
        ∙ word_some a [] h);
  split_words = λ d a b h f g.
      (passed (λ c. c == d) [] a (d ∷ b) f ∙ ended (λ c. c == d) a d b h (same_byte d));
  split_ended = λ d a h f.
      (passed (λ c. c == d) [] a (d ∷ []) f ∙ ended (λ c. c == d) a d [] h (same_byte d));
  array_words = λ t ts a.
      (passed is_mark [] t (more_texts ts) (numeral_free t a.0) ∙ array_rest t ts a.0.0 a.1);
  substring = λ t start n. refl;
  equals = equals_self;
}
