-- ===== src/GameCard/Lines.antt =====
use tp_so_delibird.Common.{
  All-map, refl, ap, ◌∙◌, map, Never, All-append, All, ◌^◌, false, arith, append_assoc, List, ◌≡◌,
  ◌∷◌, ◌==◌, ◌<◌, [], ◌≢◌, ◌++◌,
}
use tp_so_delibird.Common.Decimal.{
  number_text-Spelled, atoi, IsDigit, Spelled, atoi-number_text, number_text, is_digit, int_text,
}
use tp_so_delibird.Common.Int.{negsuc, pos, ℤ}
use tp_so_delibird.Wire.Bytes.{Bytes}
use tp_so_delibird.Broker.State.{done, Commons}
use tp_so_delibird.GameCard.Positions.{
  two_words, positions_of_lines, position_of_line, pokemon_position_to_array_of_position,
  get_positions_from_buffer, position_text,
}
use tp_so_delibird.GameCard.State.{IsLibrary, Splits, IsFree, Position}
use Prim.Native.Nat.{ℕ}
use mathlib.Core.List.{cons-ne-nil}
use mathlib.Core.Path.{sym, subst}

-- gamecard/src/gamecard.c: the text of the positions is read back.

-- The coordinates and counts that have no sign.
abbrev pub IsCount : ℤ → Type 0
IsCount (pos n) = n < 2 ^ 31
IsCount (negsuc n) = Never

abbrev pub IsPlain : Position → Type 0
IsPlain p = IsCount p.pos_x × (IsCount p.pos_y × IsCount p.count)

free_of_digit : (d c : ℕ) → is_digit d ≡ false → IsDigit c → (c == d) ≡ false
free_of_digit d c e h = ground arith

number_text-IsFree : (d n : ℕ) → is_digit d ≡ false → IsFree d (number_text n)
number_text-IsFree d n e =
    let s : Spelled (number_text n) = number_text-Spelled n in
    subst (IsFree d) (sym s.text) (
      All-map IsDigit (λ c. (c == d) ≡ false) (s.first ∷ s.others) (λ c h. free_of_digit d c e h)
        s.all_digits)

pub number_text-ne-nil : (n : ℕ) → number_text n ≢ []
number_text-ne-nil n h =
    let s : Spelled (number_text n) = number_text-Spelled n in
    cons-ne-nil s.first s.others (sym s.text ∙ h)

-- What a text of an integer without sign is.
record Word (z : ℤ) : Type 0 where
  filled : int_text z ≢ []
  free_of : (d : ℕ) → is_digit d ≡ false → IsFree d (int_text z)
  back : atoi (int_text z) ≡ z

int_text-Word : (z : ℤ) → IsCount z → Word z
unfolding int_text
int_text-Word (pos n) h = record {
  filled = number_text-ne-nil n;
  free_of = λ d e. number_text-IsFree d n e;
  back = atoi-number_text n (omega arith);
}
int_text-Word (negsuc n) h = elim h [ ]

abbrev place_text : Position → Bytes
place_text p = int_text p.pos_x ++ (b'-' ∷ int_text p.pos_y)

abbrev line_text : Position → Bytes
line_text p = place_text p ++ (b'=' ∷ int_text p.count)

append-ne-nil : (t u : Bytes) → t ≢ [] → t ++ u ≢ []
append-ne-nil [] u h = absurd (h refl)
append-ne-nil (c ∷ t) u h = cons-ne-nil c (t ++ u)

joined-IsFree :
    (d c : ℕ) (t u : Bytes) → IsFree d t → (c == d) ≡ false → IsFree d u → IsFree d (t ++ (c ∷ u))
joined-IsFree d c t u a e b = All-append (λ x. (x == d) ≡ false) t (c ∷ u) a (e, b)

position_text_lem : (p : Position) → position_text p ≡ line_text p ++ (b'\n' ∷ [])
position_text_lem p = simp append_assoc

module _ (commons : Commons) (lib : Splits) (law : IsLibrary commons lib) where
  two_split :
      (d : ℕ) (a b : Bytes)
      → a ≢ []
      → IsFree d a
      → b ≢ []
      → IsFree d b
      → two_words (lib.string_split (a ++ (d ∷ b)) d) ≡ done (a, b)
  two_split d a b na fa nb fb = rw (law.split_words d a b na fa nb, law.split_word d b nb fb) refl

  position_of_line_lem : (p : Position) → IsPlain p → position_of_line lib (line_text p) ≡ done p
  unfolding position_of_line
  position_of_line_lem p h =
      let wx = int_text-Word p.pos_x h.0 in
      let wy = int_text-Word p.pos_y h.1.0 in
      let wc = int_text-Word p.count h.1.1 in
      rw
        (
          two_split b'=' (place_text p) (int_text p.count)
              (append-ne-nil (int_text p.pos_x) (b'-' ∷ int_text p.pos_y) wx.filled)
              (joined-IsFree b'=' b'-' (int_text p.pos_x) (int_text p.pos_y) (wx.free_of b'=' refl)
                refl (wy.free_of b'=' refl))
              wc.filled (wc.free_of b'=' refl),
          two_split b'-' (int_text p.pos_x) (int_text p.pos_y) wx.filled (wx.free_of b'-' refl)
              wy.filled (wy.free_of b'-' refl),
          wx.back,
          wy.back,
          wc.back,
        )
        refl

  line_text-filled : (p : Position) → IsPlain p → line_text p ≢ []
  line_text-filled p h = append-ne-nil (place_text p) (b'=' ∷ int_text p.count) (
      append-ne-nil (int_text p.pos_x) (b'-' ∷ int_text p.pos_y) (int_text-Word p.pos_x h.0).filled)

  line_text-IsFree : (p : Position) → IsPlain p → IsFree b'\n' (line_text p)
  line_text-IsFree p h =
      joined-IsFree b'\n' b'=' (place_text p) (int_text p.count)
        (joined-IsFree b'\n' b'-' (int_text p.pos_x) (int_text p.pos_y)
          ((int_text-Word p.pos_x h.0).free_of b'\n' refl) refl
          ((int_text-Word p.pos_y h.1.0).free_of b'\n' refl))
        refl ((int_text-Word p.count h.1.1).free_of b'\n' refl)

  text_cons :
      (p : Position) (ps : List Position)
      → pokemon_position_to_array_of_position (p ∷ ps)
        ≡ line_text p ++ (b'\n' ∷ pokemon_position_to_array_of_position ps)
  unfolding pokemon_position_to_array_of_position
  text_cons p ps =
      rw (position_text_lem p)
        (append_assoc (line_text p) (b'\n' ∷ []) (pokemon_position_to_array_of_position ps))

  text_nil : pokemon_position_to_array_of_position [] ≡ []
  unfolding pokemon_position_to_array_of_position
  text_nil = refl

  text_filled :
      (p : Position) (ps : List Position)
      → IsPlain p
      → pokemon_position_to_array_of_position (p ∷ ps) ≢ []
  text_filled p ps h =
      subst (λ t. t ≢ []) (sym (text_cons p ps))
        (append-ne-nil (line_text p) (b'\n' ∷ pokemon_position_to_array_of_position ps)
          (line_text-filled p h))

  lines_of :
      (p : Position) (ps : List Position)
      → All IsPlain (p ∷ ps)
      → lib.string_split (pokemon_position_to_array_of_position (p ∷ ps)) b'\n'
        ≡ map line_text (p ∷ ps)
  lines_of p [] h =
      rw (text_cons p [], text_nil)
        (law.split_ended b'\n' (line_text p) (line_text-filled p h.0) (line_text-IsFree p h.0))
  lines_of p (q ∷ ps) h =
      rw
        (
          text_cons p (q ∷ ps),
          law.split_words b'\n' (line_text p) (pokemon_position_to_array_of_position (q ∷ ps))
              (line_text-filled p h.0) (line_text-IsFree p h.0) (text_filled q ps h.1.0),
          lines_of q ps h.1,
        )
        refl

  positions_of_lines_lem :
      (ps : List Position) → All IsPlain ps → positions_of_lines lib (map line_text ps) ≡ done ps
  unfolding positions_of_lines
  positions_of_lines_lem [] h = refl
  positions_of_lines_lem (p ∷ ps) h =
      rw (position_of_line_lem p h.0, positions_of_lines_lem ps h.1) refl

  from_buffer :
      (t : Bytes)
      → t ≢ []
      → get_positions_from_buffer lib t ≡ positions_of_lines lib (lib.string_split t b'\n')
  unfolding get_positions_from_buffer
  from_buffer [] h = absurd (h refl)
  from_buffer (c ∷ t) h = refl

  -- Positions whose coordinates and counts lie from 0 to 2 ^ 31 - 1 are read back, in order, from
  -- the text that pokemon_position_to_array_of_position makes of them.
  pub get_positions-text :
      (ps : List Position)
      → All IsPlain ps
      → get_positions_from_buffer lib (pokemon_position_to_array_of_position ps) ≡ done ps
  unfolding get_positions_from_buffer pokemon_position_to_array_of_position
  get_positions-text [] h = refl
  get_positions-text (p ∷ ps) h =
      from_buffer (pokemon_position_to_array_of_position (p ∷ ps)) (text_filled p ps h.0)
      ∙ ap (positions_of_lines lib) (lines_of p ps h)
      ∙ positions_of_lines_lem (p ∷ ps) h
