-- ===== src/GameCard/ArrayText.antt =====
-- gamecard/src/gamecard.c: the text of the blocks, "[a,b,c]", with a block more or less.
use tp_so_delibird.Common.{
  ◌==◌, false, ltb, ◌+◌, suc, take-append, length-append, arith, append_assoc, append-nil, ◌∙◌, ◌-◌,
  sym, ap, ◌≡◌, [], ◌∷◌, ◌++◌, length, ℕ, List, refl,
}
use tp_so_delibird.Wire.Bytes.{Bytes}
use tp_so_delibird.Broker.State.{done}
use tp_so_delibird.GameCard.Blocks.{
  remove_last_block_from_array, without_last, add_each, add_block_to_array,
}
use tp_so_delibird.GameCard.State.{FileSystem, more_texts, array_text}

-- The text without its last bracket.
abbrev more_open : List Bytes → Bytes
more_open [] = []
more_open (t ∷ ts) = b',' ∷ (t ++ more_open ts)

closed_text : (ts : List Bytes) → more_texts ts ≡ more_open ts ++ (b']' ∷ [])
closed_text [] = refl
closed_text (t ∷ ts) =
    ap (λ u. b',' ∷ (t ++ u)) (closed_text ts)
    ∙ ap (◌∷◌ b',') (sym (append_assoc t (more_open ts) (b']' ∷ [])))

more_open-append : (ts us : List Bytes) → more_open (ts ++ us) ≡ more_open ts ++ more_open us
more_open-append [] us = refl
more_open-append (t ∷ ts) us =
    ap (λ u. b',' ∷ (t ++ u)) (more_open-append ts us)
    ∙ ap (◌∷◌ b',') (sym (append_assoc t (more_open ts) (more_open us)))

without_last-append : (n : ℕ) (t u : Bytes) → length u ≡ n → without_last n (t ++ u) ≡ t
without_last-append n t u h =
    let l : length (t ++ u) - n ≡ length t = omega (arith, length-append t u) in
    rw l (take-append (length t) t u refl)

abbrev open_text : Bytes → List Bytes → Bytes
open_text t ts = b'[' ∷ (t ++ more_open ts)

array_text-open :
    (t : Bytes) (ts : List Bytes) → array_text (t ∷ ts) ≡ open_text t ts ++ (b']' ∷ [])
array_text-open t ts =
    ap (λ u. b'[' ∷ (t ++ u)) (closed_text ts)
    ∙ ap (◌∷◌ b'[') (sym (append_assoc t (more_open ts) (b']' ∷ [])))

open_text-snoc :
    (t : Bytes) (ts us : List Bytes) → open_text t (ts ++ us) ≡ open_text t ts ++ more_open us
open_text-snoc t ts us =
    ap (λ u. b'[' ∷ (t ++ u)) (more_open-append ts us)
    ∙ ap (◌∷◌ b'[') (sym (append_assoc t (more_open ts) (more_open us)))

-- A block is added behind the others.
pub add_block-array_text :
    (ts : List Bytes) (t : Bytes)
    → add_block_to_array (array_text ts) t ≡ array_text (ts ++ (t ∷ []))
add_block-array_text [] t = refl
add_block-array_text (u ∷ us) t =
    ap (λ (z : Bytes). z ++ (b',' ∷ (t ++ (b']' ∷ []))))
      (ap (without_last 1) (array_text-open u us)
        ∙ without_last-append 1 (open_text u us) (b']' ∷ []) refl)
    ∙ sym (
        array_text-open u (us ++ (t ∷ []))
        ∙ ap (λ z. z ++ (b']' ∷ [])) (open_text-snoc u us (t ∷ []))
        ∙ append_assoc (open_text u us) (more_open (t ∷ [])) (b']' ∷ [])
        ∙ ap (λ z. open_text u us ++ z) (append_assoc (b',' ∷ t) [] (b']' ∷ [])))

pub add_each-array_text : (ts us : List Bytes) → add_each (array_text ts) us ≡ array_text (ts ++ us)
add_each-array_text ts [] = ap array_text (sym (append-nil ts))
add_each-array_text ts (u ∷ us) =
    rw
      (
        add_block-array_text ts u,
        add_each-array_text (ts ++ (u ∷ [])) us,
        append_assoc ts (u ∷ []) us,
      )
      refl

-- Three bytes behind some others give way to the bracket.
remove_last-append :
    (fs : FileSystem) (c : ℕ) (z y : Bytes)
    → length y ≡ 3
    → remove_last_block_from_array fs ((c ∷ z) ++ y) ≡ done ((c ∷ z) ++ (b']' ∷ []), fs)
unfolding remove_last_block_from_array
remove_last-append fs c z y h =
    let l : length ((c ∷ z) ++ y) ≡ suc (length z + 3) = omega (arith, length-append z y) in
    let a : ltb (length ((c ∷ z) ++ y)) 3 ≡ false = ground arith in
    let b : (length ((c ∷ z) ++ y) == 3) ≡ false = ground arith in
    rw (a, b, without_last-append 3 (c ∷ z) y h) refl

array_text-snoc :
    (t : Bytes) (ts : List Bytes) (w v : Bytes)
    → array_text (t ∷ (ts ++ ((w ++ v) ∷ [])))
      ≡ (open_text t ts ++ (b',' ∷ w)) ++ (v ++ (b']' ∷ []))
array_text-snoc t ts w v =
    array_text-open t (ts ++ ((w ++ v) ∷ []))
    ∙ ap (λ z. z ++ (b']' ∷ [])) (open_text-snoc t ts ((w ++ v) ∷ []))
    ∙ simp (append_assoc, append-nil)

-- After remove_last_block_from_array on the text of at least two blocks: if the text of the last
-- block has one character, the text of the blocks before it; if it has more, the text of as many
-- blocks as before, the last one without its last two characters. The bitmap stays as it is.
pub remove_last_block-array_text :
    (fs : FileSystem) (t : Bytes) (ts : List Bytes) (w : Bytes) (a b : ℕ)
    → (remove_last_block_from_array fs (array_text (t ∷ (ts ++ ((b ∷ []) ∷ []))))
        ≡ done (array_text (t ∷ ts), fs))
      × (remove_last_block_from_array fs (array_text (t ∷ (ts ++ ((w ++ (a ∷ b ∷ [])) ∷ []))))
          ≡ done (array_text (t ∷ (ts ++ (w ∷ []))), fs))
remove_last_block-array_text fs t ts w a b = (
  ap (remove_last_block_from_array fs) (
        array_text-snoc t ts [] (b ∷ [])
        ∙ append_assoc (open_text t ts) (b',' ∷ []) (b ∷ b']' ∷ []))
      ∙ remove_last-append fs b'[' (t ++ more_open ts) (b',' ∷ b ∷ b']' ∷ []) refl
      ∙ ap (λ z. done (z, fs)) (sym (array_text-open t ts)),
  ap (remove_last_block_from_array fs) (array_text-snoc t ts w (a ∷ b ∷ []))
      ∙ remove_last-append fs b'[' ((t ++ more_open ts) ++ (b',' ∷ w)) (a ∷ b ∷ b']' ∷ []) refl
      ∙ ap (λ z. done (z, fs))
          (sym (
            ap (λ z. array_text (t ∷ (ts ++ (z ∷ [])))) (sym (append-nil w))
            ∙ array_text-snoc t ts w [])),
)
