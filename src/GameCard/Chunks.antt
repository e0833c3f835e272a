-- ===== src/GameCard/Chunks.antt =====
-- gamecard/src/gamecard.c: a content is written block by block, and read back.
use tp_so_delibird.Common.{
  inr, same→eq, length-take, same_sym, length-drop, same_refl, ◌∙◌, take_all, lookup-store,
  append-nil, zero, true, store, ltb, inl, arith, [], ◌∷◌, ◌-◌, map, leb, ap, Bool-cases, ◌≤◌, ◌+◌,
  ◌++◌, some, false, All, take, suc, same, lookup, length, drop, List, ◌≡◌, ◌<◌, Table, ℕ, refl,
}
use tp_so_delibird.Common.Decimal.{atoi-number_text, number_text, atoi, int_text}
use tp_so_delibird.Common.Int.{pos_part, pos}
use tp_so_delibird.Wire.Bytes.{Bytes}
use tp_so_delibird.Broker.State.{done}
use tp_so_delibird.GameCard.Files.{read_loop, read_file}
use tp_so_delibird.GameCard.Growth.{OtherNumber}
use mathlib.Core.Path.{sym, subst}

-- `r` blocks of `b` bytes are as many as `n` bytes need.
abbrev pub Fits : ℕ → ℕ → ℕ → Type 0
Fits zero b n = n ≡ 0
Fits (suc zero) b n = (0 < n) × (n ≤ b)
Fits (suc (suc r)) b n = (b < n) × Fits (suc r) b (n - b)

drop_nil : (n : ℕ) → drop {A = ℕ} n [] ≡ []
drop_nil zero = refl
drop_nil (suc n) = refl

pub drop_more : (m n : ℕ) (t : Bytes) → drop n (drop m t) ≡ drop (m + n) t
drop_more zero n t = let e : n ≡ 0 + n = omega arith in ap (λ k. drop k t) e
drop_more (suc m) n [] =
    let e : suc m + n ≡ suc (m + n) = omega arith in drop_nil n ∙ sym (ap (λ k. drop k []) e)
drop_more (suc m) n (c ∷ t) =
    let e : suc (m + n) ≡ suc m + n = omega arith in drop_more m n t ∙ ap (λ k. drop k (c ∷ t)) e

take-drop : (n : ℕ) (t : Bytes) → take n t ++ drop n t ≡ t
take-drop zero t = refl
take-drop (suc n) [] = refl
take-drop (suc n) (c ∷ t) = ap (◌∷◌ c) (take-drop n t)

read_whole : (n : ℕ) (chunk : Bytes) → length chunk ≡ n → read_file n (some chunk) ≡ done chunk
read_whole n chunk h =
    let l : leb n (length chunk) ≡ true = ground arith in
    rw (l, take_all n chunk (omega arith)) refl

module _ (b : ℕ) (table : Table Bytes) (r : ℕ) (block chunk : Bytes)
    (at : lookup (int_text (atoi block)) table ≡ some chunk) where
  read_full :
      (blocks : List Bytes) (rest : Bytes)
      → b < r
      → length chunk ≡ b
      → read_loop b table (r - b) blocks ≡ done rest
      → read_loop b table r (block ∷ blocks) ≡ done (chunk ++ rest)
  unfolding read_loop
  read_full blocks rest l h e =
      let t : ltb b r ≡ true = ground arith in rw (t, at, read_whole b chunk h, e) refl

  read_last : r ≤ b → length chunk ≡ r → read_loop b table r (block ∷ []) ≡ done chunk
  unfolding read_loop
  read_last l h =
      let t : ltb b r ≡ false = ground arith in
      rw (t, at, read_whole r chunk h, append-nil chunk) refl

-- Numbers whose texts are read back.
abbrev pub IsKey : ℕ → Type 0
IsKey n = n < 10000000000

key_text : (n : ℕ) → IsKey n → int_text (atoi (number_text n)) ≡ number_text n
unfolding int_text
key_text n h = rw (atoi-number_text n h) refl

apart_texts :
    (m n : ℕ) → IsKey m → IsKey n → OtherNumber m n → same (number_text m) (number_text n) ≡ false
apart_texts m n hm hn a = elim (Bool-cases (same (number_text m) (number_text n))) [
  | inl e ↦
      let p : pos m ≡ pos n =
        sym (atoi-number_text m hm)
        ∙ ap atoi (same→eq (number_text m) (number_text n) e)
        ∙ atoi-number_text n hn in
      let q : m ≡ n = ap pos_part p in absurd (ground arith)
  | inr e ↦ e
]

-- What the loop does to the files of the blocks: those of the numbers hold the bytes, and the
-- other ones are left alone.
pub record Written (b : ℕ) (table : Table Bytes) (ns : List ℕ) (rest : Bytes) (table' : Table Bytes)
    : Type 0 where
  pub reads : read_loop b table' (length rest) (map number_text ns) ≡ done rest
  pub others :
      (k : Bytes) → All (λ n. same (number_text n) k ≡ false) ns → lookup k table' ≡ lookup k table

apart_keys :
    (n : ℕ) (ns : List ℕ)
    → IsKey n
    → All IsKey ns
    → All (OtherNumber n) ns
    → All (λ m. same (number_text m) (number_text n) ≡ false) ns
apart_keys n [] k ks a = tt
apart_keys n (m ∷ ns) k ks a = (
  same_sym (number_text m) (number_text n) ∙ apart_texts n m k ks.0 a.0,
  apart_keys n ns k ks.1 a.1,
)

pub one_chunk :
    (b : ℕ) (table : Table Bytes) (n : ℕ) (rest : Bytes)
    → IsKey n
    → length rest ≤ b
    → Written b table (n ∷ []) rest (store (number_text n) rest table)
one_chunk b table n rest k l = record {
  reads =
      read_last b (store (number_text n) rest table) (length rest) (number_text n) rest
        (rw
          (
            key_text n k,
            lookup-store (number_text n) (number_text n) rest table,
            same_refl (number_text n),
          )
          refl)
        l refl;
  others = λ key a. rw (lookup-store key (number_text n) rest table, a.0) refl;
}

pub more_chunks :
    (b : ℕ) (table table' : Table Bytes) (n m : ℕ) (ns : List ℕ) (rest : Bytes)
    → All IsKey (n ∷ m ∷ ns)
    → All (OtherNumber n) (m ∷ ns)
    → b < length rest
    → Written b (store (number_text n) (take b rest) table) (m ∷ ns) (drop b rest) table'
    → Written b table (n ∷ m ∷ ns) rest table'
more_chunks b table table' n m ns rest k a l w = record {
  reads =
      let l' : length (drop b rest) ≡ length rest - b = length-drop b rest in
      read_full b table' (length rest) (number_text n) (take b rest)
        (ap (λ z. lookup z table') (key_text n k.0)
          ∙ w.others (number_text n) (apart_keys n (m ∷ ns) k.0 k.1 a)
          ∙ rw
              (
                lookup-store (number_text n) (number_text n) (take b rest) table,
                same_refl (number_text n),
              )
              refl)
        (map number_text (m ∷ ns)) (drop b rest) l (omega (arith, length-take b rest))
        (subst (λ r. read_loop b table' r (map number_text (m ∷ ns)) ≡ done (drop b rest)) l'
          w.reads)
      ∙ ap done (take-drop b rest);
  others = λ key h.
      w.others key h.1 ∙ rw (lookup-store key (number_text n) (take b rest) table, h.0) refl;
}
