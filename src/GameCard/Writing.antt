-- ===== src/GameCard/Writing.antt =====
-- gamecard/src/gamecard.c: the loop of write_blocks_and_metadata.
use tp_so_delibird.Common.{
  [], length-drop, take_all, Pairs, ◌∙◌, ◌-◌, true, false, All, ==_iff, ◌/◌, ◌%◌, some, store, drop,
  zero, length, suc, inr, arith, take, inl, ◌∷◌, map, Bool-cases, ◌≡◌, ◌*◌, Table, ◌+◌, get_elem?,
  ◌==◌, List, ◌<◌, ℕ, refl,
}
use tp_so_delibird.Common.Decimal.{number_text}
use tp_so_delibird.Wire.Bytes.{Bytes}
use tp_so_delibird.Broker.State.{done, Commons}
use tp_so_delibird.GameCard.Blocks.{my_ceil}
use tp_so_delibird.GameCard.Chunks.{more_chunks, one_chunk, drop_more, Written, IsKey, Fits}
use tp_so_delibird.GameCard.Files.{size_of_content_to_write, write_loop}
use tp_so_delibird.GameCard.Growth.{OtherNumber}
use tp_so_delibird.GameCard.State.{FileSystem, IsLibrary, Splits}
use mathlib.Core.Path.{sym, ap, subst}
use native.Mathlib.Nat.{suc-mul, mod-lt, div-add-mod'}

whole_blocks : (q b : ℕ) → 0 < b → Fits q b (q * b)
whole_blocks zero b h = omega arith
whole_blocks (suc zero) b h = (omega arith, omega arith)
whole_blocks (suc (suc q)) b h =
    let e : suc (suc q) * b ≡ suc q * b + b = suc-mul (suc q) b in
    let f : suc q * b ≡ q * b + b = suc-mul q b in
    (omega arith, subst (Fits (suc q) b) (omega arith) (whole_blocks (suc q) b h))

begun_block : (q b r : ℕ) → 0 < r → r < b → Fits (suc q) b (q * b + r)
begun_block zero b r h l = (omega arith, omega arith)
begun_block (suc q) b r h l =
    let e : suc q * b ≡ q * b + b = suc-mul q b in
    (omega arith, subst (Fits (suc q) b) (omega arith) (begun_block q b r h l))

-- my_ceil is the number of blocks that a content fits in.
pub my_ceil-Fits : (n b : ℕ) → 0 < b → Fits (my_ceil n b) b n
my_ceil-Fits n b h =
    let l : n % b < b = mod-lt n h in
    let d : n / b * b + n % b ≡ n = div-add-mod' n b in
    elim (Bool-cases (n % b == 0)) [
      | inl e ↦
          let z : n % b ≡ 0 = (==_iff (n % b) 0).0 e in
          rw e (subst (Fits (n / b) b) (omega arith) (whole_blocks (n / b) b h))
      | inr e ↦
          let s : suc (n / b) ≡ n / b + 1 = omega arith in
          rw (e, ← s)
            (subst (Fits (suc (n / b)) b) d (begun_block (n / b) b (n % b) (ground arith) l))
    ]

module _ (commons : Commons) (lib : Splits) (law : IsLibrary commons lib) (b : ℕ) (text : Bytes)
    (q : ℕ) (ts : List Bytes) where
  abbrev Follow : ℕ → List ℕ → Type 0
  Follow i ns = (k : ℕ) → get_elem? ts (i + k) ≡ get_elem? (map number_text ns) k

  abbrev with_table : FileSystem → Table Bytes → FileSystem
  with_table fs table = record fs { block_files = table }

  write_step :
      (i r n : ℕ) (fs : FileSystem) (ns : List ℕ)
      → fs.block_size ≡ b
      → Follow i (n ∷ ns)
      → (chunk : Bytes)
      → take (size_of_content_to_write b (suc i) q (length text)) (drop (i * b) text) ≡ chunk
      → write_loop commons lib text q ts i (suc r) fs
        ≡ write_loop commons lib text q ts
            (suc i)
            r
            (with_table fs (store (number_text n) chunk fs.block_files))
  unfolding write_loop
  write_step i r n fs ns e f chunk c =
      let g : get_elem? ts i ≡ some (number_text n) =
        subst (λ k. get_elem? ts k ≡ some (number_text n)) (omega arith) (f 0) in
      rw
        (
          write_loop,
          g,
          law.substring text (i * fs.block_size)
              (size_of_content_to_write fs.block_size (suc i) q (length text)),
          e,
          c,
        )
        refl

  write_end : (i : ℕ) (fs : FileSystem) → write_loop commons lib text q ts i 0 fs ≡ done fs
  unfolding write_loop
  write_end i fs = refl

  abbrev Result : ℕ → FileSystem → List ℕ → Table Bytes → Type 0
  Result i fs ns table =
      (write_loop commons lib text q ts i (length ns) fs ≡ done (with_table fs table))
      × Written b fs.block_files ns (drop (i * b) text) table

  last_chunk :
      (i : ℕ)
      → q ≡ suc i
      → take (size_of_content_to_write b (suc i) q (length text)) (drop (i * b) text)
        ≡ drop (i * b) text
  last_chunk i e =
      let t : (suc i == q) ≡ true = ground arith in
      let p : q - 1 ≡ i = omega arith in
      rw (t, p)
        (take_all (length text - i * b) (drop (i * b) text)
          (omega (arith, length-drop (i * b) text)))

  full_chunk :
      (i : ℕ)
      → suc i < q
      → take (size_of_content_to_write b (suc i) q (length text)) (drop (i * b) text)
        ≡ take b (drop (i * b) text)
  full_chunk i l = let t : (suc i == q) ≡ false = ground arith in rw t refl

  next_chunk : (i : ℕ) → drop b (drop (i * b) text) ≡ drop (suc i * b) text
  next_chunk i =
      let e : i * b + b ≡ suc i * b = sym (suc-mul i b) in
      drop_more (i * b) b text ∙ ap (λ k. drop k text) e

  Follow-rest : (i n : ℕ) (ns : List ℕ) → Follow i (n ∷ ns) → Follow (suc i) ns
  Follow-rest i n ns f k =
      let e : suc i + k ≡ i + suc k = omega arith in ap (get_elem? ts) e ∙ f (suc k)

  pub write_loop-Written :
      (ns : List ℕ) (i n : ℕ) (fs : FileSystem)
      → fs.block_size ≡ b
      → Follow i (n ∷ ns)
      → q ≡ i + suc (length ns)
      → All IsKey (n ∷ ns)
      → Pairs OtherNumber (n ∷ ns)
      → Fits (suc (length ns)) b (length (drop (i * b) text))
      → (table : Table Bytes) × Result i fs (n ∷ ns) table
  write_loop-Written [] i n fs e f h k a t = (
    store (number_text n) (drop (i * b) text) fs.block_files,
    (
      write_step i 0 n fs [] e f (drop (i * b) text) (last_chunk i (omega arith))
          ∙ write_end (suc i)
              (with_table fs (store (number_text n) (drop (i * b) text) fs.block_files)),
      one_chunk b fs.block_files n (drop (i * b) text) k.0 t.1,
    ),
  )
  write_loop-Written (m ∷ ns) i n fs e f h k a t =
      let chunk = take b (drop (i * b) text) in
      let fs1 = with_table fs (store (number_text n) chunk fs.block_files) in
      let l : length (drop (i * b) text) - b ≡ length (drop (suc i * b) text) =
        omega (arith, length-drop b (drop (i * b) text), ap length (next_chunk i)) in
      let (table, (r, w)) =
        write_loop-Written ns (suc i) m fs1 e (Follow-rest i n (m ∷ ns) f) (omega arith) k.1 a.1
          (subst (Fits (suc (length ns)) b) l t.1) in
      (
        table,
        (
          write_step i (suc (length ns)) n fs (m ∷ ns) e f chunk (full_chunk i (omega arith)) ∙ r,
          more_chunks b fs.block_files table n m ns (drop (i * b) text) k a.0 t.0
              (subst (λ z. Written b fs1.block_files (m ∷ ns) z table) (sym (next_chunk i)) w),
        ),
      )
