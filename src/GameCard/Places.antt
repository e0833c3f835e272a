-- ===== src/GameCard/Places.antt =====
-- gamecard/src/gamecard.c: the position of a place in the list of a file.
use tp_so_delibird.Common.{
  if◌then◌else◌, ==_iff, arith, ◌+◌, suc, [], ◌∷◌, true, length, false, ◌≡◌, ◌++◌, remove_at,
  get_elem?, find?, All, ◌&&◌, ℕ, List, Bool, some, none, ◌∙◌,
}
use tp_so_delibird.Common.Decimal.{int_of_u32}
use tp_so_delibird.Common.Int.{decrement, pos, negsuc, ℤ}
use tp_so_delibird.Wire.Types.{NewPokemon}
use tp_so_delibird.Broker.State.{done}
use tp_so_delibird.GameCard.Positions.{same_place, same_int, create_position, position_list}
use tp_so_delibird.GameCard.State.{Position}
use tp_so_delibird.GameCard.Updates.{
  is_one, without, less_one, update_first, replace_at, add_count, with_new,
}
use mathlib.Core.Path.{ap, refl}

same_int→eq : (a b : ℤ) → same_int a b ≡ true → a ≡ b
same_int→eq (pos m) (pos n) h = ap pos ((==_iff m n).0 h)
same_int→eq (negsuc m) (negsuc n) h = ap negsuc ((==_iff m n).0 h)
same_int→eq (pos m) (negsuc n) h = cc
same_int→eq (negsuc m) (pos n) h = cc

same_int_sym : (a b : ℤ) → same_int a b ≡ same_int b a
same_int_sym (pos m) (pos n) = ground arith
same_int_sym (negsuc m) (negsuc n) = ground arith
same_int_sym (pos m) (negsuc n) = refl
same_int_sym (negsuc m) (pos n) = refl

both_true : (a b : Bool) → (a && b) ≡ true → (a ≡ true) × (b ≡ true)
both_true true b h = (refl, h)
both_true false b h = cc

-- Another position is at the place of `p` if it is at the place x, y.
at_place :
    (x y : ℤ) (p q : Position)
    → same_place x y p ≡ true
    → same_place q.pos_x q.pos_y p ≡ same_place x y q
at_place x y p q h =
    let (hx, hy) = both_true (same_int x p.pos_x) (same_int y p.pos_y) h in
    rw
      (
        ← same_int→eq x p.pos_x hx,
        ← same_int→eq y p.pos_y hy,
        same_int_sym q.pos_x x,
        same_int_sym q.pos_y y,
      )
      refl

abbrev pub Elsewhere : ℤ → ℤ → Position → Type 0
Elsewhere x y p = same_place x y p ≡ false

-- The list has the position of the place once, between the others.
pub record OnlyAt (x y : ℤ) (pre : List Position) (p : Position) (post : List Position)
    : Type 0 where
  pub here : same_place x y p ≡ true
  pub before : All (Elsewhere x y) pre
  pub behind : All (Elsewhere x y) post

pub find-OnlyAt :
    (x y : ℤ) (p : Position) (pre post : List Position)
    → OnlyAt x y pre p post
    → find? (same_place x y) (pre ++ (p ∷ post)) ≡ some p
find-OnlyAt x y p [] post o = rw o.here refl
find-OnlyAt x y p (q ∷ pre) post o =
    rw o.before.0 (
      find-OnlyAt x y p pre post (record { here = o.here; before = o.before.1; behind = o.behind }))

pub find-none :
    (x y : ℤ) (ps : List Position) → All (Elsewhere x y) ps → find? (same_place x y) ps ≡ none
find-none x y [] a = refl
find-none x y (p ∷ ps) a = rw a.0 (find-none x y ps a.1)

list-none :
    (x y : ℤ) (p : Position) (i : ℕ) (ps : List Position)
    → same_place x y p ≡ true
    → All (Elsewhere x y) ps
    → position_list i ps p ≡ none
unfolding position_list
list-none x y p i [] h a = refl
list-none x y p i (q ∷ ps) h a = rw (list-none x y p (suc i) ps h a.1, at_place x y p q h, a.0) refl

list-OnlyAt :
    (x y : ℤ) (p : Position) (i : ℕ) (pre post : List Position)
    → OnlyAt x y pre p post
    → position_list i (pre ++ (p ∷ post)) p ≡ some (i + length pre)
unfolding position_list
list-OnlyAt x y p i [] post o =
    let z : i ≡ i + 0 = omega arith in
    rw (list-none x y p (suc i) post o.here o.behind, at_place x y p p o.here, o.here) (ap some z)
list-OnlyAt x y p i (q ∷ pre) post o =
    let z : suc i + length pre ≡ i + suc (length pre) = omega arith in
    rw
      (list-OnlyAt x y p (suc i) pre post
        (record { here = o.here; before = o.before.1; behind = o.behind }))
      (ap some z)

replace-middle :
    (p p' : Position) (pre post : List Position)
    → replace_at (length pre) p' (pre ++ (p ∷ post)) ≡ pre ++ (p' ∷ post)
replace-middle p p' [] post = refl
replace-middle p p' (q ∷ pre) post = ap (◌∷◌ q) (replace-middle p p' pre post)

remove-middle :
    (p : Position) (pre post : List Position)
    → remove_at (length pre) (pre ++ (p ∷ post)) ≡ pre ++ post
remove-middle p [] post = refl
remove-middle p (q ∷ pre) post = ap (◌∷◌ q) (remove-middle p pre post)

get-middle :
    (p : Position) (pre post : List Position) → get_elem? (pre ++ (p ∷ post)) (length pre) ≡ some p
get-middle p [] post = refl
get-middle p (q ∷ pre) post = get-middle p pre post

update-middle :
    (x y : ℤ) (p p' : Position) (pre post : List Position)
    → OnlyAt x y pre p post
    → update_first x y p' (pre ++ (p ∷ post)) ≡ pre ++ (p' ∷ post)
update-middle x y p p' [] post o = rw o.here refl
update-middle x y p p' (q ∷ pre) post o = rw o.before.0 (
    ap (◌∷◌ q) (
      update-middle x y p p' pre post
        (record { here = o.here; before = o.before.1; behind = o.behind })))

abbrev pub more_at : Position → NewPokemon → Position
more_at p m = record p { count = add_count p.count m.count }

abbrev pub place_of_new : NewPokemon → Position
place_of_new m = create_position (int_of_u32 m.pos_x) (int_of_u32 m.pos_y) (int_of_u32 m.count)

list-first :
    (x y : ℤ) (p : Position) (pre post : List Position)
    → OnlyAt x y pre p post
    → position_list 0 (pre ++ (p ∷ post)) p ≡ some (length pre)
list-first x y p pre post o =
    let z : 0 + length pre ≡ length pre = omega arith in list-OnlyAt x y p 0 pre post o ∙ ap some z

-- with_new adds the pokemons of the message to the position of its place, which stays where it
-- stands in the list, if the list has that place once.
pub with_new-OnlyAt :
    (m : NewPokemon) (p : Position) (pre post : List Position)
    → OnlyAt (int_of_u32 m.pos_x) (int_of_u32 m.pos_y) pre p post
    → with_new (pre ++ (p ∷ post)) m ≡ pre ++ (more_at p m ∷ post)
unfolding with_new
with_new-OnlyAt m p pre post o =
    let x = int_of_u32 m.pos_x in
    let y = int_of_u32 m.pos_y in
    let p' = more_at p m in
    let o' : OnlyAt x y pre p' post = record {
      here = o.here;
      before = o.before;
      behind = o.behind;
    } in
    rw
      (
        with_new,
        find-OnlyAt x y p pre post o,
        update-middle x y p p' pre post o,
        list-first x y p' pre post o',
        replace-middle p' p' pre post,
      )
      refl

-- with_new adds a place that the list does not have at its end, with the count of the message.
pub with_new-Elsewhere :
    (m : NewPokemon) (ps : List Position)
    → All (Elsewhere (int_of_u32 m.pos_x) (int_of_u32 m.pos_y)) ps
    → with_new ps m ≡ ps ++ (place_of_new m ∷ [])
unfolding with_new
with_new-Elsewhere m ps a =
    rw (with_new, find-none (int_of_u32 m.pos_x) (int_of_u32 m.pos_y) ps a) refl

-- The positions after one pokemon of the place is taken.
abbrev pub one_taken : List Position → Position → List Position → List Position
one_taken pre p post =
    if is_one p.count then pre ++ post else pre ++ (record p { count = decrement p.count } ∷ post)

pub without-OnlyAt :
    (x y : ℤ) (pre : List Position) (p : Position) (post : List Position)
    → OnlyAt x y pre p post
    → without (pre ++ (p ∷ post)) (position_list 0 (pre ++ (p ∷ post)) p) ≡ done (pre ++ post)
without-OnlyAt x y pre p post o = rw (list-first x y p pre post o, remove-middle p pre post) refl

pub less_one-OnlyAt :
    (x y : ℤ) (pre : List Position) (p : Position) (post : List Position)
    → OnlyAt x y pre p post
    → less_one (pre ++ (p ∷ post)) (position_list 0 (pre ++ (p ∷ post)) p)
      ≡ done (pre ++ (record p { count = decrement p.count } ∷ post))
less_one-OnlyAt x y pre p post o =
    rw
      (
        less_one,
        list-first x y p pre post o,
        get-middle p pre post,
        replace-middle p (record p { count = decrement p.count }) pre post,
      )
      refl
