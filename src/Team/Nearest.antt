-- ===== src/Team/Nearest.antt =====
-- What the two searches of matcher.c choose.
use tp_so_delibird.Common.{
  ◌<◌, ◌^◌, Elem-keep, All-of_keep, All-map, ◌⊎◌, ◌≤◌, true, ltb, false, keep, Option, Elem,
  Bool-cases, All, ℕ, List, [], ◌∷◌, none, some, refl, arith, ◌≡◌, inl, inr,
}
use tp_so_delibird.Wire.Types.{AppearedPokemon}
use tp_so_delibird.Team.Matcher.{get_closest_trainer, not_exec, closest}
use tp_so_delibird.Team.Movement.{get_distance}
use tp_so_delibird.Team.State.{Trainer}
use mathlib.Core.Path.{subst, sym}

-- A place from which the distance to another such place is an `int`.
abbrev pub IsNear : ℕ → ℕ → Type 0
IsNear x y = (x < 2 ^ 30) × (y < 2 ^ 30)

module _ {F : Type 0} where
  pub get_distance-IsNear :
      (t : Trainer F) (p : AppearedPokemon)
      → IsNear t.pos_x t.pos_y
      → IsNear p.pos_x p.pos_y
      → get_distance t p < 2 ^ 31
  unfolding get_distance
  get_distance-IsNear t p h k = ground arith

  -- The trainer is busy, or is at least as far from the pokemon as `n`.
  abbrev pub NotNearer : AppearedPokemon → ℕ → Trainer F → Type 0
  NotNearer p n t = (not_exec t ≡ false) ⊎ (n ≤ get_distance t p)

  record Scanned (p : AppearedPokemon) (ts : List (Trainer F)) (b : Trainer F) : Type 0 where
    pub winner : Trainer F
    pub found : closest p ts (some b) ≡ some winner
    pub below : get_distance winner p ≤ get_distance b p
    pub least : All (λ t. get_distance winner p ≤ get_distance t p) ts
    pub origin : (winner ≡ b) ⊎ Elem winner ts

  closest-Scanned : (p : AppearedPokemon) (ts : List (Trainer F)) (b : Trainer F) → Scanned p ts b
  unfolding closest
  closest-Scanned p [] b = record {
    winner = b;
    found = refl;
    below = omega arith;
    least = tt;
    origin = inl refl;
  }
  closest-Scanned p (t ∷ ts) b = elim (Bool-cases (ltb (get_distance t p) (get_distance b p))) [
    | inl e ↦
        let s : Scanned p ts t = closest-Scanned p ts t in
        record {
          winner = s.winner;
          found = rw e s.found;
          below = ground (arith, s.below);
          least = (s.below, s.least);
          origin = ground (arith, s.origin);
        }
    | inr e ↦
        let s : Scanned p ts b = closest-Scanned p ts b in
        record {
          winner = s.winner;
          found = rw e s.found;
          below = s.below;
          least = (ground (arith, s.below), s.least);
          origin = ground (arith, s.origin);
        }
  ]

  -- The choice of a trainer for the pokemon.
  pub data Closest (p : AppearedPokemon) (ts : List (Trainer F)) (r : Option (Trainer F))
      : Type 0 where
    nobody : All (λ t. not_exec t ≡ false) ts → r ≡ none → Closest p ts r
    nearest :
        (t : Trainer F)
        → r ≡ some t
        → Elem t ts
        → not_exec t ≡ true
        → All (NotNearer p (get_distance t p)) ts
        → Closest p ts r

  never_kept : (t : Trainer F) → (not_exec t ≡ false) ⊎ ⊥ → not_exec t ≡ false
  never_kept t (inl e) = e
  never_kept t (inr h) = absurd h

  chosen :
      (p : AppearedPokemon) (ts us : List (Trainer F))
      → keep not_exec ts ≡ us
      → Closest p ts (closest p us none)
  unfolding closest
  chosen p ts [] e =
      nobody
        (All-map _ _ ts never_kept
          (All-of_keep not_exec (λ _. ⊥) ts (subst (All (λ _. ⊥)) (sym e) tt)))
        refl
  chosen p ts (u ∷ us) e =
      let s : Scanned p us u = closest-Scanned p us u in
      let m : Elem s.winner (u ∷ us) = elim s.origin [ inl h ↦ inl h | inr h ↦ inr h ] in
      let (i, k) = Elem-keep not_exec s.winner ts (subst (Elem s.winner) (sym e) m) in
      let a : All (λ t. get_distance s.winner p ≤ get_distance t p) (u ∷ us) = (s.below, s.least) in
      nearest s.winner s.found i k (
        All-of_keep not_exec (λ t. get_distance s.winner p ≤ get_distance t p) ts
          (subst (All (λ t. get_distance s.winner p ≤ get_distance t p)) (sym e) a))

  -- The trainer chosen for a pokemon is free (it is not full, executing, ready or done), and no
  -- free one is nearer; none is chosen only if none is free.
  pub get_closest_trainer-Closest :
      (p : AppearedPokemon) (ts : List (Trainer F)) → Closest p ts (get_closest_trainer p ts)
  unfolding get_closest_trainer
  get_closest_trainer-Closest p ts = chosen p ts (keep not_exec ts) refl
