-- ===== src/Team/Candidates.antt =====
-- The candidates that the loop of `match_closest_trainer` sees.
use tp_so_delibird.Common.{
  All-Elem, get_elem?, false, Option, ◌+◌, true, All-map, ◌≤◌, ◌==◌, List, Elem, All, ℕ, ◌∷◌, suc,
  some, refl, arith, ◌≡◌, inl, inr,
}
use tp_so_delibird.Wire.Types.{AppearedPokemon}
use tp_so_delibird.Team.Matcher.{
  get_closest_trainer, nearer, match_loop, not_exec, Candidate, check_remaining_minus_vistima,
}
use tp_so_delibird.Team.Movement.{get_distance}
use tp_so_delibird.Team.Nearest.{nearest, nobody, get_closest_trainer-Closest, NotNearer}
use tp_so_delibird.Team.State.{c_text, Trainer, Team}
use mathlib.Core.Path.{◌∙◌}

module _ {F : Type 0} where
  -- As many of this pokemon are being caught as remain, modulo 2^32, or none remain.
  abbrev pub IsCovered : Team F → AppearedPokemon → Type 0
  IsCovered g p = (check_remaining_minus_vistima g (c_text p.pokemon) == 0) ≡ true

  abbrev pub AtLeast : Team F → ℕ → AppearedPokemon → Type 0
  AtLeast g n p = All (NotNearer p n) g.trainers

  -- A pokemon at the index behind `i`, with a free trainer and their distance.
  pub record IsCandidate (g : Team F) (i : ℕ) (ps : List AppearedPokemon) (c : Candidate F)
      : Type 0 where
    pub behind : ℕ
    pub position : c.position ≡ i + behind
    pub received : get_elem? ps behind ≡ some c.pokemon
    pub missing : (check_remaining_minus_vistima g (c_text c.pokemon.pokemon) == 0) ≡ false
    pub member : Elem c.trainer g.trainers
    pub free : not_exec c.trainer ≡ true
    pub distance : c.distance ≡ get_distance c.trainer c.pokemon

  pub weaker :
      (p : AppearedPokemon) (n m : ℕ) (ts : List (Trainer F))
      → n ≤ m
      → All (NotNearer p m) ts
      → All (NotNearer p n) ts
  weaker p n m ts h a = All-map (NotNearer p m) (NotNearer p n) ts (λ t k. one_weaker t k) a
    where
      one_weaker : (t : Trainer F) → NotNearer p m t → NotNearer p n t
      one_weaker t (inl k) = inl k
      one_weaker t (inr k) = inr (omega arith)

  pub next_candidate :
      (g : Team F) (i : ℕ) (p : AppearedPokemon) (ps : List AppearedPokemon) (c : Candidate F)
      → IsCandidate g (suc i) ps c
      → IsCandidate g i (p ∷ ps) c
  next_candidate g i p ps c k = record {
    behind = suc k.behind;
    position = k.position ∙ omega arith;
    received = k.received;
    missing = k.missing;
    member = k.member;
    free = k.free;
    distance = k.distance;
  }

  module _ (g : Team F) (t₀ : Trainer F) (at_hand : Elem t₀ g.trainers)
      (idle : not_exec t₀ ≡ true) where
    -- The candidate for a missing pokemon.
    pub record Offer (i : ℕ) (p : AppearedPokemon) : Type 0 where
      pub trainer : Trainer F
      pub chosen : get_closest_trainer p g.trainers ≡ some trainer
      pub member : Elem trainer g.trainers
      pub free : not_exec trainer ≡ true
      pub least : AtLeast g (get_distance trainer p) p

    pub offer : (i : ℕ) (p : AppearedPokemon) → Offer i p
    offer i p = elim (get_closest_trainer-Closest p g.trainers) [
      | nobody a r ↦
          let k : not_exec t₀ ≡ false = All-Elem (λ t. not_exec t ≡ false) g.trainers a at_hand in
          absurd (ground arith)
      | nearest t r m f l ↦ record { trainer = t; chosen = r; member = m; free = f; least = l }
    ]

    abbrev pub offered : (i : ℕ) (p : AppearedPokemon) → Candidate F
    offered i p = record {
      position = i;
      pokemon = p;
      trainer = (offer i p).trainer;
      distance = get_distance (offer i p).trainer p;
    }

    pub offered-IsCandidate :
        (i : ℕ) (p : AppearedPokemon) (ps : List AppearedPokemon)
        → (check_remaining_minus_vistima g (c_text p.pokemon) == 0) ≡ false
        → IsCandidate g i (p ∷ ps) (offered i p)
    offered-IsCandidate i p ps e = record {
      behind = 0;
      position = omega arith;
      received = refl;
      missing = e;
      member = (offer i p).member;
      free = (offer i p).free;
      distance = refl;
    }

    pub match_loop_skip :
        (i : ℕ) (p : AppearedPokemon) (ps : List AppearedPokemon) (best : Option (Candidate F))
        → IsCovered g p
        → match_loop g i (p ∷ ps) best ≡ match_loop g (suc i) ps best
    unfolding match_loop
    match_loop_skip i p ps best e = rw (match_loop, e) refl

    pub match_loop_offer :
        (i : ℕ) (p : AppearedPokemon) (ps : List AppearedPokemon) (best : Option (Candidate F))
        → (check_remaining_minus_vistima g (c_text p.pokemon) == 0) ≡ false
        → match_loop g i (p ∷ ps) best ≡ match_loop g (suc i) ps (nearer (offered i p) best)
    unfolding match_loop
    match_loop_offer i p ps best e = rw (match_loop, e, (offer i p).chosen) refl
