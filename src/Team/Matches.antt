-- ===== src/Team/Matches.antt =====
-- The pair of a pokemon and a trainer that `match_closest_trainer` chooses.
use tp_so_delibird.Common.{
  ◌<◌, ◌^◌, All-Elem, get_elem?-All, remove_at, none, ◌⊎◌, ltb, false, Bool-cases, true, ◌≤◌, ◌==◌,
  List, Elem, All, ℕ, [], ◌∷◌, suc, some, refl, arith, ◌≡◌, inl, inr,
}
use tp_so_delibird.Common.Int.{pos}
use tp_so_delibird.Wire.Types.{AppearedPokemon}
use tp_so_delibird.Broker.State.{done}
use tp_so_delibird.Team.Candidates.{
  offered-IsCandidate, weaker, match_loop_offer, IsCandidate, offered, next_candidate, AtLeast,
  offer, match_loop_skip, IsCovered,
}
use tp_so_delibird.Team.Dictionary.{add_to_dictionary}
use tp_so_delibird.Team.Matcher.{
  match_closest_trainer, nearer, match_loop, not_exec, Candidate, check_remaining_minus_vistima,
}
use tp_so_delibird.Team.Movement.{get_distance}
use tp_so_delibird.Team.Nearest.{IsNear, get_distance-IsNear}
use tp_so_delibird.Team.State.{c_text, Trainer, Team}
use mathlib.Core.Path.{subst, sym, ◌∙◌, ap}

module _ {F : Type 0} where
  record Winning (g : Team F) (i : ℕ) (ps : List AppearedPokemon) (b : Candidate F) : Type 0 where
    pub winner : Candidate F
    pub returned : match_loop g i ps (some b) ≡ done (some winner)
    pub below : winner.distance ≤ b.distance
    pub least : All (λ p. IsCovered g p ⊎ AtLeast g winner.distance p) ps
    pub origin : (winner ≡ b) ⊎ IsCandidate g i ps winner

  module _ (g : Team F) (t₀ : Trainer F) (at_hand : Elem t₀ g.trainers)
      (idle : not_exec t₀ ≡ true) where
    match_loop_taken :
        (i : ℕ) (p : AppearedPokemon) (ps : List AppearedPokemon) (b : Candidate F)
        → ltb (get_distance (offer g t₀ at_hand idle i p).trainer p) b.distance ≡ true
        → nearer (offered g t₀ at_hand idle i p) (some b) ≡ some (offered g t₀ at_hand idle i p)
    match_loop_taken i p ps b e = rw e refl

    match_loop_left :
        (i : ℕ) (p : AppearedPokemon) (ps : List AppearedPokemon) (b : Candidate F)
        → ltb (get_distance (offer g t₀ at_hand idle i p).trainer p) b.distance ≡ false
        → nearer (offered g t₀ at_hand idle i p) (some b) ≡ some b
    match_loop_left i p ps b e = rw e refl

    match_loop-Winning : (i : ℕ) (ps : List AppearedPokemon) (b : Candidate F) → Winning g i ps b
    unfolding match_loop
    match_loop-Winning i [] b = record {
      winner = b;
      returned = refl;
      below = omega arith;
      least = tt;
      origin = inl refl;
    }
    match_loop-Winning i (p ∷ ps) b =
        elim (Bool-cases (check_remaining_minus_vistima g (c_text p.pokemon) == 0)) [
          | inl e ↦
              let r : Winning g (suc i) ps b = match_loop-Winning (suc i) ps b in
              record {
                winner = r.winner;
                returned = match_loop_skip g t₀ at_hand idle i p ps (some b) e ∙ r.returned;
                below = r.below;
                least = (inl e, r.least);
                origin = elim r.origin [
                  | inl h ↦ inl h
                  | inr k ↦ inr (next_candidate g i p ps r.winner k)
                ];
              }
          | inr e ↦
              elim (Bool-cases
                (ltb (get_distance (offer g t₀ at_hand idle i p).trainer p) b.distance)) [
                  | inl l ↦
                      let r : Winning g (suc i) ps (offered g t₀ at_hand idle i p) =
                        match_loop-Winning (suc i) ps (offered g t₀ at_hand idle i p) in
                      record {
                        winner = r.winner;
                        returned =
                            match_loop_offer g t₀ at_hand idle i p ps (some b) e
                            ∙ ap (match_loop g (suc i) ps) (match_loop_taken i p ps b l)
                            ∙ r.returned;
                        below = ground (arith, r.below);
                        least = (
                          inr (
                              weaker p r.winner.distance
                                (get_distance (offer g t₀ at_hand idle i p).trainer p) g.trainers
                                r.below (offer g t₀ at_hand idle i p).least),
                          r.least,
                        );
                        origin = inr (elim r.origin [
                          | inl h ↦
                              subst (IsCandidate g i (p ∷ ps)) (sym h)
                                (offered-IsCandidate g t₀ at_hand idle i p ps e)
                          | inr k ↦ next_candidate g i p ps r.winner k
                        ]);
                      }
                  | inr l ↦
                      let r : Winning g (suc i) ps b = match_loop-Winning (suc i) ps b in
                      record {
                        winner = r.winner;
                        returned =
                            match_loop_offer g t₀ at_hand idle i p ps (some b) e
                            ∙ ap (match_loop g (suc i) ps) (match_loop_left i p ps b l)
                            ∙ r.returned;
                        below = r.below;
                        least = (
                          inr (
                              weaker p r.winner.distance
                                (get_distance (offer g t₀ at_hand idle i p).trainer p) g.trainers
                                (ground (arith, r.below)) (offer g t₀ at_hand idle i p).least),
                          r.least,
                        );
                        origin = elim r.origin [
                          | inl h ↦ inl h
                          | inr k ↦ inr (next_candidate g i p ps r.winner k)
                        ];
                      }
                ]
        ]

    -- The outcome of the loop once a missing pokemon stands in the list.
    record First (i : ℕ) (ps : List AppearedPokemon) : Type 0 where
      pub winner : Candidate F
      pub returned : match_loop g i ps none ≡ done (some winner)
      pub least : All (λ p. IsCovered g p ⊎ AtLeast g winner.distance p) ps
      pub candidate : IsCandidate g i ps winner

    match_loop-First :
        (i : ℕ) (ps : List AppearedPokemon) (q : AppearedPokemon)
        → Elem q ps
        → (check_remaining_minus_vistima g (c_text q.pokemon) == 0) ≡ false
        → First i ps
    unfolding match_loop
    match_loop-First i [] q m n = elim m [ ]
    match_loop-First i (p ∷ ps) q m n =
        elim (Bool-cases (check_remaining_minus_vistima g (c_text p.pokemon) == 0)) [
          | inl e ↦
              let later : Elem q ps = elim m [
                | inl h ↦ absurd (missing_head p q h e n)
                | inr k ↦ k
              ] in
              let r : First (suc i) ps = match_loop-First (suc i) ps q later n in
              record {
                winner = r.winner;
                returned = match_loop_skip g t₀ at_hand idle i p ps none e ∙ r.returned;
                least = (inl e, r.least);
                candidate = next_candidate g i p ps r.winner r.candidate;
              }
          | inr e ↦
              let r : Winning g (suc i) ps (offered g t₀ at_hand idle i p) =
                match_loop-Winning (suc i) ps (offered g t₀ at_hand idle i p) in
              record {
                winner = r.winner;
                returned = match_loop_offer g t₀ at_hand idle i p ps none e ∙ r.returned;
                least = (
                  inr (
                      weaker p r.winner.distance
                        (get_distance (offer g t₀ at_hand idle i p).trainer p) g.trainers r.below
                        (offer g t₀ at_hand idle i p).least),
                  r.least,
                );
                candidate = elim r.origin [
                  | inl h ↦
                      subst (IsCandidate g i (p ∷ ps)) (sym h)
                        (offered-IsCandidate g t₀ at_hand idle i p ps e)
                  | inr k ↦ next_candidate g i p ps r.winner k
                ];
              }
        ]
      where
        missing_head :
            (p q : AppearedPokemon)
            → q ≡ p
            → IsCovered g p
            → (check_remaining_minus_vistima g (c_text q.pokemon) == 0) ≡ false
            → ⊥
        missing_head p q h e n =
            let k : (check_remaining_minus_vistima g (c_text p.pokemon) == 0) ≡ false =
              subst
                (λ (r : AppearedPokemon).
                  (check_remaining_minus_vistima g (c_text r.pokemon) == 0) ≡ false)
                h n in
            ground arith

  -- The match that is returned, and the pair that it is made of.
  pub record Chosen (g : Team F) : Type 0 where
    pub winner : Candidate F
    pub returned :
        match_closest_trainer g
        ≡ done (
          record {
            shortest_distance = pos winner.distance;
            closest_trainer = winner.trainer.name;
            closest_pokemon = winner.pokemon;
          },
          record g {
            being_caught_pokemons =
                add_to_dictionary g.being_caught_pokemons (c_text winner.pokemon.pokemon);
            pokemon_received_to_catch = remove_at winner.position g.pokemon_received_to_catch;
          },
        )
    pub least : All (λ p. IsCovered g p ⊎ AtLeast g winner.distance p) g.pokemon_received_to_catch
    pub candidate : IsCandidate g 0 g.pokemon_received_to_catch winner
    pub fits : winner.distance < 2 ^ 31

  -- Let all coordinates be below 2^30, a trainer be free, and a received pokemon be of a kind of
  -- which another number remains than is being caught (the code tests their difference, a
  -- uint32_t, for 0). Then a match is returned: its pokemon is a received one of such a kind, its
  -- trainer is free, their distance is an `int`, and no free trainer is nearer to any received
  -- pokemon of such a kind. The pokemon leaves the received ones at its own index and counts as
  -- being caught.
  pub match_closest_trainer-Chosen :
      (g : Team F) (t : Trainer F) (p : AppearedPokemon)
      → All (λ u. IsNear u.pos_x u.pos_y) g.trainers
      → All (λ q. IsNear q.pos_x q.pos_y) g.pokemon_received_to_catch
      → Elem t g.trainers
      → not_exec t ≡ true
      → Elem p g.pokemon_received_to_catch
      → (check_remaining_minus_vistima g (c_text p.pokemon) == 0) ≡ false
      → Chosen g
  unfolding match_closest_trainer
  match_closest_trainer-Chosen g t p near places a i m n =
      let r : First g t a i 0 g.pokemon_received_to_catch =
        match_loop-First g t a i 0 g.pokemon_received_to_catch p m n in
      record {
        winner = r.winner;
        returned = rw (match_closest_trainer, r.returned) refl;
        least = r.least;
        candidate = r.candidate;
        fits = omega (
          arith,
          r.candidate.distance,
          get_distance-IsNear r.winner.trainer r.winner.pokemon
              (All-Elem (λ u. IsNear u.pos_x u.pos_y) g.trainers near r.candidate.member)
              (get_elem?-All (λ q. IsNear q.pos_x q.pos_y) g.pokemon_received_to_catch
                r.candidate.behind r.winner.pokemon places r.candidate.received),
        );
      }
