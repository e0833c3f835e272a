-- ===== src/Team/Matcher.antt =====
-- team/src/matcher.c: the trainer that is closest to a pokemon that is still missing.
use tp_so_delibird.Common.{
  remove_at, ◌++◌, ◌%◌, ◌^◌, ◌-◌, false, ◌||◌, ◌+◌, ◌&&◌, true, ◌==◌, not, ltb, keep, if◌then◌else◌,
  List, Bool, ℕ, Option, [], ◌∷◌, suc, none, some,
}
use tp_so_delibird.Common.Int.{pos}
use tp_so_delibird.Wire.Bytes.{Bytes}
use tp_so_delibird.Wire.Types.{AppearedPokemon}
use tp_so_delibird.Broker.State.{undefined, ◌>>=◌, done, Outcome}
use tp_so_delibird.Team.Dictionary.{add_to_dictionary, dictionary_get}
use tp_so_delibird.Team.Movement.{get_distance}
use tp_so_delibird.Team.State.{
  modify, is_status, c_text, MatchPokemonTrainer, Trainer, Team, Status, new, ready, exec, exit,
  full,
}

-- A candidate of `match_closest_trainer`: the index of the pokemon, it, its closest trainer and
-- their distance.
pub record Candidate (F : Type 0) : Type 0 where
  pub position : ℕ
  pub pokemon : AppearedPokemon
  pub trainer : Trainer F
  pub distance : ℕ

abbrev pub nearer : {F : Type 0} → Candidate F → Option (Candidate F) → Option (Candidate F)
nearer c none = some c
nearer c (some best) = if ltb c.distance best.distance then some c else some best

module _ {F : Type 0} where
  abbrev pub not_exec : Trainer F → Bool
  not_exec t =
      not (is_status t.status exit)
      && (not (is_status t.status full)
          && (not (is_status t.status exec)
              && (not (is_status t.status ready) && is_status t.pcb_trainer.status new)))

  -- The loop of `get_closest_trainer`, with `shortest_distance` (-1 is `none`) and
  -- `closest_trainer`.
  unfoldable pub closest :
      AppearedPokemon → List (Trainer F) → Option (Trainer F) → Option (Trainer F)
  unfolding get_distance
  closest p [] best = best
  closest p (t ∷ ts) best = closest p ts (elim best [
    | none ↦ some t
    | some b ↦ if ltb (get_distance t p) (get_distance b p) then some t else some b
  ])

  -- `none` stands for the trainer fresh from `malloc` that the source returns if no one is free.
  unfoldable pub get_closest_trainer : AppearedPokemon → List (Trainer F) → Option (Trainer F)
  unfolding closest
  get_closest_trainer p ts = closest p (keep not_exec ts) none

  -- `*cant_remaining - *cant_vistima`, in a `uint32_t`.
  unfoldable pub check_remaining_minus_vistima : Team F → Bytes → ℕ
  check_remaining_minus_vistima g pokemon = elim (dictionary_get g.remaining_pokemons pokemon) [
    | none ↦ 0
    | some cant_remaining ↦ elim (dictionary_get g.being_caught_pokemons pokemon) [
      | none ↦ cant_remaining
      | some cant_vistima ↦ (cant_remaining + 2 ^ 32 - cant_vistima) % 2 ^ 32
    ]
  ]

  -- The loop of `match_closest_trainer` from the index `i` on.
  unfoldable pub match_loop :
      Team F → ℕ → List AppearedPokemon → Option (Candidate F) → Outcome (Option (Candidate F))
  unfolding check_remaining_minus_vistima get_closest_trainer get_distance
  match_loop g i [] best = done best
  match_loop g i (p ∷ ps) best = elim (check_remaining_minus_vistima g (c_text p.pokemon) == 0) [
    | true ↦ match_loop g (suc i) ps best
    | false ↦ elim (get_closest_trainer p g.trainers) [
      | none ↦ undefined
      | some t ↦ match_loop g (suc i) ps (
          nearer (record { position = i; pokemon = p; trainer = t; distance = get_distance t p })
            best)
    ]
  ]

  -- The match, the pokemon counted among those being caught and off the received ones. With no
  -- candidate the source reads a match that it never filled.
  unfoldable pub match_closest_trainer : Team F → Outcome (MatchPokemonTrainer × Team F)
  unfolding match_loop
  match_closest_trainer g = match_loop g 0 g.pokemon_received_to_catch none >>= λ best. elim best [
    | none ↦ undefined
    | some c ↦ done (
      record {
        shortest_distance = pos c.distance;
        closest_trainer = c.trainer.name;
        closest_pokemon = c.pokemon;
      },
      record g {
        being_caught_pokemons =
            add_to_dictionary g.being_caught_pokemons (c_text c.pokemon.pokemon);
        pokemon_received_to_catch = remove_at c.position g.pokemon_received_to_catch;
      },
    )
  ]

  abbrev pub with_status : Status → Trainer F → Trainer F
  with_status s t = record t { status = s }

  abbrev pub set_status : ℕ → Status → List (Trainer F) → List (Trainer F)
  set_status n s ts = modify n (with_status s) ts

  -- One round of `match_pokemon_with_trainer`; `none` while it waits on a semaphore.
  unfoldable pub match_pokemon_with_trainer : Team F → Option (Outcome (Team F))
  unfolding match_closest_trainer
  match_pokemon_with_trainer g =
      if (0 == g.sem_trainer_available) || (0 == g.sem_appeared_pokemon)
      then none
      else some (
          match_closest_trainer (record g {
            sem_trainer_available = g.sem_trainer_available - 1;
            sem_appeared_pokemon = g.sem_appeared_pokemon - 1;
          })
          >>= λ (m, g'). done (record g' {
            trainers = set_status m.closest_trainer ready g'.trainers;
            matches = g'.matches ++ (m ∷ []);
            sem_count_matches = g'.sem_count_matches + 1;
          }))
