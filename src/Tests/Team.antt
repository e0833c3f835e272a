-- ===== src/Tests/Team.antt =====
-- The theorems on the teams at a team of two trainers.
use tp_so_delibird.Common.{
  Option, none, ◌≤◌, count, List, false, ltb, ◌*◌, arith, ◌-◌, [], ◌∷◌, ◌+◌, ◌≡◌, ℕ, refl, inl, inr,
}
use tp_so_delibird.Common.Int.{pos}
use tp_so_delibird.Wire.Bytes.{Bytes}
use tp_so_delibird.Wire.Types.{LocalizedPokemon, AppearedPokemon}
use tp_so_delibird.Broker.Partitions.{fifo}
use tp_so_delibird.Broker.State.{done}
use tp_so_delibird.Team.Arrival.{move_to_position-walked, walked}
use tp_so_delibird.Team.Conservation.{resolve_deadlock-Conserved}
use tp_so_delibird.Team.Counts.{quantity}
use tp_so_delibird.Team.Dictionary.{get_dictionary_difference, Dictionary, add_to_dictionary}
use tp_so_delibird.Team.Events.{handle_localized, get_q_received}
use tp_so_delibird.Team.Exchange.{resolve_deadlock, Trade}
use tp_so_delibird.Team.Matcher.{match_pokemon_with_trainer, check_remaining_minus_vistima}
use tp_so_delibird.Team.Matches.{match_closest_trainer-Chosen, Chosen}
use tp_so_delibird.Team.Movement.{move_to_position, get_distance}
use tp_so_delibird.Team.Pieces.{count-get_dictionary_difference}
use tp_so_delibird.Team.Planner.{planning_catch, Planning}
use tp_so_delibird.Team.Processor.{mutual_exclusion}
use tp_so_delibird.Team.Remaining.{build_remaining_pokemons-Started, Started}
use tp_so_delibird.Team.Scheduling.{
  planned, match_found, start, later, Reach, inside, Threads, Leaving,
}
use tp_so_delibird.Team.Shares.{handle_localized-shared, shared, encoded}
use tp_so_delibird.Team.State.{
  trainer_catch_pokemon, new, ready, exec, Trainer, Team, MatchPokemonTrainer, Double,
  DeadlockMatcher,
}
use tp_so_delibird.Tests.Data.{commons}

abbrev naturals : Double ℕ
naturals = record { add = λ a b. a + b; sub = λ a b. a - b; mul = λ a b. a * b; one = 1; lt = ltb }

abbrev pi : Bytes
pi = 112 ∷ 105 ∷ []

abbrev mew : Bytes
mew = 109 ∷ 101 ∷ 119 ∷ []

abbrev pi_at : ℕ → ℕ → AppearedPokemon
pi_at x y = record { pokemon_len = 3; pokemon = 112 ∷ 105 ∷ 0 ∷ []; pos_x = x; pos_y = y }

abbrev a_trainer : ℕ → ℕ → Trainer ℕ
a_trainer n x = record {
  name = n;
  pos_x = x;
  pos_y = 1;
  objective = (pi, 1) ∷ [];
  caught = [];
  status = new;
  sem = 0;
  pcb_trainer = record {
    pokemon_to_catch = pi_at 4 1;
    result_catch = 1;
    id_message = 0;
    sem_caught = 0;
    sem_deadlock = 0;
    status = new;
    do_next = trainer_catch_pokemon;
    quantum = 0;
  };
  sjf_calculado = false;
  estimacion_actual = 9;
  estimacion_anterior = 9;
  real_anterior = 9;
  q_ciclos_cpu = 0;
}

abbrev a_team : Team ℕ
a_team = record {
  trainers = a_trainer 0 1 ∷ a_trainer 1 6 ∷ [];
  pokemon_received_to_catch = pi_at 4 1 ∷ [];
  matches = [];
  queue_deadlock = [];
  matched_deadlocks = [];
  to_deadlock = [];
  appeared_backup = [];
  global_objective = (pi, 2) ∷ [];
  caught_pokemons = [];
  being_caught_pokemons = [];
  remaining_pokemons = (pi, 2) ∷ [];
  shared_quantities = pi ∷ [];
  sem_appeared_pokemon = 1;
  sem_trainer_available = 2;
  sem_count_matches = 0;
  sem_all_pokemons_caught = 0;
  sem_count_queue_deadlocks = 0;
  mutex_planning = 1;
  mutex_planning_deadlock = 1;
  q_cambios_contexto_totales = 0;
}

abbrev by_turns : Planning ℕ
by_turns = record { algoritmo_planificacion = fifo; alpha = 1 }

abbrev the_match : MatchPokemonTrainer
the_match = record { shortest_distance = pos 2; closest_trainer = 1; closest_pokemon = pi_at 4 1 }

abbrev matched_team : Team ℕ
matched_team = record a_team {
  trainers = a_trainer 0 1 ∷ record (a_trainer 1 6) { status = ready } ∷ [];
  pokemon_received_to_catch = [];
  being_caught_pokemons = (pi, 1) ∷ [];
  matches = the_match ∷ [];
  sem_appeared_pokemon = 0;
  sem_trainer_available = 1;
  sem_count_matches = 1;
}

abbrev at_processor : Trainer ℕ
at_processor = record (a_trainer 1 6) { status = exec; sem = 1 }

abbrev planned_team : Team ℕ
planned_team = record matched_team {
  trainers = a_trainer 0 1 ∷ at_processor ∷ [];
  matches = [];
  sem_count_matches = 0;
  mutex_planning = 0;
  q_cambios_contexto_totales = 1;
}

-- No thread is in wait_catch or desalojar.
abbrev nobody : ℕ → Option Leaving
nobody n = none

abbrev running : Team ℕ → Threads ℕ
running g = record { team = g; leaving = nobody }

two_steps : Reach naturals by_turns commons (running a_team) (running planned_team)
unfolding match_pokemon_with_trainer planning_catch add_to_dictionary
two_steps = later (later start (inside (match_found refl))) (inside (planned refl))

mutual_exclusion_example : ◌≡◌ {A = ℕ} 1 1 × (planned_team.mutex_planning ≡ 0)
mutual_exclusion_example =
    mutual_exclusion naturals by_turns commons (running a_team) (running planned_team) at_processor
      at_processor refl (refl, (refl, tt)) two_steps (inr (inl refl)) (inr (inl refl)) refl refl
      refl refl

match_closest_trainer-Chosen_example : Chosen a_team
unfolding check_remaining_minus_vistima
match_closest_trainer-Chosen_example =
    match_closest_trainer-Chosen a_team (a_trainer 1 6) (pi_at 4 1)
      ((omega arith, omega arith), ((omega arith, omega arith), tt))
      ((omega arith, omega arith), tt) (inr (inl refl)) refl (inl refl) refl

abbrev an_exchange : DeadlockMatcher
an_exchange = record { trainer1 = 0; pokemon1 = mew; trainer2 = 1; pokemon2 = pi }

abbrev with_mew : Trainer ℕ
with_mew = record (a_trainer 0 1) { caught = (mew, 1) ∷ [] }

abbrev with_pi : Trainer ℕ
with_pi = record (a_trainer 1 6) { caught = (pi, 1) ∷ []; objective = (mew, 1) ∷ [] }

resolve_deadlock-Conserved_example :
    (quantity (resolve_deadlock naturals an_exchange with_mew with_pi).0.caught pi
        + quantity (resolve_deadlock naturals an_exchange with_mew with_pi).1.caught pi
      ≡ 1)
    × (quantity (resolve_deadlock naturals an_exchange with_mew with_pi).0.caught pi + 0 ≡ 1)
resolve_deadlock-Conserved_example =
    resolve_deadlock-Conserved naturals an_exchange with_mew with_pi pi
      (tt, omega arith, omega arith, tt) (tt, omega arith, omega arith, tt) (omega arith)
      (omega arith)

abbrev a_trade : Trade ℕ
a_trade = record {
  trainer = with_mew;
  trainer_to_compare = with_pi;
  leftovers = mew ∷ [];
  remaining = pi ∷ [];
}

abbrev places : List (ℕ × ℕ)
places = (4, 1) ∷ (7, 7) ∷ (8, 8) ∷ []

abbrev a_message : LocalizedPokemon
a_message = record {
  pokemon_len = 3;
  pokemon = 112 ∷ 105 ∷ 0 ∷ [];
  positions_count = 3;
  positions = encoded places;
}

handle_localized-shared_example :
    (handle_localized commons a_team a_message
      ≡ done (shared a_team (pi_at 4 1 ∷ []) (pi_at 7 7 ∷ pi_at 8 8 ∷ [])))
    × (get_q_received commons (shared a_team (pi_at 4 1 ∷ []) (pi_at 7 7 ∷ pi_at 8 8 ∷ [])) pi ≤ 2)
unfolding get_q_received
handle_localized-shared_example =
    handle_localized-shared commons a_team a_message 2 places refl (omega arith) (omega arith)
      (omega arith) refl refl
      ((omega arith, omega arith), ((omega arith, omega arith), ((omega arith, omega arith), tt)))

move_to_position-walked_example :
    move_to_position naturals 4 1 (a_trainer 1 6) ≡ walked naturals 2 4 1 (a_trainer 1 6)
unfolding get_distance
move_to_position-walked_example =
    move_to_position-walked naturals (a_trainer 1 6) (pi_at 4 1) (omega arith) (omega arith)
      (omega arith) (omega arith) (omega arith)

abbrev owned : Dictionary
owned = (pi, 3) ∷ (mew, 1) ∷ []

abbrev wanted : Dictionary
wanted = (mew, 2) ∷ (pi, 1) ∷ []

count-get_dictionary_difference_example : count pi (get_dictionary_difference owned wanted) ≡ 2
count-get_dictionary_difference_example =
    count-get_dictionary_difference owned wanted pi
      ((refl, tt), omega arith, omega arith, (tt, omega arith, omega arith, tt))
      ((refl, tt), omega arith, omega arith, (tt, omega arith, omega arith, tt))

build_remaining_pokemons-Started_example : Started ((pi, 3) ∷ (mew, 1) ∷ []) ((mew, 1) ∷ [])
build_remaining_pokemons-Started_example =
    build_remaining_pokemons-Started ((pi, 3) ∷ (mew, 1) ∷ []) ((mew, 1) ∷ [])
      ((refl, tt), omega arith, omega arith, (tt, omega arith, omega arith, tt))
      (tt, omega arith, omega arith, tt) (omega arith, (omega arith, tt))
