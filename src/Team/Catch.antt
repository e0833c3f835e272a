-- ===== src/Team/Catch.antt =====
-- team/src/trainer.c: what follows the answer to a catch, and the detection of deadlocks between
-- two trainers.
use tp_so_delibird.Common.{
  ◌%◌, ◌||◌, ◌-◌, ◌^◌, ◌==◌, ◌++◌, ◌&&◌, keep, [], ◌+◌, true, some, not, if◌then◌else◌, find?,
  false, ◌∷◌, none, Option, Bool, List,
}
use tp_so_delibird.Wire.Bytes.{Bytes}
use tp_so_delibird.Wire.Types.{AppearedPokemon}
use tp_so_delibird.Broker.State.{done, undefined, Outcome, ◌>>=◌, Commons}
use tp_so_delibird.Team.Dictionary.{
  substract_from_dictionary, list_remove_by_value, get_dictionary_difference, dictionary_add_values,
  add_to_dictionary, Dictionary, dictionary_get, dictionary_put, shares,
}
use tp_so_delibird.Team.State.{
  new, one, exit, block, many, is_status, full, c_text, DeadlockMatcher, write_trainer, Trainer,
  ToDeadlock, Backup, Team, Double,
}
use Prim.Native.Nat.{ℕ}

abbrev pub is_nil : {A : Type 0} → List A → Bool
is_nil [] = true
is_nil (x ∷ xs) = false

-- The outcome of the search found_behind a pokemon that stays.
abbrev pub found_behind :
    AppearedPokemon
    → Option (AppearedPokemon × List Backup)
    → Option (AppearedPokemon × List Backup)
found_behind p none = none
found_behind p (some (q, left)) = some (q, one p ∷ left)

module _ {F : Type 0} where
  unfoldable pub is_trainer_full : Trainer F → Bool
  unfolding dictionary_add_values
  is_trainer_full t =
      (dictionary_add_values t.caught + 2 ^ 32 - dictionary_add_values t.objective) % 2 ^ 32 == 0

  unfoldable pub all_trainers_full : List (Trainer F) → Bool
  all_trainers_full [] = true
  all_trainers_full (t ∷ ts) =
      (is_status t.status full || is_status t.status exit) && all_trainers_full ts

  abbrev pub put_back : Team F → Option (AppearedPokemon × List Backup) → Team F
  put_back g none = g
  put_back g (some (p, left)) = record g {
    appeared_backup = left;
    pokemon_received_to_catch = g.pokemon_received_to_catch ++ (p ∷ []);
    sem_appeared_pokemon = g.sem_appeared_pokemon + 1;
  }

module _ {F : Type 0} where
  abbrev pub pokemon_of : Trainer F → Bytes
  pokemon_of t = c_text t.pcb_trainer.pokemon_to_catch.pokemon

  -- `substract_from_dictionary` on the remaining pokemons writes to the quantity that the objective
  -- has too, where they share it.
  abbrev pub lowered_objective : Bytes → Team F → Dictionary
  lowered_objective pokemon g = elim (dictionary_get g.remaining_pokemons pokemon) [
    | none ↦ g.global_objective
    | some quantity ↦
        if shares g.shared_quantities pokemon
        then dictionary_put g.global_objective pokemon ((quantity + 2 ^ 32 - 1) % 2 ^ 32)
        else g.global_objective
  ]

  -- A pokemon that is caught, and one that is no longer being caught.
  abbrev pub won : Bytes → Team F → Team F
  won pokemon g = record g {
    caught_pokemons = add_to_dictionary g.caught_pokemons pokemon;
    remaining_pokemons = substract_from_dictionary g.remaining_pokemons pokemon;
    global_objective = lowered_objective pokemon g;
  }

  abbrev pub let_go : Bytes → Team F → Team F
  let_go pokemon g = record g {
    being_caught_pokemons = substract_from_dictionary g.being_caught_pokemons pokemon;
  }

module _ (lib : Commons) where
  abbrev pub has_text : List Bytes → Bytes → Bool
  has_text texts text = not (is_nil (keep (λ x. lib.equals_ignore_case x text) texts))

  -- The texts of `texts` that `pokemon` is equal to.
  abbrev pub holds_leftover : Bytes → ToDeadlock → Bool
  holds_leftover pokemon d = not (is_nil (keep (λ x. lib.equals_ignore_case pokemon x) d.leftovers))

  unfoldable pub get_leftover_from_to_deadlock_by_pokemon :
      Bytes → List ToDeadlock → Option ToDeadlock
  get_leftover_from_to_deadlock_by_pokemon pokemon ds = find? (holds_leftover pokemon) ds

  unfoldable pub get_pokemon_he_needs : List Bytes → List Bytes → Option Bytes
  get_pokemon_he_needs leftovers remaining = find? (has_text leftovers) remaining

  -- A write through the pointer that get_leftover_from_to_deadlock_by_pokemon returned.
  abbrev pub write_to_deadlock : Bytes → ToDeadlock → List ToDeadlock → List ToDeadlock
  write_to_deadlock pokemon d [] = []
  write_to_deadlock pokemon d (e ∷ es) =
      if holds_leftover pokemon e then d ∷ es else e ∷ write_to_deadlock pokemon d es

  -- What find_candidate_to_swap changes.
  pub record Swaps : Type 0 where
    pub leftovers : List Bytes
    pub remaining : List Bytes
    pub to_deadlock : List ToDeadlock
    pub matched_deadlocks : List DeadlockMatcher

  -- The body of its loop for a text.
  unfoldable pub match_swap : ℕ → Bytes → Swaps → Swaps
  unfolding get_leftover_from_to_deadlock_by_pokemon get_pokemon_he_needs list_remove_by_value
  match_swap name pokemon s =
      let remove = list_remove_by_value lib.equals_ignore_case in
      elim (get_leftover_from_to_deadlock_by_pokemon pokemon s.to_deadlock) [
        | none ↦ s
        | some other ↦ elim (get_pokemon_he_needs s.leftovers other.remaining) [
          | none ↦ s
          | some pokemon_he_needs ↦ record {
            leftovers = remove s.leftovers pokemon_he_needs;
            remaining = remove s.remaining pokemon;
            to_deadlock =
                write_to_deadlock pokemon
                  (record other {
                    leftovers = remove other.leftovers pokemon;
                    remaining = remove other.remaining pokemon_he_needs;
                  })
                  s.to_deadlock;
            matched_deadlocks =
                s.matched_deadlocks
                ++ ((record {
                  trainer1 = name;
                  pokemon1 = pokemon_he_needs;
                  trainer2 = other.trainer;
                  pokemon2 = pokemon;
                })
                    ∷ []);
          }
        ]
      ]

  -- The loop over the copy `aux` of the remaining texts.
  unfoldable pub find_candidate_to_swap : ℕ → List Bytes → Swaps → Swaps
  unfolding match_swap
  find_candidate_to_swap name [] s = s
  find_candidate_to_swap name (pokemon ∷ aux) s =
      find_candidate_to_swap name aux (match_swap name pokemon s)

  -- The first pokemon of the kind among the spare ones, and the others. A list among them is
  -- read as a pokemon, which it is not.
  unfoldable pub search_backup :
      Bytes → List Backup → Outcome (Option (AppearedPokemon × List Backup))
  search_backup pokemon [] = done none
  search_backup pokemon (many ps ∷ bs) = undefined
  search_backup pokemon (one p ∷ bs) =
      let rest = search_backup pokemon bs in
      if lib.equals_ignore_case pokemon (c_text p.pokemon)
      then done (some (p, bs))
      else rest >>= λ found. done (found_behind p found)

  module _ {F : Type 0} where
    -- The trainer with its new status, and the team.
    unfoldable pub validate_deadlock : Team F → Trainer F → Trainer F × Team F
    unfolding find_candidate_to_swap get_dictionary_difference
    validate_deadlock g t =
        let leftovers = get_dictionary_difference t.caught t.objective in
        let remaining = get_dictionary_difference t.objective t.caught in
        if is_nil leftovers && is_nil remaining
        then (record t { status = exit }, g)
        else let s : Swaps = find_candidate_to_swap t.name remaining (record {
          leftovers = leftovers;
          remaining = remaining;
          to_deadlock = g.to_deadlock;
          matched_deadlocks = g.matched_deadlocks;
        }) in
          (
            t,
            record g {
              matched_deadlocks = s.matched_deadlocks;
              to_deadlock =
                  s.to_deadlock
                  ++ ((record {
                    trainer = t.name;
                    leftovers = s.leftovers;
                    remaining = s.remaining;
                  })
                      ∷ []);
            },
          )

    unfoldable pub search_in_backup : Team F → Bytes → Outcome (Team F)
    unfolding search_backup
    search_in_backup g pokemon =
        search_backup pokemon g.appeared_backup >>= λ found. done (put_back g found)

    -- What handle_catch counts, in the trainer and in the team.
    unfoldable pub count_catch : Team F → Trainer F → Outcome (Trainer F × Team F)
    unfolding search_in_backup add_to_dictionary
    count_catch g t =
        let pokemon = pokemon_of t in
        (if t.pcb_trainer.result_catch == 1
          then done (record t { caught = add_to_dictionary t.caught pokemon }, won pokemon g)
          else search_in_backup g pokemon >>= λ g'. done (t, g'))
        >>= λ (t', g'). done (t', let_go pokemon g')

    module _ (D : Double F) where
      abbrev pub end_burst : Trainer F → Trainer F
      end_burst t = record t {
        real_anterior = D.sub t.estimacion_anterior t.estimacion_actual;
        sjf_calculado = false;
        pcb_trainer = record t.pcb_trainer { quantum = 0 };
      }

      -- The rest of handle_catch.
      unfoldable pub after_catch : Team F → Trainer F → Team F
      unfolding is_trainer_full all_trainers_full validate_deadlock write_trainer
      after_catch g t =
          if is_trainer_full t
          then (let (t', g') = validate_deadlock g (record t { status = full }) in
              let ts = write_trainer (end_burst t') g'.trainers in
              record g' {
                trainers = ts;
                sem_all_pokemons_caught =
                    if is_nil g'.remaining_pokemons && all_trainers_full ts
                    then g'.sem_all_pokemons_caught + 1
                    else g'.sem_all_pokemons_caught;
              })
          else record g {
            trainers =
                write_trainer
                  (end_burst (record t {
                    status = block;
                    pcb_trainer = record t.pcb_trainer { status = new };
                  }))
                  g.trainers;
            sem_trainer_available = g.sem_trainer_available + 1;
          }

      unfoldable pub handle_catch : Team F → Trainer F → Outcome (Team F)
      unfolding count_catch after_catch
      handle_catch g t = count_catch g t >>= λ (t', g'). done (after_catch g' t')
