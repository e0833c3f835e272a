-- ===== src/Team/Exchange.antt =====
-- team/src/resolver.c, and the exchange of pokemons of team/src/team.c. The two trainers of a
-- match are never the same one.
use tp_so_delibird.Common.{
  [], ◌∷◌, write_at, false, ◌||◌, zero, ◌^◌, ◌==◌, true, ◌%◌, get_elem?, ◌+◌, suc, some, not, none,
  find?, ℕ, length, keep, if◌then◌else◌, Option, List,
}
use tp_so_delibird.Wire.Bytes.{Bytes}
use tp_so_delibird.Broker.State.{done, undefined, out_of_fuel, Outcome, ◌>>=◌, Commons}
use tp_so_delibird.Team.Catch.{has_text, is_nil}
use tp_so_delibird.Team.Dictionary.{
  substract_from_dictionary, list_remove_by_value, get_dictionary_difference, add_to_dictionary,
}
use tp_so_delibird.Team.Movement.{move_to_position}
use tp_so_delibird.Team.State.{block, is_status, exit, DeadlockMatcher, Trainer, Double}

module _ {F : Type 0} where
  -- `exchange_pokemons` without `with_validate_desalojo`: five cycles, and each trainer loses the
  -- one text and gets the other.
  unfoldable pub exchange_pokemons : DeadlockMatcher → Trainer F → Trainer F → Trainer F × Trainer F
  unfolding add_to_dictionary substract_from_dictionary
  exchange_pokemons d trainer_1 trainer_2 = (
    record trainer_1 {
      q_ciclos_cpu = (trainer_1.q_ciclos_cpu + 5) % 2 ^ 32;
      caught = add_to_dictionary (substract_from_dictionary trainer_1.caught d.pokemon1) d.pokemon2;
    },
    record trainer_2 {
      caught = add_to_dictionary (substract_from_dictionary trainer_2.caught d.pokemon2) d.pokemon1;
    },
  )

  unfoldable pub validate_state_trainer : Trainer F → Trainer F
  unfolding get_dictionary_difference
  validate_state_trainer t =
      if is_nil (get_dictionary_difference t.caught t.objective)
      then record t { status = exit }
      else record t { status = block; pcb_trainer = record t.pcb_trainer { sem_deadlock = 1 } }

  unfoldable pub resolve_deadlock :
      Double F → DeadlockMatcher → Trainer F → Trainer F → Trainer F × Trainer F
  unfolding exchange_pokemons validate_state_trainer move_to_position
  resolve_deadlock D d trainer_1 trainer_2 =
      let (t, u) =
        exchange_pokemons d (move_to_position D trainer_2.pos_x trainer_2.pos_y trainer_1)
          trainer_2 in
      (validate_state_trainer t, validate_state_trainer u)

unfoldable pub get_pokemon_i_need : Commons → List Bytes → List Bytes → Option Bytes
get_pokemon_i_need lib remaining leftovers = find? (has_text lib remaining) leftovers

-- The text to give: one that the other needs, or else the first; `none` for the NULL of an empty
-- list.
abbrev pub pokemon_i_give : Option Bytes → List Bytes → Option Bytes
pokemon_i_give (some p) leftovers = some p
pokemon_i_give none leftovers = get_elem? leftovers 0

-- What the exchanges of a trainer with another change.
pub record Trade (F : Type 0) : Type 0 where
  pub trainer : Trainer F
  pub trainer_to_compare : Trainer F
  pub leftovers : List Bytes
  pub remaining : List Bytes

module _ {F : Type 0} (D : Double F) (lib : Commons) where
  -- One exchange of `give_me_my_pokemons_dude`; `none` if the other has nothing that is needed.
  unfoldable pub trade : Trade F → Option (Outcome (Trade F))
  unfolding get_pokemon_i_need resolve_deadlock get_dictionary_difference list_remove_by_value
  trade s =
      let u = s.trainer_to_compare in
      let remove = list_remove_by_value lib.equals_ignore_case in
      elim (get_pokemon_i_need lib s.remaining (get_dictionary_difference u.caught u.objective)) [
        | none ↦ none
        | some need ↦
            some
              (elim (pokemon_i_give
                (get_pokemon_i_need lib (get_dictionary_difference u.objective u.caught)
                  s.leftovers)
                s.leftovers) [
                  | none ↦ undefined
                  | some give ↦
                      let d : DeadlockMatcher = record {
                        trainer1 = s.trainer.name;
                        pokemon1 = give;
                        trainer2 = u.name;
                        pokemon2 = need;
                      } in
                      let (t', u') = resolve_deadlock D d s.trainer u in
                      done (record {
                        trainer = t';
                        trainer_to_compare = u';
                        leftovers = remove s.leftovers give;
                        remaining = remove s.remaining need;
                      })
                ])
      ]

  -- The recursion, on fuel.
  unfoldable pub give_me_my_pokemons_dude : ℕ → Trade F → Outcome (Trade F)
  unfolding trade
  give_me_my_pokemons_dude zero s = out_of_fuel
  give_me_my_pokemons_dude (suc n) s = elim (trade s) [
    | none ↦ done s
    | some traded ↦ traded >>= λ s'. elim (is_status s'.trainer.status exit) [
      | true ↦ done s'
      | false ↦ give_me_my_pokemons_dude n s'
    ]
  ]

  -- The inner loop of `handle_deadlock` for the trainer at `i`, from the index `aux` on with `n`
  -- rounds left. The fuel is one more than the texts that remain.
  unfoldable pub compare_loop :
      ℕ → ℕ → ℕ → List (Trainer F) → List Bytes → List Bytes → Outcome (List (Trainer F))
  unfolding give_me_my_pokemons_dude
  compare_loop i zero aux ts leftovers remaining = done ts
  compare_loop i (suc n) aux ts leftovers remaining = elim (get_elem? ts i) [
    | none ↦ undefined
    | some t ↦ elim (get_elem? ts aux) [
      | none ↦ undefined
      | some u ↦ elim ((i == aux) || is_status u.status exit) [
        | true ↦ compare_loop i n (suc aux) ts leftovers remaining
        | false ↦
            give_me_my_pokemons_dude (suc (length remaining)) (record {
              trainer = t;
              trainer_to_compare = u;
              leftovers = leftovers;
              remaining = remaining;
            })
            >>= λ s.
                compare_loop i n (suc aux)
                  (write_at aux (s.trainer_to_compare ∷ []) (write_at i (s.trainer ∷ []) ts))
                  s.leftovers s.remaining
      ]
    ]
  ]

  -- Its outer loop, from the index `i` on with `n` rounds left.
  unfoldable pub deadlock_loop : ℕ → ℕ → List (Trainer F) → Outcome (List (Trainer F))
  unfolding compare_loop get_dictionary_difference
  deadlock_loop zero i ts = done ts
  deadlock_loop (suc n) i ts = elim (get_elem? ts i) [
    | none ↦ undefined
    | some t ↦ elim (is_status t.status exit) [
      | true ↦ deadlock_loop n (suc i) ts
      | false ↦
          compare_loop i (length ts) 0 ts (get_dictionary_difference t.caught t.objective)
            (get_dictionary_difference t.objective t.caught)
          >>= λ ts'. deadlock_loop n (suc i) ts'
    ]
  ]

  unfoldable pub handle_deadlock : List (Trainer F) → Outcome (List (Trainer F))
  unfolding deadlock_loop
  handle_deadlock trainers_with_deadlock =
      deadlock_loop (length trainers_with_deadlock) 0 trainers_with_deadlock

  unfoldable pub get_trainers_with_deadlock : List (Trainer F) → List (Trainer F)
  get_trainers_with_deadlock ts = keep (λ t. not (is_status t.status exit)) ts
