-- ===== src/Team/State.antt =====
-- The structs and globals of team/src/team.h, matcher.h and trainer.h, and t_trainer of
-- operavirus-commons.h. A pointer to a trainer is its name, and a write through it reaches the
-- trainer of that name in `trainers`.
use tp_so_delibird.Common.{◌==◌, if◌then◌else◌, ℕ, List, Bool, [], ◌∷◌}
use tp_so_delibird.Common.Int.{ℤ}
use tp_so_delibird.Wire.Bytes.{Bytes}
use tp_so_delibird.Wire.Types.{AppearedPokemon}
use tp_so_delibird.Team.Dictionary.{Dictionary}

-- A text of a message up to its terminator, as the functions on C strings read it.
abbrev pub c_text : Bytes → Bytes
c_text [] = []
c_text (x ∷ xs) = if x == 0 then [] else x ∷ c_text xs

-- The operations on `double` that the planner uses, over a type that stands for it.
pub record Double (F : Type 0) : Type 0 where
  pub add : F → F → F
  pub sub : F → F → F
  pub mul : F → F → F
  pub one : F
  pub lt : F → F → Bool

pub data Status : Type 0 where
  new ready exec block exit full swapping exec_deadlock catching : Status

pub record DeadlockMatcher : Type 0 where
  pub trainer1 : ℕ
  pub pokemon1 : Bytes
  pub trainer2 : ℕ
  pub pokemon2 : Bytes

-- What `do_next` points to, with the match of `params_do_next`.
pub data DoNext : Type 0 where
  trainer_catch_pokemon : DoNext
  swap_pokemons : DeadlockMatcher → DoNext

pub record PcbTrainer : Type 0 where
  pub pokemon_to_catch : AppearedPokemon
  pub result_catch : ℕ
  pub id_message : ℕ
  pub sem_caught : ℕ
  pub sem_deadlock : ℕ
  pub status : Status
  pub do_next : DoNext
  pub quantum : ℕ

pub record Trainer (F : Type 0) : Type 0 where
  pub name : ℕ
  pub pos_x : ℕ
  pub pos_y : ℕ
  pub objective : Dictionary
  pub caught : Dictionary
  pub status : Status
  pub sem : ℕ
  pub pcb_trainer : PcbTrainer
  pub sjf_calculado : Bool
  pub estimacion_actual : F
  pub estimacion_anterior : F
  pub real_anterior : F
  pub q_ciclos_cpu : ℕ

pub record MatchPokemonTrainer : Type 0 where
  pub shortest_distance : ℤ
  pub closest_trainer : ℕ
  pub closest_pokemon : AppearedPokemon

pub record ToDeadlock : Type 0 where
  pub trainer : ℕ
  pub leftovers : List Bytes
  pub remaining : List Bytes

-- `appeared_backup` is a list of `void*`: handle_appeared adds a pokemon to it, and
-- handle_localized a list of them.
pub data Backup : Type 0 where
  one : AppearedPokemon → Backup
  many : List AppearedPokemon → Backup

-- The globals; a semaphore is its count, and so is a mutex (0 while it is locked).
pub record Team (F : Type 0) : Type 0 where
  pub trainers : List (Trainer F)
  pub pokemon_received_to_catch : List AppearedPokemon
  pub matches : List MatchPokemonTrainer
  pub queue_deadlock : List DeadlockMatcher
  pub matched_deadlocks : List DeadlockMatcher
  pub to_deadlock : List ToDeadlock
  pub appeared_backup : List Backup
  pub global_objective : Dictionary
  pub caught_pokemons : Dictionary
  pub being_caught_pokemons : Dictionary
  pub remaining_pokemons : Dictionary
  -- The texts for which `remaining_pokemons` has the pointer that stands in `global_objective`, so
  -- that both have one quantity.
  pub shared_quantities : List Bytes
  pub sem_appeared_pokemon : ℕ
  pub sem_trainer_available : ℕ
  pub sem_count_matches : ℕ
  pub sem_all_pokemons_caught : ℕ
  pub sem_count_queue_deadlocks : ℕ
  pub mutex_planning : ℕ
  pub mutex_planning_deadlock : ℕ
  pub q_cambios_contexto_totales : ℕ

module _ {F : Type 0} where
  abbrev pub has_name : ℕ → Trainer F → Bool
  has_name n t = t.name == n

  -- A write through the pointer to the trainer of the name.
  abbrev pub modify : ℕ → (Trainer F → Trainer F) → List (Trainer F) → List (Trainer F)
  modify n f [] = []
  modify n f (t ∷ ts) = (if has_name n t then f t else t) ∷ modify n f ts

  unfoldable pub write_trainer : Trainer F → List (Trainer F) → List (Trainer F)
  write_trainer t [] = []
  write_trainer t (u ∷ us) = (if u.name == t.name then t else u) ∷ write_trainer t us

-- The values of the enumeration, and the test of a status.
abbrev pub status_code : Status → ℕ
status_code new = 1
status_code ready = 2
status_code exec = 3
status_code block = 4
status_code exit = 5
status_code full = 6
status_code swapping = 7
status_code exec_deadlock = 8
status_code catching = 9

abbrev pub is_status : Status → Status → Bool
is_status a b = status_code a == status_code b
