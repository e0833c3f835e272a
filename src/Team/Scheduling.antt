-- ===== src/Team/Scheduling.antt =====
-- team/src: the threads that share the processor of the team. A step is what one of them does
-- between two waits. `wait_catch` and `desalojar` free the processor in one step and write the
-- status of the trainer in a later one.
use tp_so_delibird.Common.{Option, none, if◌then◌else◌, ◌==◌, ◌+◌, [], ◌∷◌, true, ◌++◌, some, ◌≡◌}
use tp_so_delibird.Common.Int.{pos}
use tp_so_delibird.Wire.Types.{CaughtPokemon, LocalizedPokemon, AppearedPokemon}
use tp_so_delibird.Broker.State.{done, Commons}
use tp_so_delibird.Team.Catch.{handle_catch}
use tp_so_delibird.Team.Events.{handle_caught, handle_appeared, handle_localized}
use tp_so_delibird.Team.Matcher.{with_status, match_pokemon_with_trainer}
use tp_so_delibird.Team.Movement.{step_y, step_x}
use tp_so_delibird.Team.Planner.{find_trainer, planning_catch, Planning}
use tp_so_delibird.Team.State.{modify, exec, is_status, catching, ready, Trainer, Team, Double}
use Prim.Native.Nat.{ℕ}

-- What a trainer has still to do once it has freed the processor.
pub data Leaving : Type 0 where
  to_wait to_matches : Leaving

-- The team, and how far the thread of each trainer is in `wait_catch` or `desalojar`: `none` if it
-- is in neither, or before the unlock.
pub record Threads (F : Type 0) : Type 0 where
  pub team : Team F
  pub leaving : ℕ → Option Leaving

abbrev pub set_leaving : ℕ → Option Leaving → (ℕ → Option Leaving) → ℕ → Option Leaving
set_leaving n l leaving k = if k == n then l else leaving k

module _ {F : Type 0} where
  -- `wait_catch` up to the unlock.
  unfoldable pub wait_catch : Threads F → ℕ → Threads F
  wait_catch s n = record {
    team = record (s.team) { mutex_planning = 1 };
    leaving = set_leaving n (some to_wait) s.leaving;
  }

  -- `desalojar` up to the unlock.
  unfoldable pub desalojar : Threads F → ℕ → Threads F
  desalojar s n = record {
    team = record (s.team) {
      mutex_planning = 1;
      trainers =
          modify n (λ u. record u { pcb_trainer = record u.pcb_trainer { quantum = 0 } })
            s.team.trainers;
    };
    leaving = set_leaving n (some to_matches) s.leaving;
  }

  -- The rest of `wait_catch`: the trainer waits for the answer to its catch.
  unfoldable pub wait_catch_rest : Threads F → ℕ → Threads F
  wait_catch_rest s n = record {
    team = record (s.team) { trainers = modify n (with_status catching) s.team.trainers };
    leaving = set_leaving n none s.leaving;
  }

  -- The rest of `desalojar` for a trainer that is on its way to a pokemon: it goes back to the
  -- matches. The source leaves `shortest_distance` unset, and nothing reads it.
  unfoldable pub desalojar_rest : Threads F → Trainer F → Threads F
  desalojar_rest s t = record {
    team = record (s.team) {
      trainers = modify t.name (with_status ready) s.team.trainers;
      matches =
          s.team.matches
          ++ ((record {
            shortest_distance = pos 0;
            closest_trainer = t.name;
            closest_pokemon = t.pcb_trainer.pokemon_to_catch;
          })
              ∷ []);
      sem_count_matches = s.team.sem_count_matches + 1;
    };
    leaving = set_leaving t.name none s.leaving;
  }

  -- The start of `trainer_catch_pokemon`, once the planner has woken the trainer.
  unfoldable pub trainer_catch_pokemon_start : Team F → ℕ → Team F
  trainer_catch_pokemon_start g n = record g {
    trainers =
        modify n (λ t. record t { pcb_trainer = record t.pcb_trainer { status = exec }; sem = 0 })
          g.trainers;
  }

  module _ (D : Double F) (cfg : Planning F) (lib : Commons) where
    -- What the threads of a team do while it catches: the matcher, the planner, the trainers, and
    -- those of the messages and of an answered catch. A trainer at the processor may be preempted
    -- at any time, whatever `trainer_must_go_on` asks for.
    pub data TeamStep (g : Team F) : Team F → Type 0 where
      match_found : {g' : Team F} → match_pokemon_with_trainer g ≡ some (done g') → TeamStep g g'
      planned : {g' : Team F} → planning_catch D cfg lib g ≡ some (done g') → TeamStep g g'
      started : (n : ℕ) → TeamStep g (trainer_catch_pokemon_start g n)
      stepped_x :
          (n pos_x : ℕ) → TeamStep g (record g { trainers = modify n (step_x D pos_x) g.trainers })
      stepped_y :
          (n pos_y : ℕ) → TeamStep g (record g { trainers = modify n (step_y D pos_y) g.trainers })
      answered :
          {g' : Team F} (t : Trainer F)
          → find_trainer t.name g.trainers ≡ some t
          → is_status t.status catching ≡ true
          → handle_catch lib D g t ≡ done g'
          → TeamStep g g'
      appeared : (p : AppearedPokemon) → TeamStep g (handle_appeared lib g p)
      localized :
          {g' : Team F} (l : LocalizedPokemon) → handle_localized lib g l ≡ done g' → TeamStep g g'
      answer_received : (id : ℕ) (c : CaughtPokemon) → TeamStep g (handle_caught g id c)

    -- A step that does not free the processor, or one on the way out of it.
    pub data Step (s : Threads F) : Threads F → Type 0 where
      inside : {g : Team F} → TeamStep s.team g → Step s (record s { team = g })
      caught :
          (t : Trainer F)
          → find_trainer t.name s.team.trainers ≡ some t
          → is_status t.status exec ≡ true
          → s.leaving t.name ≡ none
          → Step s (wait_catch s t.name)
      preempted :
          (t : Trainer F)
          → find_trainer t.name s.team.trainers ≡ some t
          → is_status t.status exec ≡ true
          → s.leaving t.name ≡ none
          → Step s (desalojar s t.name)
      waits : (n : ℕ) → s.leaving n ≡ some to_wait → Step s (wait_catch_rest s n)
      requeued :
          (t : Trainer F)
          → find_trainer t.name s.team.trainers ≡ some t
          → s.leaving t.name ≡ some to_matches
          → Step s (desalojar_rest s t)

    pub data Reach (s₀ : Threads F) : Threads F → Type 0 where
      start : Reach s₀ s₀
      later : {s r : Threads F} → Reach s₀ s → Step s r → Reach s₀ r
