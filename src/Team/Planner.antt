-- ===== src/Team/Planner.antt =====
-- team/src/planner.c: who catches next; and the two ways of leaving the processor, of trainer.c.
use tp_so_delibird.Common.{
  ◌^◌, ◌%◌, ◌+◌, ◌-◌, ◌||◌, ◌==◌, remove_at, true, some, none, if◌then◌else◌, [], ◌∷◌, Option, List,
}
use tp_so_delibird.Wire.Bytes.{Bytes}
use tp_so_delibird.Broker.Partitions.{fifo}
use tp_so_delibird.Broker.State.{done, undefined, Outcome, ◌>>=◌, Commons}
use tp_so_delibird.Team.State.{
  modify, is_status, exec, write_trainer, Trainer, Team, MatchPokemonTrainer, Double,
}
use Prim.Native.Nat.{suc, ℕ}

-- The names of the algorithms, as texts; FIFO stands with the broker.
abbrev pub rr : Bytes
rr = 82 ∷ 82 ∷ []

abbrev pub sjf_cd : Bytes
sjf_cd = 83 ∷ 74 ∷ 70 ∷ 45 ∷ 67 ∷ 68 ∷ []

abbrev pub sjf_sd : Bytes
sjf_sd = 83 ∷ 74 ∷ 70 ∷ 45 ∷ 83 ∷ 68 ∷ []

-- ALGORITMO_PLANIFICACION and ALPHA.
pub record Planning (F : Type 0) : Type 0 where
  pub algoritmo_planificacion : Bytes
  pub alpha : F

module _ {F : Type 0} where
  unfoldable pub find_trainer : ℕ → List (Trainer F) → Option (Trainer F)
  find_trainer n [] = none
  find_trainer n (t ∷ ts) = if t.name == n then some t else find_trainer n ts

  module _ (D : Double F) (cfg : Planning F) where
    -- The estimate, which is kept in the trainer until its burst ends.
    abbrev pub estimated : Trainer F → F
    estimated t =
        if t.sjf_calculado
        then t.estimacion_actual
        else D.add (D.mul cfg.alpha t.real_anterior)
            (D.mul (D.sub D.one cfg.alpha) t.estimacion_anterior)

    unfoldable pub calculate_estimacion_actual_rafaga : Trainer F → Trainer F
    calculate_estimacion_actual_rafaga t = record t {
      estimacion_actual = estimated t;
      sjf_calculado = true;
    }

    -- `i`, `aux`, `aux_position` and `to_exec` of the loop of `planner_sjf`.
    pub record Shortest : Type 0 where
      pub aux : F
      pub aux_position : ℕ
      pub to_exec : MatchPokemonTrainer

    abbrev pub shorter_burst : Shortest → Option Shortest → Option Shortest
    shorter_burst s none = some s
    shorter_burst s (some best) = if D.lt s.aux best.aux then some s else some best

    -- The loop from the index `i` on; it writes each trainer's estimate.
    unfoldable pub sjf_loop :
        ℕ
        → List MatchPokemonTrainer
        → Option Shortest
        → List (Trainer F)
        → Outcome (Option Shortest × List (Trainer F))
    unfolding find_trainer calculate_estimacion_actual_rafaga write_trainer
    sjf_loop i [] best ts = done (best, ts)
    sjf_loop i (m ∷ ms) best ts = elim (find_trainer m.closest_trainer ts) [
      | none ↦ undefined
      | some t ↦
          sjf_loop (suc i) ms
            (shorter_burst (record { aux = estimated t; aux_position = i; to_exec = m }) best)
            (write_trainer (calculate_estimacion_actual_rafaga t) ts)
    ]

    abbrev pub keep_estimate : Trainer F → Trainer F
    keep_estimate t =
        if is_status t.pcb_trainer.status exec
        then record t { estimacion_anterior = t.estimacion_actual }
        else t

    -- What planner_sjf does after the loop that chose `s` and left the trainers `ts`.
    unfoldable pub take_shortest :
        Team F → Shortest → List (Trainer F) → Outcome (MatchPokemonTrainer × Team F)
    unfolding find_trainer write_trainer
    take_shortest g s ts = elim (find_trainer s.to_exec.closest_trainer ts) [
      | none ↦ undefined
      | some t ↦ done (
        s.to_exec,
        record g {
          matches = remove_at s.aux_position g.matches;
          trainers = write_trainer (keep_estimate t) ts;
        },
      )
    ]

    unfoldable pub planner_sjf : Team F → Outcome (MatchPokemonTrainer × Team F)
    unfolding sjf_loop take_shortest
    planner_sjf g = sjf_loop 0 g.matches none g.trainers >>= λ (best, ts). elim best [
      | none ↦ undefined
      | some s ↦ take_shortest g s ts
    ]

    -- `planner_fifo` and `planner_rr`.
    unfoldable pub planner_fifo : Team F → Outcome (MatchPokemonTrainer × Team F)
    planner_fifo g = elim g.matches [
      | [] ↦ undefined
      | m ∷ ms ↦ done (m, record g { matches = ms })
    ]

    unfoldable pub get_next_to_exec : Commons → Team F → Outcome (MatchPokemonTrainer × Team F)
    unfolding planner_fifo planner_sjf
    get_next_to_exec lib g =
        let is = λ (name : Bytes). lib.equals_ignore_case cfg.algoritmo_planificacion name in
        if is fifo
        then planner_fifo g
        else if is rr
        then planner_fifo g
        else if is sjf_cd || is sjf_sd
        then planner_sjf g
        else undefined

    abbrev pub dispatched : MatchPokemonTrainer → Trainer F → Trainer F
    dispatched m t = record t {
      pcb_trainer = record t.pcb_trainer { pokemon_to_catch = m.closest_pokemon };
      status = exec;
      sem = 1;
    }

    -- One round of `planning_catch`; `none` while it waits on a semaphore.
    unfoldable pub planning_catch : Commons → Team F → Option (Outcome (Team F))
    unfolding get_next_to_exec
    planning_catch lib g =
        if (0 == g.sem_count_matches) || (0 == g.mutex_planning)
        then none
        else some (
            get_next_to_exec lib
              (record g { sem_count_matches = g.sem_count_matches - 1; mutex_planning = 0 })
            >>= λ (m, g'). done (record g' {
              q_cambios_contexto_totales = (g'.q_cambios_contexto_totales + 1) % 2 ^ 32;
              trainers = modify m.closest_trainer (dispatched m) g'.trainers;
            }))
