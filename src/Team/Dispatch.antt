-- ===== src/Team/Dispatch.antt =====
-- What the planner's step does to the trainers at the processor.
use tp_so_delibird.Common.{
  remove_at, ◌||◌, [], suc, inr, inl, Option-cases, ◌≡◌, ◌∷◌, Bool-cases, All, List, ℕ, Option,
  some, none, refl,
}
use tp_so_delibird.Wire.Bytes.{Bytes}
use tp_so_delibird.Broker.Partitions.{fifo}
use tp_so_delibird.Broker.State.{done, undefined, out_of_fuel, Outcome, Commons}
use tp_so_delibird.Team.Exclusion.{Only-find, Only-write, Only}
use tp_so_delibird.Team.Planner.{
  sjf_sd, sjf_cd, rr, take_shortest, get_next_to_exec, estimated, shorter_burst, find_trainer,
  keep_estimate, Shortest, calculate_estimacion_actual_rafaga, sjf_loop, planner_sjf, planner_fifo,
  Planning,
}
use tp_so_delibird.Team.State.{
  exec, is_status, MatchPokemonTrainer, Team, Trainer, Double, write_trainer,
}
use mathlib.Core.Path.{refl}

module _ {F : Type 0} (D : Double F) (cfg : Planning F) (P : ℕ → Type 0) where
  -- An outcome that is good wherever there is one.
  pub data Listed {A : Type 0} (Good : A → Type 0) : Outcome A → Type 0 where
    stuck : Listed Good undefined
    no_fuel : Listed Good out_of_fuel
    lists : (a : A) → Good a → Listed Good (done a)

  -- The processor is as it was, and the name of each trainer at it passes.
  abbrev pub Next : Team F → MatchPokemonTrainer × Team F → Type 0
  Next g (m, h) = All (Only P) h.trainers × (h.mutex_planning ≡ g.mutex_planning)

  sjf_loop-Listed :
      (i : ℕ) (ms : List MatchPokemonTrainer) (best : Option (Shortest D cfg))
      (ts : List (Trainer F))
      → All (Only P) ts
      → Listed (λ r. All (Only P) r.1) (sjf_loop D cfg i ms best ts)
  unfolding sjf_loop calculate_estimacion_actual_rafaga
  sjf_loop-Listed i [] best ts a = lists (best, ts) a
  sjf_loop-Listed i (m ∷ ms) best ts a = elim (Option-cases (find_trainer m.closest_trainer ts)) [
    | inl e ↦ rw (sjf_loop, e) stuck
    | inr (t, e) ↦
        rw (sjf_loop, e)
          (sjf_loop-Listed (suc i) ms
            (shorter_burst D cfg (record { aux = estimated D cfg t; aux_position = i; to_exec = m })
              best)
            (write_trainer (calculate_estimacion_actual_rafaga D cfg t) ts)
            (Only-write P (calculate_estimacion_actual_rafaga D cfg t) ts
              (Only-find P m.closest_trainer ts t e a) a))
  ]

  Only-keep_estimate : (t : Trainer F) → Only P t → Only P (keep_estimate D cfg t)
  Only-keep_estimate t h = elim (Bool-cases (is_status t.pcb_trainer.status exec)) [
    | inl e ↦ rw e h
    | inr e ↦ rw e h
  ]

  take_shortest-Listed :
      (g : Team F) (s : Shortest D cfg) (ts : List (Trainer F))
      → All (Only P) ts
      → Listed (Next g) (take_shortest D cfg g s ts)
  unfolding take_shortest
  take_shortest-Listed g s ts b = elim (Option-cases (find_trainer s.to_exec.closest_trainer ts)) [
    | inl n ↦ rw (take_shortest, n) stuck
    | inr (t, n) ↦
        rw (take_shortest, n)
          (lists
            (
              s.to_exec,
              record g {
                matches = remove_at s.aux_position g.matches;
                trainers = write_trainer (keep_estimate D cfg t) ts;
              },
            )
            (
              Only-write P (keep_estimate D cfg t) ts
                  (Only-keep_estimate t (Only-find P s.to_exec.closest_trainer ts t n b)) b,
              refl,
            ))
  ]

  planner_sjf-Listed :
      (g : Team F) → All (Only P) g.trainers → Listed (Next g) (planner_sjf D cfg g)
  unfolding planner_sjf
  planner_sjf-Listed g a =
      go (sjf_loop D cfg 0 g.matches none g.trainers) refl
        (sjf_loop-Listed 0 g.matches none g.trainers a)
    where
      go :
          (r : Outcome (Option (Shortest D cfg) × List (Trainer F)))
          → sjf_loop D cfg 0 g.matches none g.trainers ≡ r
          → Listed (λ r. All (Only P) r.1) r
          → Listed (Next g) (planner_sjf D cfg g)
      go undefined e stuck = rw (planner_sjf, e) stuck
      go out_of_fuel e no_fuel = rw (planner_sjf, e) no_fuel
      go (done _) e (lists (none, ts) b) = rw (planner_sjf, e) stuck
      go (done _) e (lists (some s, ts) b) = rw (planner_sjf, e) (take_shortest-Listed g s ts b)

  planner_fifo-Listed :
      (g : Team F) → All (Only P) g.trainers → Listed (Next g) (planner_fifo D cfg g)
  unfolding planner_fifo
  planner_fifo-Listed g a = go g.matches refl
    where
      go : (ms : List MatchPokemonTrainer) → g.matches ≡ ms → Listed (Next g) (planner_fifo D cfg g)
      go [] e = rw (planner_fifo, e) stuck
      go (m ∷ ms) e = rw (planner_fifo, e) (lists (m, record g { matches = ms }) (a, refl))

  pub get_next_to_exec-Listed :
      (lib : Commons) (g : Team F)
      → All (Only P) g.trainers
      → Listed (Next g) (get_next_to_exec D cfg lib g)
  unfolding get_next_to_exec
  get_next_to_exec-Listed lib g a =
      let is = λ (name : Bytes). lib.equals_ignore_case cfg.algoritmo_planificacion name in
      elim (Bool-cases (is fifo)) [
        | inl e ↦ rw (get_next_to_exec, e) (planner_fifo-Listed g a)
        | inr e ↦ elim (Bool-cases (is rr)) [
          | inl k ↦ rw (get_next_to_exec, e, k) (planner_fifo-Listed g a)
          | inr k ↦ elim (Bool-cases (is sjf_cd || is sjf_sd)) [
            | inl l ↦ rw (get_next_to_exec, e, k, l) (planner_sjf-Listed g a)
            | inr l ↦ rw (get_next_to_exec, e, k, l) stuck
          ]
        ]
      ]
