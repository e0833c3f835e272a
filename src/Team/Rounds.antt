-- ===== src/Team/Rounds.antt =====
-- While a team catches, a round of the planner and what the other threads do leave one trainer at
-- most at the processor, besides those that are away from it.
use tp_so_delibird.Common.{
  ◌⊎◌, ◌-◌, All-map, ◌||◌, arith, ◌==◌, Bool-cases, List, false, true, All, ◌≡◌, ℕ, Option, some,
  none, refl, inl, inr,
}
use tp_so_delibird.Broker.State.{done, undefined, out_of_fuel, Outcome, Commons}
use tp_so_delibird.Team.Answers.{handle_catch-Kept}
use tp_so_delibird.Team.Dispatch.{get_next_to_exec-Listed, Next, lists, Listed, stuck, no_fuel}
use tp_so_delibird.Team.Exclusion.{match_pokemon_with_trainer-Kept, Only-modify, Only, Kept, goes}
use tp_so_delibird.Team.Movement.{step_y, step_x}
use tp_so_delibird.Team.Planner.{get_next_to_exec, dispatched, planning_catch, Planning}
use tp_so_delibird.Team.Scheduling.{
  trainer_catch_pokemon_start, answered, planned, match_found, TeamStep, appeared, localized,
  answer_received, started, stepped_x, stepped_y,
}
use tp_so_delibird.Team.State.{MatchPokemonTrainer, Double, modify, Trainer, Team}
use tp_so_delibird.Team.Steps.{Calm-handle_caught, handle_localized-Kept, Calm-handle_appeared}
use mathlib.Core.Path.{◌∙◌, ap, refl, subst}

-- At the processor, or away from it.
abbrev pub At : (ℕ → Type 0) → ℕ → ℕ → Type 0
At A n k = (k ≡ n) ⊎ A k

module _ {F : Type 0} where
  -- The processor is free and all who execute are away, or it is taken and one name at most does
  -- besides.
  pub data Exclusive (A : ℕ → Type 0) (g : Team F) : Type 0 where
    idle : g.mutex_planning ≡ 1 → All (Only A) g.trainers → Exclusive A g
    taken : (n : ℕ) → g.mutex_planning ≡ 0 → All (Only (At A n)) g.trainers → Exclusive A g

  Only-At : (A : ℕ → Type 0) (n : ℕ) (t : Trainer F) → Only A t → Only (At A n) t
  Only-At A n t (inl e) = inl e
  Only-At A n t (inr h) = inr (inr h)

  module _ (A : ℕ → Type 0) where
    Exclusive-Calm :
        (g h : Team F)
        → h.mutex_planning ≡ g.mutex_planning
        → ((P : ℕ → Type 0) → All (Only P) g.trainers → All (Only P) h.trainers)
        → Exclusive A g
        → Exclusive A h
    Exclusive-Calm g h m f (idle e a) = idle (m ∙ e) (f A a)
    Exclusive-Calm g h m f (taken n e a) = taken n (m ∙ e) (f (At A n) a)

    Kept-Calm :
        (P : ℕ → Type 0) (g h : Team F)
        → Kept P g (some (done h))
        → (h.mutex_planning ≡ g.mutex_planning)
          × (All (Only P) g.trainers → All (Only P) h.trainers)
    Kept-Calm P g h (goes _ m f) = (m, f)

    Exclusive-Kept :
        (g h : Team F) (o : Option (Outcome (Team F)))
        → ((P : ℕ → Type 0) → Kept P g o)
        → o ≡ some (done h)
        → Exclusive A g
        → Exclusive A h
    Exclusive-Kept g h o k e x =
        Exclusive-Calm g h (Kept-Calm A g h (subst (Kept A g) e (k A))).0
          (λ P. (Kept-Calm P g h (subst (Kept P g) e (k P))).1) x

  module _ (D : Double F) (cfg : Planning F) (lib : Commons) where
    module _ (A : ℕ → Type 0) where
      -- How a round of the planner ends.
      data Planned : Option (Outcome (Team F)) → Type 0 where
        asleep : Planned none
        failed : Planned (some undefined)
        fuelless : Planned (some out_of_fuel)
        given : (h : Team F) → Exclusive A h → Planned (some (done h))

      Only-dispatched :
          (m : MatchPokemonTrainer) (ts : List (Trainer F))
          → All (Only A) ts
          → All (Only (At A m.closest_trainer)) (modify m.closest_trainer (dispatched D cfg m) ts)
      Only-dispatched m ts a =
          Only-modify (At A m.closest_trainer) m.closest_trainer (dispatched D cfg m) ts
            (λ t e _. inr (inl (ground arith)))
            (All-map (Only A) (Only (At A m.closest_trainer)) ts
              (λ t h. Only-At A m.closest_trainer t h) a)

      planning_catch-Planned : (g : Team F) → Exclusive A g → Planned (planning_catch D cfg lib g)
      unfolding planning_catch
      planning_catch-Planned g (taken n m a) =
          let t : ((0 == g.sem_count_matches) || (0 == g.mutex_planning)) ≡ true = ground arith in
          rw (planning_catch, t) asleep
      planning_catch-Planned g (idle m a) =
          elim (Bool-cases ((0 == g.sem_count_matches) || (0 == g.mutex_planning))) [
            | inl t ↦ rw (planning_catch, t) asleep
            | inr t ↦
                go t (get_next_to_exec D cfg lib locked) refl
                  (get_next_to_exec-Listed D cfg A lib locked a)
          ]
        where
          locked : Team F
          locked = record g { sem_count_matches = g.sem_count_matches - 1; mutex_planning = 0 }

          go :
              ((0 == g.sem_count_matches) || (0 == g.mutex_planning)) ≡ false
              → (r : Outcome (MatchPokemonTrainer × Team F)) → get_next_to_exec D cfg lib locked ≡ r
              → Listed D cfg A (Next D cfg A locked) r
              → Planned (planning_catch D cfg lib g)
          go t undefined e stuck = rw (planning_catch, t, e) failed
          go t out_of_fuel e no_fuel = rw (planning_catch, t, e) fuelless
          go t (done _) e (lists (m, h) (b, k)) =
              rw (planning_catch, t, e)
                (given _ (taken m.closest_trainer k (Only-dispatched m h.trainers b)))

      Exclusive-Planned :
          (h : Team F) (o : Option (Outcome (Team F)))
          → Planned o
          → o ≡ some (done h)
          → Exclusive A h
      Exclusive-Planned h o p e = go (subst Planned e p)
        where
          go : Planned (some (done h)) → Exclusive A h
          go (given _ x) = x

      -- A step that does not free the processor.
      pub Exclusive-TeamStep :
          (g h : Team F) → TeamStep D cfg lib g h → Exclusive A g → Exclusive A h
      unfolding trainer_catch_pokemon_start
      Exclusive-TeamStep g h (match_found e) x =
          Exclusive-Kept A g h _ (λ P. match_pokemon_with_trainer-Kept P g) e x
      Exclusive-TeamStep g h (planned e) x = Exclusive-Planned h _ (planning_catch-Planned g x) e
      Exclusive-TeamStep g h (started n) x =
          Exclusive-Calm A g h refl (λ P a. Only-modify P n _ g.trainers (λ u _ k. k) a) x
      Exclusive-TeamStep g h (stepped_x n p) x =
          Exclusive-Calm A g h refl (λ P a. Only-modify P n (step_x D p) g.trainers (λ u _ k. k) a)
            x
      Exclusive-TeamStep g h (stepped_y n p) x =
          Exclusive-Calm A g h refl (λ P a. Only-modify P n (step_y D p) g.trainers (λ u _ k. k) a)
            x
      Exclusive-TeamStep g h (answered t e s k) x =
          Exclusive-Kept A g h _ (λ P. handle_catch-Kept P lib D g t) (ap some k) x
      Exclusive-TeamStep g h (appeared p) x =
          Exclusive-Calm A g h (Calm-handle_appeared A lib g p).0
            (λ P. (Calm-handle_appeared P lib g p).1) x
      Exclusive-TeamStep g h (localized l k) x =
          Exclusive-Kept A g h _ (λ P. handle_localized-Kept P lib g l) (ap some k) x
      Exclusive-TeamStep g h (answer_received id c) x =
          Exclusive-Calm A g h (Calm-handle_caught A lib g id c).0
            (λ P. (Calm-handle_caught P lib g id c).1) x
