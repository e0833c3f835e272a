-- ===== src/Team/Exclusion.antt =====
-- Which trainers may be at the processor, and what the matcher's step does to them.
use tp_so_delibird.Common.{
  ◌||◌, ◌-◌, [], inr, inl, ◌⊎◌, Bool-cases, ◌∷◌, true, some, false, ◌≡◌, ◌==◌, All, List, Option,
  none,
}
use tp_so_delibird.Broker.State.{done, undefined, out_of_fuel, Outcome}
use tp_so_delibird.Team.Matcher.{
  match_loop, Candidate, with_status, match_closest_trainer, set_status, match_pokemon_with_trainer,
}
use tp_so_delibird.Team.Planner.{find_trainer}
use tp_so_delibird.Team.State.{ready, Team, modify, exec, is_status, write_trainer, Trainer}
use Prim.Native.Nat.{ℕ}
use mathlib.Core.Path.{ap, sym, ◌∙◌, refl, subst}

module _ {F : Type 0} (P : ℕ → Type 0) where
  -- The trainer does not execute, or its name passes.
  abbrev pub Only : Trainer F → Type 0
  Only t = (is_status t.status exec ≡ false) ⊎ P t.name

  pub Only-modify :
      (n : ℕ) (f : Trainer F → Trainer F) (ts : List (Trainer F))
      → ((t : Trainer F) → (t.name == n) ≡ true → Only t → Only (f t))
      → All Only ts
      → All Only (modify n f ts)
  Only-modify n f [] k a = tt
  Only-modify n f (t ∷ ts) k (h, a) = elim (Bool-cases (t.name == n)) [
    | inl e ↦ rw e (k t e h, Only-modify n f ts k a)
    | inr e ↦ rw e (h, Only-modify n f ts k a)
  ]

  pub Only-write :
      (u : Trainer F) (ts : List (Trainer F)) → Only u → All Only ts → All Only (write_trainer u ts)
  unfolding write_trainer
  Only-write u [] k a = tt
  Only-write u (t ∷ ts) k (h, a) = elim (Bool-cases (t.name == u.name)) [
    | inl e ↦ rw (write_trainer, e) (k, Only-write u ts k a)
    | inr e ↦ rw (write_trainer, e) (h, Only-write u ts k a)
  ]

  pub Only-find :
      (n : ℕ) (ts : List (Trainer F)) (t : Trainer F)
      → find_trainer n ts ≡ some t
      → All Only ts
      → Only t
  unfolding find_trainer
  Only-find n [] t e a = absurd (cc)
  Only-find n (u ∷ ts) t e (h, a) = elim (Bool-cases (u.name == n)) [
    | inl k ↦ subst Only (ap (or_else u) (sym (first k) ∙ e)) h
    | inr k ↦ Only-find n ts t (sym (others k) ∙ e) a
  ]
    where
      or_else : Trainer F → Option (Trainer F) → Trainer F
      or_else u none = u
      or_else u (some v) = v

      first : (u.name == n) ≡ true → find_trainer n (u ∷ ts) ≡ some u
      first k = rw (find_trainer, k) refl

      others : (u.name == n) ≡ false → find_trainer n (u ∷ ts) ≡ find_trainer n ts
      others k = rw (find_trainer, k) refl

  -- How a thread's step ends: with the processor as it was, and no trainer newly at it.
  pub data Kept (g : Team F) : Option (Outcome (Team F)) → Type 0 where
    waits : Kept g none
    fails : Kept g (some undefined)
    endless : Kept g (some out_of_fuel)
    goes :
        (h : Team F)
        → h.mutex_planning ≡ g.mutex_planning
        → (All Only g.trainers → All Only h.trainers)
        → Kept g (some (done h))

  Only-ready : (n : ℕ) (ts : List (Trainer F)) → All Only ts → All Only (set_status n ready ts)
  Only-ready n ts a = Only-modify n (with_status ready) ts (λ t e k. inl refl) a

  pub match_pokemon_with_trainer-Kept : (g : Team F) → Kept g (match_pokemon_with_trainer g)
  unfolding match_pokemon_with_trainer match_closest_trainer
  match_pokemon_with_trainer-Kept g =
      elim (Bool-cases ((0 == g.sem_trainer_available) || (0 == g.sem_appeared_pokemon))) [
        | inl t ↦ rw (match_pokemon_with_trainer, t) waits
        | inr t ↦ go t (match_loop woken 0 woken.pokemon_received_to_catch none) refl
      ]
    where
      woken : Team F
      woken = record g {
        sem_trainer_available = g.sem_trainer_available - 1;
        sem_appeared_pokemon = g.sem_appeared_pokemon - 1;
      }

      go :
          ((0 == g.sem_trainer_available) || (0 == g.sem_appeared_pokemon)) ≡ false
          → (r : Outcome (Option (Candidate F)))
          → match_loop woken 0 woken.pokemon_received_to_catch none ≡ r
          → Kept g (match_pokemon_with_trainer g)
      go t undefined e = rw (match_pokemon_with_trainer, t, match_closest_trainer, e) fails
      go t out_of_fuel e = rw (match_pokemon_with_trainer, t, match_closest_trainer, e) endless
      go t (done none) e = rw (match_pokemon_with_trainer, t, match_closest_trainer, e) fails
      go t (done (some c)) e =
          rw (match_pokemon_with_trainer, t, match_closest_trainer, e)
            (goes _ refl (Only-ready c.trainer.name g.trainers))
