-- ===== src/Team/Processor.antt =====
-- While a team catches, one trainer at most is at the processor, whatever the order of the threads.
use tp_so_delibird.Common.{
  Bool, All-map, All-Elem, Elem, [], arith, ◌==◌, Bool-cases, ◌∷◌, List, false, true, All, ◌≡◌, ℕ,
  Option, some, none, refl, inl, inr,
}
use tp_so_delibird.Broker.State.{Commons}
use tp_so_delibird.Team.Exclusion.{Only-modify, Only, Only-find}
use tp_so_delibird.Team.Matcher.{with_status}
use tp_so_delibird.Team.Planner.{Planning, find_trainer}
use tp_so_delibird.Team.Rounds.{Exclusive, idle, taken, At, Exclusive-TeamStep}
use tp_so_delibird.Team.Scheduling.{
  preempted, caught, Step, later, desalojar, wait_catch, wait_catch_rest, desalojar_rest, Leaving,
  Threads, set_leaving, to_wait, to_matches, inside, waits, requeued, Reach, start,
}
use tp_so_delibird.Team.State.{ready, catching, Double, modify, exec, is_status, Trainer, Team}
use mathlib.Core.Path.{◌∙◌, refl, sym, subst}

-- The trainer has freed the processor and not yet written its status.
abbrev pub is_away : Option Leaving → Bool
is_away none = false
is_away (some l) = true

abbrev pub Away : (ℕ → Option Leaving) → ℕ → Type 0
Away leaving k = is_away (leaving k) ≡ true

module _ {F : Type 0} where
  -- Whoever has the name executes no longer, and the others pass by what they did before.
  settle :
      (P Q : ℕ → Type 0) (n : ℕ) (f : Trainer F → Trainer F) (ts : List (Trainer F))
      → ((u : Trainer F) → is_status (f u).status exec ≡ false)
      → ((k : ℕ) → (k == n) ≡ false → P k → Q k)
      → All (Only P) ts
      → All (Only Q) (modify n f ts)
  settle P Q n f [] out k a = tt
  settle P Q n f (u ∷ ts) out k (b, c) = elim (Bool-cases (u.name == n)) [
    | inl s ↦ rw s (inl (out u), settle P Q n f ts out k c)
    | inr s ↦
        rw s (elim b [ inl i ↦ inl i | inr j ↦ inr (k u.name s j) ], settle P Q n f ts out k c)
  ]

  module _ (D : Double F) (cfg : Planning F) (lib : Commons) where
    abbrev IsExclusive : Threads F → Type 0
    IsExclusive s = Exclusive (Away s.leaving) s.team

    -- Whoever frees the processor is away from then on, and nobody else was at it.
    leave :
        (s : Threads F) (t : Trainer F) (l : Leaving)
        → find_trainer t.name s.team.trainers ≡ some t
        → is_status t.status exec ≡ true
        → s.leaving t.name ≡ none
        → IsExclusive s
        → All (Only (Away (set_leaving t.name (some l) s.leaving))) s.team.trainers
    leave s t l e x none_left (idle m a) =
        let b : Only (Away s.leaving) t = Only-find (Away s.leaving) t.name s.team.trainers t e a in
        absurd (elim b [ inl i ↦ ground arith | inr j ↦ ground (arith, j, none_left) ])
    leave s t l e x none_left (taken n m a) =
        go (Only-find (At (Away s.leaving) n) t.name s.team.trainers t e a)
      where
        others :
            t.name ≡ n
            → (u : Trainer F) → Only (At (Away s.leaving) n) u
            → Only (Away (set_leaving t.name (some l) s.leaving)) u
        others h u (inl i) = inl i
        others h u (inr (inl j)) = inr (ground arith)
        others h u (inr (inr j)) = elim (Bool-cases (u.name == t.name)) [
          | inl k ↦ inr (rw k refl)
          | inr k ↦ inr (rw k j)
        ]

        go :
            Only (At (Away s.leaving) n) t
            → All (Only (Away (set_leaving t.name (some l) s.leaving))) s.team.trainers
        go (inl i) = absurd (ground arith)
        go (inr (inl h)) =
            All-map (Only (At (Away s.leaving) n))
              (Only (Away (set_leaving t.name (some l) s.leaving))) s.team.trainers (others h) a
        go (inr (inr j)) = absurd (ground (arith, j, none_left))

    -- Whoever writes its status is no longer away.
    settled :
        (leaving : ℕ → Option Leaving) (n k : ℕ)
        → (k == n) ≡ false
        → Away leaving k
        → Away (set_leaving n none leaving) k
    settled leaving n k e a = rw e a

    settle-Exclusive :
        (s : Threads F) (g : Team F) (n : ℕ) (f : Trainer F → Trainer F)
        → g.mutex_planning ≡ s.team.mutex_planning
        → g.trainers ≡ modify n f s.team.trainers
        → ((u : Trainer F) → is_status (f u).status exec ≡ false)
        → IsExclusive s
        → Exclusive (Away (set_leaving n none s.leaving)) g
    settle-Exclusive s g n f m e out (idle i a) =
        let Q = Away (set_leaving n none s.leaving) in
        idle (m ∙ i) (
          subst (All (Only Q)) (sym e)
            (settle (Away s.leaving) Q n f s.team.trainers out (settled s.leaving n) a))
    settle-Exclusive s g n f m e out (taken j i a) =
        let Q = Away (set_leaving n none s.leaving) in
        taken j (m ∙ i) (
          subst (All (Only (At Q j))) (sym e)
            (settle (At (Away s.leaving) j) (At Q j) n f s.team.trainers out either a))
      where
        either :
            (k : ℕ)
            → (k == n) ≡ false
            → At (Away s.leaving) j k
            → At (Away (set_leaving n none s.leaving)) j k
        either k h (inl p) = inl p
        either k h (inr q) = inr (settled s.leaving n k h q)

    Exclusive-Step : (s r : Threads F) → Step D cfg lib s r → IsExclusive s → IsExclusive r
    unfolding wait_catch desalojar wait_catch_rest desalojar_rest
    Exclusive-Step s r (inside {g} k) x = Exclusive-TeamStep D cfg lib (Away s.leaving) s.team g k x
    Exclusive-Step s r (caught t e k n) x = idle refl (leave s t to_wait e k n x)
    Exclusive-Step s r (preempted t e k n) x = idle refl (
        Only-modify (Away (set_leaving t.name (some to_matches) s.leaving)) t.name _ s.team.trainers
          (λ u _ i. i) (leave s t to_matches e k n x))
    Exclusive-Step s r (waits n k) x =
        settle-Exclusive s (wait_catch_rest s n).team n (with_status catching) refl refl (λ _. refl)
          x
    Exclusive-Step s r (requeued t e k) x =
        settle-Exclusive s (desalojar_rest s t).team t.name (with_status ready) refl refl
          (λ _. refl) x

    Reach-Exclusive : (s₀ s : Threads F) → Reach D cfg lib s₀ s → IsExclusive s₀ → IsExclusive s
    Reach-Exclusive s₀ s start x = x
    Reach-Exclusive s₀ s (later {s = r} k step) x =
        Exclusive-Step r s step (Reach-Exclusive s₀ r k x)

    -- From a team with a free processor and no trainer that executes, whatever the order of the
    -- matches, the rounds of the planner, the trainers' moves, catches and preemptions, the answers
    -- and the messages: of the trainers that execute and have not freed the processor in
    -- `wait_catch` or `desalojar` since, two have the same name, and if there is one then the
    -- processor is taken.
    pub mutual_exclusion :
        (s₀ s : Threads F) (t u : Trainer F)
        → s₀.team.mutex_planning ≡ 1
        → All (λ t. is_status t.status exec ≡ false) s₀.team.trainers
        → Reach D cfg lib s₀ s
        → Elem t s.team.trainers
        → Elem u s.team.trainers
        → is_status t.status exec ≡ true
        → is_status u.status exec ≡ true
        → s.leaving t.name ≡ none
        → s.leaving u.name ≡ none
        → (t.name ≡ u.name) × (s.team.mutex_planning ≡ 0)
    mutual_exclusion s₀ s t u m a r i j k l p q =
        go (Reach-Exclusive s₀ s r (idle m (All-map _ _ s₀.team.trainers (λ _ h. inl h) a)))
      where
        here :
            (n : ℕ) (v : Trainer F)
            → is_status v.status exec ≡ true
            → s.leaving v.name ≡ none
            → Only (At (Away s.leaving) n) v
            → v.name ≡ n
        here n v x y (inl h) = absurd (ground arith)
        here n v x y (inr (inl h)) = h
        here n v x y (inr (inr h)) = absurd (ground (arith, h, y))

        nobody :
            (v : Trainer F)
            → is_status v.status exec ≡ true
            → s.leaving v.name ≡ none
            → Only (Away s.leaving) v
            → ⊥
        nobody v x y (inl h) = ground arith
        nobody v x y (inr h) = ground (arith, h, y)

        go : IsExclusive s → (t.name ≡ u.name) × (s.team.mutex_planning ≡ 0)
        go (idle _ b) = absurd (nobody t k p (All-Elem (Only (Away s.leaving)) s.team.trainers b i))
        go (taken n e b) = (
          here n t k p (All-Elem (Only (At (Away s.leaving) n)) s.team.trainers b i)
              ∙ sym (here n u l q (All-Elem (Only (At (Away s.leaving) n)) s.team.trainers b j)),
          e,
        )
