-- ===== src/Team/Answers.antt =====
-- What the answer to a catch does to the trainers at the processor.
use tp_so_delibird.Common.{◌&&◌, false, ◌≡◌, ◌==◌, Bool-cases, All, ℕ, some, none, refl, inl, inr}
use tp_so_delibird.Wire.Bytes.{Bytes}
use tp_so_delibird.Broker.State.{Commons}
use tp_so_delibird.Team.Accounts.{search_backup_ends}
use tp_so_delibird.Team.Catch.{
  won, let_go, pokemon_of, put_back, is_nil, is_trainer_full, end_burst, search_in_backup,
  count_catch, validate_deadlock, handle_catch, after_catch,
}
use tp_so_delibird.Team.Dictionary.{add_to_dictionary, get_dictionary_difference}
use tp_so_delibird.Team.Exclusion.{Only-write, Only, Kept, fails, goes}
use tp_so_delibird.Team.State.{write_trainer, full, exec, is_status, Trainer, Team, Double}
use tp_so_delibird.Team.Steps.{Calm}
use mathlib.Core.Path.{sym, refl, subst}

module _ {F : Type 0} (P : ℕ → Type 0) (lib : Commons) (D : Double F) where
  -- A trainer that turned full or is done, and a team with the same trainers and processor.
  Validated : Team F → Trainer F × Team F → Type 0
  Validated g (t, h) =
      (is_status t.status exec ≡ false)
      × (h.trainers ≡ g.trainers)
      × (h.mutex_planning ≡ g.mutex_planning)

  validate_deadlock-Validated :
      (g : Team F) (t : Trainer F)
      → is_status t.status exec ≡ false
      → Validated g (validate_deadlock lib g t)
  unfolding validate_deadlock Validated
  validate_deadlock-Validated g t s =
      elim (Bool-cases (
        is_nil (get_dictionary_difference t.caught t.objective)
        && is_nil (get_dictionary_difference t.objective t.caught))) [
          | inl e ↦ rw (validate_deadlock, e) (refl, refl, refl)
          | inr e ↦ rw (validate_deadlock, e) (s, refl, refl)
        ]

  after_full :
      (g : Team F) (t : Trainer F) (r : Trainer F × Team F)
      → Validated g r
      → All (Only P) g.trainers
      → All (Only P) (write_trainer (end_burst lib D r.0) r.1.trainers)
  unfolding Validated
  after_full g t (u, h) (s, e, m) a =
      Only-write P (end_burst lib D u) h.trainers (inl s) (subst (All (Only P)) (sym e) a)

  Calm-after_catch : (g : Team F) (t : Trainer F) → Calm P lib g (after_catch lib D g t)
  unfolding after_catch Validated
  Calm-after_catch g t =
      let v = validate_deadlock-Validated g (record t { status = full }) refl in
      elim (Bool-cases (is_trainer_full t)) [
        | inl e ↦
            rw (after_catch, e)
              (v.2, λ a. after_full g t (validate_deadlock lib g (record t { status = full })) v a)
        | inr e ↦ rw (after_catch, e) (refl, λ a. Only-write P _ g.trainers (inl refl) a)
      ]

  pub handle_catch-Kept : (g : Team F) (t : Trainer F) → Kept P g (some (handle_catch lib D g t))
  unfolding handle_catch count_catch search_in_backup
  handle_catch-Kept g t = elim (Bool-cases (t.pcb_trainer.result_catch == 1)) [
    | inl x ↦
        let k : Bytes = pokemon_of t in
        let g' : Team F = let_go k (won k g) in
        let t' : Trainer F = record t { caught = add_to_dictionary t.caught k } in
        let c = Calm-after_catch g' t' in
        rw (handle_catch, count_catch, x) (goes (after_catch lib D g' t') c.0 c.1)
    | inr x ↦ elim (search_backup_ends lib (pokemon_of t) g.appeared_backup) [
      | inl u ↦ rw (handle_catch, count_catch, x, search_in_backup, u) fails
      | inr (none, d) ↦
          let c = Calm-after_catch (let_go (pokemon_of t) g) t in
          rw (handle_catch, count_catch, x, search_in_backup, d)
            (goes (after_catch lib D (let_go (pokemon_of t) g) t) c.0 c.1)
      | inr (some (p, left), d) ↦
          let g' : Team F = let_go (pokemon_of t) (put_back g (some (p, left))) in
          let c = Calm-after_catch g' t in
          rw (handle_catch, count_catch, x, search_in_backup, d)
            (goes (after_catch lib D g' t) c.0 c.1)
    ]
  ]
