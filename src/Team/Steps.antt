-- ===== src/Team/Steps.antt =====
-- What the threads that handle messages and catches do to the trainers at the processor.
use tp_so_delibird.Common.{
  [], true, ltb, false, ◌==◌, Bool-cases, ◌∷◌, Option-cases, All, ◌≡◌, List, ℕ, Option, some, none,
  refl, inl, inr,
}
use tp_so_delibird.Wire.Types.{LocalizedPokemon, CaughtPokemon, AppearedPokemon}
use tp_so_delibird.Broker.State.{done, undefined, out_of_fuel, Outcome, Commons}
use tp_so_delibird.Team.Dictionary.{dictionary_get}
use tp_so_delibird.Team.Events.{
  get_q_received, split_positions, still_wanted, obtener_trainer_mensaje, handle_localized,
  handle_caught, handle_appeared,
}
use tp_so_delibird.Team.Exclusion.{Only-write, Only, Kept, fails, endless, goes}
use tp_so_delibird.Team.State.{c_text, Trainer, Team}
use mathlib.Core.Path.{sym, ◌∙◌, ap, refl, subst}

module _ {F : Type 0} (P : ℕ → Type 0) (lib : Commons) where
  -- The processor is as it was, and so is what passes for the names of the trainers at it.
  abbrev pub Calm : Team F → Team F → Type 0
  Calm g h =
      (h.mutex_planning ≡ g.mutex_planning) × (All (Only P) g.trainers → All (Only P) h.trainers)

  pub Calm-handle_appeared : (g : Team F) (p : AppearedPokemon) → Calm g (handle_appeared lib g p)
  unfolding handle_appeared
  Calm-handle_appeared g p =
      elim (Option-cases (dictionary_get g.remaining_pokemons (c_text p.pokemon))) [
        | inl e ↦ rw (handle_appeared, e) (refl, λ a. a)
        | inr (q, e) ↦ elim (Bool-cases (q == 0)) [
          | inl z ↦ rw (handle_appeared, e, z) (refl, λ a. a)
          | inr z ↦
              elim (Bool-cases (ltb 0 (still_wanted q (get_q_received lib g (c_text p.pokemon))))) [
                | inl r ↦ rw (handle_appeared, e, z, r) (refl, λ a. a)
                | inr r ↦ rw (handle_appeared, e, z, r) (refl, λ a. a)
              ]
        ]
      ]

  pub handle_localized-Kept :
      (g : Team F) (l : LocalizedPokemon) → Kept P g (some (handle_localized lib g l))
  unfolding handle_localized
  handle_localized-Kept g l =
      elim (Option-cases (dictionary_get g.remaining_pokemons (c_text l.pokemon))) [
        | inl e ↦ rw (handle_localized, e) (goes g refl (λ a. a))
        | inr (q, e) ↦ elim (Bool-cases (q == 0)) [
          | inl z ↦ rw (handle_localized, e, z) (goes g refl (λ a. a))
          | inr z ↦
              go q e z
                (split_positions l (still_wanted q (get_q_received lib g (c_text l.pokemon))) 0
                  l.positions_count l.positions)
                refl
        ]
      ]
    where
      go :
          (q : ℕ)
          → dictionary_get g.remaining_pokemons (c_text l.pokemon) ≡ some q
          → (q == 0) ≡ false
          → (r : Outcome (List AppearedPokemon × List AppearedPokemon))
          → split_positions l
              (still_wanted q (get_q_received lib g (c_text l.pokemon)))
              0
              l.positions_count
              l.positions
            ≡ r
          → Kept P g (some (handle_localized lib g l))
      go q e z undefined s = rw (handle_localized, e, z, s) fails
      go q e z out_of_fuel s = rw (handle_localized, e, z, s) endless
      go q e z (done (taken, backup)) s = rw (handle_localized, e, z, s) (goes _ refl (λ a. a))

  Only-obtener :
      (id : ℕ) (ts : List (Trainer F)) (t : Trainer F)
      → obtener_trainer_mensaje id ts ≡ some t
      → All (Only P) ts
      → Only P t
  unfolding obtener_trainer_mensaje
  Only-obtener id [] t e a = absurd (cc)
  Only-obtener id (u ∷ ts) t e (h, a) = elim (Bool-cases (u.pcb_trainer.id_message == id)) [
    | inl k ↦ subst (Only P) (ap (or_else u) (sym (first k) ∙ e)) h
    | inr k ↦ Only-obtener id ts t (sym (others k) ∙ e) a
  ]
    where
      or_else : Trainer F → Option (Trainer F) → Trainer F
      or_else u none = u
      or_else u (some v) = v

      first : (u.pcb_trainer.id_message == id) ≡ true → obtener_trainer_mensaje id (u ∷ ts) ≡ some u
      first k = rw (obtener_trainer_mensaje, k) refl

      others :
          (u.pcb_trainer.id_message == id) ≡ false
          → obtener_trainer_mensaje id (u ∷ ts) ≡ obtener_trainer_mensaje id ts
      others k = rw (obtener_trainer_mensaje, k) refl

  pub Calm-handle_caught : (g : Team F) (id : ℕ) (c : CaughtPokemon) → Calm g (handle_caught g id c)
  unfolding handle_caught
  Calm-handle_caught g id c = elim (Option-cases (obtener_trainer_mensaje id g.trainers)) [
    | inl e ↦ rw (handle_caught, e) (refl, λ a. a)
    | inr (t, e) ↦
        rw (handle_caught, e)
          (refl, λ a. Only-write P _ g.trainers (Only-obtener id g.trainers t e a) a)
  ]
