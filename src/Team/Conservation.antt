-- ===== src/Team/Conservation.antt =====
-- What an exchange does to the pokemons that two trainers hold.
use tp_so_delibird.Common.{inr, inl, zero, arith, ◌+◌, same, if◌then◌else◌, Bool-cases, ◌≡◌, ◌<◌}
use tp_so_delibird.Wire.Bytes.{Bytes}
use tp_so_delibird.Team.Catch.{is_nil}
use tp_so_delibird.Team.Counts.{
  quantity-same, quantity-substract, substract_from_dictionary-IsCounter, quantity-add, quantity,
  IsCounter,
}
use tp_so_delibird.Team.Dictionary.{
  get_dictionary_difference, substract_from_dictionary, add_to_dictionary, Dictionary,
}
use tp_so_delibird.Team.Exchange.{exchange_pokemons, validate_state_trainer, resolve_deadlock}
use tp_so_delibird.Team.Movement.{step_y, step_x, abs_diff, move_y, move_x, move_to_position}
use tp_so_delibird.Team.State.{Trainer, DeadlockMatcher, Double}
use Prim.Native.Nat.{suc, ◌<◌, ℕ}
use mathlib.Core.Path.{◌≡◌, ◌∙◌, ap, refl}

-- 1 for the text itself.
abbrev unit : Bytes → Bytes → ℕ
unit p j = if same p j then 1 else 0

-- One text for another.
exchanged :
    (c : Dictionary) (p r j : Bytes)
    → IsCounter c
    → 0 < quantity c p
    → quantity (add_to_dictionary (substract_from_dictionary c p) r) j + unit p j
      ≡ quantity c j + unit r j
exchanged c p r j k h =
    rw
      (
        quantity-add (substract_from_dictionary c p) r j
            (substract_from_dictionary-IsCounter c p k),
        quantity-substract c p j k,
      )
      (ground (arith, quantity-same c p j))

module _ {F : Type 0} where
  caught-move_x : (D : Double F) (n x : ℕ) (t : Trainer F) → (move_x D n x t).caught ≡ t.caught
  unfolding move_x
  caught-move_x D zero x t = refl
  caught-move_x D (suc n) x t = caught-move_x D n x (step_x D x t)

  caught-move_y : (D : Double F) (n y : ℕ) (t : Trainer F) → (move_y D n y t).caught ≡ t.caught
  unfolding move_y
  caught-move_y D zero y t = refl
  caught-move_y D (suc n) y t = caught-move_y D n y (step_y D y t)

  caught-move_to_position :
      (D : Double F) (x y : ℕ) (t : Trainer F) → (move_to_position D x y t).caught ≡ t.caught
  unfolding move_to_position
  caught-move_to_position D x y t =
      caught-move_y D (abs_diff t.pos_y y) y (move_x D (abs_diff t.pos_x x) x t)
      ∙ caught-move_x D (abs_diff t.pos_x x) x t

  caught-validate_state_trainer : (t : Trainer F) → (validate_state_trainer t).caught ≡ t.caught
  unfolding validate_state_trainer
  caught-validate_state_trainer t =
      elim (Bool-cases (is_nil (get_dictionary_difference t.caught t.objective))) [
        | inl e ↦ rw e refl
        | inr e ↦ rw e refl
      ]

  -- What each of the two holds after the match is resolved.
  pub caught-resolve_deadlock :
      (D : Double F) (d : DeadlockMatcher) (t u : Trainer F)
      → ((resolve_deadlock D d t u).0.caught
          ≡ add_to_dictionary (substract_from_dictionary t.caught d.pokemon1) d.pokemon2)
        × ((resolve_deadlock D d t u).1.caught
            ≡ add_to_dictionary (substract_from_dictionary u.caught d.pokemon2) d.pokemon1)
  unfolding resolve_deadlock exchange_pokemons
  caught-resolve_deadlock D d t u =
      let m = caught-move_to_position D u.pos_x u.pos_y t in
      let (a, b) = exchange_pokemons d (move_to_position D u.pos_x u.pos_y t) u in
      (
        caught-validate_state_trainer a
            ∙ ap
                (λ (c : Dictionary).
                  add_to_dictionary (substract_from_dictionary c d.pokemon1) d.pokemon2)
                m,
        caught-validate_state_trainer b,
      )

  -- If the first trainer holds the text that it gives and the second the text that it gives, the
  -- two hold as many of every text together after the match is resolved as before it, and each
  -- holds one less of what it gave and one more of what it got.
  pub resolve_deadlock-Conserved :
      (D : Double F) (d : DeadlockMatcher) (t u : Trainer F) (j : Bytes)
      → IsCounter t.caught
      → IsCounter u.caught
      → 0 < quantity t.caught d.pokemon1
      → 0 < quantity u.caught d.pokemon2
      → (quantity (resolve_deadlock D d t u).0.caught j
            + quantity (resolve_deadlock D d t u).1.caught j
          ≡ quantity t.caught j + quantity u.caught j)
        × (quantity (resolve_deadlock D d t u).0.caught j + unit d.pokemon1 j
            ≡ quantity t.caught j + unit d.pokemon2 j)
  resolve_deadlock-Conserved D d t u j c k h l =
      let a = exchanged t.caught d.pokemon1 d.pokemon2 j c h in
      let b = exchanged u.caught d.pokemon2 d.pokemon1 j k l in
      let (e, f) = caught-resolve_deadlock D d t u in rw (e, f) (omega arith, a)
