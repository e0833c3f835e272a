-- ===== src/Team/Accounts.antt =====
-- The pokemons that are caught and those that remain, as `handle_catch` counts them.
use tp_so_delibird.Common.{
  same, if◌then◌else◌, [], ◌∷◌, ◌⊎◌, false, ◌==◌, none, some, inr, ◌&&◌, inl, List, ◌+◌, Option,
  Bool-cases, ◌≡◌, refl,
}
use tp_so_delibird.Wire.Bytes.{Bytes}
use tp_so_delibird.Wire.Types.{AppearedPokemon}
use tp_so_delibird.Broker.State.{done, undefined, Outcome, Commons}
use tp_so_delibird.Team.Catch.{pokemon_of, found_behind, search_backup}
use tp_so_delibird.Team.Counts.{quantity}
use tp_so_delibird.Team.Dictionary.{Dictionary, shares}
use tp_so_delibird.Team.State.{one, many, c_text, Backup, Trainer, Team}
use mathlib.Core.Path.{◌≡◌, refl}

module _ (lib : Commons) where
  pub search_backup_ends :
      (k : Bytes) (bs : List Backup)
      → (search_backup lib k bs ≡ undefined)
        ⊎ ((r : Option (AppearedPokemon × List Backup)) × (search_backup lib k bs ≡ done r))
  unfolding search_backup
  search_backup_ends k [] = inr (none, refl)
  search_backup_ends k (many ps ∷ bs) = inl refl
  search_backup_ends k (one p ∷ bs) =
      elim (Bool-cases (lib.equals_ignore_case k (c_text p.pokemon))) [
        | inl e ↦ inr (some (p, bs), rw (search_backup, e) refl)
        | inr e ↦ elim (search_backup_ends k bs) [
          | inl u ↦ inl (rw (search_backup, e, u) refl)
          | inr (r, d) ↦ inr (found_behind p r, rw (search_backup, e, d) refl)
        ]
      ]

module _ {F : Type 0} where
  -- A quantity of the objective that is also the one of the remaining pokemons.
  abbrev pub IsAliased : Team F → Bytes → Type 0
  IsAliased g j = quantity g.global_objective j ≡ (
      if shares g.shared_quantities j
      then quantity g.remaining_pokemons j
      else quantity g.global_objective j)

  module _ (lib : Commons) where
    -- The three dictionaries of one team are those of the other.
    abbrev SameBooks : Team F → Team F → Type 0
    SameBooks g h =
        (h.caught_pokemons ≡ g.caught_pokemons)
        × (h.remaining_pokemons ≡ g.remaining_pokemons)
        × (h.global_objective ≡ g.global_objective)

    -- How the search among the spare pokemons ends.
    data Searched (g : Team F) (o : Outcome (Team F)) : Type 0 where
      unreadable : o ≡ undefined → Searched g o
      searched : (h : Team F) → o ≡ done h → SameBooks g h → Searched g o

    -- How handle_catch ends. `unreadable_backup`: the catch failed, and a list among the spare
    -- pokemons is read as a pokemon.
    pub data Booked (g : Team F) (t : Trainer F) (j : Bytes) (o : Outcome (Team F)) : Type 0 where
      unreadable_backup : (t.pcb_trainer.result_catch == 1) ≡ false → o ≡ undefined → Booked g t j o
      booked :
          (h : Team F)
          → o ≡ done h
          → quantity h.caught_pokemons j + quantity h.remaining_pokemons j
            ≡ quantity g.caught_pokemons j + quantity g.remaining_pokemons j
          → quantity h.remaining_pokemons j
              + (if t.pcb_trainer.result_catch == 1 && same (pokemon_of t) j then 1 else 0)
            ≡ quantity g.remaining_pokemons j
          → quantity h.global_objective j ≡ (
              if shares g.shared_quantities j
              then quantity h.remaining_pokemons j
              else quantity g.global_objective j)
          → Booked g t j o
