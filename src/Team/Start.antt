-- ===== src/Team/Start.antt =====
-- team/src/team.c: build_remaining_pokemons, at the start of a team.
use tp_so_delibird.Common.{
  List, ltb, leb, ◌%◌, ◌-◌, ◌^◌, ◌+◌, if◌then◌else◌, ℕ, Option, none, some, [], ◌∷◌,
}
use tp_so_delibird.Wire.Bytes.{Bytes}
use tp_so_delibird.Team.Dictionary.{dictionary_put, dictionary_get, Dictionary}

-- `remaining_pokemons`, and the texts for which it has the pointer of the objective.
pub record Remaining : Type 0 where
  pub quantities : Dictionary
  pub shared : List Bytes

-- `add_remaining`, the difference as an `int`; `none` stands for `exit(-777)`. With no caught one
-- the pointer `cant_global` itself is put, otherwise a new quantity.
unfoldable pub add_remaining : Dictionary → Remaining → Bytes → ℕ → Option Remaining
add_remaining caught remaining pokemon cant_global = elim (dictionary_get caught pokemon) [
  | none ↦ some (record {
    quantities = dictionary_put remaining.quantities pokemon cant_global;
    shared = pokemon ∷ remaining.shared;
  })
  | some cant_caught ↦
      let cant_remaining = (cant_global + 2 ^ 32 - cant_caught) % 2 ^ 32 in
      if leb (2 ^ 31) cant_remaining
      then none
      else if ltb 0 cant_remaining
      then some (record remaining {
        quantities = dictionary_put remaining.quantities pokemon cant_remaining;
      })
      else some remaining
]

-- The loop of `build_remaining_pokemons` over the pairs of the objective that are left.
unfoldable pub build_remaining_pokemons : Dictionary → Dictionary → Remaining → Option Remaining
unfolding add_remaining
build_remaining_pokemons [] caught remaining = some remaining
build_remaining_pokemons ((pokemon, cant_global) ∷ objective) caught remaining =
    elim (add_remaining caught remaining pokemon cant_global) [
      | none ↦ none
      | some remaining' ↦ build_remaining_pokemons objective caught remaining'
    ]
