-- ===== src/Team/Events.antt =====
-- team/src/team.c: what the team does with the messages that the broker sends it.
use tp_so_delibird.Common.{
  zero, length, ◌==◌, ◌-◌, ltb, false, ◌^◌, ◌++◌, ◌%◌, true, some, if◌then◌else◌, ◌∷◌, ◌+◌, none,
  [], Option, List, Bool,
}
use tp_so_delibird.Wire.Bytes.{recv_u32, Bytes}
use tp_so_delibird.Wire.Types.{AppearedPokemon, LocalizedPokemon, CaughtPokemon}
use tp_so_delibird.Broker.State.{done, undefined, Outcome, ◌>>=◌, Commons}
use tp_so_delibird.Team.Dictionary.{dictionary_get}
use tp_so_delibird.Team.State.{many, c_text, Trainer, Backup, write_trainer, Team, one}
use Prim.Native.Nat.{suc, ℕ}

-- `(*q_catch) - q_received`, which wraps.
abbrev pub still_wanted : ℕ → ℕ → ℕ
still_wanted q_catch q_received = (q_catch + 2 ^ 32 - q_received) % 2 ^ 32

-- The two numbers of a position, and what stands behind them.
abbrev pub read_position : Bytes → Option ((ℕ × ℕ) × Bytes)
read_position positions = elim (recv_u32 positions) [
  | none ↦ none
  | some (x, rest) ↦ elim (recv_u32 rest) [ none ↦ none | some (y, left) ↦ some ((x, y), left) ]
]

abbrev pub pokemon_at : LocalizedPokemon → ℕ × ℕ → AppearedPokemon
pokemon_at l (x, y) = record {
  pokemon_len = l.pokemon_len;
  pokemon = l.pokemon;
  pos_x = x;
  pos_y = y;
}

abbrev pub put_into :
    Bool
    → AppearedPokemon
    → List AppearedPokemon × List AppearedPokemon
    → List AppearedPokemon × List AppearedPokemon
put_into true p (taken, backup) = (p ∷ taken, backup)
put_into false p (taken, backup) = (taken, p ∷ backup)

-- The loop of `handle_localized` from the index `i` on, with `n` rounds left and the memory
-- behind the positions read: the two lists that it fills.
unfoldable pub split_positions :
    LocalizedPokemon → ℕ → ℕ → ℕ → Bytes → Outcome (List AppearedPokemon × List AppearedPokemon)
split_positions l quota i zero positions = done ([], [])
split_positions l quota i (suc n) positions = elim (read_position positions) [
  | none ↦ undefined
  | some (position, rest) ↦ split_positions l quota (suc i) n rest >>= λ lists.
      done (put_into (ltb i quota) (pokemon_at l position) lists)
]

abbrev pub add_backup : List AppearedPokemon → List Backup → List Backup
add_backup [] backup = backup
add_backup (p ∷ ps) backup = backup ++ (many (p ∷ ps) ∷ [])

module _ (lib : Commons) where
  -- The received pokemons of the kind.
  abbrev pub equal_received : Bytes → List AppearedPokemon → ℕ
  equal_received pokemon [] = 0
  equal_received pokemon (p ∷ ps) =
      (if lib.equals_ignore_case (c_text p.pokemon) pokemon then 1 else 0)
      + equal_received pokemon ps

  module _ {F : Type 0} where
    -- `q_received` is a `uint32_t`.
    unfoldable pub get_q_received : Team F → Bytes → ℕ
    get_q_received g pokemon =
        let q_received = equal_received pokemon g.pokemon_received_to_catch in
        elim (dictionary_get g.being_caught_pokemons pokemon) [
          | none ↦ q_received % 2 ^ 32
          | some cant_vistima ↦ (q_received + cant_vistima) % 2 ^ 32
        ]

    unfoldable pub handle_appeared : Team F → AppearedPokemon → Team F
    unfolding get_q_received
    handle_appeared g appeared_pokemon =
        elim (dictionary_get g.remaining_pokemons (c_text appeared_pokemon.pokemon)) [
          | none ↦ g
          | some q_catch ↦
              if q_catch == 0
              then g
              else if ltb 0
                  (still_wanted q_catch (get_q_received g (c_text appeared_pokemon.pokemon)))
              then record g {
                pokemon_received_to_catch = g.pokemon_received_to_catch ++ (appeared_pokemon ∷ []);
                sem_appeared_pokemon = g.sem_appeared_pokemon + 1;
              }
              else record g { appeared_backup = g.appeared_backup ++ (one appeared_pokemon ∷ []) }
        ]

    unfoldable pub handle_localized : Team F → LocalizedPokemon → Outcome (Team F)
    unfolding get_q_received split_positions
    handle_localized g l = elim (dictionary_get g.remaining_pokemons (c_text l.pokemon)) [
      | none ↦ done g
      | some q_catch ↦
          let q_received = get_q_received g (c_text l.pokemon) in
          if q_catch == 0
          then done g
          else split_positions l (still_wanted q_catch q_received) 0 l.positions_count l.positions
            >>= λ (taken, backup). done (record g {
              pokemon_received_to_catch = g.pokemon_received_to_catch ++ taken;
              sem_appeared_pokemon = g.sem_appeared_pokemon + length taken;
              appeared_backup = add_backup backup g.appeared_backup;
            })
    ]

-- The first trainer that waits for the answer to the message.
unfoldable pub obtener_trainer_mensaje : {F : Type 0} → ℕ → List (Trainer F) → Option (Trainer F)
obtener_trainer_mensaje correlative_id [] = none
obtener_trainer_mensaje correlative_id (t ∷ ts) =
    if t.pcb_trainer.id_message == correlative_id
    then some t
    else obtener_trainer_mensaje correlative_id ts

unfoldable pub handle_caught : {F : Type 0} → Team F → ℕ → CaughtPokemon → Team F
unfolding obtener_trainer_mensaje write_trainer
handle_caught g correlative_id caught_pokemon =
    elim (obtener_trainer_mensaje correlative_id g.trainers) [
      | none ↦ g
      | some t ↦ record g {
        trainers =
            write_trainer
              (record t {
                pcb_trainer = record t.pcb_trainer {
                  result_catch = caught_pokemon.result;
                  sem_caught = 1;
                };
              })
              g.trainers;
      }
    ]
