-- ===== src/Team/Shares.antt =====
-- Of the messages that tell of pokemons, the team takes no more than it misses.
use tp_so_delibird.Common.{
  length-take, false, ◌==◌, ◌<◌, Option-cases, ◌+◌, ◌≤◌, zero, inr, inl, ltb, arith, Bool-cases,
  ◌^◌, ◌%◌, drop, ◌-◌, [], ◌++◌, take, some, ◌≡◌, ◌∷◌, map, length, All, List,
}
use tp_so_delibird.Wire.Bytes.{recv_u32-u32_bytes, u32_bytes, IsU32, Bytes}
use tp_so_delibird.Wire.Types.{AppearedPokemon, LocalizedPokemon}
use tp_so_delibird.Broker.State.{Commons, done, Outcome}
use tp_so_delibird.Team.Dictionary.{dictionary_get}
use tp_so_delibird.Team.Events.{
  still_wanted, add_backup, handle_localized, get_q_received, equal_received, pokemon_at,
  read_position, split_positions,
}
use tp_so_delibird.Team.State.{c_text, Team}
use Prim.Native.Nat.{suc, ℕ}
use mathlib.Core.Path.{refl}

-- Positions in memory, and the pokemons at them.
abbrev pub encoded : List (ℕ × ℕ) → Bytes
encoded [] = []
encoded ((x, y) ∷ ps) = u32_bytes x ++ (u32_bytes y ++ encoded ps)

abbrev pub IsPosition : ℕ × ℕ → Type 0
IsPosition (x, y) = IsU32 x × IsU32 y

abbrev pub appearances : LocalizedPokemon → List (ℕ × ℕ) → List AppearedPokemon
appearances l ps = map (pokemon_at l) ps

read_position-encoded :
    (p : ℕ × ℕ) (ps : List (ℕ × ℕ))
    → IsPosition p
    → read_position (encoded (p ∷ ps)) ≡ some (p, encoded ps)
read_position-encoded (x, y) ps (h, k) =
    rw
      (
        read_position,
        recv_u32-u32_bytes x (u32_bytes y ++ encoded ps),
        recv_u32-u32_bytes y (encoded ps),
      )
      (let e : x % 2 ^ 32 ≡ x = omega arith in
        let f : y % 2 ^ 32 ≡ y = omega arith in rw (e, f) refl)

-- The loop takes the first pokemons, up to the quota, and the others are spare.
split_positions-take :
    (l : LocalizedPokemon) (quota i : ℕ) (ps : List (ℕ × ℕ))
    → All IsPosition ps
    → split_positions l quota i (length ps) (encoded ps)
      ≡ done (take (quota - i) (appearances l ps), drop (quota - i) (appearances l ps))
unfolding split_positions
split_positions-take l quota i [] a = go (quota - i)
  where
    go :
        (n : ℕ)
        → ◌≡◌ {A = Outcome (List AppearedPokemon × List AppearedPokemon)}
            (done ([], []))
            (done (take n [], drop n []))
    go zero = refl
    go (suc n) = refl
split_positions-take l quota i (p ∷ ps) (h, a) =
    rw (split_positions, read_position-encoded p ps h, split_positions-take l quota (suc i) ps a)
      (elim (Bool-cases (ltb i quota)) [
        | inl e ↦ let n : quota - i ≡ suc (quota - suc i) = ground arith in rw (e, n) refl
        | inr e ↦
            let n : quota - i ≡ 0 = ground arith in
            let m : quota - suc i ≡ 0 = omega arith in rw (e, n, m) refl
      ])

split_positions_whole :
    (l : LocalizedPokemon) (quota n : ℕ) (positions : Bytes) (ps : List (ℕ × ℕ))
    → All IsPosition ps
    → positions ≡ encoded ps
    → n ≡ length ps
    → split_positions l quota 0 n positions
      ≡ done (take quota (appearances l ps), drop quota (appearances l ps))
split_positions_whole l quota n positions ps a m k =
    let z : quota - 0 ≡ quota = omega arith in
    rw (m, k, split_positions-take l quota 0 ps a, z) refl

module _ {F : Type 0} where
  -- The team once it has taken the first pokemons and kept the second as spare.
  abbrev pub shared : Team F → List AppearedPokemon → List AppearedPokemon → Team F
  shared g taken backup = record g {
    pokemon_received_to_catch = g.pokemon_received_to_catch ++ taken;
    sem_appeared_pokemon = g.sem_appeared_pokemon + length taken;
    appeared_backup = add_backup backup g.appeared_backup;
  }

module _ (lib : Commons) where
  equal_received-append :
      (k : Bytes) (ps qs : List AppearedPokemon)
      → equal_received lib k (ps ++ qs) ≡ equal_received lib k ps + equal_received lib k qs
  equal_received-append k [] qs = omega arith
  equal_received-append k (p ∷ ps) qs = omega (arith, equal_received-append k ps qs)

  equal_received-length :
      (k : Bytes) (ps : List AppearedPokemon) → equal_received lib k ps ≤ length ps
  equal_received-length k [] = omega arith
  equal_received-length k (p ∷ ps) = ground (arith, equal_received-length k ps)

  mod_add : (a b n : ℕ) → b ≤ n → (a + b) % 2 ^ 32 ≤ a % 2 ^ 32 + n
  mod_add a b n h = omega arith

  module _ {F : Type 0} where
    q_received-shared :
        (g : Team F) (taken backup : List AppearedPokemon) (k : Bytes)
        → get_q_received lib (shared g taken backup) k ≤ get_q_received lib g k + length taken
    unfolding get_q_received
    q_received-shared g taken backup k =
        let l = equal_received-length k taken in
        let a = equal_received-append k g.pokemon_received_to_catch taken in
        elim (Option-cases (dictionary_get g.being_caught_pokemons k)) [
          | inl e ↦
              rw (get_q_received, e, a)
                (mod_add (equal_received lib k g.pokemon_received_to_catch)
                  (equal_received lib k taken) (length taken) l)
          | inr (v, e) ↦ rw (get_q_received, e, a) (omega (arith, l))
        ]

    bounded :
        (g : Team F) (all backup : List AppearedPokemon) (k : Bytes) (q : ℕ)
        → get_q_received lib g k ≤ q
        → get_q_received lib (shared g (take (q - get_q_received lib g k) all) backup) k ≤ q
    bounded g all backup k q h =
        let b = q_received-shared g (take (q - get_q_received lib g k) all) backup k in
        let c = length-take (q - get_q_received lib g k) all in ground (arith, b, c)

    -- If the team looks for `q` pokemons of the kind of the message, and no more than that are
    -- received or being caught, then the message of all positions `ps` adds the first pokemons, as
    -- many as are still wanted, to the received ones, and the others, as one list, to the spare
    -- ones; and still no more than `q` are received or being caught.
    pub handle_localized-shared :
        (g : Team F) (l : LocalizedPokemon) (q : ℕ) (ps : List (ℕ × ℕ))
        → dictionary_get g.remaining_pokemons (c_text l.pokemon) ≡ some q
        → 0 < q
        → q < 2 ^ 32
        → get_q_received lib g (c_text l.pokemon) ≤ q
        → l.positions ≡ encoded ps
        → l.positions_count ≡ length ps
        → All IsPosition ps
        → (handle_localized lib g l
            ≡ done (
                shared g
                  (take (q - get_q_received lib g (c_text l.pokemon)) (appearances l ps))
                  (drop (q - get_q_received lib g (c_text l.pokemon)) (appearances l ps))))
          × (get_q_received lib
                (shared g
                  (take (q - get_q_received lib g (c_text l.pokemon)) (appearances l ps))
                  (drop (q - get_q_received lib g (c_text l.pokemon)) (appearances l ps)))
                (c_text l.pokemon)
              ≤ q)
    unfolding handle_localized
    handle_localized-shared g l q ps e p b r m n a =
        let z : (q == 0) ≡ false = ground arith in
        let w : still_wanted q (get_q_received lib g (c_text l.pokemon))
            ≡ q - get_q_received lib g (c_text l.pokemon) =
          omega arith in
        (
          rw
              (
                handle_localized,
                e,
                z,
                w,
                split_positions_whole l (q - get_q_received lib g (c_text l.pokemon))
                    l.positions_count l.positions ps a m n,
              )
              refl,
          bounded g (appearances l ps)
              (drop (q - get_q_received lib g (c_text l.pokemon)) (appearances l ps))
              (c_text l.pokemon) q r,
        )
