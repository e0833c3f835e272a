-- ===== src/Team/Movement.antt =====
-- team/src/trainer.c: how a trainer walks. The pauses of `sleep` are left out.
use tp_so_delibird.Common.{◌-◌, ◌^◌, ◌%◌, ltb, ◌+◌, if◌then◌else◌, ℕ, zero, suc}
use tp_so_delibird.Wire.Types.{AppearedPokemon}
use tp_so_delibird.Team.State.{Trainer, Double}

-- `abs(a - b)` of two `uint32_t`, as an `int`.
abbrev pub abs_diff : ℕ → ℕ → ℕ
abs_diff a b = let n = (a + 2 ^ 32 - b) % 2 ^ 32 in if ltb n (2 ^ 31) then n else 2 ^ 32 - n

abbrev pub move_one_step : ℕ → ℕ → ℕ
move_one_step pos1 pos2 =
    if ltb pos1 pos2 then (pos1 + 1) % 2 ^ 32 else (pos1 + 2 ^ 32 - 1) % 2 ^ 32

module _ {F : Type 0} where
  -- The sum in an `int`, which it fits if all coordinates are below 2^30.
  unfoldable pub get_distance : Trainer F → AppearedPokemon → ℕ
  get_distance t p = abs_diff t.pos_x p.pos_x + abs_diff t.pos_y p.pos_y

  module _ (D : Double F) where
    -- What every step does besides moving: `increment_q_ciclos_cpu` for the trainer, and its
    -- estimate goes down by 1. The total over all trainers, which is only printed, is not kept.
    abbrev pub tick : Trainer F → Trainer F
    tick t = record t {
      q_ciclos_cpu = (t.q_ciclos_cpu + 1) % 2 ^ 32;
      estimacion_actual = D.sub t.estimacion_actual D.one;
    }

    abbrev pub step_x : ℕ → Trainer F → Trainer F
    step_x pos_x t = tick (record t { pos_x = move_one_step t.pos_x pos_x })

    abbrev pub step_y : ℕ → Trainer F → Trainer F
    step_y pos_y t = tick (record t { pos_y = move_one_step t.pos_y pos_y })

    -- The two loops of `move_to_position`, with the rounds that are left.
    unfoldable pub move_x : ℕ → ℕ → Trainer F → Trainer F
    move_x zero pos_x t = t
    move_x (suc i) pos_x t = move_x i pos_x (step_x pos_x t)

    unfoldable pub move_y : ℕ → ℕ → Trainer F → Trainer F
    move_y zero pos_y t = t
    move_y (suc i) pos_y t = move_y i pos_y (step_y pos_y t)

    -- `move_to_position` without `with_validate_desalojo`. Both counts are taken first.
    unfoldable pub move_to_position : ℕ → ℕ → Trainer F → Trainer F
    unfolding move_x move_y
    move_to_position pos_x pos_y t =
        move_y (abs_diff t.pos_y pos_y) pos_y (move_x (abs_diff t.pos_x pos_x) pos_x t)
