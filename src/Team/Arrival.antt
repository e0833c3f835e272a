-- ===== src/Team/Arrival.antt =====
-- Where `move_to_position` ends, and what it takes.
use tp_so_delibird.Common.{◌%◌, ◌^◌, ◌+◌, ◌<◌, ◌-◌, ℕ, arith, ◌≡◌, zero, suc}
use tp_so_delibird.Wire.Types.{AppearedPokemon}
use tp_so_delibird.Team.Movement.{
  step_y, get_distance, move_y, move_to_position, step_x, abs_diff, move_x,
}
use tp_so_delibird.Team.State.{Trainer, Double}
use mathlib.Core.Path.{sym, ◌∙◌, ap}

-- The distance of two numbers.
abbrev pub apart : ℕ → ℕ → ℕ
apart a b = (a - b) + (b - a)

abs_diff-apart : (a b : ℕ) → a < 2 ^ 31 → b < 2 ^ 31 → abs_diff a b ≡ apart a b
abs_diff-apart a b h k = ground arith

-- The trainer with other coordinates and a later clock; its estimate goes down once for each step.
abbrev later : {F : Type 0} → Double F → ℕ → F → F
later D zero e = e
later D (suc n) e = later D n (D.sub e D.one)

module _ {F : Type 0} (D : Double F) where
  -- The trainer after `n` steps, at the coordinates.
  abbrev pub walked : ℕ → ℕ → ℕ → Trainer F → Trainer F
  walked n x y t = record t {
    pos_x = x;
    pos_y = y;
    q_ciclos_cpu = (t.q_ciclos_cpu + n) % 2 ^ 32;
    estimacion_actual = later D n t.estimacion_actual;
  }

  walked-zero : (t : Trainer F) → t.q_ciclos_cpu < 2 ^ 32 → t ≡ walked 0 t.pos_x t.pos_y t
  walked-zero t h = ap (λ (n : ℕ). record t { q_ciclos_cpu = n }) (omega arith)

  later_add : (n m : ℕ) (e : F) → later D m (later D n e) ≡ later D (n + m) e
  later_add zero m e = let z : m ≡ 0 + m = omega arith in ap (λ (k : ℕ). later D k e) z
  later_add (suc n) m e =
      let z : suc (n + m) ≡ suc n + m = omega arith in
      later_add n m (D.sub e D.one) ∙ ap (λ (k : ℕ). later D k e) z

  walked-walked :
      (n m x y u v : ℕ) (t : Trainer F) → walked m u v (walked n x y t) ≡ walked (n + m) u v t
  walked-walked n m x y u v t =
      ap (λ e. record (walked m u v (walked n x y t)) { estimacion_actual = e })
        (later_add n m t.estimacion_actual)
      ∙ ap (λ (q : ℕ). record (walked (n + m) u v t) { q_ciclos_cpu = q }) (omega arith)

  move_x-walked :
      (i x : ℕ) (t : Trainer F)
      → x < 2 ^ 31
      → t.pos_x < 2 ^ 31
      → t.q_ciclos_cpu < 2 ^ 32
      → apart t.pos_x x ≡ i
      → move_x D i x t ≡ walked i x t.pos_y t
  unfolding move_x
  move_x-walked zero x t h k q e =
      walked-zero t q ∙ ap (λ (n : ℕ). walked 0 n t.pos_y t) (omega (arith, e))
  move_x-walked (suc i) x t h k q e =
      move_x-walked i x (step_x D x t) h (ground arith) (omega arith) (ground (arith, e))
      ∙ ap (λ (n : ℕ). record (walked (suc i) x t.pos_y t) { q_ciclos_cpu = n }) (omega arith)

  move_y-walked :
      (i y : ℕ) (t : Trainer F)
      → y < 2 ^ 31
      → t.pos_y < 2 ^ 31
      → t.q_ciclos_cpu < 2 ^ 32
      → apart t.pos_y y ≡ i
      → move_y D i y t ≡ walked i t.pos_x y t
  unfolding move_y
  move_y-walked zero y t h k q e =
      walked-zero t q ∙ ap (λ (n : ℕ). walked 0 t.pos_x n t) (omega (arith, e))
  move_y-walked (suc i) y t h k q e =
      move_y-walked i y (step_y D y t) h (ground arith) (omega arith) (ground (arith, e))
      ∙ ap (λ (n : ℕ). record (walked (suc i) t.pos_x y t) { q_ciclos_cpu = n }) (omega arith)

  -- With coordinates below 2^31, a walk that is not interrupted ends, at the position it was sent
  -- to. It takes as many steps as the distance to it, each of which counts as one cycle of the
  -- processor and lowers the estimate once; nothing else of the trainer changes.
  pub move_to_position-walked :
      (t : Trainer F) (p : AppearedPokemon)
      → p.pos_x < 2 ^ 31
      → p.pos_y < 2 ^ 31
      → t.pos_x < 2 ^ 31
      → t.pos_y < 2 ^ 31
      → t.q_ciclos_cpu < 2 ^ 32
      → move_to_position D p.pos_x p.pos_y t ≡ walked (get_distance t p) p.pos_x p.pos_y t
  unfolding move_to_position get_distance
  move_to_position-walked t p hx hy kx ky q =
      let i = abs_diff t.pos_x p.pos_x in
      let j = abs_diff t.pos_y p.pos_y in
      ap (move_y D j p.pos_y)
        (move_x-walked i p.pos_x t hx kx q (sym (abs_diff-apart t.pos_x p.pos_x kx hx)))
      ∙ move_y-walked j p.pos_y (walked i p.pos_x t.pos_y t) hy ky (omega arith)
          (sym (abs_diff-apart t.pos_y p.pos_y ky hy))
      ∙ walked-walked i j p.pos_x t.pos_y p.pos_x p.pos_y t
