-- ===== src/Explore/Rays/Fuel.antt =====
-- The bound on the steps of a ray is never met.
use antminer_chip_tuner.Floats.{Floats}
use antminer_chip_tuner.Prelude.{
  ℕ, zero, suc, ◌+◌, ◌-◌, ◌≤◌, ◌<◌, ◌≡◌, inl, inr, Bool, true, false, some, arith, length,
}
use antminer_chip_tuner.Explore.Rays.Found.{look_inversion, Look-cases}
use antminer_chip_tuner.Explore.Rays.{
  Dir, down, stay, up, shift, Walk, go_on, look, walk, next_unmeasured_in_direction,
}

-- How many steps are left along one axis.
abbrev axis_room : Dir → ℕ → ℕ → ℕ
axis_room up len i = len - i
axis_room stay len i = 0
axis_room down len i = i

-- The direction is not the null step.
abbrev pub moves : Dir → Dir → Bool
moves stay stay = false
moves _ _ = true

module _ (fl : Floats) (w : Walk fl) where
  abbrev room : Dir → Dir → ℕ → ℕ → ℕ
  room dv df i j = axis_room dv (length w.v_grid) i + axis_room df (length w.f_grid) j

  closer :
      (dv df : Dir) (i j i' j' : ℕ)
      → moves dv df ≡ true
      → shift dv i ≡ some i'
      → shift df j ≡ some j'
      → i' < length w.v_grid
      → j' < length w.f_grid
      → room dv df i' j' < room dv df i j
  unfolding shift
  closer dv df i j i' j' m p q a b = ground arith

  go_on_room :
      (dv df : Dir) (i j worse i' j' worse' : ℕ)
      → moves dv df ≡ true
      → look fl w dv df i j worse ≡ go_on i' j' worse'
      → room dv df i' j' < room dv df i j
  go_on_room dv df i j worse i' j' worse' m e =
      let (p, q, a, b) = look_inversion fl w dv df i j worse i' j' worse' e in
      closer dv df i j i' j' m p q a b

  walk_fuel :
      (dv df : Dir) (m n i j worse : ℕ)
      → moves dv df ≡ true
      → room dv df i j < m
      → room dv df i j < n
      → walk fl w dv df m i j worse ≡ walk fl w dv df n i j worse
  unfolding walk
  walk_fuel dv df zero n i j worse mv a b = absurd (omega arith)
  walk_fuel dv df (suc m) zero i j worse mv a b = absurd (omega arith)
  walk_fuel dv df (suc m) (suc n) i j worse mv a b =
      elim (Look-cases fl (look fl w dv df i j worse)) [
        | inl e ↦ rw (e, walk)
        | inr (inl (k, e)) ↦ rw (e, walk)
        | inr (inr (i', j', worse', e)) ↦
            let closer = go_on_room dv df i j worse i' j' worse' mv e in
            rw (e, walk) (walk_fuel dv df m n i' j' worse' mv (omega arith) (omega arith))
      ]

  -- From a cell on the grid and in a direction that moves, the step bound of the loop changes
  -- nothing: every larger bound gives the same result, so the walk ends at the edge of the grid, at
  -- an unmeasured cell or by a confirmed trend, and never because steps ran out.
  pub next_unmeasured_complete :
      (dv df : Dir) (i j extra : ℕ)
      → moves dv df ≡ true
      → i < length w.v_grid
      → j < length w.f_grid
      → walk fl w dv df (length w.v_grid + length w.f_grid + 2 + extra) i j 0
        ≡ next_unmeasured_in_direction fl w dv df i j
  unfolding next_unmeasured_in_direction
  next_unmeasured_complete dv df i j extra mv a b =
      let bound = room_bound dv df i j a b in
      walk_fuel dv df _ _ i j 0 mv (omega arith) (omega arith)
    where
      room_bound :
          (dv df : Dir) (i j : ℕ)
          → i < length w.v_grid
          → j < length w.f_grid
          → room dv df i j ≤ length w.v_grid + length w.f_grid
      room_bound dv df i j a b = ground arith
