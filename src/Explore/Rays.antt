-- ===== src/Explore/Rays.antt =====
-- next_unmeasured_in_direction of tuner_app/tuning_engine/exploration.py: the walk along one ray.
pub mod Found
pub mod Fuel
use antminer_chip_tuner.Floats.{Floats}
use antminer_chip_tuner.Prelude.{
  ℕ, zero, suc, ◌+◌, Bool, true, false, Option, none, some, List, [], ◌∷◌, ◌&&◌, ltb, leb,
  if◌then◌else◌, length, get_elem?,
}
use antminer_chip_tuner.Profit.{ScoreContext}
use antminer_chip_tuner.Explore.Surface.{Key, Cell, score}

-- A step of -1, 0 or +1 on an axis.
pub data Dir : Type 0 where
  down stay up : Dir

-- The eight directions of RAY_DIRECTIONS, the stability ridge first.
abbrev pub ray_directions : List (Dir × Dir)
ray_directions =
    (up, up)
    ∷ (down, down)
    ∷ (up, stay)
    ∷ (down, stay)
    ∷ (stay, up)
    ∷ (stay, down)
    ∷ (up, down)
    ∷ (down, up)
    ∷ []

-- The index after one step, if it does not fall below 0.
unfoldable pub shift : Dir → ℕ → Option ℕ
shift up i = some (i + 1)
shift stay i = some i
shift down zero = none
shift down (suc i) = some i

module _ (fl : Floats) where
  -- What a walk reads: the ascending axes, the measured cells, the best score, the number of worse
  -- cells that confirm a trend, and the scoring context.
  pub record Walk : Type 0 where
    pub v_grid : List ℕ
    pub f_grid : List ℕ
    pub measured : Key → Option (Cell fl)
    pub best_score : Option fl.Num
    pub trend_n : ℕ
    pub ctx : ScoreContext fl

  -- The key at a pair of indices, if both lie on the grid.
  unfoldable pub grid_key : Walk → Option ℕ → Option ℕ → Option (ℕ × ℕ × Key)
  grid_key w none j = none
  grid_key w (some i) none = none
  grid_key w (some i) (some j) = elim (get_elem? w.v_grid i) [
    | none ↦ none
    | some v ↦ elim (get_elem? w.f_grid j) [ none ↦ none | some f ↦ some (i, j, (v, f)) ]
  ]

  -- The end of the ray, an unmeasured cell, or the indices and the count of worse cells to go on
  -- with.
  pub data Look : Type 0 where
    stop : Look
    unmeasured : Key → Look
    go_on : ℕ → ℕ → ℕ → Look

  unfoldable pub is_worse : Option fl.Num → fl.Num → Bool
  is_worse none s = true
  is_worse (some best) s = fl.ltb best s

  -- A measured cell: one without a score does not count, a worse one counts towards the trend, any
  -- other resets the count.
  unfoldable pub weigh : Walk → ℕ → ℕ → ℕ → Option fl.Num → Look
  weigh w i j worse none = go_on i j worse
  weigh w i j worse (some s) =
      if is_worse w.best_score s
      then (if leb w.trend_n (worse + 1) then stop else go_on i j (worse + 1))
      else go_on i j 0

  unfoldable pub look_at : Walk → ℕ → ℕ → ℕ → Key → Option (Cell fl) → Look
  look_at w i j worse k none = unmeasured k
  look_at w i j worse k (some e) = weigh w i j worse (score fl w.ctx e)

  unfoldable pub look_on_grid : Walk → ℕ → Option (ℕ × ℕ × Key) → Look
  look_on_grid w worse none = stop
  look_on_grid w worse (some (i, j, k)) = look_at w i j worse k (w.measured k)

  -- One pass of the loop, from the indices `i` and `j`.
  unfoldable pub look : Walk → Dir → Dir → ℕ → ℕ → ℕ → Look
  look w dv df i j worse = look_on_grid w worse (grid_key w (shift dv i) (shift df j))

  unfoldable pub walk : Walk → Dir → Dir → ℕ → ℕ → ℕ → ℕ → Option Key
  walk w dv df zero i j worse = none
  walk w dv df (suc fuel) i j worse = elim (look w dv df i j worse) [
    | stop ↦ none
    | unmeasured k ↦ some k
    | go_on i' j' worse' ↦ walk w dv df fuel i' j' worse'
  ]

  -- `max_steps` of the source is the fuel.
  unfoldable pub next_unmeasured_in_direction : Walk → Dir → Dir → ℕ → ℕ → Option Key
  next_unmeasured_in_direction w dv df i j =
      walk w dv df (length w.v_grid + length w.f_grid + 2) i j 0
