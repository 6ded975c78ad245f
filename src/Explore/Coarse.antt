-- ===== src/Explore/Coarse.antt =====
-- find_next_coarse_to_measure of tuner_app/tuning_engine/exploration.py. The axes are the ascending
-- lists of vf_grid_axes, which are arguments here.
pub mod Found
pub mod Settles
use mathlib.Core.List.{reverse}
use antminer_chip_tuner.Floats.{Floats}
use antminer_chip_tuner.Prelude.{
  ℕ, suc, ◌/◌, max, Bool, true, false, Option, none, some, List, [], ◌∷◌, ◌==◌, ◌||◌, ltb,
  if◌then◌else◌, length, get_elem?,
}
use antminer_chip_tuner.Profit.{ScoreContext}
use antminer_chip_tuner.Explore.Surface.{
  Key, Cell, Surface, by_key, score, scored, coarse_cells_ranked, top_coarse_ray_origins,
}
use antminer_chip_tuner.Explore.Rays.{
  Dir, ray_directions, Walk, grid_key, next_unmeasured_in_direction,
}

-- list.index
unfoldable pub index_of : ℕ → List ℕ → Option ℕ
index_of x [] = none
index_of x (y ∷ ys) =
    let rest = index_of x ys in
    if y == x then some 0 else elim rest [ none ↦ none | some i ↦ some (suc i) ]

-- What the search reads: the axes, the scoring context and two settings.
pub record CoarseConfig (fl : Floats) : Type 0 where
  pub v_grid : List ℕ
  pub f_grid : List ℕ
  pub ctx : ScoreContext fl
  pub top_k_rays : ℕ  -- VF_COARSE_TOP_K_RAYS
  pub trend_confirm : ℕ  -- VF_EXPLORE_TREND_CONFIRM

module _ (fl : Floats) where
  unfoldable pub min_from : fl.Num → List (fl.Num × Cell fl) → fl.Num
  min_from m [] = m
  min_from m (p ∷ ps) = min_from (if fl.ltb p.0 m then p.0 else m) ps

  -- min(scored) if scored else the score of the best coarse cell
  unfoldable pub best_of : Option fl.Num → List (fl.Num × Cell fl) → Option fl.Num
  best_of default [] = default
  best_of default (p ∷ ps) = some (min_from p.0 ps)

  abbrev all_cells : Cell fl → Bool
  all_cells e = true

  unfoldable pub walk_of : CoarseConfig fl → Surface fl → Cell fl → Walk fl
  walk_of cfg surface top = record {
    v_grid = cfg.v_grid;
    f_grid = cfg.f_grid;
    measured = by_key fl surface;
    best_score = best_of (score fl cfg.ctx top) (scored fl all_cells cfg.ctx surface);
    trend_n = max 1 cfg.trend_confirm;
    ctx = cfg.ctx;
  }

  -- The first unmeasured cell on the rays from one cell, in the given order of directions.
  unfoldable pub first_on_rays : Walk fl → List (Dir × Dir) → ℕ → ℕ → Option Key
  first_on_rays w [] i j = none
  first_on_rays w ((dv, df) ∷ dirs) i j = elim (next_unmeasured_in_direction fl w dv df i j) [
    | some k ↦ some k
    | none ↦ first_on_rays w dirs i j
  ]

  -- A cell that is not on the current grid has no rays.
  unfoldable pub rays_from : Walk fl → Option ℕ → Option ℕ → Option Key
  rays_from w none j = none
  rays_from w (some i) none = none
  rays_from w (some i) (some j) = first_on_rays w ray_directions i j

  unfoldable pub first_from : Walk fl → List (Cell fl) → Option Key
  first_from w [] = none
  first_from w (c ∷ cs) =
      elim (rays_from w (index_of c.key.0 w.v_grid) (index_of c.key.1 w.f_grid)) [
        | some k ↦ some k
        | none ↦ first_from w cs
      ]

  -- The first key of a row of the sweep that has not been measured.
  unfoldable pub sweep_row : Surface fl → ℕ → List ℕ → Option Key
  sweep_row surface v [] = none
  sweep_row surface v (f ∷ fs) = elim (by_key fl surface (v, f)) [
    | none ↦ some (v, f)
    | some e ↦ sweep_row surface v fs
  ]

  unfoldable pub sweep : Surface fl → List ℕ → List ℕ → Option Key
  sweep surface [] fs = none
  sweep surface (v ∷ vs) fs = elim (sweep_row surface v fs) [
    | some k ↦ some k
    | none ↦ sweep surface vs fs
  ]

  -- The key at the centre of the grid.
  unfoldable pub center : CoarseConfig fl → Option Key
  center cfg = elim (get_elem? cfg.v_grid (length cfg.v_grid / 2)) [
    | none ↦ none
    | some v ↦ elim (get_elem? cfg.f_grid (length cfg.f_grid / 2)) [
      | none ↦ none
      | some f ↦ some (v, f)
    ]
  ]

  unfoldable pub center_or_sweep : CoarseConfig fl → Surface fl → Option Key → Option Key
  center_or_sweep cfg surface none = none
  center_or_sweep cfg surface (some k) = elim (by_key fl surface k) [
    | none ↦ some k
    | some e ↦ sweep surface (reverse cfg.v_grid) (reverse cfg.f_grid)
  ]

  -- Before any coarse cell has a score: the centre, then any unmeasured cell, from the top down.
  unfoldable pub bootstrap : CoarseConfig fl → Surface fl → Option Key
  bootstrap cfg surface = center_or_sweep cfg surface (center cfg)

  unfoldable pub search_ranked : CoarseConfig fl → Surface fl → List (Cell fl) → Option Key
  search_ranked cfg surface [] = bootstrap cfg surface
  search_ranked cfg surface (top ∷ ranked) =
      first_from (walk_of cfg surface top)
        (top_coarse_ray_origins fl cfg.ctx (max 1 cfg.top_k_rays) surface)

  unfoldable pub find_next_coarse_to_measure : CoarseConfig fl → Surface fl → Option Key
  find_next_coarse_to_measure cfg surface =
      if ltb (length cfg.v_grid) 2 || ltb (length cfg.f_grid) 2
      then none
      else search_ranked cfg surface (coarse_cells_ranked fl cfg.ctx surface)
