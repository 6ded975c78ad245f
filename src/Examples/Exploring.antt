-- ===== src/Examples/Exploring.antt =====
-- A grid of three voltages and two frequencies, over the integers.
use antminer_chip_tuner.Prelude.{ℕ, ◌+◌, ◌*◌, ◌≡◌, refl, false, none, some, List, [], ◌∷◌, arith}
use antminer_chip_tuner.Prelude.Int.{pos}
use antminer_chip_tuner.Floats.{int_floats}
use antminer_chip_tuner.Profit.{Reading, ScoreContext, score_cell}
use antminer_chip_tuner.Profit.Context.{efficiency_context}
use antminer_chip_tuner.Explore.Surface.{
  Key, Cell, Surface, by_key, scored, insert_by_score, sort_by_score, coarse_cells_ranked,
  in_flight_origins, without_keys, has_key, top_coarse_ray_origins,
}
use antminer_chip_tuner.Explore.Rays.{
  up, stay, Walk, walk, next_unmeasured_in_direction, look, look_on_grid, look_at, grid_key, shift,
  weigh, is_worse,
}
use antminer_chip_tuner.Explore.Rays.Fuel.{next_unmeasured_complete}
use antminer_chip_tuner.Explore.Coarse.{
  CoarseConfig, walk_of, find_next_coarse_to_measure, search_ranked, first_from, rays_from,
  first_on_rays, best_of, min_from, index_of,
}
use antminer_chip_tuner.Explore.Coarse.Found.{IsOpen, find_next_coarse-IsOpen}
use antminer_chip_tuner.Explore.Coarse.Settles.{coarse_stage, coarse_settles}
use antminer_chip_tuner.Explore.Target.{
  VoltageResult, TargetConfig, Target, target_of, candidates, find_next_chip_tune_target,
  chip_tune_already_done_for, first_untuned, voltage_matches, seed_matches, seed_of,
}
use antminer_chip_tuner.Explore.Target.Progress.{chip_stage, chip_tune_settles}

abbrev context : ScoreContext int_floats
context = efficiency_context int_floats

abbrev reading : ℕ → Reading int_floats
reading jth = record {
  efficiency_jth = some (pos jth);
  hashrate_ths = some (pos 100);
  power_w = some (pos 3000);
  thermal_failed = false;
}

abbrev cell : Key → ℕ → Cell int_floats
cell k jth = record { key = k; fine = false; coarse_anchor = none; reading = reading jth }

abbrev surface : Surface int_floats
surface = cell (12000, 500000) 30 ∷ cell (12500, 500000) 28 ∷ []

abbrev config : CoarseConfig int_floats
config = record {
  v_grid = 12000 ∷ 12500 ∷ 13000 ∷ [];
  f_grid = 500000 ∷ 510000 ∷ [];
  ctx = context;
  top_k_rays = 2;
  trend_confirm = 2;
}

abbrev ray : Walk int_floats
ray = record {
  v_grid = config.v_grid;
  f_grid = config.f_grid;
  measured = by_key int_floats surface;
  best_score = some (pos 28);
  trend_n = 2;
  ctx = context;
}

reached : next_unmeasured_in_direction int_floats ray up stay 0 0 ≡ some (13000, 500000)
unfolding next_unmeasured_in_direction walk look look_on_grid look_at weigh is_worse grid_key shift
    by_key score_cell
reached = refl

next_unmeasured_complete_example :
    walk int_floats ray up stay (3 + 2 + 2 + 10) 0 0 0
    ≡ next_unmeasured_in_direction int_floats ray up stay 0 0
next_unmeasured_complete_example =
    next_unmeasured_complete int_floats ray up stay 0 0 10 refl (ground arith) (ground arith)

picked : find_next_coarse_to_measure int_floats config surface ≡ some (13000, 510000)
unfolding find_next_coarse_to_measure search_ranked first_from rays_from first_on_rays walk_of
    best_of min_from index_of next_unmeasured_in_direction walk look look_on_grid look_at weigh
    is_worse grid_key shift by_key score_cell scored insert_by_score sort_by_score
    coarse_cells_ranked in_flight_origins without_keys has_key top_coarse_ray_origins
picked = refl

find_next_coarse-IsOpen_example :
    IsOpen int_floats config.v_grid config.f_grid surface (13000, 510000)
find_next_coarse-IsOpen_example =
    find_next_coarse-IsOpen int_floats config surface (13000, 510000) picked

abbrev measure : ℕ → Key → Cell int_floats
measure n k = cell k (30 + n)

coarse_settles_example :
    find_next_coarse_to_measure int_floats config
      (coarse_stage int_floats config measure (3 * 2) surface)
    ≡ none
coarse_settles_example = coarse_settles int_floats config measure surface (λ m k. refl)

abbrev targets : TargetConfig
targets = record { explore_top_k = 2; fine_top_k = 2; fine_count = 1; tolerance = 3125 }

abbrev tuned : Target int_floats → VoltageResult
tuned t = record { voltage_mv = some t.key.0; vf_source_freq = some t.key.1; seed_f = none }

abbrev results : List VoltageResult
results = tuned (target_of int_floats (cell (12500, 500000) 28)) ∷ []

next_target :
    find_next_chip_tune_target int_floats targets context surface results
    ≡ some (target_of int_floats (cell (12000, 500000) 30))
unfolding find_next_chip_tune_target first_untuned candidates target_of chip_tune_already_done_for
    voltage_matches seed_matches seed_of scored insert_by_score sort_by_score coarse_cells_ranked
    score_cell
next_target = refl

chip_tune_settles_example :
    find_next_chip_tune_target int_floats targets context surface
      (chip_stage int_floats targets context surface tuned 2 results)
    ≡ none
chip_tune_settles_example =
    chip_tune_settles int_floats targets context surface tuned (λ t. refl) (λ t. refl) results
