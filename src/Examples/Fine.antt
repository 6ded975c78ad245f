-- ===== src/Examples/Fine.antt =====
-- A grid of two voltages and two frequencies, over fixed-point numbers of three decimals.
use antminer_chip_tuner.Prelude.{
  ℕ, ◌+◌, ◌*◌, ◌/◌, ◌≡◌, refl, false, none, some, List, [], ◌∷◌, ◌++◌, arith,
}
use antminer_chip_tuner.Prelude.Int.{ℤ, pos, negsuc, ◌+ℤ◌, ◌-ℤ◌, ◌*ℤ◌, ◌/ℤ◌, ltb_ℤ, leb_ℤ}
use antminer_chip_tuner.Prelude.Membership.{In, here}
use antminer_chip_tuner.Floats.{Floats}
use antminer_chip_tuner.Profit.{Reading, ScoreContext, score_cell}
use antminer_chip_tuner.Profit.Context.{efficiency_context}
use antminer_chip_tuner.Explore.Surface.{
  Key, Surface, by_key, scored, insert_by_score, sort_by_score, coarse_cells_ranked, without_keys,
  has_key, top_fine_anchors, in_flight_anchors,
}
use antminer_chip_tuner.Explore.Coarse.{sweep, sweep_row}
use antminer_chip_tuner.Explore.Fine.{
  insert_desc, sort_desc, last_of, spacing_of, positions, frac_below, count_below, spread,
  fine_axis_offsets, v_fine, f_fine,
}
use antminer_chip_tuner.Explore.Fine.Offsets.{AddsNought, In-fine_grid}
use antminer_chip_tuner.Explore.Fine.Search.{
  convert, is_degenerate, visit, find_next_fine_to_measure,
}
use antminer_chip_tuner.Explore.Fine.Search.Found.{IsFineWork, find_next_fine-IsFineWork}
use antminer_chip_tuner.Explore.Run.{ExploreConfig, explore}
use antminer_chip_tuner.Explore.Run.Grid.{grid_keys, In-grid_keys}
use antminer_chip_tuner.Explore.Run.Potential.{fine_cells_of}
use antminer_chip_tuner.Explore.Run.Settles.{IsCovered, explore_settles}
use antminer_chip_tuner.Explore.Reset.{GridFields, reset_fine_grid_fields}
use antminer_chip_tuner.Explore.Reset.Grown.{IsGrown}
use antminer_chip_tuner.Explore.Reset.Explored.{reset_fine-explore, coarse_log}

abbrev pub milli_floats : Floats
milli_floats = record {
  Num = ℤ;
  of_ℕ = λ n. pos (1000 * n);
  neg = λ a. pos 0 -ℤ a;
  add = λ a b. a +ℤ b;
  sub = λ a b. a -ℤ b;
  mul = λ a b. a *ℤ b /ℤ pos 1000;
  div = λ a b. a *ℤ pos 1000 /ℤ b;
  ltb = ltb_ℤ;
  leb = leb_ℤ;
}

-- To the nearest integer, for a number that is not negative.
abbrev pub round : ℤ → ℤ
round (pos n) = pos ((n + 500) / 1000)
round (negsuc n) = pos 0

adds_nought : AddsNought milli_floats
adds_nought = λ x s. ground arith

abbrev context : ScoreContext milli_floats
context = efficiency_context milli_floats

abbrev pub reading : Reading milli_floats
reading = record {
  efficiency_jth = some (pos 30000);
  hashrate_ths = some (pos 100000);
  power_w = some (pos 3000000);
  thermal_failed = false;
}

abbrev surface : Surface milli_floats
surface =
    record { key = (12000, 500000); fine = false; coarse_anchor = none; reading = reading } ∷ []

abbrev config : ExploreConfig milli_floats
config = record {
  coarse = record {
    v_grid = 12000 ∷ 13000 ∷ [];
    f_grid = 500000 ∷ 512500 ∷ [];
    ctx = context;
    top_k_rays = 2;
    trend_confirm = 2;
  };
  fine = record {
    v_grid = 12000 ∷ 13000 ∷ [];
    f_grid = 500000 ∷ 512500 ∷ [];
    ctx = context;
    fine_count = 3;
    fine_top_k = 1;
    f_min = pos 500000;
    f_max = pos 512500;
    psu_max_mv = 15000;
  };
}

In-fine_grid_example :
    In 12000 (v_fine milli_floats round config.fine (12000, 160 * 3125))
    × In (160 * 3125) (f_fine milli_floats round config.fine (12000, 160 * 3125))
In-fine_grid_example = In-fine_grid milli_floats round adds_nought config.fine 12000 160 refl refl

fine_work :
    (find_next_fine_to_measure milli_floats round config.fine surface).1
    ≡ some ((12333, 503125), (12000, 500000))
unfolding find_next_fine_to_measure visit is_degenerate v_fine f_fine fine_axis_offsets spread
    count_below frac_below positions spacing_of last_of sort_desc insert_desc convert by_key sweep
    sweep_row top_fine_anchors in_flight_anchors coarse_cells_ranked sort_by_score insert_by_score
    scored score_cell without_keys has_key
fine_work = refl

find_next_fine-IsFineWork_example :
    IsFineWork milli_floats round config.fine surface
      (top_fine_anchors milli_floats context 1 surface)
      ((12333, 503125), (12000, 500000))
find_next_fine-IsFineWork_example =
    find_next_fine-IsFineWork milli_floats round config.fine surface
      ((12333, 503125), (12000, 500000)) fine_work

abbrev contexts : ℕ → ScoreContext milli_floats
contexts n = context

abbrev measure : ℕ → Key → Reading milli_floats
measure n k = reading

abbrev anchors : List Key
anchors = grid_keys config.coarse.v_grid config.coarse.f_grid

covered : IsCovered milli_floats round config contexts measure anchors surface
covered = record {
  grid_in = λ v f i j. In-grid_keys v f config.coarse.v_grid config.coarse.f_grid i j;
  cells_in = (
    record {
      coarse_in =
          λ e. In-grid_keys 12000 500000 config.coarse.v_grid config.coarse.f_grid here here;
      anchor_in = λ k e. absurd (cc);
    },
    tt,
  );
}

-- Measurements that are enough.
abbrev enough : ℕ
enough = 2 * 2 + fine_cells_of milli_floats round config.fine anchors + 1

settled :
    (t : Surface milli_floats) × (explore milli_floats round config contexts measure enough surface
      ≡ some t)
settled = explore_settles milli_floats round config contexts measure anchors surface covered

explore_settles_example :
    (t : Surface milli_floats) × (explore milli_floats round config contexts measure enough surface
      ≡ some t)
explore_settles_example =
    explore_settles milli_floats round config contexts measure anchors surface covered

abbrev fields : GridFields milli_floats (Unit {0})
fields = record {
  vf_surface = surface;
  vf_top_k_voltages = [];
  vf_planned_grid = [];
  vf_skipped = tt ∷ [];
  vf_fine_anchor = some tt;
  vf_coarse_rays_checked = [];
  current_vf_point = none;
  remeasure_queue = [];
}

grown : IsGrown milli_floats surface
grown = record {
  bare = (λ e. refl, tt);
  anchored = (record { coarse_in = λ e. here; anchor_in = λ k e. absurd (cc) }, tt);
}

reset_fine-explore_example :
    (reset_fine_grid_fields milli_floats (record fields { vf_surface = settled.0 })).vf_surface
    ≡ (reset_fine_grid_fields milli_floats fields).vf_surface
      ++ coarse_log milli_floats round config contexts measure enough surface
reset_fine-explore_example =
    reset_fine-explore milli_floats round config contexts measure fields enough settled.0 grown
      settled.1
