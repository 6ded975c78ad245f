-- ===== src/Examples/Axes.antt =====
-- A remeasurement that fails, the axes of a grid, and a power mode, over fixed-point numbers.
use antminer_chip_tuner.Profit.{ScoreContext, score_cell}
use antminer_chip_tuner.Profit.Context.{efficiency_context}
use antminer_chip_tuner.Sweep.{
  SweepResult, Engine, any_board, first_at, matches_at, lowest, select_entry,
  select_voltage_profile, refresh_sweep_reference, re_rank_active_voltage,
}
use antminer_chip_tuner.Sweep.Rank.{re_rank_active_voltage-RunsAt, RunsAt}
use antminer_chip_tuner.Sweep.Lowest.{NoneLower}
use antminer_chip_tuner.Prelude.Membership.{In}
use antminer_chip_tuner.Sweep.Stable.{refresh-select_voltage_profile}
use antminer_chip_tuner.Examples.Fine.{milli_floats, round, reading}
use antminer_chip_tuner.Prelude.{
  All, ap, ◌⊎◌, ℕ, List, true, Bool, ◌≡◌, refl, false, none, some, [], ◌∷◌, arith,
}
use antminer_chip_tuner.Prelude.Int.{pos, negsuc, ltb_ℤ, leb_ℤ}
use antminer_chip_tuner.Floats.{IsOrdered}
use antminer_chip_tuner.Explore.Surface.{Cell, Key}
use antminer_chip_tuner.Prelude.Dict.{keep}
use antminer_chip_tuner.Whatsminer.{
  Modes, picked, freq_to_mode_and_percent, pick_mode, pick_first, baseline_freq, clamped_percent,
  sort_modes, insert_mode,
}
use antminer_chip_tuner.Whatsminer.Percent.{IsUsable, freq_to_mode_and_percent-IsUsable}
use antminer_chip_tuner.Explore.Axes.{
  AxesConfig, vf_grid_axes, build_vf_grid_voltages, build_vf_grid_freqs, v_top, v_bottom, descend,
  sort_asc, insert_asc,
}
use antminer_chip_tuner.Explore.Axes.Ascending.{IsAscending}
use antminer_chip_tuner.Explore.Axes.Spans.{
  TakesNought, GivesBack, KeepsToStock, IsSnapped, vf_grid_axes-IsSnapped,
}
use antminer_chip_tuner.Explore.Remeasure.{RemeasureState, Attempt, failed}

abbrev fine_one : Cell milli_floats
fine_one = record {
  key = (12333, 503125);
  fine = true;
  coarse_anchor = some (12000, 500000);
  reading = reading;
}

-- A fine cell and its anchor; the fine cell is queued.
abbrev queued : RemeasureState milli_floats
queued = record {
  vf_surface =
      record {
        key = (12000, 500000);
        fine = true;
        coarse_anchor = some (12000, 500000);
        reading = reading;
      }
      ∷ fine_one
      ∷ [];
  vf_skipped = [];
  remeasure_queue = (12333, 503125) ∷ (12000, 500000) ∷ [];
}

abbrev attempt : Key → Bool → Attempt milli_floats
attempt k fine = failed

abbrev axes_config : AxesConfig milli_floats
axes_config = record {
  v_count = 3;
  f_count = 5;
  over_stock = pos 300;
  stock_voltage = some 13000;
  psu_max_mv = 15000;
  start_voltage_mv = 12000;
  f_min = pos 500000;
  f_max = pos 512500;
}

takes_nought : TakesNought milli_floats
takes_nought = λ x s. ground arith

gives_back : GivesBack milli_floats round
gives_back = λ n. ap pos (omega arith)

vf_grid_axes-IsSnapped_example :
    In (pos 13300) (vf_grid_axes milli_floats round axes_config).0
    × (leb_ℤ (pos 13300) (pos 15000) ≡ true)
    × KeepsToStock milli_floats round axes_config
    × (ltb_ℤ (v_bottom milli_floats axes_config) (pos 13300) ≡ true)
    × ((v_bottom milli_floats axes_config ≡ pos 12000)
        ⊎ (leb_ℤ (pos 11877) (v_bottom milli_floats axes_config) ≡ true))
    × IsAscending (vf_grid_axes milli_floats round axes_config).0
    × IsAscending (vf_grid_axes milli_floats round axes_config).1
    × All IsSnapped (vf_grid_axes milli_floats round axes_config).1
vf_grid_axes-IsSnapped_example =
    vf_grid_axes-IsSnapped milli_floats round axes_config 13300 gives_back takes_nought
      (unfold v_top in refl) (omega arith)

-- Five frequencies in steps of 3.125 MHz.
axes_built : vf_grid_axes milli_floats round axes_config ≡ (
  pos 12000 ∷ pos 12650 ∷ pos 13300 ∷ [],
  pos 500000 ∷ pos 503125 ∷ pos 506250 ∷ pos 509375 ∷ pos 512500 ∷ [],
)
unfolding vf_grid_axes build_vf_grid_voltages build_vf_grid_freqs v_top v_bottom descend sort_asc
    insert_asc
axes_built = refl

-- Below the stock voltage.
axes_below :
    (vf_grid_axes milli_floats round (record axes_config { over_stock = negsuc 399 })).0
    ≡ pos 12000 ∷ pos 12300 ∷ pos 12600 ∷ []
unfolding vf_grid_axes build_vf_grid_voltages build_vf_grid_freqs v_top v_bottom descend sort_asc
    insert_asc
axes_below = refl

abbrev modes : Modes milli_floats
modes =
    ("low", record { supported = true; target_freq = pos 400000 })
    ∷ ("normal", record { supported = true; target_freq = pos 500000 })
    ∷ ("high", record { supported = false; target_freq = pos 560000 })
    ∷ []

picked_normal :
    freq_to_mode_and_percent milli_floats (pos 550000) modes "current_mode"
    ≡ picked "normal" (pos 10000)
unfolding freq_to_mode_and_percent pick_mode pick_first baseline_freq clamped_percent sort_modes
    insert_mode keep
picked_normal = refl

pub milli_floats-IsOrdered : IsOrdered milli_floats
milli_floats-IsOrdered = record {
  irrefl = λ a. ground arith;
  trans = λ a b c h k. ground arith;
  weak = λ a b c h k. ground arith;
  neg_ltb = λ a b. ground arith;
  leb_not = λ a b. ground arith;
}

freq_to_mode_and_percent-IsUsable_example : IsUsable milli_floats modes "normal" (pos 10000)
freq_to_mode_and_percent-IsUsable_example =
    freq_to_mode_and_percent-IsUsable milli_floats (pos 550000) modes "current_mode" "normal"
      (pos 10000) milli_floats-IsOrdered refl picked_normal

abbrev context : ScoreContext milli_floats
context = efficiency_context milli_floats

-- A tuned voltage with an efficiency in J/TH.
abbrev tuned : ℕ → ℕ → SweepResult milli_floats
tuned v jth = record {
  voltage_mv = some v;
  reading = record reading { efficiency_jth = some (pos jth); hashrate_ths = some (pos jth) };
  stable_freq_arrays = some ((500000 ∷ []) ∷ []);
  baseline_scores = none;
}

abbrev sweep : List (SweepResult milli_floats) → Engine milli_floats
sweep rs = record {
  voltage_results = rs;
  active_sweep_voltage_mv = none;
  sweep_voltage_mv = 0;
  sweep_hashrate_ths = pos 0;
  sweep_freq_arrays = [];
  stable_freq_arrays = [];
  baseline_scores = [];
  voltage_adjustment_mv = 50;
  min_voltage_mv = 0;
  empty_board_arrays = [] ∷ [];
}

abbrev one_each : Engine milli_floats
one_each = sweep (tuned 12000 30000 ∷ tuned 12500 29000 ∷ [])

abbrev selected : Engine milli_floats
selected = select_entry milli_floats context 12000 (tuned 12000 30000) one_each

refresh-select_voltage_profile_example :
    refresh_sweep_reference milli_floats context selected ≡ selected
refresh-select_voltage_profile_example =
    refresh-select_voltage_profile milli_floats context 12000 one_each selected (tuned 12000 30000)
      (unfold matches_at in refl)
      (unfold select_voltage_profile matches_at lowest score_cell in refl)

-- Two entries at one voltage: the better one is selected, and a refresh goes to the first.
abbrev twice : Engine milli_floats
twice = sweep (tuned 12000 30000 ∷ tuned 12000 29000 ∷ [])

twice_selected :
    select_voltage_profile milli_floats context 12000 twice
    ≡ some (select_entry milli_floats context 12000 (tuned 12000 29000) twice)
unfolding select_voltage_profile matches_at lowest score_cell
twice_selected = refl

twice_refreshed :
    (refresh_sweep_reference milli_floats context
      (select_entry milli_floats context 12000 (tuned 12000 29000) twice)).sweep_hashrate_ths
    ≡ pos 30000
unfolding refresh_sweep_reference first_at lowest score_cell any_board
twice_refreshed = refl

re_rank_active_voltage-RunsAt_example :
    (w : SweepResult milli_floats) × In w one_each.voltage_results
    × NoneLower milli_floats context w one_each.voltage_results
    × RunsAt milli_floats context w.voltage_mv one_each
        (re_rank_active_voltage milli_floats context one_each)
    × (re_rank_active_voltage milli_floats context
          (re_rank_active_voltage milli_floats context one_each)
        ≡ re_rank_active_voltage milli_floats context one_each)
re_rank_active_voltage-RunsAt_example =
    re_rank_active_voltage-RunsAt milli_floats context one_each (tuned 12000 30000)
      (tuned 12500 29000 ∷ []) milli_floats-IsOrdered refl

re_ranked :
    (re_rank_active_voltage milli_floats context one_each).active_sweep_voltage_mv ≡ some 12500
unfolding re_rank_active_voltage select_voltage_profile matches_at lowest score_cell
re_ranked = refl

-- Two entries without a score: the first one takes over all the same.
abbrev unscored : ℕ → SweepResult milli_floats
unscored v = record (tuned v 0) {
  reading = record reading { efficiency_jth = none; hashrate_ths = none };
}

abbrev without_scores : Engine milli_floats
without_scores = record (sweep (unscored 12000 ∷ unscored 12500 ∷ [])) {
  active_sweep_voltage_mv = some 12500;
}

unscored_re_ranked :
    (re_rank_active_voltage milli_floats context without_scores).active_sweep_voltage_mv
    ≡ some 12000
unfolding re_rank_active_voltage select_voltage_profile matches_at lowest score_cell
unscored_re_ranked = refl
