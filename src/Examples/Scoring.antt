-- ===== src/Examples/Scoring.antt =====
-- Two cells scored by profit, and a voltage that may be written, over the integers.
use antminer_chip_tuner.Prelude.{
  All, String, Option, ◌+◌, length, ℕ, ◌≡◌, refl, true, false, none, some, List, [], ◌∷◌, map, not,
}
use mathlib.Core.List.{Perm}
use antminer_chip_tuner.Prelude.Int.{ℤ, pos}
use antminer_chip_tuner.Prelude.Dict.{Dict}
use antminer_chip_tuner.Prelude.Membership.{In, here, there}
use antminer_chip_tuner.Floats.{int_floats, int_floats-IsOrdered}
use antminer_chip_tuner.Profit.{
  Coin, Reading, ScoreContext, score_cell, negated, compute_profit_usd_per_day, profit_usd_day,
}
use antminer_chip_tuner.Profit.Context.{ScoreConfig}
use antminer_chip_tuner.Profit.Facts.{profit_of, score_cell_profit}
use antminer_chip_tuner.Explore.Surface.{Cell, Surface, scored, coarse_cells_ranked}
use antminer_chip_tuner.Explore.Surface.Ranking.{
  IsSorted, IsCoarseScore, coarse_cells_ranked-IsSorted,
}
use antminer_chip_tuner.Config.{Value}
use antminer_chip_tuner.Profit.AutoApply.{
  Call, Reply, refused, applied, Miner, Preview, miners, apply_profit_recompute,
}
use antminer_chip_tuner.Profit.AutoApply.Counted.{apply_profit_recompute_counts}
use antminer_chip_tuner.Voltage.{
  millivolts, Topology, is_sane, bounds_of, check_target, check_bounds,
  require_verified_voltage_target, require_topology, require_voltage_mutation_allowed,
}
use antminer_chip_tuner.Voltage.Safety.{Covers, voltage_mutation_covered}

abbrev coin : Coin int_floats
coin = record {
  price_usd = some (pos 2);
  reward_block = some (pos 3);
  network_hashrate = some (pos 86400);
  block_time_s = some (pos 600);
}

abbrev coins : Dict (Coin int_floats)
coins = ("BTC", coin) ∷ []

abbrev context : ScoreContext int_floats
context = record {
  target_mode = "profitability";
  electric_rate = pos 1;
  coin_data = some coin;
  income_modifier_pct = pos 0;
}

abbrev reading : ℕ → ℕ → Reading int_floats
reading ths watts = record {
  efficiency_jth = some (pos 20);
  hashrate_ths = some (pos ths);
  power_w = some (pos watts);
  thermal_failed = false;
}

abbrev ScoreHere : (ths watts : ℕ) → Type 0
ScoreHere ths watts = (x : ℤ) × (score_cell int_floats (some (reading ths watts)) context ≡ some x)

strong : ScoreHere 100 3000
unfolding score_cell compute_profit_usd_per_day negated profit_usd_day
strong = (_, refl)

weak : ScoreHere 90 3000
unfolding score_cell compute_profit_usd_per_day negated profit_usd_day
weak = (_, refl)

score_cell_profit_example :
    (p : ℤ) × (q : ℤ) × (profit_of int_floats (reading 100 3000) context ≡ some p)
    × (profit_of int_floats (reading 90 3000) context ≡ some q)
    × (int_floats.ltb strong.0 weak.0 ≡ int_floats.ltb q p)
score_cell_profit_example =
    score_cell_profit int_floats (reading 100 3000) (reading 90 3000) context strong.0 weak.0
      int_floats-IsOrdered refl strong.1 weak.1

abbrev settings : ScoreConfig int_floats
settings = record {
  target_mode = some "profitability";
  electric_rate = some (pos 1);
  income_modifier = none;
  coin_id = "BTC";
}

abbrev cell : ℕ → ℕ → Cell int_floats
cell v ths = record {
  key = (v, 500000);
  fine = false;
  coarse_anchor = none;
  reading = reading ths 3000;
}

abbrev surface : Surface int_floats
surface = cell 12000 90 ∷ cell 12500 100 ∷ []

coarse_cells_ranked-IsSorted_example :
    (ps : List (ℤ × Cell int_floats)) × (coarse_cells_ranked int_floats context surface
      ≡ map (λ (p : ℤ × Cell int_floats). p.1) ps)
    × IsSorted int_floats ps
    × All (IsCoarseScore int_floats context) ps
    × In (strong.0, cell 12500 100) ps
    × Perm ps (scored int_floats (λ e. not e.fine) context surface)
coarse_cells_ranked-IsSorted_example =
    coarse_cells_ranked-IsSorted int_floats context surface (cell 12500 100) strong.0
      int_floats-IsOrdered (there here) refl strong.1

abbrev topology : Topology int_floats
topology = record {
  psu_min_mv = millivolts (pos 11900);
  psu_max_mv = millivolts (pos 15300);
  psu_bounds_verified = true;
}

voltage_allowed :
    require_voltage_mutation_allowed int_floats "voltage_chip_tune"
      (some topology)
      (some (millivolts (pos 13200)))
    ≡ none
unfolding require_voltage_mutation_allowed require_topology require_verified_voltage_target
    check_bounds bounds_of is_sane check_target
voltage_allowed = refl

voltage_mutation_covered_example :
    (top : Topology int_floats) × (some topology ≡ some top) × Covers int_floats top (pos 13200)
voltage_mutation_covered_example =
    voltage_mutation_covered int_floats "voltage_chip_tune" (some topology) (pos 13200) refl
      voltage_allowed

abbrev int_of : Option Value → Option ℕ
int_of v = some 12500

abbrev int_error : Option Value → String
int_error v = "invalid literal"

abbrev refuse : Call → Reply
refuse c = refused "engine is not idle"

abbrev accept : Call → Reply
accept c = applied

abbrev two_miners : List Miner
two_miners =
    record {
      ip = some "10.0.0.1";
      proposed = some (record { action = "retune"; voltage_mv = none; freq_mhz = none });
    }
    ∷ record { ip = some "10.0.0.2"; proposed = none }
    ∷ []

abbrev preview : List String → Preview
preview ips = miners two_miners

apply_profit_recompute_counts_example :
    let r = apply_profit_recompute int_of int_error refuse preview ("10.0.0.1" ∷ "10.0.0.2" ∷ []) in
    (r.applied + r.skipped + length r.failures ≡ 2)
    × (r.calls
        ≡ (apply_profit_recompute int_of int_error accept preview
            ("10.0.0.1" ∷ "10.0.0.2" ∷ [])).calls)
apply_profit_recompute_counts_example =
    apply_profit_recompute_counts int_of int_error refuse accept preview "10.0.0.1"
      ("10.0.0.2" ∷ []) two_miners refl
