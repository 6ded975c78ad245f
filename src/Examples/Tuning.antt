-- ===== src/Examples/Tuning.antt =====
-- A board of three chips, the last one parked, in the rounds of the chip tune.
use antminer_chip_tuner.Prelude.{
  ℕ, zero, suc, ◌+◌, ◌≤◌, ◌≡◌, refl, Bool, true, false, Option, none, some, List, [], ◌∷◌, arith,
  All,
}
use antminer_chip_tuner.Floats.{int_floats}
use antminer_chip_tuner.ChipTune.Chips.{
  Chips, Limits, TuneConfig, limits, snap, is_parked, cap_of, alive_freqs, spread_of, list_max,
  list_min, candidate_spread,
}
use antminer_chip_tuner.ChipTune.Profiling.{
  Verdict, stable, unstable, Tally, visit_board, visit_from, visit_chip, act, try_up, try_down,
  count_move, is_capped, lower_cap, verdicts, classify,
}
use antminer_chip_tuner.ChipTune.Profiling.Boards.{Runs, IsBounded, IsTogether}
use antminer_chip_tuner.ChipTune.Profiling.Safety.{visit_board-IsBounded, visit_board-within_spread}
use antminer_chip_tuner.ChipTune.Profiling.Frozen.{IsTorn, visit_board_torn}
use antminer_chip_tuner.ChipTune.Polish.{polish_board}
use antminer_chip_tuner.ChipTune.Polish.Rounds.{PolishConfig, Phase3b}
use antminer_chip_tuner.ChipTune.Polish.Safety.{IsLowered, polish_board_safe}
use antminer_chip_tuner.ChipTune.Thermal.{Emergency, handle_thermal}
use antminer_chip_tuner.ChipTune.Thermal.Bounds.{IsWithin, handle_thermal-IsWithin}
use antminer_chip_tuner.ChipTune.Rounds.{
  RoundConfig, Phase3, scores, Pass, profile, pass, heated, handle_all, after_sample, visit_boards,
  board_verdicts, settle, finish,
}
use antminer_chip_tuner.ChipTune.Rounds.Ending.{profile_ends, Outcome, rounds_given}
use antminer_chip_tuner.ChipTune.Rounds.Still.{profile_still, IsQuiet, moves}
use antminer_chip_tuner.Prelude.Int.{pos}

abbrev config : TuneConfig
config = record {
  f_min = 400000;
  f_max = 600000;
  spread = 50000;
  tune_step = 6250;
  polish_step = 3125;
}

abbrev board : Chips
board = record {
  freqs = 500000 ∷ 506250 ∷ 50000 ∷ [];
  chip_max = some 512500 ∷ none ∷ none ∷ [];
  parked = 2 ∷ [];
}

abbrev lim : Limits
lim = limits config config.tune_step

at_most : (i f : ℕ) → Runs board i f → (400000 ≤ f) × (f ≤ 600000)
unfolding is_parked
at_most zero f r = ground (arith, r.at)
at_most (suc zero) f r = ground (arith, r.at)
at_most (suc (suc zero)) f r = absurd (ground (arith, r.alive))
at_most (suc (suc (suc i))) f r = absurd (ground (arith, r.at))

below_caps : (i f m : ℕ) → Runs board i f → cap_of board i ≡ some m → f ≤ m
unfolding cap_of
below_caps zero f m r q = ground (arith, r.at)
below_caps (suc zero) f m r q = absurd (ground arith)
below_caps (suc (suc zero)) f m r q = absurd (ground arith)
below_caps (suc (suc (suc i))) f m r q = absurd (ground arith)

board-IsBounded : (step : ℕ) → IsBounded (limits config step).f_min_eff (limits config step) board
unfolding limits snap
board-IsBounded step = record { shape = refl; clamped = at_most; bracketed = below_caps }

board-IsTogether : (step : ℕ) → IsTogether (limits config step) board
unfolding limits spread_of alive_freqs list_max list_min is_parked
board-IsTogether step = record { together = ground arith }

abbrev verdicts_now : ℕ → Option Verdict
verdicts_now zero = some stable
verdicts_now (suc i) = some unstable

abbrev tally : Tally
tally = record { chips = board; moved = 0; alive = 0 }

visit_board-IsBounded_example :
    IsBounded lim.f_min_eff lim (visit_board lim verdicts_now tally).chips
visit_board-IsBounded_example =
    visit_board-IsBounded lim.f_min_eff lim verdicts_now tally (ground arith)
      (board-IsBounded config.tune_step)

-- The first chip goes up a step, the second goes down one.
first-Runs : Runs (visit_board lim verdicts_now tally).chips 0 506250
unfolding visit_board visit_from visit_chip act try_up try_down count_move is_parked is_capped
    lower_cap cap_of candidate_spread spread_of alive_freqs list_max list_min snap limits
first-Runs = record { alive = refl; at = refl }

second-Runs : Runs (visit_board lim verdicts_now tally).chips 1 500000
unfolding visit_board visit_from visit_chip act try_up try_down count_move is_parked is_capped
    lower_cap cap_of candidate_spread spread_of alive_freqs list_max list_min snap limits
second-Runs = record { alive = refl; at = refl }

visit_board-within_spread_example : 506250 ≤ 500000 + lim.spread
visit_board-within_spread_example =
    visit_board-within_spread lim verdicts_now tally 0 1 506250 500000
      (board-IsTogether config.tune_step) first-Runs second-Runs

-- One chip throttled far below the other.
abbrev torn_board : Chips
torn_board = record { freqs = 500000 ∷ 400000 ∷ []; chip_max = none ∷ none ∷ []; parked = [] }

torn : IsTorn lim torn_board 0 1 500000 400000
unfolding limits snap is_parked
torn = record {
  top = record { alive = refl; at = refl };
  bottom = record { alive = refl; at = refl };
  apart = ground arith;
}

visit_board_torn_example :
    (visit_board lim verdicts_now (record { chips = torn_board; moved = 0; alive = 0 })).chips.freqs
    ≡ 500000 ∷ 400000 ∷ []
visit_board_torn_example =
    visit_board_torn lim 0 1 500000 400000 verdicts_now
      (record { chips = torn_board; moved = 0; alive = 0 }) torn

abbrev low_now : ℕ → Option Bool
low_now i = some true

polish_board_safe_example :
    let polished = (polish_board (limits config config.polish_step) low_now board).chips in
    IsLowered board polished
    × IsBounded
        (limits config config.polish_step).f_min_eff
        (limits config config.polish_step)
        polished
    × IsTogether (limits config config.polish_step) polished
polish_board_safe_example =
    polish_board_safe config low_now board (board-IsBounded config.polish_step)
      (board-IsTogether config.polish_step)

wide : (i f : ℕ) → Runs board i f → (50000 ≤ f) × (f ≤ 600000)
wide i f r = ground (arith, at_most i f r)

within : All (IsWithin lim) (board ∷ [])
unfolding limits snap
within = (record { shape = refl; clamped = λ i f r. wide i f r; bracketed = below_caps }, tt)

abbrev heat : Emergency
heat = record { boards = 0 ∷ []; chips = (0, 1) ∷ (3, 0) ∷ [] }

handle_thermal-IsWithin_example : All (IsWithin lim) (handle_thermal 12500 heat (board ∷ [])).0
handle_thermal-IsWithin_example = handle_thermal-IsWithin lim 12500 heat (board ∷ []) within

abbrev round_config : RoundConfig int_floats
round_config = record {
  lim = lim;
  emergency_step = 12500;
  up_tol = pos 1;
  down_tol = pos 2;
  streak_target = 1;
  max_rounds = 2;
}

abbrev baseline : List (List int_floats.Num)
baseline = (pos 95 ∷ pos 95 ∷ pos 95 ∷ []) ∷ []

abbrev healthy : Pass int_floats
healthy = record {
  heat = heat ∷ [];
  stabilized = true;
  sample = scores ((pos 97 ∷ pos 80 ∷ pos 0 ∷ []) ∷ []);
  sampled = true;
}

abbrev begun : Phase3
begun = record {
  boards = board ∷ [];
  profiling_round = 0;
  stillness_streak = 0;
  running = true;
  phase3_active = true;
}

abbrev passes : List (Pass int_floats)
passes = healthy ∷ healthy ∷ []

profile_ends_example :
    Outcome int_floats round_config baseline
      (0 + rounds_given int_floats passes)
      (profile int_floats round_config baseline passes begun)
profile_ends_example = profile_ends int_floats round_config baseline passes begun

abbrev quiet : Pass int_floats
quiet = record {
  heat = [];
  stabilized = true;
  sample = scores ((pos 93 ∷ pos 93 ∷ pos 0 ∷ []) ∷ []);
  sampled = true;
}

abbrev still : Phase3
still = record {
  boards = board ∷ [];
  profiling_round = 1;
  stillness_streak = 1;
  running = true;
  phase3_active = false;
}

quiet_round : profile int_floats round_config baseline (quiet ∷ []) begun ≡ some still
unfolding profile pass heated handle_all after_sample visit_boards visit_board visit_from visit_chip
    is_parked board_verdicts verdicts classify act count_move settle finish
quiet_round = refl

profile_still_example : IsQuiet 1 (moves int_floats round_config baseline (quiet ∷ []) begun [])
profile_still_example =
    profile_still int_floats round_config baseline (quiet ∷ []) begun [] tt quiet_round refl
      (ground arith)

abbrev polish_config : PolishConfig int_floats
polish_config = record {
  lim = limits config config.polish_step;
  emergency_step = 12500;
  down_tol = pos 2;
  rounds = 2;
}

abbrev tuned : Phase3b
tuned = record { boards = board ∷ []; polish_round = 0; polish_active = false; running = true }
