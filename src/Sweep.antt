-- ===== src/Sweep.antt =====
-- refresh_sweep_reference and select_voltage_profile of tuner_app/tuning_engine/retune.py, and
-- re_rank_active_voltage of tuner_app/tuning_engine/monitor.py: which tuned voltage the engine runs
-- at. Not modelled: the commands to the miner, the saved profile and the sync that follow a
-- selection.
pub mod Lowest
pub mod Rank
pub mod Stable
use antminer_chip_tuner.Floats.{Floats}
use antminer_chip_tuner.Prelude.{
  ℕ, Bool, true, false, Option, none, some, List, [], ◌∷◌, ◌==◌, ◌||◌, if◌then◌else◌,
}
use antminer_chip_tuner.Profit.{Reading, ScoreContext, score_cell}

-- An array of frequencies for each board.
abbrev pub BoardArrays : Type 0
BoardArrays = List (List ℕ)

-- any(arrays): a board has an entry.
unfoldable pub any_board : BoardArrays → Bool
any_board [] = false
any_board ([] ∷ boards) = any_board boards
any_board ((f ∷ fs) ∷ boards) = true

-- arrays or default, and `arrays and any(arrays)`
abbrev pub arrays_or : BoardArrays → Option BoardArrays → BoardArrays
arrays_or default none = default
arrays_or default (some []) = default
arrays_or default (some (b ∷ bs)) = b ∷ bs

abbrev pub has_board : Option BoardArrays → Bool
has_board none = false
has_board (some boards) = any_board boards

abbrev pub voltage_or_zero : Option ℕ → ℕ
voltage_or_zero none = 0
voltage_or_zero (some v) = v

-- r.get("voltage_mv") == target
abbrev pub has_voltage : ℕ → Option ℕ → Bool
has_voltage target none = false
has_voltage target (some v) = v == target

module _ (fl : Floats) where
  -- An entry of voltage_results.
  pub record SweepResult : Type 0 where
    pub voltage_mv : Option ℕ
    pub reading : Reading fl
    pub stable_freq_arrays : Option BoardArrays
    pub baseline_scores : Option (List (List fl.Num))

  pub record Engine : Type 0 where
    pub voltage_results : List SweepResult
    pub active_sweep_voltage_mv : Option ℕ
    pub sweep_voltage_mv : ℕ
    pub sweep_hashrate_ths : fl.Num
    pub sweep_freq_arrays : BoardArrays
    pub stable_freq_arrays : BoardArrays
    pub baseline_scores : List (List fl.Num)
    pub voltage_adjustment_mv : ℕ
    pub min_voltage_mv : ℕ
    pub empty_board_arrays : BoardArrays  -- _empty_board_arrays

  -- score_key: an entry with no score counts as infinite.
  abbrev pub is_lower : Option fl.Num → Option fl.Num → Bool
  is_lower none t = false
  is_lower (some x) none = true
  is_lower (some x) (some y) = fl.ltb x y

  module _ (ctx : ScoreContext fl) where
    abbrev pub score_of : SweepResult → Option fl.Num
    score_of r = score_cell fl (some r.reading) ctx

    -- min(r ∷ rs, key=score_key): the first of the lowest
    unfoldable pub lowest : SweepResult → List SweepResult → SweepResult
    lowest best [] = best
    lowest best (r ∷ rs) = lowest (if is_lower (score_of r) (score_of best) then r else best) rs

    -- The first entry of a voltage, and all of them.
    unfoldable pub first_at : ℕ → List SweepResult → Option SweepResult
    first_at v [] = none
    first_at v (r ∷ rs) =
        let rest = first_at v rs in if has_voltage v r.voltage_mv then some r else rest

    unfoldable pub matches_at : ℕ → List SweepResult → List SweepResult
    matches_at v [] = []
    matches_at v (r ∷ rs) =
        let rest = matches_at v rs in if has_voltage v r.voltage_mv then r ∷ rest else rest

    -- entry.get("hashrate_ths", 0.0) or 0.0
    abbrev pub hashrate_or_zero : Option fl.Num → fl.Num
    hashrate_or_zero none = fl.of_ℕ 0
    hashrate_or_zero (some h) = h

    -- The frequencies of the entry, else the current ones, else those that were there.
    abbrev pub refreshed_freqs : Option BoardArrays → Engine → BoardArrays
    refreshed_freqs freqs e =
        if has_board freqs
        then arrays_or [] freqs
        else if any_board e.stable_freq_arrays
        then e.stable_freq_arrays
        else e.sweep_freq_arrays

    abbrev pub refer_to : SweepResult → Option ℕ → Engine → Engine
    refer_to r active e = record e {
      active_sweep_voltage_mv = active;
      sweep_voltage_mv = voltage_or_zero r.voltage_mv;
      sweep_hashrate_ths = hashrate_or_zero r.reading.hashrate_ths;
      sweep_freq_arrays = refreshed_freqs r.stable_freq_arrays e;
    }

    -- Without an entry of the active voltage, the best one takes over.
    abbrev pub refer_found : SweepResult → Option SweepResult → Engine → Engine
    refer_found best none e = refer_to best best.voltage_mv e
    refer_found best (some r) e = refer_to r e.active_sweep_voltage_mv e

    abbrev pub entry_at : Option ℕ → List SweepResult → Option SweepResult
    entry_at none rs = none
    entry_at (some v) rs = first_at v rs

    abbrev pub refresh_from : List SweepResult → Engine → Engine
    refresh_from [] e = e
    refresh_from (r ∷ rs) e =
        refer_found (lowest r rs) (entry_at e.active_sweep_voltage_mv (r ∷ rs)) e

    unfoldable pub refresh_sweep_reference : Engine → Engine
    refresh_sweep_reference e = refresh_from e.voltage_results e

    -- The scores of the entry, if there are any.
    abbrev pub scores_or : List (List fl.Num) → Option (List (List fl.Num)) → List (List fl.Num)
    scores_or old none = old
    scores_or old (some []) = old
    scores_or old (some (b ∷ bs)) = b ∷ bs

    abbrev pub select_entry : ℕ → SweepResult → Engine → Engine
    select_entry v r e = record e {
      active_sweep_voltage_mv = some v;
      sweep_voltage_mv = elim r.voltage_mv [ none ↦ v | some w ↦ w ];
      sweep_hashrate_ths = hashrate_or_zero r.reading.hashrate_ths;
      sweep_freq_arrays = arrays_or e.empty_board_arrays r.stable_freq_arrays;
      stable_freq_arrays = arrays_or e.empty_board_arrays r.stable_freq_arrays;
      baseline_scores = scores_or e.baseline_scores r.baseline_scores;
      voltage_adjustment_mv = 0;
      min_voltage_mv = elim r.voltage_mv [ none ↦ v | some w ↦ w ];
    }

    -- none is the ValueError.
    abbrev pub select_from : ℕ → List SweepResult → Engine → Option Engine
    select_from v [] e = none
    select_from v (r ∷ rs) e = some (select_entry v (lowest r rs) e)

    unfoldable pub select_voltage_profile : ℕ → Engine → Option Engine
    select_voltage_profile v e = select_from v (matches_at v e.voltage_results) e

    abbrev pub selected_or : Engine → Option Engine → Engine
    selected_or e none = e
    selected_or e (some selected) = selected

    abbrev pub switch_to : Option ℕ → Engine → Engine
    switch_to none e = e
    switch_to (some v) e =
        if has_voltage v e.active_sweep_voltage_mv
        then e
        else selected_or e (select_voltage_profile v e)

    abbrev pub re_rank_from : List SweepResult → Engine → Engine
    re_rank_from [] e = e
    re_rank_from (r ∷ rs) e = switch_to (lowest r rs).voltage_mv e

    -- A failed selection is logged; what it changed before its commands stays.
    unfoldable pub re_rank_active_voltage : Engine → Engine
    re_rank_active_voltage e = re_rank_from e.voltage_results e
