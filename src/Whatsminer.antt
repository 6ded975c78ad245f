-- ===== src/Whatsminer.antt =====
-- tuner_app/tuning_engine/whatsminer_grid.py: the axes of the power limits and frequencies, and the
-- power mode with the percentage by which a target frequency is asked of the firmware. `round` is
-- the built-in round of a float to an integer; a division by 0, which raises in the source, is not
-- told apart from other divisions.
pub mod Percent
use antminer_chip_tuner.Floats.{Floats}
use antminer_chip_tuner.Prelude.{
  ℕ, zero, suc, ◌-◌, String, Bool, true, false, Option, none, some, List, [], ◌∷◌, map, ◌==◌, ◌=ˢ◌,
  ◌&&◌, if◌then◌else◌,
}
use antminer_chip_tuner.Prelude.Int.{ℤ}
use antminer_chip_tuner.Prelude.Dict.{Dict, get, keep}
use antminer_chip_tuner.Explore.Fine.{of_ℤ, fmin, fmax}
use antminer_chip_tuner.Explore.Axes.{descend}

-- How a call can fail.
pub data ModeError : Type 0 where
  no_supported_modes : ModeError  -- ValueError
  no_normal_mode : ModeError  -- KeyError

module _ (fl : Floats) where
  -- An entry of mode_baselines.
  pub record Baseline : Type 0 where
    pub supported : Bool
    pub target_freq : fl.Num

  abbrev pub Modes : Type 0
  Modes = Dict Baseline

  pub data Picked : Type 0 where
    picked : String → fl.Num → Picked  -- the mode and its percentage
    no_mode : ModeError → Picked

  -- [int(round(top - i * step)) for i in range(count)], and [top] for one entry
  unfoldable pub axis : (fl.Num → ℤ) → fl.Num → fl.Num → ℕ → List fl.Num
  axis round top bottom count =
      let step = fl.div (fl.sub top bottom) (fl.of_ℕ (count - 1)) in
      if count == 1 then top ∷ [] else map (λ x. of_ℤ fl (round x)) (descend fl top step 0 count)

  -- abs(x)
  abbrev pub fabs : fl.Num → fl.Num
  fabs x = if fl.ltb x (fl.of_ℕ 0) then fl.neg x else x

  abbrev pub distance : fl.Num → Baseline → fl.Num
  distance target m = fabs (fl.sub target m.target_freq)

  -- sorted by the distance: stable
  unfoldable pub insert_mode : fl.Num → String × Baseline → Modes → Modes
  insert_mode target p [] = p ∷ []
  insert_mode target p (q ∷ qs) =
      let rest = insert_mode target p qs in
      if fl.ltb (distance target q.1) (distance target p.1) then q ∷ rest else p ∷ q ∷ qs

  unfoldable pub sort_modes : fl.Num → Modes → Modes
  sort_modes target [] = []
  sort_modes target (p ∷ ps) = insert_mode target p (sort_modes target ps)

  -- The frequency that a percentage is of.
  abbrev pub freq_of : Option Baseline → Option fl.Num
  freq_of none = none
  freq_of (some m) = some m.target_freq

  unfoldable pub baseline_freq : String → Modes → Baseline → Option fl.Num
  baseline_freq anchor modes m =
      if anchor =ˢ "current_mode" then some m.target_freq else freq_of (get "normal" modes)

  abbrev pub hundred : fl.Num
  hundred = fl.of_ℕ 100

  -- 100 * (target_mhz / baseline_freq - 1)
  abbrev pub percent_raw : fl.Num → fl.Num → fl.Num
  percent_raw target base = fl.mul hundred (fl.sub (fl.div target base) (fl.of_ℕ 1))

  unfoldable pub clamped_percent : fl.Num → fl.Num
  clamped_percent raw = fmax fl (fl.neg hundred) (fmin fl hundred raw)

  abbrev pub is_in_range : fl.Num → Bool
  is_in_range raw = fl.leb (fl.neg hundred) raw && fl.leb raw hundred

  -- The loop over the sorted modes, and what it falls back to.
  abbrev pub pick_at : String → fl.Num → Option fl.Num → Picked → Picked
  pick_at mode target none rest = no_mode no_normal_mode
  pick_at mode target (some base) rest =
      if is_in_range (percent_raw target base)
      then picked mode (clamped_percent (percent_raw target base))
      else rest

  unfoldable pub pick_first : String → Modes → fl.Num → Modes → Picked → Picked
  pick_first anchor modes target [] fallback = fallback
  pick_first anchor modes target ((mode, m) ∷ rest) fallback =
      pick_at mode target (baseline_freq anchor modes m)
        (pick_first anchor modes target rest fallback)

  -- The closest mode, with the percentage cut off.
  abbrev pub clamp_to : String → fl.Num → Option fl.Num → Picked
  clamp_to mode target none = no_mode no_normal_mode
  clamp_to mode target (some base) = picked mode (clamped_percent (percent_raw target base))

  unfoldable pub pick_mode : String → Modes → fl.Num → Modes → Picked
  pick_mode anchor modes target [] = no_mode no_supported_modes
  pick_mode anchor modes target ((mode, m) ∷ rest) =
      pick_first anchor modes target ((mode, m) ∷ rest)
        (clamp_to mode target (baseline_freq anchor modes m))

  unfoldable pub freq_to_mode_and_percent : fl.Num → Modes → String → Picked
  freq_to_mode_and_percent target modes anchor =
      pick_mode anchor modes target (sort_modes target (keep (λ name m. m.supported) modes))

  -- none is a KeyError.
  abbrev pub freq_at : fl.Num → Option fl.Num → Option fl.Num
  freq_at percent none = none
  freq_at percent (some base) = some (fl.mul base (fl.add (fl.of_ℕ 1) (fl.div percent hundred)))

  unfoldable pub mode_and_percent_to_freq : String → fl.Num → Modes → String → Option fl.Num
  mode_and_percent_to_freq mode percent modes anchor =
      freq_at percent
        (freq_of (if anchor =ˢ "current_mode" then get mode modes else get "normal" modes))
