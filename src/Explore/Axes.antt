-- ===== src/Explore/Axes.antt =====
-- build_vf_grid_voltages, build_vf_grid_freqs and vf_grid_axes of tuner_app/tuning_engine/grid.py:
-- the ascending axes that every search over the grid takes. `round` is the built-in round of a
-- float to an integer.
pub mod Ascending
pub mod Spans
use antminer_chip_tuner.Floats.{Floats}
use antminer_chip_tuner.Prelude.{
  ℕ, zero, suc, ◌-◌, max, Bool, true, false, Option, none, some, List, [], ◌∷◌, map, ltb,
  if◌then◌else◌,
}
use antminer_chip_tuner.Prelude.Int.{ℤ, pos, ltb_ℤ, leb_ℤ, ◌+ℤ◌, ◌-ℤ◌, ◌*ℤ◌}
use antminer_chip_tuner.Explore.Fine.{of_ℤ, mhz}

-- sorted(set(xs))
unfoldable pub insert_asc : ℤ → List ℤ → List ℤ
insert_asc x [] = x ∷ []
insert_asc x (y ∷ ys) =
    let rest = insert_asc x ys in
    if ltb_ℤ y x then y ∷ rest else if ltb_ℤ x y then x ∷ y ∷ ys else y ∷ ys

unfoldable pub sort_asc : List ℤ → List ℤ
sort_asc [] = []
sort_asc (x ∷ xs) = insert_asc x (sort_asc xs)

abbrev pub min_ℤ : ℤ → ℤ → ℤ
min_ℤ a b = if ltb_ℤ b a then b else a

abbrev pub max_ℤ : ℤ → ℤ → ℤ
max_ℤ a b = if ltb_ℤ a b then b else a

-- What is read of the stock baseline: its voltage if its source is "live" or "spec", 0 if it has none.
abbrev pub stock_or_zero : Option ℕ → ℕ
stock_or_zero none = 0
stock_or_zero (some v) = v

module _ (fl : Floats) where
  pub record AxesConfig : Type 0 where
    pub v_count : ℕ  -- VF_EXPLORE_V_COUNT
    pub f_count : ℕ  -- VF_EXPLORE_F_COUNT
    pub over_stock : ℤ  -- SWEEP_OVER_STOCK_MV
    pub stock_voltage : Option ℕ
    pub psu_max_mv : ℕ
    pub start_voltage_mv : ℕ  -- 0 while it is not known
    pub f_min : fl.Num  -- VF_EXPLORE_F_MIN
    pub f_max : fl.Num  -- VF_EXPLORE_F_MAX

  -- The ends of the voltages.
  unfoldable pub v_top : AxesConfig → ℤ
  v_top cfg =
      let stock_v = stock_or_zero cfg.stock_voltage in
      if ltb 0 stock_v
      then min_ℤ (pos stock_v +ℤ cfg.over_stock) (pos cfg.psu_max_mv)
      else max_ℤ (pos cfg.psu_max_mv -ℤ pos 500) (pos cfg.start_voltage_mv)

  unfoldable pub v_bottom : AxesConfig → ℤ
  v_bottom cfg =
      let v_min : ℕ = if ltb 0 cfg.start_voltage_mv then cfg.start_voltage_mv else 12000 in
      if leb_ℤ (v_top cfg) (pos v_min) then max_ℤ (pos 11877) (v_top cfg -ℤ pos 500) else pos v_min

  -- [top - i * step for i in range(i, i + n)]
  unfoldable pub descend : fl.Num → fl.Num → ℕ → ℕ → List fl.Num
  descend top step i zero = []
  descend top step i (suc n) = fl.sub top (fl.mul (fl.of_ℕ i) step) ∷ descend top step (suc i) n

  module _ (round : fl.Num → ℤ) where
    unfoldable pub build_vf_grid_voltages : AxesConfig → List ℤ
    build_vf_grid_voltages cfg =
        let n = max 2 cfg.v_count in
        let step = fl.div (of_ℤ fl (v_top cfg -ℤ v_bottom cfg)) (fl.of_ℕ (n - 1)) in
        map round (descend (of_ℤ fl (v_top cfg)) step 0 n)

    -- round(raw / grid) * grid, in kHz
    abbrev pub snap_freq : fl.Num → ℤ
    snap_freq f = round (fl.div f (mhz fl 3125)) *ℤ pos 3125

    -- The repeated frequencies that the function leaves out are left out by sort_asc as well.
    unfoldable pub build_vf_grid_freqs : AxesConfig → List ℤ
    build_vf_grid_freqs cfg =
        let n = max 2 cfg.f_count in
        let step = fl.div (fl.sub cfg.f_max cfg.f_min) (fl.of_ℕ (n - 1)) in
        map snap_freq (descend cfg.f_max step 0 n)

    unfoldable pub vf_grid_axes : AxesConfig → List ℤ × List ℤ
    vf_grid_axes cfg = (sort_asc (build_vf_grid_voltages cfg), sort_asc (build_vf_grid_freqs cfg))
