-- ===== src/Explore/Run.antt =====
-- Stages 2 and 3 of the main loop of _run_inner in tuner_app/tuning_engine/engine.py, up to the
-- iteration in which neither finds a cell to measure. Not here: the stages before and after them,
-- and a measurement that fails.
pub mod Grid
pub mod Potential
pub mod Settles
use antminer_chip_tuner.Floats.{Floats}
use antminer_chip_tuner.Prelude.{
  ℕ, zero, suc, Bool, true, false, Option, none, some, List, [], ◌∷◌, ◌++◌,
}
use antminer_chip_tuner.Prelude.Int.{ℤ}
use antminer_chip_tuner.Profit.{Reading, ScoreContext}
use antminer_chip_tuner.Explore.Surface.{Key, Cell, Surface}
use antminer_chip_tuner.Explore.Coarse.{CoarseConfig, find_next_coarse_to_measure}
use antminer_chip_tuner.Explore.Fine.{FineConfig}
use antminer_chip_tuner.Explore.Fine.Search.{find_next_fine_to_measure}

module _ (fl : Floats) where
  -- The settings of both searches. The scoring context is made anew in every iteration.
  pub record ExploreConfig : Type 0 where
    pub coarse : CoarseConfig fl
    pub fine : FineConfig fl

  abbrev pub with_ctx : ExploreConfig → ScoreContext fl → ExploreConfig
  with_ctx cfg ctx = record {
    coarse = record cfg.coarse { ctx = ctx };
    fine = record cfg.fine { ctx = ctx };
  }

  -- What is appended to vf_surface for a measured coarse cell, and for a fine one.
  abbrev pub coarse_cell : Key → Reading fl → Cell fl
  coarse_cell k r = record { key = k; fine = false; coarse_anchor = none; reading = r }

  abbrev pub fine_cell : Key × Key → Reading fl → Cell fl
  fine_cell (k, a) r = record { key = k; fine = true; coarse_anchor = some a; reading = r }

  module _ (round : fl.Num → ℤ) (cfg : ExploreConfig) (ctx : ℕ → ScoreContext fl)
      (measure : ℕ → Key → Reading fl) where
    -- What one iteration of stages 2 and 3 leaves: the surface, and whether a cell was measured.
    abbrev pub fine_step : ℕ → Surface fl × Option (Key × Key) → Surface fl × Bool
    fine_step n (s, none) = (s, false)
    fine_step n (s, some w) = (s ++ fine_cell w (measure n w.0) ∷ [], true)

    abbrev pub step_from : ℕ → Surface fl → Option Key → Surface fl × Bool
    step_from n s (some k) = (s ++ coarse_cell k (measure n k) ∷ [], true)
    step_from n s none =
        fine_step n (find_next_fine_to_measure fl round (with_ctx cfg (ctx n)).fine s)

    unfoldable pub explore_step : ℕ → Surface fl → Surface fl × Bool
    explore_step n s =
        step_from n s (find_next_coarse_to_measure fl (with_ctx cfg (ctx n)).coarse s)

    -- The iterations until nothing is measured; none when `n` of them are not enough. `measure n`
    -- and `ctx n` are the readings and the scoring context with `n` iterations left after this one.
    unfoldable pub explore : ℕ → Surface fl → Option (Surface fl)
    explore zero s = none
    explore (suc n) s = elim (explore_step n s).1 [
      | true ↦ explore n (explore_step n s).0
      | false ↦ some (explore_step n s).0
    ]
