-- ===== src/Explore/Reset.antt =====
-- reset_fine_grid_fields and reset_coarse_grid_fields of tuner_app/tuning_engine/reset.py.
pub mod Undo
pub mod Grown
pub mod Explored
use antminer_chip_tuner.Floats.{Floats}
use antminer_chip_tuner.Prelude.{
  ℕ, Bool, true, false, Option, none, some, List, [], ◌∷◌, if◌then◌else◌,
}
use antminer_chip_tuner.Explore.Surface.{Key, Cell, Surface, is_self_anchor}

module _ (fl : Floats) where
  -- uncv: the entry as a coarse one.
  abbrev pub unmark : Cell fl → Cell fl
  unmark e = record e { fine = false; coarse_anchor = none }

  -- What becomes of one entry: a coarse one is kept, a converted anchor is made coarse again, and any
  -- other fine one is dropped.
  abbrev pub keep_coarse : Cell fl → Surface fl → Surface fl
  keep_coarse e rest =
      if e.fine then if is_self_anchor fl e then unmark e ∷ rest else rest else e ∷ rest

  unfoldable pub coarse_part : Surface fl → Surface fl
  coarse_part [] = []
  coarse_part (e ∷ es) = keep_coarse e (coarse_part es)

  -- The fields of the engine that a reset of the grids writes. Item stands for the entries that no
  -- reset looks into.
  pub record GridFields (Item : Type 0) : Type 0 where
    pub vf_surface : Surface fl
    pub vf_top_k_voltages : List Item
    pub vf_planned_grid : List Item
    pub vf_skipped : List Item
    pub vf_fine_anchor : Option Item
    pub vf_coarse_rays_checked : List Item
    pub current_vf_point : Option Item
    pub remeasure_queue : List Item

  module _ {Item : Type 0} where
    unfoldable pub reset_fine_grid_fields : GridFields Item → GridFields Item
    reset_fine_grid_fields g = record g {
      vf_surface = coarse_part g.vf_surface;
      vf_top_k_voltages = [];
      vf_planned_grid = [];
      vf_skipped = [];
      vf_fine_anchor = none;
      vf_coarse_rays_checked = [];
      current_vf_point = none;
    }

    unfoldable pub reset_coarse_grid_fields : GridFields Item → GridFields Item
    reset_coarse_grid_fields g = record g {
      vf_surface = [];
      vf_planned_grid = [];
      vf_skipped = [];
      vf_fine_anchor = none;
      vf_coarse_rays_checked = [];
      remeasure_queue = [];
      current_vf_point = none;
    }
