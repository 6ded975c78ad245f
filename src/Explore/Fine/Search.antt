-- ===== src/Explore/Fine/Search.antt =====
-- find_next_fine_to_measure of tuner_app/tuning_engine/exploration.py: the surface after it, with
-- the anchors that it converted, and the cell to measure with its anchor.
pub mod Found
use antminer_chip_tuner.Floats.{Floats}
use antminer_chip_tuner.Prelude.{
  ℕ, max, Bool, true, false, Option, none, some, List, [], ◌∷◌, ◌&&◌, ◌||◌, ltb, leb, if◌then◌else◌,
  length,
}
use antminer_chip_tuner.Prelude.Int.{ℤ}
use antminer_chip_tuner.Explore.Surface.{Key, key_eq, Cell, Surface, by_key, top_fine_anchors}
use antminer_chip_tuner.Explore.Coarse.{sweep}
use antminer_chip_tuner.Explore.Fine.{FineConfig, v_fine, f_fine}

module _ (fl : Floats) where
  -- An entry that becomes the anchor cell of its own fine grid, unless it is fine already.
  abbrev pub mark : Key → Cell fl → Cell fl
  mark k e = if e.fine then e else record e { fine = true; coarse_anchor = some k }

  abbrev pub mark_if : Bool → Key → Cell fl → Cell fl
  mark_if true k e = mark k e
  mark_if false k e = e

  -- The entry that by_key finds is changed in place: the last one of its key.
  unfoldable pub convert : Key → Surface fl → Surface fl
  convert k [] = []
  convert k (e ∷ es) = elim (by_key fl es k) [
    | none ↦ mark_if (key_eq k e.key) k e ∷ es
    | some later ↦ e ∷ convert k es
  ]

  module _ (round : fl.Num → ℤ) where
    -- One cell on both axes, or none on one: there is nothing to measure.
    unfoldable pub is_degenerate : FineConfig fl → Key → Bool
    is_degenerate cfg a =
        let n_v = length (v_fine fl round cfg a) in
        let n_f = length (f_fine fl round cfg a) in ltb n_v 1 || ltb n_f 1 || leb n_v 1 && leb n_f 1

    -- The first unmeasured cell of the fine grid of an anchor.
    abbrev pub next_in_grid : FineConfig fl → Surface fl → Key → Option Key
    next_in_grid cfg surface a = sweep fl surface (v_fine fl round cfg a) (f_fine fl round cfg a)

    unfoldable pub visit : FineConfig fl → Surface fl → List Key → Surface fl × Option (Key × Key)
    visit cfg surface [] = (surface, none)
    visit cfg surface (a ∷ more) = elim (is_degenerate cfg a) [
      | true ↦ visit cfg surface more
      | false ↦ elim (next_in_grid cfg (convert a surface) a) [
        | some k ↦ (convert a surface, some (k, a))
        | none ↦ visit cfg (convert a surface) more
      ]
    ]

    unfoldable pub find_next_fine_to_measure :
        FineConfig fl → Surface fl → Surface fl × Option (Key × Key)
    find_next_fine_to_measure cfg surface =
        if ltb cfg.fine_count 2 || ltb (length cfg.v_grid) 2 || ltb (length cfg.f_grid) 2
        then (surface, none)
        else visit cfg surface (top_fine_anchors fl cfg.ctx (max 1 cfg.fine_top_k) surface)
