-- ===== src/Explore/Run/Settles.antt =====
-- The exploration ends: every measurement lowers the number of open cells.
use antminer_chip_tuner.Prelude.Membership.{In}
use antminer_chip_tuner.Floats.{Floats}
use antminer_chip_tuner.Prelude.{
  ◌≡◌, refl, true, Option, none, some, List, [], ◌∷◌, ◌++◌, ◌+◌, ◌*◌, ◌<◌, arith, ap, sym, ℕ, zero,
  suc, max, length, subst, Bool-cases, inl, inr, All, All-append, some_eq,
}
use antminer_chip_tuner.Prelude.Int.{ℤ}
use antminer_chip_tuner.Profit.{Reading, ScoreContext}
use antminer_chip_tuner.Explore.Surface.{Key, Surface, top_fine_anchors}
use antminer_chip_tuner.Explore.Coarse.{find_next_coarse_to_measure}
use antminer_chip_tuner.Explore.Coarse.Found.{find_next_coarse-IsOpen}
use antminer_chip_tuner.Explore.Coarse.Settles.{
  open_cells, open_cells-append, open_cells_strict, open_cells_bound,
}
use antminer_chip_tuner.Explore.Fine.{v_fine, f_fine}
use antminer_chip_tuner.Explore.Fine.Search.{find_next_fine_to_measure}
use antminer_chip_tuner.Explore.Fine.Search.Found.{find_next_fine-IsFineWork}
use antminer_chip_tuner.Explore.Fine.Convert.{keys_of-find_next_fine, by_key-keys_of}
use antminer_chip_tuner.Explore.Fine.Anchors.{
  Inside, find_next_fine-Inside, top_fine_anchors-All, All-In,
}
use antminer_chip_tuner.Explore.Run.{
  ExploreConfig, with_ctx, coarse_cell, fine_cell, fine_step, step_from, explore_step, explore,
}
use antminer_chip_tuner.Explore.Run.Grid.{grid_keys, In-grid_keys}
use antminer_chip_tuner.Explore.Run.Potential.{
  open_grids, open_grids_bound, open_grids-keys_of, open_grids-append, open_grids_strict,
  open_cells-keys_of, fine_cells_of,
}

module _ (fl : Floats) (round : fl.Num → ℤ) (cfg : ExploreConfig fl) (ctx : ℕ → ScoreContext fl)
    (measure : ℕ → Key → Reading fl) where
  -- Every anchor that the exploration can choose is among `anchors`.
  pub record IsCovered (anchors : List Key) (s : Surface fl) : Type 0 where
    pub grid_in : (v f : ℕ) → In v cfg.coarse.v_grid → In f cfg.coarse.f_grid → In (v, f) anchors
    pub cells_in : All (Inside fl (λ k. In k anchors)) s

  potential : List Key → Surface fl → ℕ
  potential anchors s =
      open_cells fl s cfg.coarse.v_grid cfg.coarse.f_grid + open_grids fl round cfg.fine s anchors

  module _ (anchors : List Key) where
    abbrev InAnchors : Key → Type 0
    InAnchors k = In k anchors

    coarse_cell-Inside :
        (k : Key) (r : Reading fl) → In k anchors → Inside fl InAnchors (coarse_cell fl k r)
    coarse_cell-Inside k r h = record { coarse_in = λ e. h; anchor_in = λ j e. absurd (cc) }

    fine_cell-Inside :
        (w : Key × Key) (r : Reading fl) → In w.1 anchors → Inside fl InAnchors (fine_cell fl w r)
    fine_cell-Inside w r h = record {
      coarse_in = λ e. absurd (cc);
      anchor_in = λ j e. subst InAnchors (some_eq e) h;
    }

    -- What one measurement does: it keeps the anchors covered and lowers the potential.
    abbrev Lowers : Surface fl → Surface fl → Type 0
    Lowers s t = IsCovered anchors t × (potential anchors t < potential anchors s)

    coarse-Lowers :
        (n : ℕ) (s : Surface fl) (k : Key)
        → IsCovered anchors s
        → find_next_coarse_to_measure fl (with_ctx fl cfg (ctx n)).coarse s ≡ some k
        → Lowers s (s ++ coarse_cell fl k (measure n k) ∷ [])
    unfolding potential
    coarse-Lowers n s k c e =
        let o = find_next_coarse-IsOpen fl (with_ctx fl cfg (ctx n)).coarse s k e in
        let x = coarse_cell fl k (measure n k) in
        (
          record {
            grid_in = c.grid_in;
            cells_in =
                All-append (Inside fl InAnchors) s (x ∷ []) c.cells_in
                  (coarse_cell-Inside k (measure n k) (c.grid_in k.0 k.1 o.v_in o.f_in), tt);
          },
          omega (
            arith,
            open_cells_strict fl s x cfg.coarse.v_grid cfg.coarse.f_grid o.v_in o.f_in o.open_at,
            open_grids-append fl round cfg.fine s x anchors,
          ),
        )

    fine-Lowers :
        (n : ℕ) (s : Surface fl) (w : Key × Key)
        → IsCovered anchors s
        → (find_next_fine_to_measure fl round (with_ctx fl cfg (ctx n)).fine s).1 ≡ some w
        → Lowers s (
            (find_next_fine_to_measure fl round (with_ctx fl cfg (ctx n)).fine s).0
            ++ fine_cell fl w (measure n w.0) ∷ [])
    unfolding potential v_fine f_fine
    fine-Lowers n s w c e =
        let fine = (with_ctx fl cfg (ctx n)).fine in
        let t = (find_next_fine_to_measure fl round fine s).0 in
        let x = fine_cell fl w (measure n w.0) in
        let keys = keys_of-find_next_fine fl round fine s in
        let work = find_next_fine-IsFineWork fl round fine s w e in
        let a_in =
          All-In InAnchors (top_fine_anchors fl fine.ctx (max 1 fine.fine_top_k) s)
            (top_fine_anchors-All fl InAnchors fine.ctx (max 1 fine.fine_top_k) s c.cells_in)
            work.chosen in
        (
          record {
            grid_in = c.grid_in;
            cells_in =
                All-append (Inside fl InAnchors) t (x ∷ [])
                  (find_next_fine-Inside fl InAnchors round fine s c.cells_in)
                  (fine_cell-Inside w (measure n w.0) a_in, tt);
          },
          omega (
            arith,
            open_cells-append fl t x cfg.coarse.v_grid cfg.coarse.f_grid,
            open_cells-keys_of fl t s keys cfg.coarse.v_grid cfg.coarse.f_grid,
            open_grids-keys_of fl round cfg.fine t s anchors keys,
            open_grids_strict fl round cfg.fine t x w.1 anchors a_in work.is_open.v_in
                work.is_open.f_in (by_key-keys_of fl s t w.0 (sym keys) work.is_open.open_at),
          ),
        )

    fine_step-Lowers :
        (n : ℕ) (s : Surface fl) (r : Surface fl × Option (Key × Key))
        → IsCovered anchors s
        → find_next_fine_to_measure fl round (with_ctx fl cfg (ctx n)).fine s ≡ r
        → (fine_step fl round cfg ctx measure n r).1 ≡ true
        → Lowers s (fine_step fl round cfg ctx measure n r).0
    fine_step-Lowers n s (t, none) c f h = absurd (cc)
    fine_step-Lowers n s (t, some w) c f h =
        subst (λ (u : Surface fl). Lowers s (u ++ fine_cell fl w (measure n w.0) ∷ []))
          (ap (λ (p : Surface fl × Option (Key × Key)). p.0) f)
          (fine-Lowers n s w c (ap (λ (p : Surface fl × Option (Key × Key)). p.1) f))

    step_from-Lowers :
        (n : ℕ) (s : Surface fl) (o : Option Key)
        → IsCovered anchors s
        → find_next_coarse_to_measure fl (with_ctx fl cfg (ctx n)).coarse s ≡ o
        → (step_from fl round cfg ctx measure n s o).1 ≡ true
        → Lowers s (step_from fl round cfg ctx measure n s o).0
    step_from-Lowers n s (some k) c e h = coarse-Lowers n s k c e
    step_from-Lowers n s none c e h =
        fine_step-Lowers n s (find_next_fine_to_measure fl round (with_ctx fl cfg (ctx n)).fine s) c
          refl h

    -- An iteration that measures a cell lowers the potential.
    step-Lowers :
        (n : ℕ) (s : Surface fl)
        → IsCovered anchors s
        → (explore_step fl round cfg ctx measure n s).1 ≡ true
        → Lowers s (explore_step fl round cfg ctx measure n s).0
    unfolding explore_step
    step-Lowers n s c h =
        step_from-Lowers n s (find_next_coarse_to_measure fl (with_ctx fl cfg (ctx n)).coarse s) c
          refl h

    explore_ends :
        (n : ℕ) (s : Surface fl)
        → IsCovered anchors s
        → potential anchors s < n
        → (t : Surface fl) × (explore fl round cfg ctx measure n s ≡ some t)
    unfolding explore
    explore_ends zero s c h = elim h [ ]
    explore_ends (suc n) s c h =
        let next = explore_step fl round cfg ctx measure n s in
        elim (Bool-cases next.1) [
          | inl e ↦
              let l = step-Lowers n s c e in
              rw (e, explore) (explore_ends n next.0 l.0 (omega (arith, l.1)))
          | inr e ↦ (next.0, rw (e, explore) refl)
        ]

    -- Stages 2 and 3 of the main loop come to an iteration that finds nothing to measure: it is
    -- enough to allow one iteration for each cell of the coarse grid and of the fine grids of the
    -- anchors that can be chosen, and one more. This holds for every rounding and whatever the
    -- readings and the scoring context of each iteration, if every measurement succeeds and the keys
    -- of the grid and the anchors of the surface are among the anchors counted.
    pub explore_settles :
        (s : Surface fl)
        → IsCovered anchors s
        → (t : Surface fl) × (explore fl round cfg ctx measure
              (length cfg.coarse.v_grid * length cfg.coarse.f_grid
                + fine_cells_of fl round cfg.fine anchors
                + 1)
              s
            ≡ some t)
    unfolding potential
    explore_settles s c =
        explore_ends
          (length cfg.coarse.v_grid * length cfg.coarse.f_grid
            + fine_cells_of fl round cfg.fine anchors
            + 1)
          s c
          (omega (
            arith,
            open_cells_bound fl s cfg.coarse.v_grid cfg.coarse.f_grid,
            open_grids_bound fl round cfg.fine s anchors,
          ))

  -- From an empty surface the keys of the grid are anchors enough.
  pub explore_from_nothing :
      (t : Surface fl) × (explore fl round cfg ctx measure
          (length cfg.coarse.v_grid * length cfg.coarse.f_grid
            + fine_cells_of fl round cfg.fine (grid_keys cfg.coarse.v_grid cfg.coarse.f_grid)
            + 1)
          []
        ≡ some t)
  explore_from_nothing =
      explore_settles (grid_keys cfg.coarse.v_grid cfg.coarse.f_grid) [] (record {
        grid_in = λ v f i j. In-grid_keys v f cfg.coarse.v_grid cfg.coarse.f_grid i j;
        cells_in = tt;
      })
