-- ===== src/Explore/Coarse/Found.antt =====
-- Whatever find_next_coarse_to_measure returns is on the grid and unmeasured.
use mathlib.Core.List.{reverse}
use antminer_chip_tuner.Prelude.Membership.{In, here, there, In-get_elem?, In-reverse}
use antminer_chip_tuner.Floats.{Floats}
use antminer_chip_tuner.Prelude.{
  ℕ, ◌≡◌, refl, Option, none, some, List, [], ◌∷◌, arith, ltb, ◌||◌, ◌/◌, length, max, sym, ap, ◌∙◌,
  subst, get_elem?, some_eq, Option-cases, Bool-cases, inl, inr,
}
use antminer_chip_tuner.Explore.Surface.{
  Key, Cell, Surface, by_key, coarse_cells_ranked, top_coarse_ray_origins,
}
use antminer_chip_tuner.Explore.Rays.{Dir, ray_directions, Walk, next_unmeasured_in_direction}
use antminer_chip_tuner.Explore.Rays.Found.{next_unmeasured_found}
use antminer_chip_tuner.Explore.Coarse.{
  CoarseConfig, index_of, walk_of, first_on_rays, rays_from, first_from, sweep_row, sweep, center,
  center_or_sweep, bootstrap, search_ranked, find_next_coarse_to_measure,
}

module _ (fl : Floats) where
  -- A key of the grid that has not been measured.
  pub record IsOpen (vs fs : List ℕ) (surface : Surface fl) (k : Key) : Type 0 where
    pub v_in : In k.0 vs
    pub f_in : In k.1 fs
    pub open_at : by_key fl surface k ≡ none

  module _ (w : Walk fl) where
    -- What a search over rays may return.
    abbrev Good : Key → Type 0
    Good k = In k.0 w.v_grid × In k.1 w.f_grid × (w.measured k ≡ none)

    first_on_rays_found :
        (dirs : List (Dir × Dir)) (i j : ℕ) (k : Key)
        → first_on_rays fl w dirs i j ≡ some k
        → Good k
    unfolding first_on_rays
    first_on_rays_found [] i j k e = absurd (cc)
    first_on_rays_found ((dv, df) ∷ dirs) i j k e =
        elim (Option-cases (next_unmeasured_in_direction fl w dv df i j)) [
          | inl n ↦ first_on_rays_found dirs i j k (rw (n, first_on_rays) at e)
          | inr (k', s) ↦
              let p : k' ≡ k = some_eq (rw (s, first_on_rays) at e) in
              let (a, b, at, free) = next_unmeasured_found fl w dv df i j k (rw p at s) in
              (In-get_elem? w.v_grid a at.v_at, In-get_elem? w.f_grid b at.f_at, free)
        ]

    rays_from_found : (a b : Option ℕ) (k : Key) → rays_from fl w a b ≡ some k → Good k
    unfolding rays_from
    rays_from_found none b k e = absurd (cc)
    rays_from_found (some i) none k e = absurd (cc)
    rays_from_found (some i) (some j) k e = first_on_rays_found ray_directions i j k e

    first_from_found : (cs : List (Cell fl)) (k : Key) → first_from fl w cs ≡ some k → Good k
    unfolding first_from
    first_from_found [] k e = absurd (cc)
    first_from_found (c ∷ cs) k e =
        elim (Option-cases
          (rays_from fl w (index_of c.key.0 w.v_grid) (index_of c.key.1 w.f_grid))) [
            | inl n ↦ first_from_found cs k (rw (n, first_from) at e)
            | inr (k', s) ↦
                let p : k' ≡ k = some_eq (rw (s, first_from) at e) in
                rays_from_found (index_of c.key.0 w.v_grid) (index_of c.key.1 w.f_grid) k
                  (rw p at s)
          ]

  module _ (surface : Surface fl) where
    sweep_row_found :
        (v : ℕ) (fs : List ℕ) (k : Key)
        → sweep_row fl surface v fs ≡ some k
        → (k.0 ≡ v) × In k.1 fs × (by_key fl surface k ≡ none)
    unfolding sweep_row
    sweep_row_found v [] k e = absurd (cc)
    sweep_row_found v (f ∷ fs) k e = elim (Option-cases (by_key fl surface (v, f))) [
      | inl n ↦
          let p : (v, f) ≡ k = some_eq (rw (n, sweep_row) at e) in
          (ap (λ (q : Key). q.0) (sym p), subst (λ (q : Key). In q.1 (f ∷ fs)) p here, rw (← p) n)
      | inr (c, s) ↦
          let (a, b, n) = sweep_row_found v fs k (rw (s, sweep_row) at e) in (a, there b, n)
    ]

    pub sweep_found :
        (vs fs : List ℕ) (k : Key)
        → sweep fl surface vs fs ≡ some k
        → In k.0 vs × In k.1 fs × (by_key fl surface k ≡ none)
    unfolding sweep
    sweep_found [] fs k e = absurd (cc)
    sweep_found (v ∷ vs) fs k e = elim (Option-cases (sweep_row fl surface v fs)) [
      | inl n ↦ let (a, b, free) = sweep_found vs fs k (rw (n, sweep) at e) in (there a, b, free)
      | inr (k', s) ↦
          let p : k' ≡ k = some_eq (rw (s, sweep) at e) in
          let (a, b, free) = sweep_row_found v fs k (rw p at s) in
          (subst (λ x. In x (v ∷ vs)) (sym a) here, b, free)
    ]

  module _ (cfg : CoarseConfig fl) (surface : Surface fl) where
    center_on_grid : (k : Key) → center fl cfg ≡ some k → In k.0 cfg.v_grid × In k.1 cfg.f_grid
    unfolding center
    center_on_grid k e =
        let (a, b) = center_at k e in
        (
          In-get_elem? cfg.v_grid (length cfg.v_grid / 2) a,
          In-get_elem? cfg.f_grid (length cfg.f_grid / 2) b,
        )
      where
        center_at :
            (k : Key)
            → center fl cfg ≡ some k
            → (get_elem? cfg.v_grid (length cfg.v_grid / 2) ≡ some k.0)
              × (get_elem? cfg.f_grid (length cfg.f_grid / 2) ≡ some k.1)
        center_at k e = ground arith

    center_or_sweep_found :
        (o : Option Key) (k : Key)
        → center fl cfg ≡ o
        → center_or_sweep fl cfg surface o ≡ some k
        → IsOpen cfg.v_grid cfg.f_grid surface k
    unfolding center_or_sweep
    center_or_sweep_found none k c e = absurd (cc)
    center_or_sweep_found (some k') k c e = elim (Option-cases (by_key fl surface k')) [
      | inl n ↦
          let p : k' ≡ k = some_eq (rw (n, center_or_sweep) at e) in
          let (a, b) = center_on_grid k (c ∙ ap some p) in
          record { v_in = a; f_in = b; open_at = rw (← p) n }
      | inr (x, s) ↦
          let (a, b, free) =
            sweep_found surface (reverse cfg.v_grid) (reverse cfg.f_grid) k
              (rw (s, center_or_sweep) at e) in
          record { v_in = In-reverse cfg.v_grid a; f_in = In-reverse cfg.f_grid b; open_at = free }
    ]

    search_ranked_found :
        (ranked : List (Cell fl)) (k : Key)
        → search_ranked fl cfg surface ranked ≡ some k
        → IsOpen cfg.v_grid cfg.f_grid surface k
    unfolding search_ranked bootstrap walk_of
    search_ranked_found [] k e = center_or_sweep_found (center fl cfg) k refl e
    search_ranked_found (top ∷ ranked) k e =
        let (a, b, free) = found_on top k e in record { v_in = a; f_in = b; open_at = free }
      where
        found_on :
            (top : Cell fl) (k : Key)
            → first_from fl
                (walk_of fl cfg surface top)
                (top_coarse_ray_origins fl cfg.ctx (max 1 cfg.top_k_rays) surface)
              ≡ some k
            → Good (walk_of fl cfg surface top) k
        found_on top k e =
            first_from_found (walk_of fl cfg surface top)
              (top_coarse_ray_origins fl cfg.ctx (max 1 cfg.top_k_rays) surface) k e

    -- On every path (the bootstrap at the centre, the sweep, the rays of each origin) the cell that
    -- find_next_coarse_to_measure returns lies on the grid and has no measurement on the surface.
    pub find_next_coarse-IsOpen :
        (k : Key)
        → find_next_coarse_to_measure fl cfg surface ≡ some k
        → IsOpen cfg.v_grid cfg.f_grid surface k
    unfolding find_next_coarse_to_measure
    find_next_coarse-IsOpen k e =
        elim (Bool-cases (ltb (length cfg.v_grid) 2 || ltb (length cfg.f_grid) 2)) [
          | inl small ↦ absurd (ground arith)
          | inr large ↦
              search_ranked_found (coarse_cells_ranked fl cfg.ctx surface) k (rw large at e)
        ]
