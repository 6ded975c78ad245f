-- ===== src/Explore/Run/Potential.antt =====
-- The number of open cells of the coarse grid and of the fine grids of a list of anchors.
use antminer_chip_tuner.Prelude.Membership.{In, here, there}
use antminer_chip_tuner.Floats.{Floats}
use antminer_chip_tuner.Prelude.{
  ◌≡◌, refl, Option, none, some, List, [], ◌∷◌, ◌++◌, ◌+◌, ◌*◌, ◌≤◌, ◌<◌, arith, ap, ap₂, ◌∙◌, sym,
  ℕ, length, is_some,
}
use antminer_chip_tuner.Prelude.Int.{ℤ}
use antminer_chip_tuner.Explore.Surface.{Key, Cell, Surface, by_key, has_key, keys_of}
use antminer_chip_tuner.Explore.Coarse.Settles.{
  fresh, open_row, open_cells, open_cells-append, open_cells_strict, open_cells_bound,
}
use antminer_chip_tuner.Explore.Fine.{FineConfig, v_fine, f_fine}
use antminer_chip_tuner.Explore.Fine.Convert.{is_some-by_key}

module _ (fl : Floats) where
  fresh_eq : (o p : Option (Cell fl)) → is_some o ≡ is_some p → fresh fl o ≡ fresh fl p
  fresh_eq none none h = refl
  fresh_eq none (some x) h = absurd (cc)
  fresh_eq (some x) none h = absurd (cc)
  fresh_eq (some x) (some y) h = refl

  module _ (s t : Surface fl) (h : keys_of fl s ≡ keys_of fl t) where
    fresh-keys_of : (k : Key) → fresh fl (by_key fl s k) ≡ fresh fl (by_key fl t k)
    fresh-keys_of k =
        fresh_eq (by_key fl s k) (by_key fl t k)
          (is_some-by_key fl s k ∙ ap (has_key k) h ∙ sym (is_some-by_key fl t k))

    open_row-keys_of : (v : ℕ) (fs : List ℕ) → open_row fl s v fs ≡ open_row fl t v fs
    unfolding open_row
    open_row-keys_of v [] = refl
    open_row-keys_of v (f ∷ fs) = ap₂ (λ a b. a + b) (fresh-keys_of (v, f)) (open_row-keys_of v fs)

    pub open_cells-keys_of : (vs fs : List ℕ) → open_cells fl s vs fs ≡ open_cells fl t vs fs
    unfolding open_cells
    open_cells-keys_of [] fs = refl
    open_cells-keys_of (v ∷ vs) fs =
        ap₂ (λ a b. a + b) (open_row-keys_of v fs) (open_cells-keys_of vs fs)

  module _ (round : fl.Num → ℤ) (cfg : FineConfig fl) where
    abbrev open_grid : Surface fl → Key → ℕ
    open_grid s a = open_cells fl s (v_fine fl round cfg a) (f_fine fl round cfg a)

    -- The open cells of the fine grids of a list of anchors, and the cells of those grids.
    pub open_grids : Surface fl → List Key → ℕ
    open_grids s [] = 0
    open_grids s (a ∷ anchors) = open_grid s a + open_grids s anchors

    unfoldable pub fine_cells_of : List Key → ℕ
    fine_cells_of [] = 0
    fine_cells_of (a ∷ anchors) =
        length (v_fine fl round cfg a) * length (f_fine fl round cfg a) + fine_cells_of anchors

    pub open_grids_bound :
        (s : Surface fl) (anchors : List Key) → open_grids s anchors ≤ fine_cells_of anchors
    unfolding open_grids fine_cells_of
    open_grids_bound s [] = omega arith
    open_grids_bound s (a ∷ anchors) = grind (
      arith,
      open_cells_bound fl s (v_fine fl round cfg a) (f_fine fl round cfg a),
      open_grids_bound s anchors,
    )

    pub open_grids-keys_of :
        (s t : Surface fl) (anchors : List Key)
        → keys_of fl s ≡ keys_of fl t
        → open_grids s anchors ≡ open_grids t anchors
    unfolding open_grids
    open_grids-keys_of s t [] h = refl
    open_grids-keys_of s t (a ∷ anchors) h =
        ap₂ (λ x y. x + y)
          (open_cells-keys_of s t h (v_fine fl round cfg a) (f_fine fl round cfg a))
          (open_grids-keys_of s t anchors h)

    module _ (s : Surface fl) (e : Cell fl) where
      pub open_grids-append :
          (anchors : List Key) → open_grids (s ++ e ∷ []) anchors ≤ open_grids s anchors
      unfolding open_grids
      open_grids-append [] = omega arith
      open_grids-append (a ∷ anchors) = omega (
        arith,
        open_cells-append fl s e (v_fine fl round cfg a) (f_fine fl round cfg a),
        open_grids-append anchors,
      )

      pub open_grids_strict :
          (a : Key) (anchors : List Key)
          → In a anchors
          → In e.key.0 (v_fine fl round cfg a)
          → In e.key.1 (f_fine fl round cfg a)
          → by_key fl s e.key ≡ none
          → open_grids (s ++ e ∷ []) anchors < open_grids s anchors
      unfolding open_grids
      open_grids_strict a [] i hv hf n = elim i [ ]
      open_grids_strict a (b ∷ anchors) here hv hf n = omega (
        arith,
        open_cells_strict fl s e (v_fine fl round cfg a) (f_fine fl round cfg a) hv hf n,
        open_grids-append anchors,
      )
      open_grids_strict a (b ∷ anchors) (there i) hv hf n = omega (
        arith,
        open_cells-append fl s e (v_fine fl round cfg b) (f_fine fl round cfg b),
        open_grids_strict a anchors i hv hf n,
      )
