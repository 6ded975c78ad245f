-- ===== src/Explore/Coarse/Settles.antt =====
-- The coarse stage of the main loop ends.
use antminer_chip_tuner.Floats.{Floats}
use antminer_chip_tuner.Prelude.{
  ℕ, zero, suc, ◌+◌, ◌*◌, ◌≤◌, ◌<◌, ◌≡◌, Option, none, some, List, [], ◌∷◌, ◌++◌, arith, length,
  subst, sym, Option-cases, inl, inr,
}
use antminer_chip_tuner.Prelude.Membership.{In, here, there}
use antminer_chip_tuner.Explore.Surface.{Key, Cell, Surface, by_key}
use antminer_chip_tuner.Explore.Surface.Lookup.{by_key-append, key_eq_refl}
use antminer_chip_tuner.Explore.Coarse.{CoarseConfig, find_next_coarse_to_measure}
use antminer_chip_tuner.Explore.Coarse.Found.{find_next_coarse-IsOpen}

module _ (fl : Floats) where
  abbrev pub fresh : Option (Cell fl) → ℕ
  fresh none = 1
  fresh (some e) = 0

  -- How many cells of a row, or of the grid, have no measurement.
  unfoldable pub open_row : Surface fl → ℕ → List ℕ → ℕ
  open_row s v [] = 0
  open_row s v (f ∷ fs) = fresh (by_key fl s (v, f)) + open_row s v fs

  unfoldable pub open_cells : Surface fl → List ℕ → List ℕ → ℕ
  open_cells s [] fs = 0
  open_cells s (v ∷ vs) fs = open_row s v fs + open_cells s vs fs

  open_row_bound : (s : Surface fl) (v : ℕ) (fs : List ℕ) → open_row s v fs ≤ length fs
  unfolding open_row
  open_row_bound s v [] = omega arith
  open_row_bound s v (f ∷ fs) = ground (arith, open_row_bound s v fs)

  pub open_cells_bound :
      (s : Surface fl) (vs fs : List ℕ) → open_cells s vs fs ≤ length vs * length fs
  unfolding open_cells
  open_cells_bound s [] fs = omega arith
  open_cells_bound s (v ∷ vs) fs = grind (arith, open_row_bound s v fs, open_cells_bound s vs fs)

  module _ (s : Surface fl) (e : Cell fl) where
    fresh-append : (k : Key) → fresh (by_key fl (s ++ e ∷ []) k) ≤ fresh (by_key fl s k)
    fresh-append k = ground (arith, by_key-append fl s e k)

    fresh-append_self : by_key fl (s ++ e ∷ []) e.key ≡ some e
    fresh-append_self = ground (arith, by_key-append fl s e e.key, key_eq_refl e.key)

    open_row-append : (v : ℕ) (fs : List ℕ) → open_row (s ++ e ∷ []) v fs ≤ open_row s v fs
    unfolding open_row
    open_row-append v [] = omega arith
    open_row-append v (f ∷ fs) = omega (arith, fresh-append (v, f), open_row-append v fs)

    pub open_cells-append : (vs fs : List ℕ) → open_cells (s ++ e ∷ []) vs fs ≤ open_cells s vs fs
    unfolding open_cells
    open_cells-append [] fs = omega arith
    open_cells-append (v ∷ vs) fs = omega (arith, open_row-append v fs, open_cells-append vs fs)

    open_row_strict :
        (fs : List ℕ)
        → In e.key.1 fs
        → by_key fl s e.key ≡ none
        → open_row (s ++ e ∷ []) e.key.0 fs < open_row s e.key.0 fs
    unfolding open_row
    open_row_strict [] h n = elim h [ ]
    open_row_strict (f ∷ fs) here n =
        ground (arith, n, fresh-append_self, open_row-append e.key.0 fs)
    open_row_strict (f ∷ fs) (there h) n =
        omega (arith, fresh-append (e.key.0, f), open_row_strict fs h n)

    pub open_cells_strict :
        (vs fs : List ℕ)
        → In e.key.0 vs
        → In e.key.1 fs
        → by_key fl s e.key ≡ none
        → open_cells (s ++ e ∷ []) vs fs < open_cells s vs fs
    unfolding open_cells
    open_cells_strict [] fs h k n = elim h [ ]
    open_cells_strict (v ∷ vs) fs here k n =
        omega (arith, open_row_strict fs k n, open_cells-append vs fs)
    open_cells_strict (v ∷ vs) fs (there h) k n =
        omega (arith, open_row-append v fs, open_cells_strict vs fs h k n)

  -- The coarse stage of the main loop, while no other work comes between and no measurement fails:
  -- `measure n k` is what measuring `k` gives with `n` measurements allowed after it.
  unfoldable pub coarse_stage : CoarseConfig fl → (ℕ → Key → Cell fl) → ℕ → Surface fl → Surface fl
  coarse_stage cfg measure zero s = s
  coarse_stage cfg measure (suc n) s = elim (find_next_coarse_to_measure fl cfg s) [
    | none ↦ s
    | some k ↦ coarse_stage cfg measure n (s ++ measure n k ∷ [])
  ]

  -- A measurement of the cell that was found leaves fewer cells open.
  closes :
      (cfg : CoarseConfig fl) (s : Surface fl) (e : Cell fl) (k : Key)
      → e.key ≡ k
      → find_next_coarse_to_measure fl cfg s ≡ some k
      → open_cells (s ++ e ∷ []) cfg.v_grid cfg.f_grid < open_cells s cfg.v_grid cfg.f_grid
  closes cfg s e k p f =
      let o = find_next_coarse-IsOpen fl cfg s k f in
      open_cells_strict s e cfg.v_grid cfg.f_grid
        (subst (λ (q : Key). In q.0 cfg.v_grid) (sym p) o.v_in)
        (subst (λ (q : Key). In q.1 cfg.f_grid) (sym p) o.f_in) (rw p o.open_at)

  coarse_stage_ends :
      (cfg : CoarseConfig fl) (measure : ℕ → Key → Cell fl) (n : ℕ) (s : Surface fl)
      → ((m : ℕ) (k : Key) → (measure m k).key ≡ k)
      → open_cells s cfg.v_grid cfg.f_grid ≤ n
      → find_next_coarse_to_measure fl cfg (coarse_stage cfg measure n s) ≡ none
  unfolding coarse_stage
  coarse_stage_ends cfg measure zero s m h =
      elim (Option-cases (find_next_coarse_to_measure fl cfg s)) [
        | inl e ↦ e
        | inr (k, e) ↦ absurd (omega (arith, closes cfg s (measure zero k) k (m zero k) e))
      ]
  coarse_stage_ends cfg measure (suc n) s m h =
      elim (Option-cases (find_next_coarse_to_measure fl cfg s)) [
        | inl e ↦ rw (e, coarse_stage) e
        | inr (k, e) ↦
            rw (e, coarse_stage)
              (coarse_stage_ends cfg measure n (s ++ measure n k ∷ []) m
                (omega (arith, closes cfg s (measure n k) k (m n k) e)))
      ]

  -- Whatever the scores, after at most as many measurements as the grid has cells there is no
  -- coarse cell left to measure, if a measurement is stored under the cell that was asked for.
  pub coarse_settles :
      (cfg : CoarseConfig fl) (measure : ℕ → Key → Cell fl) (s : Surface fl)
      → ((m : ℕ) (k : Key) → (measure m k).key ≡ k)
      → find_next_coarse_to_measure fl cfg
          (coarse_stage cfg measure (length cfg.v_grid * length cfg.f_grid) s)
        ≡ none
  coarse_settles cfg measure s m =
      coarse_stage_ends cfg measure (length cfg.v_grid * length cfg.f_grid) s m
        (open_cells_bound s cfg.v_grid cfg.f_grid)
