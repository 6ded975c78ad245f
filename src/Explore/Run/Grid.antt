-- ===== src/Explore/Run/Grid.antt =====
-- The keys of a grid of voltages and frequencies.
use antminer_chip_tuner.Prelude.Membership.{In, here, there, In-append_left, In-append_right}
use antminer_chip_tuner.Prelude.{ℕ, List, [], ◌∷◌, ◌++◌}
use antminer_chip_tuner.Explore.Surface.{Key}

-- The keys of the grid, row by row.
abbrev grid_row : ℕ → List ℕ → List Key
grid_row v [] = []
grid_row v (f ∷ fs) = (v, f) ∷ grid_row v fs

pub grid_keys : List ℕ → List ℕ → List Key
grid_keys [] fs = []
grid_keys (v ∷ vs) fs = grid_row v fs ++ grid_keys vs fs

In-grid_row : (v f : ℕ) (fs : List ℕ) → In f fs → In (v, f) (grid_row v fs)
In-grid_row v f [] h = elim h [ ]
In-grid_row v f (x ∷ fs) here = here
In-grid_row v f (x ∷ fs) (there h) = there (In-grid_row v f fs h)

pub In-grid_keys : (v f : ℕ) (vs fs : List ℕ) → In v vs → In f fs → In (v, f) (grid_keys vs fs)
unfolding grid_keys
In-grid_keys v f [] fs h k = elim h [ ]
In-grid_keys v f (x ∷ vs) fs here k = In-append_left (grid_keys vs fs) (In-grid_row v f fs k)
In-grid_keys v f (x ∷ vs) fs (there h) k =
    In-append_right (grid_row x fs) (In-grid_keys v f vs fs h k)
