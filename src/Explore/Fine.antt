-- ===== src/Explore/Fine.antt =====
-- fine_axis_offsets and fine_cell_offsets_for_anchor of tuner_app/tuning_engine/grid.py, and
-- find_next_fine_to_measure of tuner_app/tuning_engine/exploration.py. A measurement is an argument.
pub mod Search
pub mod Convert
pub mod Offsets
pub mod Anchors
use antminer_chip_tuner.Floats.{Floats}
use antminer_chip_tuner.Prelude.{
  ℕ, zero, suc, ◌-◌, ◌*◌, max, min, Bool, true, false, Option, none, some, List, [], ◌∷◌, map, ◌==◌,
  ◌&&◌, ◌||◌, ltb, leb, if◌then◌else◌, length,
}
use antminer_chip_tuner.Prelude.Int.{ℤ, pos, negsuc, pos_part, sub_ℕ}
use antminer_chip_tuner.Profit.{ScoreContext}
use antminer_chip_tuner.Explore.Surface.{Key, key_eq, Cell, Surface, by_key, top_fine_anchors}
use antminer_chip_tuner.Explore.Coarse.{sweep}

-- set and sorted(..., reverse=True), on keys' parts: descending, each number once.
unfoldable pub insert_desc : ℕ → List ℕ → List ℕ
insert_desc x [] = x ∷ []
insert_desc x (y ∷ ys) =
    let rest = insert_desc x ys in
    if x == y then y ∷ ys else if ltb y x then x ∷ y ∷ ys else y ∷ rest

unfoldable pub sort_desc : List ℕ → List ℕ
sort_desc [] = []
sort_desc (x ∷ xs) = insert_desc x (sort_desc xs)

-- max(0, min(n, r))
abbrev pub clamp_count : ℕ → ℤ → ℕ
clamp_count n (pos r) = min n r
clamp_count n (negsuc r) = 0

-- min(list) and list[-1] of an ascending axis, 0 for the empty one
abbrev pub first_of : List ℕ → ℕ
first_of [] = 0
first_of (x ∷ xs) = x

unfoldable pub last_of : List ℕ → ℕ
last_of [] = 0
last_of (x ∷ []) = x
last_of (x ∷ y ∷ ys) = last_of (y ∷ ys)

module _ (fl : Floats) where
  -- min(a, b) of Python: the first, unless the second is below it.
  abbrev pub fmin : fl.Num → fl.Num → fl.Num
  fmin a b = if fl.ltb b a then b else a

  -- max(a, b) of Python
  abbrev pub fmax : fl.Num → fl.Num → fl.Num
  fmax a b = if fl.ltb a b then b else a

  -- float(n) of an integer
  abbrev pub of_ℤ : ℤ → fl.Num
  of_ℤ (pos n) = fl.of_ℕ n
  of_ℤ (negsuc n) = fl.neg (fl.of_ℕ (suc n))

  -- The frequency in MHz of a key.
  abbrev pub mhz : ℕ → fl.Num
  mhz f = fl.div (fl.of_ℕ f) (fl.of_ℕ 1000)

  -- min(constraints) if constraints else 0
  unfoldable pub spacing_of : fl.Num → fl.Num → ℕ → ℕ → fl.Num
  spacing_of below above zero zero = fl.of_ℕ 0
  spacing_of below above (suc b) zero = fl.div below (fl.of_ℕ (suc b))
  spacing_of below above zero (suc a) = fl.div above (fl.of_ℕ (suc a))
  spacing_of below above (suc b) (suc a) =
      fmin (fl.div below (fl.of_ℕ (suc b))) (fl.div above (fl.of_ℕ (suc a)))

  -- [anchor + (i - n_below) * spacing for i in range(i, i + n)]
  unfoldable pub positions : fl.Num → fl.Num → ℕ → ℕ → ℕ → List fl.Num
  positions anchor spacing n_below i zero = []
  positions anchor spacing n_below i (suc n) =
      fl.add anchor (fl.mul (of_ℤ (sub_ℕ i n_below)) spacing)
      ∷ positions anchor spacing n_below (suc i) n

  -- What the search reads: the ascending axes, the scoring context, the settings and the PSU limit.
  pub record FineConfig : Type 0 where
    pub v_grid : List ℕ
    pub f_grid : List ℕ
    pub ctx : ScoreContext fl
    pub fine_count : ℕ  -- VF_EXPLORE_FINE_COUNT
    pub fine_top_k : ℕ  -- VF_FINE_TOP_K
    pub f_min : fl.Num  -- VF_EXPLORE_F_MIN
    pub f_max : fl.Num  -- VF_EXPLORE_F_MAX
    pub psu_max_mv : ℕ

  -- `round` is the built-in round of a float to an integer.
  module _ (round : fl.Num → ℤ) where
    unfoldable pub frac_below : fl.Num → fl.Num → fl.Num
    frac_below below above =
        if fl.ltb (fl.of_ℕ 0) (fl.add below above)
        then fl.div below (fl.add below above)
        else fl.div (fl.of_ℕ 1) (fl.of_ℕ 2)

    -- How many of the n_total cells beside the anchor lie below it.
    unfoldable pub count_below : fl.Num → fl.Num → ℕ → ℕ
    count_below below above n_total =
        clamp_count n_total (round (fl.mul (fl.of_ℕ n_total) (frac_below below above)))

    unfoldable pub spread : fl.Num → fl.Num → fl.Num → ℕ → List fl.Num
    spread anchor below above n =
        let n_below = count_below below above (n - 1) in
        positions anchor (spacing_of below above n_below (n - 1 - n_below)) n_below 0 n

    -- The room on each side is at most (n - 1) / (2 n) of a step, and ends at the bound.
    unfoldable pub fine_axis_offsets : fl.Num → fl.Num → fl.Num → fl.Num → ℕ → List fl.Num
    fine_axis_offsets anchor step lo_bound hi_bound n =
        let max_off = fl.mul (fl.div (fl.of_ℕ (n - 1)) (fl.of_ℕ (2 * n))) step in
        let below = fmin max_off (fl.sub anchor lo_bound) in
        let above = fmin max_off (fl.sub hi_bound anchor) in
        if leb n 1
        then anchor ∷ []
        else if fl.leb below (fl.of_ℕ 0) && fl.leb above (fl.of_ℕ 0)
        then anchor ∷ []
        else spread anchor below above n

    -- int(round(v))
    abbrev pub snap_v : fl.Num → ℕ
    snap_v v = pos_part (round v)

    -- round(round(f / 3.125) * 3.125, 3), in kHz
    abbrev pub snap_f : fl.Num → ℕ
    snap_f f = pos_part (round (fl.div f (mhz 3125))) * 3125

    -- (last - first) / max(1, len - 1)
    abbrev pub step_of : fl.Num → fl.Num → ℕ → fl.Num
    step_of first last n = fl.div (fl.sub last first) (fl.of_ℕ (max 1 (n - 1)))

    -- FIRMWARE_FREQ_MIN_MHZ
    abbrev pub firmware_freq_min : fl.Num
    firmware_freq_min = fl.of_ℕ 50

    unfoldable pub v_fine : FineConfig → Key → List ℕ
    v_fine cfg a =
        let v_min = first_of cfg.v_grid in
        let v_max = last_of cfg.v_grid in
        sort_desc (
          map snap_v (
            fine_axis_offsets (fl.of_ℕ a.0)
              (step_of (fl.of_ℕ v_min) (fl.of_ℕ v_max) (length cfg.v_grid))
              (fl.of_ℕ (max 11877 v_min)) (fl.of_ℕ (min cfg.psu_max_mv v_max)) cfg.fine_count))

    unfoldable pub f_fine : FineConfig → Key → List ℕ
    f_fine cfg a = sort_desc (
        map snap_f (
          fine_axis_offsets (mhz a.1)
            (step_of (mhz (first_of cfg.f_grid)) (mhz (last_of cfg.f_grid)) (length cfg.f_grid))
            (fmax firmware_freq_min cfg.f_min) cfg.f_max cfg.fine_count))
