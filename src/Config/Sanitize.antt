-- ===== src/Config/Sanitize.antt =====
-- _apply_bounds_to_bucket and _apply_renames_and_sanitizers of tuner_app/config/persistence.py: what
-- is done to a bucket of settings that was read from the disk. Arguments stand for CONFIG_BOUNDS and
-- for `int` on a text, and the numbers of Python that are clamped are those of Floats.
pub mod Clamped
pub mod FineCount
use antminer_chip_tuner.Floats.{Floats}
use antminer_chip_tuner.Prelude.{
  ℕ, ◌+◌, ◌-◌, String, Bool, true, false, Option, none, some, List, [], ◌∷◌, ◌||◌, ◌&&◌, not,
  is_some, ◌==◌, ltb, if◌then◌else◌,
}
use antminer_chip_tuner.Prelude.Int.{ℤ, pos, negsuc}
use antminer_chip_tuner.Prelude.Dict.{Dict, get, put, pop}
use antminer_chip_tuner.Config.{Value, null, flag, number, text}

module _ (fl : Floats) where
  -- A value of a bucket that is to be clamped. `fl.Num` has the integers and the floats of Python,
  -- which it compares by their value.
  pub data Setting : Type 0 where
    nothing container : Setting
    boolean : Bool → Setting
    real : fl.Num → Setting
    word : String → Setting

  -- The number of a value for which isinstance(v, (int, float)) holds: True and False count as well.
  abbrev pub number_of : Setting → Option fl.Num
  number_of nothing = none
  number_of container = none
  number_of (boolean true) = some (fl.of_ℕ 1)
  number_of (boolean false) = some (fl.of_ℕ 0)
  number_of (real n) = some n
  number_of (word t) = none

  -- max(lo, min(hi, v)) for a `v` of the number `n`: of equal ones the bound is taken.
  unfoldable pub clamp : fl.Num × fl.Num → Setting → fl.Num → Setting
  clamp (lo, hi) v n =
      if fl.ltb n hi
      then if fl.ltb lo n then v else real lo
      else if fl.ltb lo hi
      then real hi
      else real lo

  unfoldable pub clamped : fl.Num × fl.Num → Setting → Setting
  clamped b v = elim (number_of v) [ none ↦ v | some n ↦ clamp b v n ]

  abbrev pub clamp_at : String → fl.Num × fl.Num → Option Setting → Dict Setting → Dict Setting
  clamp_at k b none bucket = bucket
  clamp_at k b (some v) bucket = put k (clamped b v) bucket

  -- The loop over CONFIG_BOUNDS
  unfoldable pub apply_bounds_to_bucket : Dict (fl.Num × fl.Num) → Dict Setting → Dict Setting
  apply_bounds_to_bucket [] bucket = bucket
  apply_bounds_to_bucket ((k, b) ∷ bounds) bucket =
      apply_bounds_to_bucket bounds (clamp_at k b (get k bucket) bucket)

-- BASELINE_STABILIZE_WAIT becomes STABILIZE_WAIT, unless that is there.
unfoldable pub rename_wait : Dict Value → Dict Value
rename_wait d = elim (get "BASELINE_STABILIZE_WAIT" d) [
  | none ↦ d
  | some v ↦
      if is_some (get "STABILIZE_WAIT" d)
      then d
      else put "STABILIZE_WAIT" v (pop "BASELINE_STABILIZE_WAIT" d)
]

-- abs(v - fc)
abbrev pub distance : ℕ → ℕ → ℕ
distance v fc = v - fc + (fc - v)

-- min(v ∷ vs, key=lambda v: abs(v - fc)): of equal ones the first.
unfoldable pub closest : ℕ → ℕ → List ℕ → ℕ
closest fc v [] = v
closest fc v (w ∷ ws) = closest fc (if ltb (distance w fc) (distance v fc) then w else v) ws

abbrev pub fine_counts : List ℕ
fine_counts = 5 ∷ 9 ∷ 25 ∷ 49 ∷ []

-- fc in (0, 3, 5, 9, 25, 49)
unfoldable pub is_fine_count : ℤ → Bool
is_fine_count (negsuc n) = false
is_fine_count (pos n) = n == 0 || n == 3 || n == 5 || n == 9 || n == 25 || n == 49

-- 0 if fc < 2 else the closest count
unfoldable pub nearest_count : ℤ → ℕ
nearest_count (negsuc n) = 0
nearest_count (pos n) = if ltb n 2 then 0 else closest n 3 fine_counts

module _ (int_of_text : String → Option ℤ) where
  -- int(v), 0 if that raises
  unfoldable pub fine_count_of : Value → ℤ
  fine_count_of null = pos 0
  fine_count_of (flag true) = pos 1
  fine_count_of (flag false) = pos 0
  fine_count_of (number n) = n
  fine_count_of (text t) = elim (int_of_text t) [ none ↦ pos 0 | some n ↦ n ]

  -- A value that reads as a count is left as it is.
  unfoldable pub sanitized : Value → Value
  sanitized v =
      if is_fine_count (fine_count_of v) then v else number (pos (nearest_count (fine_count_of v)))

  abbrev pub sanitize_at : Option Value → Dict Value → Dict Value
  sanitize_at none d = d
  sanitize_at (some v) d = put "VF_EXPLORE_FINE_COUNT" (sanitized v) d

  unfoldable pub apply_renames_and_sanitizers : Dict Value → Dict Value
  apply_renames_and_sanitizers d =
      let renamed = rename_wait d in sanitize_at (get "VF_EXPLORE_FINE_COUNT" renamed) renamed
