-- ===== src/Config/Sanitize/Clamped.antt =====
-- A bucket after its numbers were clamped.
use antminer_chip_tuner.Floats.{Floats}
use antminer_chip_tuner.Prelude.{Bool, true, Option, none, some, ◌&&◌, not}
use antminer_chip_tuner.Prelude.Dict.{Dict}
use antminer_chip_tuner.Config.Sanitize.{Setting, number_of, clamped}

module _ (fl : Floats) where
  -- A lower and an upper bound.
  abbrev pub Range : Type 0
  Range = fl.Num × fl.Num

  -- What becomes of a value: it is clamped if its key has bounds.
  abbrev pub bounded : Option Range → Option (Setting fl) → Option (Setting fl)
  bounded none o = o
  bounded (some b) none = none
  bounded (some b) (some v) = some (clamped fl b v)

  -- A value that is no number, or a number that is neither below the lower nor above the upper bound.
  abbrev pub is_number_within : Range → Option fl.Num → Bool
  is_number_within b none = true
  is_number_within b (some n) = not (fl.ltb n b.0) && not (fl.ltb b.1 n)

  unfoldable pub is_within : Range → Setting fl → Bool
  is_within b v = is_number_within b (number_of fl v)
