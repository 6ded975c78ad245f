-- ===== src/ChipTune/Polish.antt =====
-- phase3b_polish: the decrement of one chip, and one round over a board.
pub mod Safety
pub mod Rounds
use antminer_chip_tuner.Floats.{Floats}
use antminer_chip_tuner.Prelude.{
  ℕ, zero, suc, ◌+◌, ◌-◌, max, Bool, true, false, Option, none, some, List, not, ltb, leb,
  if◌then◌else◌, get_elem?, set, length,
}
use antminer_chip_tuner.ChipTune.Chips.{Chips, Limits, snap, is_parked, candidate_spread}

-- Whether a chip's health fell below its baseline by more than the tolerance; none beyond the end
-- of either score list.
unfoldable pub fallen : (fl : Floats) → fl.Num → List fl.Num → List fl.Num → ℕ → Option Bool
fallen fl down_tol health baseline i = elim (get_elem? health i) [
  | none ↦ none
  | some score ↦ elim (get_elem? baseline i) [
    | none ↦ none
    | some base ↦ some (not (fl.leb (fl.sub base down_tol) score))
  ]
]

unfoldable pub try_drop : Limits → ℕ → ℕ → Chips → Chips × Bool
try_drop lim i cur c =
    let target = snap (max lim.f_min_eff (cur - lim.step)) in
    if leb cur target
    then (c, false)
    else if ltb lim.spread (candidate_spread c i target)
    then (c, false)
    else (record c { freqs = set c.freqs i target }, true)

pub record Drops : Type 0 where
  pub chips : Chips
  pub drops : ℕ  -- per_board_drops[b]

unfoldable pub count_drop : ℕ → Chips × Bool → Drops
count_drop n (c, true) = record { chips = c; drops = n + 1 }
count_drop n (c, false) = record { chips = c; drops = n }

-- The body of the loop over one board's chips, at chip `i`.
unfoldable pub polish_chip : Limits → (ℕ → Option Bool) → ℕ → Drops → Drops
polish_chip lim low i t = if is_parked i t.chips.parked then t else elim (low i) [
  | none ↦ t
  | some false ↦ t
  | some true ↦ elim (get_elem? t.chips.freqs i) [
    | none ↦ t
    | some cur ↦ count_drop t.drops (try_drop lim i cur t.chips)
  ]
]

unfoldable pub polish_from : Limits → (ℕ → Option Bool) → ℕ → ℕ → Drops → Drops
polish_from lim low zero i t = t
polish_from lim low (suc k) i t = polish_from lim low k (i + 1) (polish_chip lim low i t)

unfoldable pub polish_board : Limits → (ℕ → Option Bool) → Chips → Drops
polish_board lim low c = polish_from lim low (length c.freqs) 0 (record { chips = c; drops = 0 })
