-- ===== src/ChipTune/Profiling.antt =====
-- phase3_profiling: the move of one chip, and one round over a board.
pub mod Boards
pub mod Safety
pub mod Frozen
use antminer_chip_tuner.Floats.{Floats}
use antminer_chip_tuner.Prelude.{
  ℕ, zero, suc, ◌+◌, ◌-◌, Bool, true, false, Option, none, some, List, ◌||◌, ltb, leb,
  if◌then◌else◌, get_elem?, set, length,
}
use antminer_chip_tuner.ChipTune.Chips.{Chips, Limits, snap, is_parked, cap_of, candidate_spread}

pub data Verdict : Type 0 where
  stable hold unstable : Verdict

-- The comparison of one chip's averaged health score with its baseline.
module _ (fl : Floats) where
  unfoldable pub classify : fl.Num → fl.Num → fl.Num → fl.Num → Verdict
  classify up_tol down_tol score baseline =
      if fl.leb (fl.sub baseline up_tol) score
      then stable
      else if fl.ltb score (fl.sub baseline down_tol)
      then unstable
      else hold

  -- A chip beyond the end of either score list has no verdict.
  unfoldable pub verdicts : fl.Num → fl.Num → List fl.Num → List fl.Num → ℕ → Option Verdict
  verdicts up_tol down_tol health baseline i = elim (get_elem? health i) [
    | none ↦ none
    | some score ↦ elim (get_elem? baseline i) [
      | none ↦ none
      | some base ↦ some (classify up_tol down_tol score base)
    ]
  ]

-- cap is not None and target >= cap
unfoldable pub is_capped : Option ℕ → ℕ → Bool
is_capped none target = false
is_capped (some cap) target = leb cap target

-- chip_max[i] is None or cur < chip_max[i]
unfoldable pub lower_cap : Option ℕ → ℕ → Option ℕ
lower_cap none cur = some cur
lower_cap (some cap) cur = if ltb cur cap then some cur else some cap

-- A stable chip at `cur` tries one step up.
unfoldable pub try_up : Limits → ℕ → ℕ → Chips → Chips × Bool
try_up lim i cur c =
    let target = snap (cur + lim.step) in
    if ltb lim.f_max_eff target || leb target cur
    then (c, false)
    else if is_capped (cap_of c i) target
    then (c, false)
    else if ltb lim.spread (candidate_spread c i target)
    then (c, false)
    else (record c { freqs = set c.freqs i target }, true)

-- An unstable chip at `cur` has that frequency recorded, and tries one step down. Where the source
-- would go below 0 the step stops at 0, which is below the least frequency too.
unfoldable pub try_down : Limits → ℕ → ℕ → Chips → Chips × Bool
try_down lim i cur c =
    let noted : Chips = record c { chip_max = set c.chip_max i (lower_cap (cap_of c i) cur) } in
    let target = snap (cur - lim.step) in
    if ltb target lim.f_min_eff || leb cur target
    then (noted, false)
    else if ltb lim.spread (candidate_spread c i target)
    then (noted, false)
    else (record noted { freqs = set c.freqs i target }, true)

unfoldable pub act : Limits → Verdict → ℕ → ℕ → Chips → Chips × Bool
act lim stable i cur c = try_up lim i cur c
act lim unstable i cur c = try_down lim i cur c
act lim hold i cur c = (c, false)

pub record Tally : Type 0 where
  pub chips : Chips
  pub moved : ℕ  -- chips_moved
  pub alive : ℕ  -- total_alive

unfoldable pub count_move : ℕ → ℕ → Chips × Bool → Tally
count_move moved alive (c, true) = record { chips = c; moved = moved + 1; alive = alive }
count_move moved alive (c, false) = record { chips = c; moved = moved; alive = alive }

-- The body of the loop over one board's chips, at chip `i`.
unfoldable pub visit_chip : Limits → (ℕ → Option Verdict) → ℕ → Tally → Tally
visit_chip lim verdict i t = if is_parked i t.chips.parked then t else elim (verdict i) [
  | none ↦ t
  | some v ↦ elim (get_elem? t.chips.freqs i) [
    | none ↦ t
    | some cur ↦ count_move t.moved (t.alive + 1) (act lim v i cur t.chips)
  ]
]

-- The chips from `i` on, `k` of them.
unfoldable pub visit_from : Limits → (ℕ → Option Verdict) → ℕ → ℕ → Tally → Tally
visit_from lim verdict zero i t = t
visit_from lim verdict (suc k) i t = visit_from lim verdict k (i + 1) (visit_chip lim verdict i t)

unfoldable pub visit_board : Limits → (ℕ → Option Verdict) → Tally → Tally
visit_board lim verdict t = visit_from lim verdict (length t.chips.freqs) 0 t
