-- ===== src/ChipTune/Thermal.antt =====
-- handle_thermal_in_chip_tune of tuner_app/tuning_engine/monitor.py: what an emergency during Phase
-- 3 does to the frequencies. The commands that it sends to the miner are not modelled.
pub mod Bounds
use antminer_chip_tuner.Prelude.{
  ℕ, zero, suc, ◌+◌, ◌-◌, max, Bool, true, false, Option, none, some, List, [], ◌∷◌, ◌==◌, ◌||◌,
  not, get_elem?, set, length,
}
use antminer_chip_tuner.ChipTune.Chips.{Chips, firmware_freq_min, cap_of}
use antminer_chip_tuner.ChipTune.Profiling.{lower_cap}

-- The boards over the limit, and the chips over the limit as (board, chip).
pub record Emergency : Type 0 where
  pub boards : List ℕ
  pub chips : List (ℕ × ℕ)

-- One chip drops by `step` (FREQ_STEP_EMERGENCY), and its old frequency is recorded as unstable. The
-- flag says whether the frequency changed.
unfoldable pub throttle_at : ℕ → ℕ → Chips → Option ℕ → Chips × Bool
throttle_at step i c none = (c, false)
throttle_at step i c (some cur) =
    let new_freq : ℕ = max (cur - step) firmware_freq_min in
    (
      record c {
        freqs = set c.freqs i new_freq;
        chip_max = set c.chip_max i (lower_cap (cap_of c i) cur);
      },
      not (new_freq == cur),
    )

unfoldable pub throttle_chip : ℕ → ℕ → Chips → Chips × Bool
throttle_chip step i c = throttle_at step i c (get_elem? c.freqs i)

-- The chips from `i` on, `k` of them.
unfoldable pub throttle_from : ℕ → ℕ → ℕ → Chips × Bool → Chips × Bool
throttle_from step zero i r = r
throttle_from step (suc k) i (c, changed) =
    let (c', now) = throttle_chip step i c in throttle_from step k (i + 1) (c', changed || now)

unfoldable pub throttle_board : ℕ → Chips → Chips × Bool
throttle_board step c = throttle_from step (length c.freqs) 0 (c, false)

-- A change of board `b`, if there is such a board.
unfoldable pub change_at :
    ℕ → (Chips → Chips × Bool) → List Chips → Bool → Option Chips → List Chips × Bool
change_at b change boards changed none = (boards, changed)
change_at b change boards changed (some c) =
    let (c', now) = change c in (set boards b c', changed || now)

unfoldable pub at_board : ℕ → (Chips → Chips × Bool) → List Chips × Bool → List Chips × Bool
at_board b change (boards, changed) = change_at b change boards changed (get_elem? boards b)

unfoldable pub throttle_boards : ℕ → List ℕ → List Chips × Bool → List Chips × Bool
throttle_boards step [] r = r
throttle_boards step (b ∷ bs) r = throttle_boards step bs (at_board b (throttle_board step) r)

unfoldable pub throttle_chips : ℕ → List (ℕ × ℕ) → List Chips × Bool → List Chips × Bool
throttle_chips step [] r = r
throttle_chips step ((b, i) ∷ rest) r =
    throttle_chips step rest (at_board b (throttle_chip step i) r)

unfoldable pub handle_thermal : ℕ → Emergency → List Chips → List Chips × Bool
handle_thermal step em boards =
    throttle_chips step em.chips (throttle_boards step em.boards (boards, false))
