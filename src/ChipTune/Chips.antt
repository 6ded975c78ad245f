-- ===== src/ChipTune/Chips.antt =====
-- One board's chips: frequencies, known-unstable frequencies and parked chips; and the limits on
-- frequencies that both phases of chip_tune_loop.py compute from the configuration.
pub mod Facts
use antminer_chip_tuner.Prelude.{
  ℕ, ◌+◌, ◌-◌, ◌*◌, ◌/◌, max, min, Bool, true, false, Option, none, some, List, [], ◌∷◌, ◌==◌, ◌||◌,
  ltb, if◌then◌else◌, get_elem?, set,
}

-- round(f / 3.125) * 3.125. A tie would need an odd number of half kHz, so it never occurs.
unfoldable pub snap : ℕ → ℕ
snap khz = (2 * khz + 3125) / 6250 * 3125

-- FIRMWARE_FREQ_MIN_MHZ
abbrev pub firmware_freq_min : ℕ
firmware_freq_min = 50000

-- The configuration that the two phases read (kHz), and the effective limits.
pub record TuneConfig : Type 0 where
  pub f_min : ℕ  -- VF_EXPLORE_F_MIN
  pub f_max : ℕ  -- VF_EXPLORE_F_MAX
  pub spread : ℕ  -- CHIP_FREQ_SPREAD_MHZ
  pub tune_step : ℕ  -- CHIP_TUNE_STEP_MHZ
  pub polish_step : ℕ  -- STABILITY_POLISH_STEP_MHZ

pub record Limits : Type 0 where
  pub f_min_eff : ℕ
  pub f_max_eff : ℕ
  pub spread : ℕ
  pub step : ℕ

unfoldable pub limits : TuneConfig → ℕ → Limits
limits cfg step = record {
  f_min_eff = max (snap cfg.f_min) firmware_freq_min;
  f_max_eff = snap cfg.f_max;
  spread = cfg.spread;
  step = max 3125 (snap step);
}

pub record Chips : Type 0 where
  pub freqs : List ℕ  -- stable_freq_arrays[b]
  pub chip_max : List (Option ℕ)  -- chip_max[b]
  pub parked : List ℕ  -- parked_chips[b]

-- i in parked
unfoldable pub is_parked : ℕ → List ℕ → Bool
is_parked i [] = false
is_parked i (j ∷ js) = i == j || is_parked i js

-- The known-unstable frequency of chip `i`, if there is one.
unfoldable pub cap_of : Chips → ℕ → Option ℕ
cap_of c i = elim (get_elem? c.chip_max i) [ none ↦ none | some m ↦ m ]

-- The frequencies of the chips that are not parked, the first of the list being chip `j`.
unfoldable pub alive_freqs : List ℕ → ℕ → List ℕ → List ℕ
alive_freqs parked j [] = []
alive_freqs parked j (f ∷ fs) =
    let rest = alive_freqs parked (j + 1) fs in if is_parked j parked then rest else f ∷ rest

unfoldable pub list_max : List ℕ → ℕ
list_max [] = 0
list_max (x ∷ xs) = max x (list_max xs)

unfoldable pub list_min : List ℕ → ℕ
list_min [] = 0
list_min (x ∷ []) = x
list_min (x ∷ y ∷ ys) = min x (list_min (y ∷ ys))

-- max(candidate) - min(candidate)
unfoldable pub spread_of : List ℕ → ℕ
spread_of xs = list_max xs - list_min xs

-- The spread of the board if chip `i` ran at `target`.
unfoldable pub candidate_spread : Chips → ℕ → ℕ → ℕ
candidate_spread c i target = spread_of (alive_freqs c.parked 0 (set c.freqs i target))
