-- ===== src/ChipTune/Polish/Safety.antt =====
-- What no round of the polish breaks.
use antminer_chip_tuner.Prelude.{
  ℕ, zero, suc, ◌+◌, ◌-◌, ◌≤◌, ◌<◌, ◌≡◌, refl, max, Bool, true, false, Option, arith, get_elem?,
  set, length, get_elem?-lt, Bool-cases, Option-cases, ◌⊎◌, inl, inr,
}
use antminer_chip_tuner.ChipTune.Chips.{
  Chips, Limits, TuneConfig, limits, snap, is_parked, candidate_spread,
}
use antminer_chip_tuner.ChipTune.Profiling.Boards.{
  Runs, IsBounded, IsTogether, moved-IsBounded, moved-Runs,
}
use antminer_chip_tuner.ChipTune.Polish.{
  Drops, try_drop, count_drop, polish_chip, polish_from, polish_board,
}

-- A decrement either changes nothing or moves the chip down within the limits.
try_drop_cases :
    (lim : Limits) (i cur : ℕ) (c : Chips)
    → let t = snap (max lim.f_min_eff (cur - lim.step)) in
      (try_drop lim i cur c ≡ (c, false))
      ⊎ ((try_drop lim i cur c ≡ (record c { freqs = set c.freqs i t }, true))
          × (t < cur)
          × (candidate_spread c i t ≤ lim.spread))
unfolding try_drop
try_drop_cases lim i cur c = ground arith

pub snap_mono : (a b : ℕ) → a ≤ b → snap a ≤ snap b
unfolding snap
snap_mono a b h = omega arith

pub snap-snap : (a : ℕ) → snap (snap a) ≡ snap a
unfolding snap
snap-snap a = omega arith

-- The effective least frequency lies on the firmware grid.
pub snap-limits :
    (cfg : TuneConfig) (step : ℕ) → snap (limits cfg step).f_min_eff ≡ (limits cfg step).f_min_eff
unfolding snap limits
snap-limits cfg step = omega arith

-- The board `d` has no chip faster than in `c`, and none newly parked or freed.
pub record IsLowered (c d : Chips) : Type 0 where
  pub parked : d.parked ≡ c.parked
  pub lowered : (i g : ℕ) → Runs d i g → (f : ℕ) × Runs c i f × (g ≤ f)

-- What a board keeps in a polish round that began from `c`.
record Polished (c : Chips) (lo : ℕ) (lim : Limits) (d : Chips) : Type 0 where
  bounded : IsBounded lo lim d
  together : IsTogether lim d
  below : IsLowered c d

try_drop-Polished :
    (c : Chips) (lo : ℕ) (lim : Limits) (i cur : ℕ) (d : Chips)
    → lo ≤ lim.f_min_eff
    → snap lim.f_min_eff ≡ lim.f_min_eff
    → Polished c lo lim d
    → Runs d i cur
    → Polished c lo lim (try_drop lim i cur d).0
unfolding candidate_spread
try_drop-Polished c lo lim i cur d w grid s r = elim (try_drop_cases lim i cur d) [
  | inl e ↦ rw e s
  | inr (e, down, close) ↦
      let t : ℕ = snap (max lim.f_min_eff (cur - lim.step)) in
      let high : lim.f_min_eff ≤ t =
        omega (arith, grid, snap_mono lim.f_min_eff (max lim.f_min_eff (cur - lim.step))) in
      rw e (record {
        bounded =
            moved-IsBounded lo lim d i cur t s.bounded r (omega (arith, s.bounded.clamped i cur r))
              (λ m p. omega (arith, s.bounded.bracketed i cur m r p));
        together = record { together = close };
        below = record {
          parked = s.below.parked;
          lowered = λ j g q. elim (moved-Runs d i t j g (get_elem?-lt d.freqs i r.at) q) [
            | inl (p, q) ↦
                let (f, was, le) = s.below.lowered i cur r in
                (f, rw (← p) was, omega (arith, le, q))
            | inr old ↦ s.below.lowered j g old
          ];
        };
      })
]

chips-count_drop : (n : ℕ) (r : Chips × Bool) → (count_drop n r).chips ≡ r.0
unfolding count_drop
chips-count_drop n (c, true) = refl
chips-count_drop n (c, false) = refl

polish_chip-Polished :
    (c : Chips) (lo : ℕ) (lim : Limits) (low : ℕ → Option Bool) (i : ℕ) (t : Drops)
    → lo ≤ lim.f_min_eff
    → snap lim.f_min_eff ≡ lim.f_min_eff
    → Polished c lo lim t.chips
    → Polished c lo lim (polish_chip lim low i t).chips
unfolding polish_chip
polish_chip-Polished c lo lim low i t w grid s = elim (Bool-cases (is_parked i t.chips.parked)) [
  | inl p ↦ rw p s
  | inr p ↦ elim (Option-cases (low i)) [
    | inl e ↦ rw (p, e) s
    | inr (false, e) ↦ rw (p, e) s
    | inr (true, e) ↦ elim (Option-cases (get_elem? t.chips.freqs i)) [
      | inl n ↦ rw (p, e, n) s
      | inr (cur, q) ↦
          rw (p, e, q, chips-count_drop)
            (try_drop-Polished c lo lim i cur t.chips w grid s (record { alive = p; at = q }))
    ]
  ]
]

polish_from-Polished :
    (c : Chips) (lo : ℕ) (lim : Limits) (low : ℕ → Option Bool) (k i : ℕ) (t : Drops)
    → lo ≤ lim.f_min_eff
    → snap lim.f_min_eff ≡ lim.f_min_eff
    → Polished c lo lim t.chips
    → Polished c lo lim (polish_from lim low k i t).chips
unfolding polish_from
polish_from-Polished c lo lim low zero i t w grid s = s
polish_from-Polished c lo lim low (suc k) i t w grid s =
    polish_from-Polished c lo lim low k (i + 1) (polish_chip lim low i t) w grid
      (polish_chip-Polished c lo lim low i t w grid s)

IsLowered-refl : (c : Chips) → IsLowered c c
IsLowered-refl c = record { parked = refl; lowered = λ i g q. (g, q, omega arith) }

-- Under the limits that the configuration gives, a polish round over a board within them raises no
-- chip that is not parked, takes none below the least frequency, and keeps the spread cap.
pub polish_board_safe :
    (cfg : TuneConfig) (low : ℕ → Option Bool) (c : Chips)
    → let lim = limits cfg cfg.polish_step in
      IsBounded lim.f_min_eff lim c
      → IsTogether lim c
      → IsLowered c (polish_board lim low c).chips
        × IsBounded lim.f_min_eff lim (polish_board lim low c).chips
        × IsTogether lim (polish_board lim low c).chips
unfolding polish_board
polish_board_safe cfg low c b s =
    let lim = limits cfg cfg.polish_step in
    let done =
      polish_from-Polished c lim.f_min_eff lim low (length c.freqs) 0
        (record { chips = c; drops = 0 }) (omega arith) (snap-limits cfg cfg.polish_step)
        (record { bounded = b; together = s; below = IsLowered-refl c }) in
    (done.below, done.bounded, done.together)
