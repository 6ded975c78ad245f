-- ===== src/ChipTune/Profiling/Safety.antt =====
-- What no round of Phase 3 breaks.
use antminer_chip_tuner.Prelude.{
  ℕ, zero, suc, ◌+◌, ◌≤◌, ◌<◌, ◌≡◌, refl, Bool, true, false, Option, some, arith, get_elem?, set,
  length, Bool-cases, Option-cases, ◌-◌, ◌⊎◌, inl, inr,
}
use antminer_chip_tuner.ChipTune.Chips.{snap, Chips, Limits, is_parked, cap_of, candidate_spread}
use antminer_chip_tuner.ChipTune.Profiling.Boards.{
  Runs, IsBounded, IsTogether, within_spread, moved-IsBounded, noted-IsBounded,
}
use antminer_chip_tuner.ChipTune.Profiling.{
  Verdict, stable, hold, unstable, Tally, is_capped, lower_cap, try_up, try_down, act, count_move,
  visit_chip, visit_from, visit_board,
}

-- An upward move either changes nothing or meets every condition on its target.
pub try_up_cases :
    (lim : Limits) (i cur : ℕ) (c : Chips)
    → let t = snap (cur + lim.step) in
      (try_up lim i cur c ≡ (c, false))
      ⊎ ((try_up lim i cur c ≡ (record c { freqs = set c.freqs i t }, true))
          × (t ≤ lim.f_max_eff)
          × (cur < t)
          × (is_capped (cap_of c i) t ≡ false)
          × (candidate_spread c i t ≤ lim.spread))
unfolding try_up
try_up_cases lim i cur c = ground arith

abbrev pub noted : Chips → ℕ → ℕ → Chips
noted c i cur = record c { chip_max = set c.chip_max i (lower_cap (cap_of c i) cur) }

-- A downward move records the unstable frequency, and perhaps moves to a target below it.
pub try_down_cases :
    (lim : Limits) (i cur : ℕ) (c : Chips)
    → let t = snap (cur - lim.step) in
      (try_down lim i cur c ≡ (noted c i cur, false))
      ⊎ ((try_down lim i cur c ≡ (record (noted c i cur) { freqs = set c.freqs i t }, true))
          × (lim.f_min_eff ≤ t)
          × (t < cur)
          × (candidate_spread c i t ≤ lim.spread))
unfolding try_down
try_down_cases lim i cur c = ground arith

not_capped : (o : Option ℕ) (t m : ℕ) → is_capped o t ≡ false → o ≡ some m → t < m
unfolding is_capped
not_capped o t m h e = ground arith

try_up-IsBounded :
    (lo : ℕ) (lim : Limits) (i cur : ℕ) (c : Chips)
    → IsBounded lo lim c
    → Runs c i cur
    → IsBounded lo lim (try_up lim i cur c).0
try_up-IsBounded lo lim i cur c s r = elim (try_up_cases lim i cur c) [
  | inl e ↦ rw e s
  | inr (e, high, up, free, close) ↦ rw e (
      moved-IsBounded lo lim c i cur (snap (cur + lim.step)) s r (omega (arith, s.clamped i cur r))
        (λ m p. omega (arith, not_capped (cap_of c i) (snap (cur + lim.step)) m free p)))
]

try_down-IsBounded :
    (lo : ℕ) (lim : Limits) (i cur : ℕ) (c : Chips)
    → lo ≤ lim.f_min_eff
    → IsBounded lo lim c
    → Runs c i cur
    → IsBounded lo lim (try_down lim i cur c).0
try_down-IsBounded lo lim i cur c w s r =
    let kept = noted-IsBounded lo lim c i cur s r in
    let still : Runs (noted c i cur) i cur = record { alive = r.alive; at = r.at } in
    elim (try_down_cases lim i cur c) [
      | inl e ↦ rw e kept
      | inr (e, low, down, close) ↦ rw e (
          moved-IsBounded lo lim (noted c i cur) i cur (snap (cur - lim.step)) kept still
            (omega (arith, s.clamped i cur r))
            (λ m p. omega (arith, kept.bracketed i cur m still p)))
    ]

try_up-IsTogether :
    (lim : Limits) (i cur : ℕ) (c : Chips)
    → IsTogether lim c
    → IsTogether lim (try_up lim i cur c).0
unfolding candidate_spread
try_up-IsTogether lim i cur c s = elim (try_up_cases lim i cur c) [
  | inl e ↦ rw e s
  | inr (e, high, up, free, close) ↦ rw e (record { together = close })
]

try_down-IsTogether :
    (lim : Limits) (i cur : ℕ) (c : Chips)
    → IsTogether lim c
    → IsTogether lim (try_down lim i cur c).0
unfolding candidate_spread
try_down-IsTogether lim i cur c s = elim (try_down_cases lim i cur c) [
  | inl e ↦ rw e (record { together = s.together })
  | inr (e, low, down, close) ↦ rw e (record { together = close })
]

act-IsTogether :
    (lim : Limits) (v : Verdict) (i cur : ℕ) (c : Chips)
    → IsTogether lim c
    → IsTogether lim (act lim v i cur c).0
unfolding act
act-IsTogether lim stable i cur c s = try_up-IsTogether lim i cur c s
act-IsTogether lim unstable i cur c s = try_down-IsTogether lim i cur c s
act-IsTogether lim hold i cur c s = s

act-IsBounded :
    (lo : ℕ) (lim : Limits) (v : Verdict) (i cur : ℕ) (c : Chips)
    → lo ≤ lim.f_min_eff
    → IsBounded lo lim c
    → Runs c i cur
    → IsBounded lo lim (act lim v i cur c).0
unfolding act
act-IsBounded lo lim stable i cur c w s r = try_up-IsBounded lo lim i cur c s r
act-IsBounded lo lim unstable i cur c w s r = try_down-IsBounded lo lim i cur c w s r
act-IsBounded lo lim hold i cur c w s r = s

chips-count_move : (m a : ℕ) (r : Chips × Bool) → (count_move m a r).chips ≡ r.0
unfolding count_move
chips-count_move m a (c, true) = refl
chips-count_move m a (c, false) = refl

-- A predicate on boards that every single move keeps is kept by a round.
module _ (P : Chips → Type 0) (lim : Limits)
    (keep : (v : Verdict) (i cur : ℕ) (c : Chips)
      → P c
      → Runs c i cur
      → P (act lim v i cur c).0) where
  visit_chip_keeps :
      (verdict : ℕ → Option Verdict) (i : ℕ) (t : Tally)
      → P t.chips
      → P (visit_chip lim verdict i t).chips
  unfolding visit_chip
  visit_chip_keeps verdict i t s = elim (Bool-cases (is_parked i t.chips.parked)) [
    | inl p ↦ rw p s
    | inr p ↦ elim (Option-cases (verdict i)) [
      | inl e ↦ rw (p, e) s
      | inr (v, e) ↦ elim (Option-cases (get_elem? t.chips.freqs i)) [
        | inl n ↦ rw (p, e, n) s
        | inr (cur, q) ↦
            rw (p, e, q, chips-count_move) (keep v i cur t.chips s (record { alive = p; at = q }))
      ]
    ]
  ]

  visit_from_keeps :
      (verdict : ℕ → Option Verdict) (k i : ℕ) (t : Tally)
      → P t.chips
      → P (visit_from lim verdict k i t).chips
  unfolding visit_from
  visit_from_keeps verdict zero i t s = s
  visit_from_keeps verdict (suc k) i t s =
      visit_from_keeps verdict k (i + 1) (visit_chip lim verdict i t)
        (visit_chip_keeps verdict i t s)

  pub visit_board_keeps :
      (verdict : ℕ → Option Verdict) (t : Tally) → P t.chips → P (visit_board lim verdict t).chips
  unfolding visit_board
  visit_board_keeps verdict t s = visit_from_keeps verdict (length t.chips.freqs) 0 t s

-- Whatever the health verdicts, a round over a board moves no chip that is not parked below the
-- least frequency (or below any bound `lo` under it that held before), above the greatest one, or
-- above a frequency at which it was found unstable.
pub visit_board-IsBounded :
    (lo : ℕ) (lim : Limits) (verdict : ℕ → Option Verdict) (t : Tally)
    → lo ≤ lim.f_min_eff
    → IsBounded lo lim t.chips
    → IsBounded lo lim (visit_board lim verdict t).chips
visit_board-IsBounded lo lim verdict t w s =
    visit_board_keeps (IsBounded lo lim) lim (λ v i cur c b r. act-IsBounded lo lim v i cur c w b r)
      verdict t s

-- Whatever the health verdicts, a round over a board on which any two chips that are not parked are
-- at most CHIP_FREQ_SPREAD_MHZ apart leaves them so.
pub visit_board-within_spread :
    (lim : Limits) (verdict : ℕ → Option Verdict) (t : Tally) (i j f g : ℕ)
    → IsTogether lim t.chips
    → Runs (visit_board lim verdict t).chips i f
    → Runs (visit_board lim verdict t).chips j g
    → f ≤ g + lim.spread
visit_board-within_spread lim verdict t i j f g s p q =
    within_spread lim (visit_board lim verdict t).chips i j f g
      (visit_board_keeps (IsTogether lim) lim (λ v k cur c b r. act-IsTogether lim v k cur c b)
        verdict t s)
      p q
