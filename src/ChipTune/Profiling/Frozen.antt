-- ===== src/ChipTune/Profiling/Frozen.antt =====
-- A board whose chips are too far apart is stuck.
use antminer_chip_tuner.Prelude.{
  ℕ, ◌+◌, ◌-◌, ◌≤◌, ◌<◌, ◌≡◌, refl, Option, some, arith, get_elem?, set, if◌then◌else◌,
  get_elem?-lt, ◌∙◌, inl, inr, ◌==◌,
}
use antminer_chip_tuner.ChipTune.Chips.{Chips, Limits, snap, candidate_spread}
use antminer_chip_tuner.ChipTune.Chips.Facts.{get_elem?-set, le-spread_of}
use antminer_chip_tuner.ChipTune.Profiling.{
  Verdict, stable, hold, unstable, Tally, try_up, try_down, act, visit_board,
}
use antminer_chip_tuner.ChipTune.Profiling.Boards.{Runs}
use antminer_chip_tuner.ChipTune.Profiling.Safety.{try_up_cases, try_down_cases, visit_board_keeps}

-- Some chip `fast` runs at `f` and some chip `slow` at `g`, further below than the spread cap, a
-- step and the rounding of a step.
pub record IsTorn (lim : Limits) (c : Chips) (fast slow f g : ℕ) : Type 0 where
  pub top : Runs c fast f
  pub bottom : Runs c slow g
  pub apart : g + lim.spread + lim.step + 1562 < f

snap_near : (x : ℕ) → (snap x ≤ x + 1562) × (x ≤ snap x + 1562)
unfolding snap
snap_near x = omega arith

-- What chip `j` runs at, once chip `i` is set to `t`.
after_set :
    (c : Chips) (i j t cur f : ℕ)
    → Runs c i cur
    → Runs c j f
    → get_elem? (set c.freqs i t) j ≡ some (if i == j then t else f)
after_set c i j t cur f r q =
    ground (arith, get_elem?-set c.freqs i j t (get_elem?-lt c.freqs i r.at), q.at)

parked-act :
    (lim : Limits) (v : Verdict) (i cur : ℕ) (c : Chips) → (act lim v i cur c).0.parked ≡ c.parked
unfolding act try_up try_down
parked-act lim stable i cur c = ground arith
parked-act lim unstable i cur c = ground arith
parked-act lim hold i cur c = refl

-- The frequencies and the parked chips are those of `b`.
record IsAsBefore (b : Chips) (c : Chips) : Type 0 where
  freqs : c.freqs ≡ b.freqs
  parked : c.parked ≡ b.parked

module _ (lim : Limits) (fast slow f g : ℕ) where
  -- A target within a step of a chip's frequency leaves the board too far apart.
  torn_candidate :
      (c : Chips) (i cur t : ℕ)
      → IsTorn lim c fast slow f g
      → Runs c i cur
      → t ≤ cur + lim.step + 1562
      → cur ≤ t + lim.step + 1562
      → lim.spread < candidate_spread c i t
  unfolding candidate_spread
  torn_candidate c i cur t torn r up down =
      let wide =
        le-spread_of c.parked (set c.freqs i t) fast slow (if i == fast then t else f)
          (if i == slow then t else g) (after_set c i fast t cur f r torn.top)
          (after_set c i slow t cur g r torn.bottom) torn.top.alive torn.bottom.alive in
      ground (arith, wide, torn.apart, r.at, torn.top.at, torn.bottom.at)

  act_torn :
      (v : Verdict) (i cur : ℕ) (c : Chips)
      → IsTorn lim c fast slow f g
      → Runs c i cur
      → (act lim v i cur c).0.freqs ≡ c.freqs
  unfolding act
  act_torn stable i cur c torn r =
      let t : ℕ = snap (cur + lim.step) in
      elim (try_up_cases lim i cur c) [
        | inl e ↦ rw e
        | inr (e, high, up, free, close) ↦ absurd (
            omega (
              arith,
              torn_candidate c i cur t torn r (omega (arith, snap_near (cur + lim.step)))
                  (omega (arith, up)),
            ))
      ]
  act_torn unstable i cur c torn r =
      let t : ℕ = snap (cur - lim.step) in
      elim (try_down_cases lim i cur c) [
        | inl e ↦ rw e
        | inr (e, low, down, close) ↦ absurd (
            omega (
              arith,
              torn_candidate c i cur t torn r (omega (arith, down))
                  (omega (arith, snap_near (cur - lim.step))),
            ))
      ]
  act_torn hold i cur c torn r = refl

  act-IsAsBefore :
      (b : Chips)
      → IsTorn lim b fast slow f g
      → (v : Verdict) (i cur : ℕ) (c : Chips) → IsAsBefore b c
      → Runs c i cur
      → IsAsBefore b (act lim v i cur c).0
  act-IsAsBefore b torn v i cur c s r =
      let torn_c : IsTorn lim c fast slow f g = record {
        top = record { alive = rw s.parked torn.top.alive; at = rw s.freqs torn.top.at };
        bottom = record { alive = rw s.parked torn.bottom.alive; at = rw s.freqs torn.bottom.at };
        apart = torn.apart;
      } in
      record {
        freqs = act_torn v i cur c torn_c r ∙ s.freqs;
        parked = parked-act lim v i cur c ∙ s.parked;
      }

  -- While two chips of a board that are not parked are further apart than the spread cap, a step and
  -- the rounding of a step, the decisions of a round of Phase 3 on the board, whatever the health
  -- verdicts, change none of its frequencies: not even a move that narrows the gap is admitted.
  pub visit_board_torn :
      (verdict : ℕ → Option Verdict) (t : Tally)
      → IsTorn lim t.chips fast slow f g
      → (visit_board lim verdict t).chips.freqs ≡ t.chips.freqs
  visit_board_torn verdict t torn =
      (visit_board_keeps (IsAsBefore t.chips) lim (act-IsAsBefore t.chips torn) verdict t
        (record { freqs = refl; parked = refl })).freqs
