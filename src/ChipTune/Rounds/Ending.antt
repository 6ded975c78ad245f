-- ===== src/ChipTune/Rounds/Ending.antt =====
-- How Phase 3 ends.
use antminer_chip_tuner.Floats.{Floats}
use antminer_chip_tuner.Prelude.{
  ℕ, suc, ◌+◌, ◌≤◌, ◌<◌, ◌≡◌, refl, sym, Bool, true, false, some, List, [], ◌∷◌, arith, ltb, ◌&&◌,
  Bool-cases, inl, inr, ◌⊎◌, Option, none,
}
use antminer_chip_tuner.ChipTune.Chips.{Chips}
use antminer_chip_tuner.ChipTune.Rounds.{
  RoundConfig, Phase3, Sample, scores, thermal_retry, restart_round, no_scores, Pass, continue,
  break, settle, board_verdicts, visit_boards, after_sample, heated, pass, finish, profile,
}
use antminer_chip_tuner.ChipTune.Rounds.Induction.{profile_step, profile_over}

module _ (fl : Floats) where
  -- A pass whose sample gave scores; all others that go on are retries.
  abbrev pub gives : Sample fl → ℕ
  gives (scores health) = 1
  gives _ = 0

  abbrev pub rounds_given : List (Pass fl) → ℕ
  rounds_given [] = 0
  rounds_given (p ∷ ps) = gives p.sample + rounds_given ps

settle_round :
    (target : ℕ) (s s' : Phase3) (r : List Chips × ℕ)
    → settle target s r ≡ continue s'
    → s'.profiling_round ≡ s.profiling_round
unfolding settle
settle_round target s s' (boards, moved) e = ground arith

settle_break :
    (target : ℕ) (s s' : Phase3) (r : List Chips × ℕ)
    → settle target s r ≡ break s'
    → target ≤ s'.stillness_streak
unfolding settle
settle_break target s s' (boards, moved) e = ground arith

continue≢break : {s t : Phase3} → continue s ≡ break t → ⊥
continue≢break e = cc

module _ (fl : Floats) (cfg : RoundConfig fl) (baseline : List (List fl.Num)) where
  after_sample_round :
      (x : Sample fl) (sampled : Bool) (s s' : Phase3) (n : ℕ)
      → s.profiling_round ≡ suc n
      → after_sample fl cfg baseline x sampled s ≡ continue s'
      → s'.profiling_round ≡ n + gives fl x
  unfolding after_sample
  after_sample_round (scores health) true s s' n c e = omega (
    arith,
    settle_round cfg.streak_target s s'
        (visit_boards cfg.lim (board_verdicts fl cfg health baseline) 0 s.boards 0) e,
  )
  after_sample_round (scores health) false s s' n c e = cc
  after_sample_round (thermal_retry em) sampled s s' n c e = ground arith
  after_sample_round restart_round sampled s s' n c e = ground arith
  after_sample_round no_scores sampled s s' n c e = cc

  round-heated :
      (p : Pass fl) (s : Phase3) → (heated fl cfg p s).profiling_round ≡ suc s.profiling_round
  unfolding heated
  round-heated p s = refl

  running-heated : (p : Pass fl) (s : Phase3) → (heated fl cfg p s).running ≡ p.stabilized
  unfolding heated
  running-heated p s = refl

  pass_round :
      (p : Pass fl) (s s' : Phase3)
      → pass fl cfg baseline p s ≡ continue s'
      → s'.profiling_round ≡ s.profiling_round + gives fl p.sample
  unfolding pass
  pass_round p s s' e = elim (Bool-cases p.stabilized) [
    | inl c ↦
        after_sample_round p.sample p.sampled (heated fl cfg p s) s' s.profiling_round
          (round-heated p s) (simp c at e)
    | inr c ↦ absurd (continue≢break (sym (simp c at e)))
  ]

  after_sample_break :
      (x : Sample fl) (sampled : Bool) (s s' : Phase3)
      → after_sample fl cfg baseline x sampled s ≡ break s'
      → s'.running ≡ true
      → cfg.streak_target ≤ s'.stillness_streak
  unfolding after_sample
  after_sample_break (scores health) true s s' e r =
      settle_break cfg.streak_target s s'
        (visit_boards cfg.lim (board_verdicts fl cfg health baseline) 0 s.boards 0) e
  after_sample_break (scores health) false s s' e r = ground arith
  after_sample_break (thermal_retry em) sampled s s' e r = cc
  after_sample_break restart_round sampled s s' e r = cc
  after_sample_break no_scores sampled s s' e r = ground arith

  -- A break leaves the engine stopped or the streak complete.
  pub pass_break :
      (p : Pass fl) (s s' : Phase3)
      → pass fl cfg baseline p s ≡ break s'
      → s'.running ≡ true
      → cfg.streak_target ≤ s'.stillness_streak
  unfolding pass
  pass_break p s s' e r = elim (Bool-cases p.stabilized) [
    | inl c ↦ after_sample_break p.sample p.sampled (heated fl cfg p s) s' (simp c at e) r
    | inr c ↦ ground (arith, running-heated p s)
  ]

  -- Why a loop that is over has ended: the engine stopped, the streak of rounds without a move is
  -- complete, or scores were given for every round.
  abbrev pub Reason : ℕ → Phase3 → Type 0
  Reason given r =
      (r.running ≡ false) ⊎ (cfg.streak_target ≤ r.stillness_streak) ⊎ (cfg.max_rounds ≤ given)

  -- The loop waits for more passes, or it has ended for a reason.
  abbrev pub Outcome : ℕ → Option Phase3 → Type 0
  Outcome given o =
      ((o ≡ none) × (given < cfg.max_rounds)) ⊎ ((r : Phase3) × (o ≡ some r) × Reason given r)

  over :
      (s : Phase3) (given : ℕ)
      → (s.running && ltb s.profiling_round cfg.max_rounds) ≡ false
      → s.profiling_round ≤ given
      → Reason given (finish s)
  unfolding finish
  over s given c h = ground arith

  broken :
      (p : Pass fl) (s s' : Phase3) (given : ℕ)
      → pass fl cfg baseline p s ≡ break s'
      → Reason given (finish s')
  unfolding finish
  broken p s s' given e = elim (Bool-cases s'.running) [
    | inl r ↦ inr (inl (pass_break p s s' e r))
    | inr r ↦ inl r
  ]

  waits :
      (s : Phase3)
      → (s.running && ltb s.profiling_round cfg.max_rounds) ≡ true
      → (profile fl cfg baseline [] s ≡ none) × (s.profiling_round + 0 < cfg.max_rounds)
  unfolding profile
  waits s c = (rw c refl, ground arith)

  -- After any passes, Phase 3 either waits for more, and then they gave scores fewer times than are
  -- left of MAX_PROFILING_ROUNDS from the saved round; or it has ended, and then the engine is
  -- stopped, the streak has reached its target, or the passes gave scores for all the rounds left:
  -- retries after heat and restarts after lost mining use up no round.
  pub profile_ends :
      (ps : List (Pass fl)) (s : Phase3)
      → Outcome (s.profiling_round + rounds_given fl ps) (profile fl cfg baseline ps s)
  profile_ends [] s = elim (Bool-cases (s.running && ltb s.profiling_round cfg.max_rounds)) [
    | inr c ↦ inr (finish s, profile_over fl cfg baseline [] s c, over s _ c (omega arith))
    | inl c ↦ inl (waits s c)
  ]
  profile_ends (p ∷ ps) s =
      let given = s.profiling_round + rounds_given fl (p ∷ ps) in
      elim (Bool-cases (s.running && ltb s.profiling_round cfg.max_rounds)) [
        | inr c ↦
            inr (finish s, profile_over fl cfg baseline (p ∷ ps) s c, over s given c (omega arith))
        | inl c ↦ elim (profile_step fl cfg baseline p ps s c) [
          | inl (s', n, q) ↦
              let same : s'.profiling_round + rounds_given fl ps ≡ given =
                omega (arith, pass_round p s s' n) in
              rw (q, ← same) (profile_ends ps s')
          | inr (s', n, q) ↦ inr (finish s', q, broken p s s' given n)
        ]
      ]
