-- ===== src/ChipTune/Polish/Rounds.antt =====
-- The loop of phase3b_polish over rounds, with the events of phase3_profiling's loop. Commands,
-- sleeps, logging, checkpoints and the notice to the rental service are not modelled.
pub mod Ending
use antminer_chip_tuner.Floats.{Floats}
use antminer_chip_tuner.Prelude.{
  ℕ, suc, ◌+◌, ◌-◌, Bool, true, false, Option, none, some, List, [], ◌∷◌, ◌==◌, ◌&&◌, ltb,
  if◌then◌else◌, get_elem?,
}
use antminer_chip_tuner.ChipTune.Chips.{Chips, Limits}
use antminer_chip_tuner.ChipTune.Polish.{fallen, polish_board}
use antminer_chip_tuner.ChipTune.Thermal.{handle_thermal}
use antminer_chip_tuner.ChipTune.Rounds.{
  Sample, scores, thermal_retry, restart_round, no_scores, Pass, handle_all,
}

pub record PolishConfig (fl : Floats) : Type 0 where
  pub lim : Limits
  pub emergency_step : ℕ  -- FREQ_STEP_EMERGENCY
  pub down_tol : fl.Num  -- CHIP_TUNE_DOWN_TOLERANCE
  pub rounds : ℕ  -- STABILITY_POLISH_ROUNDS

pub record Phase3b : Type 0 where
  pub boards : List Chips
  pub polish_round : ℕ
  pub polish_active : Bool
  pub running : Bool

-- The decrements of one round, from board `b` on: the new boards and the sum of the drops.
unfoldable pub polish_boards : Limits → (ℕ → ℕ → Option Bool) → ℕ → List Chips → List Chips × ℕ
polish_boards lim low b [] = ([], 0)
polish_boards lim low b (c ∷ cs) =
    let d = polish_board lim (low b) c in
    let (rest, total) = polish_boards lim low (b + 1) cs in (d.chips ∷ rest, d.drops + total)

-- A pass ends in `continue` or in `break`.
pub data Turn : Type 0 where
  again leave : Phase3b → Turn

-- A round without a change ends the polish.
unfoldable pub close_round : Phase3b → List Chips × ℕ → Turn
close_round s (boards, drops) =
    if drops == 0
    then leave (record s { boards = boards })
    else again (record s { boards = boards })

unfoldable pub end_polish : Phase3b → Phase3b
end_polish s = record s { polish_active = false }

unfoldable pub follow : Turn → (Phase3b → Option Phase3b) → Option Phase3b
follow (again s) rest = rest s
follow (leave s) rest = some (end_polish s)

module _ (fl : Floats) where
  unfoldable pub board_fallen :
      PolishConfig fl → List (List fl.Num) → List (List fl.Num) → ℕ → ℕ → Option Bool
  board_fallen cfg health baseline b = elim (get_elem? health b) [
    | none ↦ λ i. none
    | some hs ↦ elim (get_elem? baseline b) [
      | none ↦ λ i. none
      | some bs ↦ fallen fl cfg.down_tol hs bs
    ]
  ]

  -- What follows the sample. `s` has the round counted already; a retry takes it back.
  unfoldable pub after_polish_sample :
      PolishConfig fl → List (List fl.Num) → Sample fl → Bool → Phase3b → Turn
  after_polish_sample cfg baseline (thermal_retry em) sampled s = again (record s {
    boards = (handle_thermal cfg.emergency_step em s.boards).0;
    polish_round = s.polish_round - 1;
    running = sampled;
  })
  after_polish_sample cfg baseline restart_round sampled s =
      again (record s { polish_round = s.polish_round - 1; running = sampled })
  after_polish_sample cfg baseline no_scores sampled s = leave (record s { running = false })
  after_polish_sample cfg baseline (scores health) true s =
      close_round s (polish_boards cfg.lim (board_fallen cfg health baseline) 0 s.boards)
  after_polish_sample cfg baseline (scores health) false s = leave (record s { running = false })

  -- The round counted, and the emergencies before the sample handled.
  unfoldable pub settled : PolishConfig fl → Pass fl → Phase3b → Phase3b
  settled cfg p s = record s {
    boards = handle_all cfg.emergency_step p.heat s.boards;
    polish_round = suc s.polish_round;
    running = p.stabilized;
  }

  -- The body of the while loop.
  unfoldable pub polish_pass : PolishConfig fl → List (List fl.Num) → Pass fl → Phase3b → Turn
  polish_pass cfg baseline p s =
      if p.stabilized
      then after_polish_sample cfg baseline p.sample p.sampled (settled cfg p s)
      else leave (settled cfg p s)

  -- The loop over the passes that happen; none while it still waits for one.
  unfoldable pub polish_rounds :
      PolishConfig fl → List (List fl.Num) → List (Pass fl) → Phase3b → Option Phase3b
  polish_rounds cfg baseline [] s =
      if s.running && ltb s.polish_round cfg.rounds then none else some (end_polish s)
  polish_rounds cfg baseline (p ∷ ps) s =
      if s.running && ltb s.polish_round cfg.rounds
      then follow (polish_pass cfg baseline p s) (polish_rounds cfg baseline ps)
      else some (end_polish s)

  -- phase3b_polish: with no rounds it returns at once.
  unfoldable pub phase3b_polish :
      PolishConfig fl → List (List fl.Num) → List (Pass fl) → Phase3b → Option Phase3b
  phase3b_polish cfg baseline ps s =
      if cfg.rounds == 0
      then some s
      else polish_rounds cfg baseline ps (record s { polish_active = true })
