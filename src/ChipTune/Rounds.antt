-- ===== src/ChipTune/Rounds.antt =====
-- The loop of phase3_profiling over rounds. What the miner and the operator do in one pass of the
-- loop is an event; commands, sleeps, logging and checkpoints are not modelled.
mod Induction
pub mod Bounds
pub mod Ending
pub mod Still
use antminer_chip_tuner.Floats.{Floats}
use antminer_chip_tuner.Prelude.{
  ℕ, suc, ◌+◌, ◌-◌, Bool, true, false, Option, none, some, List, [], ◌∷◌, ◌==◌, ◌&&◌, ltb, leb,
  if◌then◌else◌, get_elem?,
}
use antminer_chip_tuner.ChipTune.Chips.{Chips, Limits}
use antminer_chip_tuner.ChipTune.Profiling.{Verdict, Tally, verdicts, visit_board}
use antminer_chip_tuner.ChipTune.Thermal.{Emergency, handle_thermal}

-- What the loop reads of the configuration.
pub record RoundConfig (fl : Floats) : Type 0 where
  pub lim : Limits
  pub emergency_step : ℕ  -- FREQ_STEP_EMERGENCY
  pub up_tol : fl.Num  -- CHIP_TUNE_UP_TOLERANCE
  pub down_tol : fl.Num  -- CHIP_TUNE_DOWN_TOLERANCE
  pub streak_target : ℕ  -- CHIP_TUNE_STILLNESS_STREAK
  pub max_rounds : ℕ  -- MAX_PROFILING_ROUNDS

pub record Phase3 : Type 0 where
  pub boards : List Chips
  pub profiling_round : ℕ
  pub stillness_streak : ℕ
  pub running : Bool
  pub phase3_active : Bool

-- The result of collect_chip_health_samples: the scores, a retry after heat that it handled, a
-- restart because mining stopped, or nothing because the engine stopped.
pub data Sample (fl : Floats) : Type 0 where
  scores : List (List fl.Num) → Sample fl
  thermal_retry : Emergency → Sample fl
  restart_round : Sample fl
  no_scores : Sample fl

-- One pass: the emergencies handled while the chips stabilize, whether the engine still runs after
-- that, the sample, and whether the engine still runs after it.
pub record Pass (fl : Floats) : Type 0 where
  pub heat : List Emergency
  pub stabilized : Bool
  pub sample : Sample fl
  pub sampled : Bool

-- The boards after every emergency is handled.
unfoldable pub handle_all : ℕ → List Emergency → List Chips → List Chips
handle_all step [] boards = boards
handle_all step (em ∷ ems) boards = handle_all step ems (handle_thermal step em boards).0

module _ (fl : Floats) where
  -- health_scores[b] and baseline_scores[b]
  unfoldable pub board_verdicts :
      RoundConfig fl → List (List fl.Num) → List (List fl.Num) → ℕ → ℕ → Option Verdict
  board_verdicts cfg health baseline b = elim (get_elem? health b) [
    | none ↦ λ i. none
    | some hs ↦ elim (get_elem? baseline b) [
      | none ↦ λ i. none
      | some bs ↦ verdicts fl cfg.up_tol cfg.down_tol hs bs
    ]
  ]

-- The per-chip decisions of one round, from board `b` on: the new boards and chips_moved.
unfoldable pub visit_boards :
    Limits → (ℕ → ℕ → Option Verdict) → ℕ → List Chips → ℕ → List Chips × ℕ
visit_boards lim verdict b [] moved = ([], moved)
visit_boards lim verdict b (c ∷ cs) moved =
    let t = visit_board lim (verdict b) (record { chips = c; moved = moved; alive = 0 }) in
    let (rest, total) = visit_boards lim verdict (b + 1) cs t.moved in (t.chips ∷ rest, total)

-- A pass ends in `continue` or in `break`.
pub data Next : Type 0 where
  continue break : Phase3 → Next

unfoldable pub finish : Phase3 → Phase3
finish s = record s { phase3_active = false }

-- The streak of rounds without a move, and the end of the loop.
unfoldable pub settle : ℕ → Phase3 → List Chips × ℕ → Next
settle target s (boards, moved) =
    if moved == 0
    then (if leb target (s.stillness_streak + 1)
        then break (record s { boards = boards; stillness_streak = s.stillness_streak + 1 })
        else continue (record s { boards = boards; stillness_streak = s.stillness_streak + 1 }))
    else continue (record s { boards = boards; stillness_streak = 0 })

module _ (fl : Floats) where
  -- What follows the sample. `s` has the round counted already; a retry takes it back.
  unfoldable pub after_sample :
      RoundConfig fl → List (List fl.Num) → Sample fl → Bool → Phase3 → Next
  after_sample cfg baseline (thermal_retry em) sampled s = continue (record s {
    boards = (handle_thermal cfg.emergency_step em s.boards).0;
    profiling_round = s.profiling_round - 1;
    running = sampled;
  })
  after_sample cfg baseline restart_round sampled s =
      continue (record s { profiling_round = s.profiling_round - 1; running = sampled })
  after_sample cfg baseline no_scores sampled s = break (record s { running = false })
  after_sample cfg baseline (scores health) true s =
      settle cfg.streak_target s
        (visit_boards cfg.lim (board_verdicts fl cfg health baseline) 0 s.boards 0)
  after_sample cfg baseline (scores health) false s = break (record s { running = false })

  -- The round counted, and the emergencies before the sample handled.
  unfoldable pub heated : RoundConfig fl → Pass fl → Phase3 → Phase3
  heated cfg p s = record s {
    boards = handle_all cfg.emergency_step p.heat s.boards;
    profiling_round = suc s.profiling_round;
    running = p.stabilized;
  }

  -- The body of the while loop.
  unfoldable pub pass : RoundConfig fl → List (List fl.Num) → Pass fl → Phase3 → Next
  pass cfg baseline p s =
      if p.stabilized
      then after_sample cfg baseline p.sample p.sampled (heated cfg p s)
      else break (heated cfg p s)

  -- The loop over the passes that happen; none while it still waits for one.
  unfoldable pub profile :
      RoundConfig fl → List (List fl.Num) → List (Pass fl) → Phase3 → Option Phase3
  profile cfg baseline [] s =
      if s.running && ltb s.profiling_round cfg.max_rounds then none else some (finish s)
  profile cfg baseline (p ∷ ps) s =
      if s.running && ltb s.profiling_round cfg.max_rounds
      then elim (pass cfg baseline p s) [
        | continue s' ↦ profile cfg baseline ps s'
        | break s' ↦ some (finish s')
      ]
      else some (finish s)

-- The state in which the loop is entered: a resumed search keeps its counters.
unfoldable pub enter : Phase3 → Phase3
enter s =
    if s.phase3_active && ltb 0 s.profiling_round
    then s
    else record s { profiling_round = 0; stillness_streak = 0; phase3_active = true }
