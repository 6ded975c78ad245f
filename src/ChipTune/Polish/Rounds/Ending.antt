-- ===== src/ChipTune/Polish/Rounds/Ending.antt =====
-- How Phase 3b ends.
use antminer_chip_tuner.Floats.{Floats}
use antminer_chip_tuner.Prelude.{
  ℕ, ◌≤◌, ◌<◌, ◌≡◌, ◌⊎◌, Bool, true, false, Option, none, some, if◌then◌else◌, List, [], ◌∷◌, ltb,
  ◌&&◌,
}
use antminer_chip_tuner.ChipTune.Chips.{Chips}
use antminer_chip_tuner.ChipTune.Rounds.{
  Sample, scores, thermal_retry, restart_round, no_scores, Pass,
}
use antminer_chip_tuner.ChipTune.Polish.Rounds.{
  PolishConfig, Phase3b, polish_boards, again, leave, board_fallen, settled, polish_pass,
}

module _ (fl : Floats) (cfg : PolishConfig fl) (baseline : List (List fl.Num)) where
  -- The sum of the drops of a round; a pass without scores is no round.
  abbrev pub drops_of : Sample fl → Bool → Phase3b → Option ℕ → Option ℕ
  drops_of (scores health) true s last =
      some (polish_boards cfg.lim (board_fallen fl cfg health baseline) 0 s.boards).1
  drops_of (scores health) false s last = last
  drops_of (thermal_retry em) sampled s last = last
  drops_of restart_round sampled s last = last
  drops_of no_scores sampled s last = last

  abbrev pub drops_in : Pass fl → Phase3b → Option ℕ → Option ℕ
  drops_in p s last =
      if p.stabilized then drops_of p.sample p.sampled (settled fl cfg p s) last else last

  -- The drops of the last round of the loop, `last` if it has none.
  unfoldable pub last_drops : List (Pass fl) → Phase3b → Option ℕ → Option ℕ
  last_drops [] s last = last
  last_drops (p ∷ ps) s last =
      if s.running && ltb s.polish_round cfg.rounds
      then elim (polish_pass fl cfg baseline p s) [
        | again s1 ↦ last_drops ps s1 (drops_in p s last)
        | leave s1 ↦ drops_in p s last
      ]
      else last

  -- Why a loop that is over has ended: the engine stopped, the last round dropped nothing, or scores
  -- were given for every round.
  abbrev pub PolishReason : ℕ → Option ℕ → Phase3b → Type 0
  PolishReason given last r = (r.running ≡ false) ⊎ (last ≡ some 0) ⊎ (cfg.rounds ≤ given)

  abbrev pub PolishOutcome : ℕ → Option ℕ → Option Phase3b → Type 0
  PolishOutcome given last o =
      ((o ≡ none) × (given < cfg.rounds))
      ⊎ ((r : Phase3b) × (o ≡ some r) × PolishReason given last r)
