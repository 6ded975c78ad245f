-- ===== src/ChipTune/Rounds/Bounds.antt =====
-- Phase 3 as a whole keeps the bounds on frequencies, emergencies included.
use antminer_chip_tuner.Floats.{Floats}
use antminer_chip_tuner.Prelude.{List}
use antminer_chip_tuner.ChipTune.Chips.{Chips}
use antminer_chip_tuner.ChipTune.Rounds.{Next, continue, break}

abbrev boards_of : Next → List Chips
boards_of (continue s) = s.boards
boards_of (break s) = s.boards
