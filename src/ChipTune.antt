-- ===== src/ChipTune.antt =====
-- tuner_app/tuning_engine/chip_tune_loop.py: the per-chip frequency search of Phase 3 and the
-- polish of Phase 3b. Frequencies are in kHz, so that the 3.125 MHz firmware grid is 3125 and every
-- frequency that the program rounds to three decimals is a number.
pub mod Chips
pub mod Profiling
pub mod Polish
pub mod Thermal
pub mod Rounds
