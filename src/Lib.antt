-- ===== src/Lib.antt =====
-- A verification library for antminer-chip-tuner, a program that finds efficient voltages and chip
-- frequencies for ASIC miners and keeps a fleet of them running.
--
-- The program measures cells of a voltage-frequency grid, ranks them by a score (J/TH or profit),
-- picks the next cell to measure or to tune chip by chip, and tunes the chips of a cell in rounds by
-- their health. Around that engine stand the login of the dashboard, the merged configuration of
-- each miner, the cache of rentals, the scanner of address ranges and the recovery of a miner that
-- does not answer. The parts and their files, with the source paths from the repository's root:
--
-- ChipTune: tuner_app/tuning_engine/chip_tune_loop.py. Chips has a board's state (frequencies,
--   known-unstable frequencies, parked chips) and the limits; Profiling the per-chip decisions of
--   phase3_profiling; Rounds its loop, with one event for each pass; Polish the decisions of
--   phase3b_polish, and Polish/Rounds its loop; Thermal is handle_thermal_in_chip_tune of tuner_app/tuning_engine/monitor.py,
--   which both loops call.
-- Explore: tuner_app/tuning_engine/exploration.py and grid.py. Surface has the measured cells and
--   their ranking; Rays next_unmeasured_in_direction; Coarse find_next_coarse_to_measure, which
--   walks the rays; Target find_next_chip_tune_target; Fine the layout of a fine grid, and
--   Fine/Search find_next_fine_to_measure, which turns coarse cells into anchors in place. Run puts
--   the coarse and the fine search in the order of the main loop of
--   tuner_app/tuning_engine/engine.py, and Reset is the reset of the grids in
--   tuner_app/tuning_engine/reset.py. Axes builds the grid's axes, and Remeasure is the queue of
--   cells to measure again in tuner_app/tuning_engine/lifecycle.py.
-- Profit: tuner_app/profit/compute.py, and in Context tuner_app/tuning_engine/scoring.py: the score
--   that Explore ranks by. AutoApply is tuner_app/profit/auto_apply.py.
-- Voltage: tuner_app/tuning_engine/voltage_safety.py and HardwareTopology of tuner_app/miner/types.py.
-- Whatsminer: tuner_app/tuning_engine/whatsminer_grid.py.
-- Sweep: the reference of tuner_app/tuning_engine/retune.py, and its re-ranking in
--   tuner_app/tuning_engine/monitor.py, which Profit's scores choose.
-- Recovery: tuner_app/tuning_engine/recovery.py.
-- Auth: tuner_app/auth/lockout.py and sessions.py.
-- Config: tuner_app/config/effective.py; in Migration and Sanitize, what tuner_app/config/persistence.py
--   does to entries and settings that it reads. Mrr uses the canonical keys of Config.
-- Mrr: tuner_app/mrr/nonce.py, helpers.py and rental_cache.py; Sync is
--   tuner_app/tuning_engine/mrr_sync.py, which pushes an engine's state to its rig.
-- Scanner: tuner_app/scanner/ranges.py.
-- Prelude has the shared lists, dicts and integers, Floats the interface of floating-point numbers,
--   Examples the theorems at concrete inputs.
--
-- Frequencies are natural numbers of kHz, so that the firmware's grid of 3.125 MHz is exact; times
-- are milliseconds, or as a file says. Floating-point scores are a parameter: a record of
-- operations, with the order laws of numbers that are no NaN as a hypothesis where a theorem needs
-- them. The clock, random tokens, replies of miners and of the rental service, text operations and
-- the module ipaddress are arguments. A ray walk has the step bound of the source as its fuel, which
-- is shown to be enough, and the exploration has as fuel the iterations that are allowed, with a
-- number of them that is shown to be enough; the loops that wait for events run over a list of those
-- events.
--
-- Not modelled: the miners' protocols, the HTTP server, threads and locks (the operations are taken
-- as atomic, as the source runs them under a lock), the database, checkpoints, and logging; the
-- averaging of health samples, and the baseline, chip-tune and monitor stages of the main loop.
pub mod Prelude
pub mod Floats
pub mod ChipTune
pub mod Profit
pub mod Explore
pub mod Auth
pub mod Config
pub mod Mrr
pub mod Scanner
pub mod Recovery
pub mod Voltage
pub mod Whatsminer
pub mod Sweep
pub mod Examples
