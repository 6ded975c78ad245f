-- ===== src/Explore.antt =====
-- tuner_app/tuning_engine/grid.py and exploration.py: which cell of the (V, F) surface to measure
-- next. Voltages are in mV and frequencies in kHz, so a rounded key is a pair of numbers.
pub mod Surface
pub mod Rays
pub mod Coarse
pub mod Target
pub mod Fine
pub mod Run
pub mod Reset
pub mod Remeasure
pub mod Axes
