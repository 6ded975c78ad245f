-- ===== src/Examples.antt =====
-- The theorems at concrete inputs.
mod Login
mod Tuning
mod Scoring
mod Exploring
mod Fleet
pub mod Fine
mod Axes
mod Settings
mod Rental
