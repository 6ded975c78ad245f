-- ===== src/Scanner.antt =====
-- tuner_app/scanner: finding miners on the network.
pub mod Ranges
