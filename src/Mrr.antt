-- ===== src/Mrr.antt =====
-- tuner_app/mrr: the nonces of signed requests, and whether the rigs are rented.
pub mod Nonce
pub mod Rig
pub mod RentalCache
pub mod Sync
