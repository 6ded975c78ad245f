-- ===== src/Auth.antt =====
-- tuner_app/auth: the login lockout and the session tokens, with the state that they keep in
-- tuner_app/state.py. Clock readings are milliseconds.
pub mod Lockout
pub mod Sessions
