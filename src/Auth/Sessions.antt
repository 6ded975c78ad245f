-- ===== src/Auth/Sessions.antt =====
-- tuner_app/auth/sessions.py: tokens and their expiry times. The random token is an argument.
pub mod View
pub mod Refinement
use antminer_chip_tuner.Prelude.{
  ℕ, ◌+◌, ◌*◌, String, Bool, true, false, Option, none, some, ltb, leb, if◌then◌else◌, ◌=ˢ◌,
}
use antminer_chip_tuner.Prelude.Dict.{Dict, get, put, pop, keep}

-- SESSION_TTL_SEC, in milliseconds
abbrev pub session_ttl : ℕ
session_ttl = 86400 * 1000

pub record Sessions : Type 0 where
  pub expiry : Dict ℕ  -- _sessions
  pub gc_counter : ℕ  -- _session_gc_counter

-- Drops the tokens whose expiry has passed.
purge : ℕ → Dict ℕ → Dict ℕ
purge now = keep (λ t exp. leb now exp)

unfoldable pub issue_session : String → ℕ → Sessions → Sessions
unfolding purge
issue_session token now s =
    let expiry : Dict ℕ = put token (now + session_ttl) s.expiry in
    let count : ℕ = s.gc_counter + 1 in
    if leb 50 count
    then record { expiry = purge now expiry; gc_counter = 0 }
    else record { expiry = expiry; gc_counter = count }

check_expiry : String → ℕ → Sessions → Option ℕ → Sessions × Bool
check_expiry token now s none = (s, false)
check_expiry token now s (some exp) =
    if ltb exp now
    then (record s { expiry = pop token s.expiry }, false)
    else (record s { expiry = put token (now + session_ttl) s.expiry }, true)

unfoldable pub validate_session : Option String → ℕ → Sessions → Sessions × Bool
unfolding check_expiry
validate_session none now s = (s, false)
validate_session (some token) now s =
    if token =ˢ "" then (s, false) else check_expiry token now s (get token s.expiry)

unfoldable pub revoke_session : Option String → Sessions → Sessions
revoke_session none s = s
revoke_session (some token) s = if token =ˢ "" then s else record s { expiry = pop token s.expiry }
