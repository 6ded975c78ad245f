-- ===== src/Auth/Lockout.antt =====
-- tuner_app/auth/lockout.py: failed logins per client address.
pub mod Window
use antminer_chip_tuner.Prelude.{
  ℕ, ◌+◌, ◌*◌, String, Bool, false, Option, none, some, ltb, leb, if◌then◌else◌, ◌=ˢ◌,
}
use antminer_chip_tuner.Prelude.Dict.{Dict, get, put, pop}

-- LOGIN_LOCKOUT_THRESHOLD
abbrev pub login_lockout_threshold : ℕ
login_lockout_threshold = 5

-- LOGIN_LOCKOUT_WINDOW_SEC, in milliseconds
abbrev pub login_lockout_window : ℕ
login_lockout_window = 300 * 1000

-- client_ip -> (fail_count, first_fail_ts)
abbrev pub Attempts : Type 0
Attempts = Dict (ℕ × ℕ)

-- `if not client_ip: return`
pub has_ip : Option String → Option String
has_ip none = none
has_ip (some ip) = if ip =ˢ "" then none else some ip

-- now - first > LOGIN_LOCKOUT_WINDOW_SEC
abbrev pub is_outside : ℕ → ℕ → Bool
is_outside now first = ltb (first + login_lockout_window) now

check_entry : String → ℕ → Attempts → Option (ℕ × ℕ) → Attempts × Bool
check_entry ip now a none = (a, false)
check_entry ip now a (some (fails, first)) =
    if is_outside now first then (pop ip a, false) else (a, leb login_lockout_threshold fails)

unfoldable pub is_login_blocked : Option String → ℕ → Attempts → Attempts × Bool
unfolding has_ip check_entry
is_login_blocked client_ip now a = elim (has_ip client_ip) [
  | none ↦ (a, false)
  | some ip ↦ check_entry ip now a (get ip a)
]

-- The entry that one more failure leaves.
next_entry : ℕ → Option (ℕ × ℕ) → ℕ × ℕ
next_entry now none = (1, now)
next_entry now (some (fails, first)) = if is_outside now first then (1, now) else (fails + 1, first)

unfoldable pub record_login_failure : Option String → ℕ → Attempts → Attempts
unfolding has_ip next_entry
record_login_failure client_ip now a = elim (has_ip client_ip) [
  | none ↦ a
  | some ip ↦ put ip (next_entry now (get ip a)) a
]

unfoldable pub record_login_success : Option String → Attempts → Attempts
unfolding has_ip
record_login_success client_ip a = elim (has_ip client_ip) [ none ↦ a | some ip ↦ pop ip a ]
