-- ===== src/Auth/Lockout/Window.antt =====
-- What the failure counters of tuner_app/auth/lockout.py do within and after the window.
use text.Mathlib.TextEquality.{eq_iff}
use antminer_chip_tuner.Prelude.{
  ℕ, ◌+◌, ◌≤◌, ◌<◌, ◌≡◌, ◌≢◌, String, false, some, none, List, [], ◌∷◌, arith, leb, length, All,
}
use antminer_chip_tuner.Prelude.Dict.{get, get-put, get-pop}
use antminer_chip_tuner.Auth.Lockout.{
  Attempts, login_lockout_threshold, login_lockout_window, is_login_blocked, next_entry,
  record_login_failure, record_login_success,
}

-- One failure at each of the given times.
unfoldable pub record_failures : String → List ℕ → Attempts → Attempts
unfolding record_login_failure
record_failures ip [] a = a
record_failures ip (t ∷ ts) a = record_failures ip ts (record_login_failure (some ip) t a)

module _ (ip : String) (named : ip ≢ "") where
  get-record_login_failure :
      (now : ℕ) (a : Attempts)
      → get ip (record_login_failure (some ip) now a) ≡ some (next_entry now (get ip a))
  unfolding record_login_failure
  get-record_login_failure now a =
      ground (arith, eq_iff ip "", eq_iff ip ip, get-put ip ip (next_entry now (get ip a)) a)

  get-record_failures :
      (ts : List ℕ) (n first : ℕ) (a : Attempts)
      → All (λ t. t ≤ first + login_lockout_window) ts
      → get ip a ≡ some (n, first)
      → get ip (record_failures ip ts a) ≡ some (length ts + n, first)
  unfolding record_failures next_entry
  get-record_failures [] n first a h e = ground arith
  get-record_failures (t ∷ ts) n first a h e = ground (
    arith,
    get-record_failures ts (n + 1) first (record_login_failure (some ip) t a),
    get-record_login_failure t a,
  )

  get-failures_from :
      (first : ℕ) (ts : List ℕ) (a : Attempts)
      → get ip a ≡ none
      → All (λ t. t ≤ first + login_lockout_window) ts
      → get ip (record_failures ip (first ∷ ts) a) ≡ some (length ts + 1, first)
  unfolding record_failures next_entry
  get-failures_from first ts a e h =
      get-record_failures ts 1 first (record_login_failure (some ip) first a) h
        (ground (arith, get-record_login_failure first a))

  -- For a named client with no counter, after one failure and then further ones within the window
  -- of the first, a login at any time of that window is refused exactly if there were at least
  -- LOGIN_LOCKOUT_THRESHOLD failures, and the question changes no counter.
  pub lockout_exact :
      (first : ℕ) (ts : List ℕ) (now : ℕ) (a : Attempts)
      → get ip a ≡ none
      → All (λ t. t ≤ first + login_lockout_window) ts
      → now ≤ first + login_lockout_window
      → is_login_blocked (some ip) now (record_failures ip (first ∷ ts) a)
        ≡ (record_failures ip (first ∷ ts) a, leb login_lockout_threshold (length (first ∷ ts)))
  unfolding is_login_blocked
  lockout_exact first ts now a e h w =
      ground (arith, eq_iff ip "", get-failures_from first ts a e h)

  -- Under the same conditions, once the window has passed the client is let in again, its counter
  -- is removed, and another client's counter does not change.
  pub lockout_expires :
      (first : ℕ) (ts : List ℕ) (now : ℕ) (a : Attempts)
      → get ip a ≡ none
      → All (λ t. t ≤ first + login_lockout_window) ts
      → first + login_lockout_window < now
      → (j : String) → ip ≢ j
      → let (after, blocked) = is_login_blocked (some ip) now (record_failures ip (first ∷ ts) a) in
        (blocked ≡ false)
        × (get ip after ≡ none)
        × (get j after ≡ get j (record_failures ip (first ∷ ts) a))
  unfolding is_login_blocked
  lockout_expires first ts now a e h w j ne =
      let stored = get-failures_from first ts a e h in
      let d : Attempts = record_failures ip (first ∷ ts) a in
      (
        ground (arith, eq_iff ip "", stored),
        ground (arith, eq_iff ip "", eq_iff ip ip, stored, get-pop ip ip d),
        ground (arith, eq_iff ip "", eq_iff ip j, stored, get-pop ip j d),
      )

  -- A named client's failures and successes never change whether another named client is refused.
  pub clients_independent :
      (j : String) (t now : ℕ) (a : Attempts)
      → j ≢ ""
      → ip ≢ j
      → ((is_login_blocked (some j) now (record_login_failure (some ip) t a)).1
          ≡ (is_login_blocked (some j) now a).1)
        × ((is_login_blocked (some j) now (record_login_success (some ip) a)).1
            ≡ (is_login_blocked (some j) now a).1)
  unfolding is_login_blocked record_login_failure record_login_success
  clients_independent j t now a nj ne = (
    ground
        (arith, eq_iff ip "", eq_iff j "", eq_iff ip j, get-put ip j (next_entry t (get ip a)) a),
    ground (arith, eq_iff ip "", eq_iff j "", eq_iff ip j, get-pop ip j a),
  )
