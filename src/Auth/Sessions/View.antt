-- ===== src/Auth/Sessions/View.antt =====
-- Which tokens of tuner_app/auth/sessions.py are live, as a client sees it.
use text.Mathlib.TextEquality.{eq_iff}
use antminer_chip_tuner.Prelude.{
  ℕ, ◌+◌, ◌≤◌, ◌≡◌, ◌≢◌, String, Bool, false, Option, none, some, arith, leb, if◌then◌else◌, ◌=ˢ◌,
}
use antminer_chip_tuner.Prelude.Dict.{
  get, put, IsDict, get-put, get-pop, get-keep, put-IsDict, pop-IsDict, keep-IsDict,
}
use antminer_chip_tuner.Auth.Sessions.{
  Sessions, session_ttl, issue_session, validate_session, revoke_session,
}

-- An expiry time that has not passed at time `t`.
abbrev pub alive : ℕ → Option ℕ → Bool
alive t none = false
alive t (some exp) = leb t exp

abbrev pub live : String → ℕ → Sessions → Bool
live j t s = alive t (get j s.expiry)

pub issue_session-IsDict :
    (token : String) (now : ℕ) (s : Sessions)
    → IsDict s.expiry
    → IsDict (issue_session token now s).expiry
unfolding issue_session
issue_session-IsDict token now s h =
    let d = put token (now + session_ttl) s.expiry in
    ground (
      arith,
      put-IsDict token (now + session_ttl) s.expiry h,
      keep-IsDict (λ (t : String) (exp : ℕ). leb now exp) d,
    )

pub validate_session-IsDict :
    (token : Option String) (now : ℕ) (s : Sessions)
    → IsDict s.expiry
    → IsDict (validate_session token now s).0.expiry
unfolding validate_session
validate_session-IsDict none now s h = h
validate_session-IsDict (some token) now s h =
    ground (arith, put-IsDict token (now + session_ttl) s.expiry h, pop-IsDict token s.expiry h)

pub revoke_session-IsDict :
    (token : Option String) (s : Sessions)
    → IsDict s.expiry
    → IsDict (revoke_session token s).expiry
unfolding revoke_session
revoke_session-IsDict none s h = h
revoke_session-IsDict (some token) s h = ground (arith, pop-IsDict token s.expiry h)

-- At every time from the issue on, the new token is live for SESSION_TTL_SEC and every other token
-- as before: the sweep that may run inside removes none that is still live.
pub live-issue_session :
    (token : String) (now : ℕ) (s : Sessions) (j : String) (t : ℕ)
    → IsDict s.expiry
    → now ≤ t
    → live j t (issue_session token now s)
      ≡ (if token =ˢ j then leb t (now + session_ttl) else live j t s)
unfolding issue_session
live-issue_session token now s j t h w =
    let d = put token (now + session_ttl) s.expiry in
    ground (
      arith,
      get-keep (λ (t : String) (exp : ℕ). leb now exp) j d,
      put-IsDict token (now + session_ttl) s.expiry h,
      get-put token j (now + session_ttl) s.expiry,
    )

pub validate_session-live :
    (token : String) (now : ℕ) (s : Sessions)
    → token ≢ ""
    → (validate_session (some token) now s).1 ≡ live token now s
unfolding validate_session
validate_session-live token now s ne = ground (arith, eq_iff token "")

pub live-validate_session :
    (token : String) (now : ℕ) (s : Sessions) (j : String) (t : ℕ)
    → token ≢ ""
    → now ≤ t
    → live j t (validate_session (some token) now s).0 ≡ (
        if token =ˢ j
        then (if live token now s then leb t (now + session_ttl) else false)
        else live j t s)
unfolding validate_session
live-validate_session token now s j t ne w = ground (
  arith,
  eq_iff token "",
  eq_iff token j,
  get-put token j (now + session_ttl) s.expiry,
  get-pop token j s.expiry,
)

pub live-revoke_session :
    (token : String) (s : Sessions) (j : String) (t : ℕ)
    → token ≢ ""
    → live j t (revoke_session (some token) s) ≡ (if token =ˢ j then false else live j t s)
unfolding revoke_session
live-revoke_session token s j t ne = ground (arith, eq_iff token "", get-pop token j s.expiry)
