-- ===== src/Auth/Sessions/Refinement.antt =====
-- The session store against a specification with no sweep and no lazy removal.
use text.Mathlib.TextEquality.{eq_iff}
use antminer_chip_tuner.Prelude.{
  ℕ, ◌+◌, ◌≤◌, ◌≡◌, refl, String, Bool, true, false, Option, none, some, List, [], ◌∷◌, arith, ap,
  ap₂, inl, inr, if◌then◌else◌, ◌=ˢ◌, Bool-cases,
}
use antminer_chip_tuner.Prelude.Dict.{get, IsDict}
use antminer_chip_tuner.Auth.Sessions.{
  Sessions, session_ttl, issue_session, validate_session, revoke_session,
}
use antminer_chip_tuner.Auth.Sessions.View.{
  alive, live, issue_session-IsDict, validate_session-IsDict, revoke_session-IsDict,
  live-issue_session, validate_session-live, live-validate_session, live-revoke_session,
}

pub data Request : Type 0 where
  issue : String → Request
  validate revoke : Option String → Request

-- The answers of a sequence of requests, each at so many milliseconds after the one before.
unfoldable pub serve : ℕ → Sessions → List (ℕ × Request) → List Bool
serve now s [] = []
serve now s ((dt, issue token) ∷ rest) = serve (now + dt) (issue_session token (now + dt) s) rest
serve now s ((dt, validate token) ∷ rest) =
    (validate_session token (now + dt) s).1
    ∷ serve (now + dt) (validate_session token (now + dt) s).0 rest
serve now s ((dt, revoke token) ∷ rest) = serve (now + dt) (revoke_session token s) rest

-- The specification: every token has at most one expiry time, and nothing is ever swept.
abbrev pub Expiries : Type 0
Expiries = String → Option ℕ

abbrev pub assign : String → Option ℕ → Expiries → Expiries
assign token e x j = if token =ˢ j then e else x j

abbrev pub extend : String → ℕ → Expiries → Expiries
extend token now x = if alive now (x token) then assign token (some (now + session_ttl)) x else x

unfoldable pub specified : ℕ → Expiries → List (ℕ × Request) → List Bool
specified now x [] = []
specified now x ((dt, issue token) ∷ rest) =
    specified (now + dt) (assign token (some (now + dt + session_ttl)) x) rest
specified now x ((dt, validate none) ∷ rest) = false ∷ specified (now + dt) x rest
specified now x ((dt, validate (some token)) ∷ rest) =
    if token =ˢ ""
    then false ∷ specified (now + dt) x rest
    else alive (now + dt) (x token) ∷ specified (now + dt) (extend token (now + dt) x) rest
specified now x ((dt, revoke none) ∷ rest) = specified (now + dt) x rest
specified now x ((dt, revoke (some token)) ∷ rest) =
    if token =ˢ ""
    then specified (now + dt) x rest
    else specified (now + dt) (assign token none x) rest

-- The store and the specification agree on who is live from now on.
abbrev Agrees : ℕ → Sessions → Expiries → Type 0
Agrees now s x = (j : String) (t : ℕ) → now ≤ t → live j t s ≡ alive t (x j)

Agrees-issue :
    (token : String) (now : ℕ) (s : Sessions) (x : Expiries)
    → IsDict s.expiry
    → Agrees now s x
    → Agrees now (issue_session token now s) (assign token (some (now + session_ttl)) x)
Agrees-issue token now s x h agree j t w =
    ground (arith, live-issue_session token now s j t h, agree j t)

Agrees-validate :
    (token : String) (now : ℕ) (s : Sessions) (x : Expiries)
    → (token =ˢ "") ≡ false
    → Agrees now s x
    → Agrees now (validate_session (some token) now s).0 (extend token now x)
Agrees-validate token now s x ne agree j t w = ground (
  arith,
  eq_iff token "",
  eq_iff token j,
  live-validate_session token now s j t,
  agree j t,
  agree token now,
  agree token t,
)

Agrees-revoke :
    (token : String) (now : ℕ) (s : Sessions) (x : Expiries)
    → (token =ˢ "") ≡ false
    → Agrees now s x
    → Agrees now (revoke_session (some token) s) (assign token none x)
Agrees-revoke token now s x ne agree j t w =
    ground (arith, eq_iff token "", live-revoke_session token s j t, agree j t)

Agrees-later : (now dt : ℕ) (s : Sessions) (x : Expiries) → Agrees now s x → Agrees (now + dt) s x
Agrees-later now dt s x agree j t w = agree j t (omega arith)

validate_nothing :
    (token : String) (now : ℕ) (s : Sessions)
    → (token =ˢ "") ≡ true
    → validate_session (some token) now s ≡ (s, false)
unfolding validate_session
validate_nothing token now s e = rw e

revoke_nothing :
    (token : String) (s : Sessions) → (token =ˢ "") ≡ true → revoke_session (some token) s ≡ s
unfolding revoke_session
revoke_nothing token s e = rw e

validate_none : (now : ℕ) (s : Sessions) → validate_session none now s ≡ (s, false)
unfolding validate_session
validate_none now s = refl

revoke_none : (s : Sessions) → revoke_session none s ≡ s
unfolding revoke_session
revoke_none s = refl

serve-eq-specified_from :
    (now : ℕ) (s : Sessions) (x : Expiries) (requests : List (ℕ × Request))
    → IsDict s.expiry
    → Agrees now s x
    → serve now s requests ≡ specified now x requests
unfolding serve specified
serve-eq-specified_from now s x [] h agree = refl
serve-eq-specified_from now s x ((dt, issue token) ∷ rest) h agree =
    serve-eq-specified_from (now + dt) _ _ rest (issue_session-IsDict token (now + dt) s h)
      (Agrees-issue token (now + dt) s x h (Agrees-later now dt s x agree))
serve-eq-specified_from now s x ((dt, validate none) ∷ rest) h agree = rw validate_none (
    ap (λ r. false ∷ r)
      (serve-eq-specified_from (now + dt) s x rest h (Agrees-later now dt s x agree)))
serve-eq-specified_from now s x ((dt, validate (some token)) ∷ rest) h agree =
    elim (Bool-cases (token =ˢ "")) [
      | inl e ↦
          rw (validate_nothing token (now + dt) s e, e)
            (ap (λ r. false ∷ r)
              (serve-eq-specified_from (now + dt) s x rest h (Agrees-later now dt s x agree)))
      | inr e ↦
          let later = Agrees-later now dt s x agree in
          rw e (
            rw (validate_session-live token (now + dt) s (ground (arith, eq_iff token ""))) (
              ap₂ (λ b r. b ∷ r) (later token (now + dt) (omega arith))
                (serve-eq-specified_from (now + dt) _ _ rest
                  (validate_session-IsDict (some token) (now + dt) s h)
                  (Agrees-validate token (now + dt) s x e later))))
    ]
serve-eq-specified_from now s x ((dt, revoke none) ∷ rest) h agree =
    rw revoke_none (serve-eq-specified_from (now + dt) s x rest h (Agrees-later now dt s x agree))
serve-eq-specified_from now s x ((dt, revoke (some token)) ∷ rest) h agree =
    elim (Bool-cases (token =ˢ "")) [
      | inl e ↦
          rw (revoke_nothing token s e, e)
            (serve-eq-specified_from (now + dt) s x rest h (Agrees-later now dt s x agree))
      | inr e ↦ rw e (
          serve-eq-specified_from (now + dt) _ _ rest (revoke_session-IsDict (some token) s h)
            (Agrees-revoke token (now + dt) s x e (Agrees-later now dt s x agree)))
    ]

-- With a clock that does not go back, from any store whose tokens are distinct, every sequence of
-- issues, validations and revocations gets the answers of the specification: a token is valid from
-- its issue until SESSION_TTL_SEC after its issue or last successful validation, unless revoked.
-- The counter-driven sweep and the lazy removal are never seen.
pub serve-eq-specified :
    (now : ℕ) (s : Sessions) (requests : List (ℕ × Request))
    → IsDict s.expiry
    → serve now s requests ≡ specified now (λ j. get j s.expiry) requests
serve-eq-specified now s requests h =
    serve-eq-specified_from now s (λ j. get j s.expiry) requests h (λ j t w. refl)
