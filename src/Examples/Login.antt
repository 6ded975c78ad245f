-- ===== src/Examples/Login.antt =====
-- Logins: failures of a client, and a session's life.
use antminer_chip_tuner.Prelude.{ℕ, ◌≡◌, ◌≢◌, refl, String, some, List, [], ◌∷◌, arith, leb, length}
use antminer_chip_tuner.Prelude.Dict.{get}
use text.Mathlib.TextEquality.{eq_iff}
use antminer_chip_tuner.Auth.Lockout.{Attempts, is_login_blocked, login_lockout_threshold}
use antminer_chip_tuner.Auth.Lockout.Window.{record_failures, lockout_exact}
use antminer_chip_tuner.Auth.Sessions.{Sessions}
use antminer_chip_tuner.Auth.Sessions.Refinement.{
  Request, issue, validate, revoke, serve, specified, serve-eq-specified,
}

abbrev client : String
client = "10.0.0.7"

abbrev neighbour : String
neighbour = "10.0.0.8"

client_named : client ≢ ""
client_named e = absurd (ground (arith, eq_iff client ""))

client_differs : client ≢ neighbour
client_differs e = absurd (ground (arith, eq_iff client neighbour))

neighbour_named : neighbour ≢ ""
neighbour_named e = absurd (ground (arith, eq_iff neighbour ""))

abbrev times : List ℕ
times = 2000 ∷ 3000 ∷ 4000 ∷ 5000 ∷ []

lockout_exact_example :
    is_login_blocked (some client) 6000 (record_failures client (1000 ∷ times) []) ≡ (
      record_failures client (1000 ∷ times) [],
      leb login_lockout_threshold (length (1000 ∷ times)),
    )
lockout_exact_example =
    lockout_exact client client_named 1000 times 6000 [] (unfold get in refl) (ground arith)
      (ground arith)

abbrev two_failures : Attempts
two_failures = (neighbour, (2, 500)) ∷ []

abbrev one_session : Sessions
one_session = record { expiry = ("old", 5000) ∷ []; gc_counter = 49 }

abbrev visits : List (ℕ × Request)
visits =
    (10, issue "new")
    ∷ (10, validate (some "old"))
    ∷ (9000, validate (some "old"))
    ∷ (10, revoke (some "new"))
    ∷ (10, validate (some "new"))
    ∷ []

serve-eq-specified_example :
    serve 0 one_session visits ≡ specified 0 (λ j. get j one_session.expiry) visits
serve-eq-specified_example = serve-eq-specified 0 one_session visits (unfold get in refl, tt)
