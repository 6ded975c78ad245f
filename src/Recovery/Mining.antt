-- ===== src/Recovery/Mining.antt =====
-- The wait for the mining state is bounded.
use antminer_chip_tuner.Prelude.{
  ℕ, ◌+◌, ◌-◌, ◌*◌, ◌≤◌, ◌<◌, ◌≢◌, String, List, [], ◌∷◌, arith, length,
}
use antminer_chip_tuner.Recovery.{waiting, Engine, Round, pending, state_of, wait_for_mining_state}

-- Every round begins at `t` or later, and each at least 10 seconds after the one before it.
abbrev pub IsPaced : ℕ → List Round → Type 0
IsPaced t [] = Unit
IsPaced t (r ∷ rs) = (t ≤ r.now) × IsPaced (r.now + 10) rs

wait_from :
    (start timeout : ℕ) (last_state : String) (rs : List Round) (e : Engine) (t : ℕ)
    → start ≤ t
    → t < start + timeout + 10
    → IsPaced t rs
    → start + timeout + 10 ≤ t + 10 * length rs
    → (wait_for_mining_state start timeout last_state rs e).1 ≢ pending
unfolding wait_for_mining_state
wait_from start timeout last_state [] e t a c h b = absurd (ground arith)
wait_from start timeout last_state (r ∷ rs) e t a c h b =
    let s : String = state_of r.summary in
    let noted : Engine = record e { phase_detail = waiting s (r.polled - start) timeout } in
    ground (arith, wait_from start timeout s rs noted (r.now + 10))

-- As each round sleeps for 10 seconds, the wait is over, with the miner mining, the engine stopped
-- or MinerNotReady raised, within one round more than there are tens of seconds in the timeout.
pub wait_for_mining_state_ends :
    (start timeout : ℕ) (last_state : String) (rs : List Round) (e : Engine)
    → IsPaced start rs
    → timeout + 10 ≤ 10 * length rs
    → (wait_for_mining_state start timeout last_state rs e).1 ≢ pending
wait_for_mining_state_ends start timeout last_state rs e h b =
    wait_from start timeout last_state rs e start (ground arith) (ground arith) h (ground arith)
