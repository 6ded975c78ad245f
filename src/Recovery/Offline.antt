-- ===== src/Recovery/Offline.antt =====
-- The engine's phase survives an outage.
use antminer_chip_tuner.Prelude.{
  ℕ, ◌≡◌, refl, String, true, false, none, some, List, [], ◌∷◌, arith, ◌=ˢ◌,
}
use text.Mathlib.TextEquality.{eq_iff}
use antminer_chip_tuner.Recovery.{
  Detail, Engine, phase_offline, remember_phase, enter_offline_mode, Poll, silent, answered,
  restore_phase, note_poll, back_online, wait_for_miner_online,
}

-- The miner is found unreachable some more times, with a reason and a time each.
unfoldable pub enter_again : List (String × ℕ) → Engine → Engine
enter_again [] e = e
enter_again ((reason, now) ∷ es) e = enter_again es (enter_offline_mode reason now e)

-- The polls that get no answer, then one that does.
unfoldable pub outage : List ℕ → ℕ → List Poll
outage [] now = answered now ∷ []
outage (t ∷ ts) now = silent t ∷ outage ts now

-- The engine is offline and remembers this phase.
abbrev Remembers : String → Detail → Engine → Type 0
Remembers p d e =
    (e.phase ≡ phase_offline) × (e.pre_offline_phase ≡ some p) × (e.pre_offline_phase_detail ≡ d)

enter_offline_mode-Remembers :
    (reason : String) (now : ℕ) (p : String) (d : Detail) (e : Engine)
    → Remembers p d e
    → Remembers p d (enter_offline_mode reason now e)
unfolding enter_offline_mode remember_phase
enter_offline_mode-Remembers reason now p d e h =
    rw ((eq_iff e.phase phase_offline).1 h.0) (refl, h.1, h.2)

enter_again-Remembers :
    (es : List (String × ℕ)) (p : String) (d : Detail) (e : Engine)
    → Remembers p d e
    → Remembers p d (enter_again es e)
unfolding enter_again
enter_again-Remembers [] p d e h = h
enter_again-Remembers ((reason, now) ∷ es) p d e h =
    enter_again-Remembers es p d (enter_offline_mode reason now e)
      (enter_offline_mode-Remembers reason now p d e h)

-- The engine is in this phase and has forgotten the outage.
abbrev pub IsResumed : String → Detail → Engine → Type 0
IsResumed p d e =
    (e.phase ≡ p)
    × (e.phase_detail ≡ d)
    × (e.pre_offline_phase ≡ none)
    × (e.offline_since_ts ≡ none)
    × (e.offline_failure_count ≡ 0)

wait_for_miner_online-IsResumed :
    (interval now : ℕ) (ts : List ℕ) (p : String) (d : Detail) (e : Engine)
    → (p =ˢ "") ≡ false
    → Remembers p d e
    → let r = wait_for_miner_online interval (outage ts now) e in IsResumed p d r.0 × (r.1 ≡ true)
unfolding wait_for_miner_online outage note_poll back_online restore_phase
wait_for_miner_online-IsResumed interval now [] p d e q h = ground (arith, q, h)
wait_for_miner_online-IsResumed interval now (t ∷ ts) p d e q h =
    wait_for_miner_online-IsResumed interval now ts p d (note_poll interval t e) q h

-- An engine that goes offline from a phase other than the offline one, however often the outage is
-- reported, and waits through any number of polls without an answer, is after the first answer in
-- the phase and detail it had, and the waiting has returned.
pub offline_roundtrip :
    (e : Engine) (reason : String) (t0 : ℕ) (again : List (String × ℕ)) (interval : ℕ)
    → (ts : List ℕ) (now : ℕ) → (e.phase =ˢ phase_offline) ≡ false
    → (e.phase =ˢ "") ≡ false
    → let r =
        wait_for_miner_online interval
          (outage ts now)
          (enter_again again (enter_offline_mode reason t0 e)) in
      IsResumed e.phase e.phase_detail r.0 × (r.1 ≡ true)
unfolding enter_offline_mode remember_phase
offline_roundtrip e reason t0 again interval ts now h q =
    wait_for_miner_online-IsResumed interval now ts e.phase e.phase_detail
      (enter_again again (enter_offline_mode reason t0 e)) q
      (enter_again-Remembers again e.phase e.phase_detail (enter_offline_mode reason t0 e)
        (rw h (refl, refl, refl)))
