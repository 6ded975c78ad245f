-- ===== src/Recovery.antt =====
-- tuner_app/tuning_engine/recovery.py: what the engine does while its miner does not answer. Times
-- are in seconds. Log lines and the checkpoint that is saved are left out.
pub mod Offline
pub mod Mining
use antminer_chip_tuner.Prelude.{
  ℕ, ◌+◌, ◌-◌, ◌*◌, max, min, String, Bool, true, false, Option, none, some, List, [], ◌∷◌, ◌&&◌,
  not, leb, ltb, ◌=ˢ◌, if◌then◌else◌,
}

-- engine.phase_detail: a text set elsewhere, or one that this module sets, with what it is made of.
pub data Detail : Type 0 where
  own : String → Detail
  unreachable : String → Detail  -- the reason
  offline_for : ℕ → ℕ → Detail  -- the duration and the poll interval
  waiting : String → ℕ → ℕ → Detail  -- the state, the time elapsed and the timeout

pub record Engine : Type 0 where
  pub phase : String
  pub phase_detail : Detail
  pub pre_offline_phase : Option String
  pub pre_offline_phase_detail : Detail
  pub offline_since_ts : Option ℕ
  pub offline_failure_count : ℕ
  pub last_successful_contact_ts : ℕ

-- PHASE_OFFLINE
abbrev pub phase_offline : String
phase_offline = "offline"

-- engine.offline_since_ts or time.time(): a time that was set is positive.
unfoldable pub since : Option ℕ → ℕ → ℕ
since none now = now
since (some t) now = t

unfoldable pub remember_phase : Engine → Engine
remember_phase e =
    if e.phase =ˢ phase_offline
    then e
    else record e { pre_offline_phase = some e.phase; pre_offline_phase_detail = e.phase_detail }

unfoldable pub enter_offline_mode : String → ℕ → Engine → Engine
enter_offline_mode reason now e =
    let r : Engine = remember_phase e in
    record r {
      phase = phase_offline;
      offline_since_ts = some (since e.offline_since_ts now);
      offline_failure_count = e.offline_failure_count + 1;
      phase_detail = unreachable reason;
    }

-- One round of the loop of wait_for_miner_online: the engine is stopped, or the miner does not
-- answer at this time (an error, or None), or it answers at this time.
pub data Poll : Type 0 where
  stopped : Poll
  silent : ℕ → Poll
  answered : ℕ → Poll

-- `if engine.pre_offline_phase:` and the phase it restores
unfoldable pub restore_phase : Option String → Engine → Engine
restore_phase none e = e
restore_phase (some p) e =
    if p =ˢ "" then e else record e { phase = p; phase_detail = e.pre_offline_phase_detail }

unfoldable pub note_poll : ℕ → ℕ → Engine → Engine
note_poll interval now e = record e {
  phase_detail = offline_for (now - since e.offline_since_ts now) interval;
}

unfoldable pub back_online : ℕ → Engine → Engine
back_online now e =
    let r : Engine = restore_phase e.pre_offline_phase e in
    record r {
      last_successful_contact_ts = now;
      offline_since_ts = none;
      offline_failure_count = 0;
      pre_offline_phase = none;
      pre_offline_phase_detail = own "";
    }

-- The engine after the polls, and whether the function has returned.
unfoldable pub wait_for_miner_online : ℕ → List Poll → Engine → Engine × Bool
wait_for_miner_online interval [] e = (e, false)
wait_for_miner_online interval (stopped ∷ ps) e = (e, true)
wait_for_miner_online interval (silent now ∷ ps) e =
    wait_for_miner_online interval ps (note_poll interval now e)
wait_for_miner_online interval (answered now ∷ ps) e =
    (back_online now (note_poll interval now e), true)

-- The summary of a miner that answers.
pub record Summary : Type 0 where
  pub operating_state : String
  pub is_hashing : Bool

-- One round of the loop of wait_for_mining_state: what it reads before the poll, the summary (none
-- if the miner does not answer), the time after the poll, and engine.running after the loop.
pub record Round : Type 0 where
  pub running : Bool
  pub now : ℕ
  pub summary : Option Summary
  pub polled : ℕ
  pub running_after : Bool

-- The function has returned as the miner mines or as the engine was stopped, has raised
-- MinerNotReady with the last state, or is still waiting.
pub data Wait : Type 0 where
  mining : Wait
  halted : Wait
  not_ready : String → Wait
  pending : Wait

unfoldable pub state_of : Option Summary → String
state_of none = "unreachable"
state_of (some s) = s.operating_state

unfoldable pub is_mining : Option Summary → Bool
is_mining none = false
is_mining (some s) = s.operating_state =ˢ "Mining" && s.is_hashing

-- The part of wait_for_mining_state from the loop on; `start` is the time it was called.
unfoldable pub wait_for_mining_state : ℕ → ℕ → String → List Round → Engine → Engine × Wait
wait_for_mining_state start timeout last_state [] e = (e, pending)
wait_for_mining_state start timeout last_state (r ∷ rs) e =
    let s : String = state_of r.summary in
    let noted : Engine = record e { phase_detail = waiting s (r.polled - start) timeout } in
    let rest : Engine × Wait = wait_for_mining_state start timeout s rs noted in
    if r.running && ltb (r.now - start) timeout
    then if is_mining r.summary then (e, mining) else rest
    else if r.running_after
    then (e, not_ready last_state)
    else (e, halted)
