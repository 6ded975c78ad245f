-- ===== src/Profit/AutoApply.antt =====
-- apply_profit_recompute of tuner_app/profit/auto_apply.py. Arguments stand for the manager's preview
-- and actions, and for `int` on a proposed voltage. Not modelled: the log.
pub mod Counted
use antminer_chip_tuner.Prelude.{
  ℕ, zero, suc, String, Bool, true, false, Option, none, some, List, [], ◌∷◌, ◌=ˢ◌, if◌then◌else◌,
}
use antminer_chip_tuner.Config.{Value}

-- A proposal: its action, "none" where it names none, its voltage and its frequency.
pub record Proposal : Type 0 where
  pub action : String
  pub voltage_mv : Option Value
  pub freq_mhz : Option Value

-- A miner of the preview. An address that is missing or empty is none.
pub record Miner : Type 0 where
  pub ip : Option String
  pub proposed : Option Proposal

-- How apply_profit_action ends: with (True, ...), with (False, err, ...), or with an exception.
pub data Reply : Type 0 where
  applied : Reply
  refused : String → Reply
  raised : String → Reply

-- What compute_profit_preview does: it gives the miners or raises an exception.
pub data Preview : Type 0 where
  miners : List Miner → Preview
  failed : String → Preview

-- A failure: the miner's address, if it is one miner's, and the text of the error.
pub record Failure : Type 0 where
  pub at : Option String
  pub message : String

pub record Call : Type 0 where
  pub ip : String
  pub action : String
  pub voltage_mv : ℕ
  pub freq_mhz : Option Value

-- The result, and the calls of apply_profit_action that were made.
pub record Report : Type 0 where
  pub applied : ℕ
  pub skipped : ℕ
  pub failures : List Failure
  pub calls : List Call

abbrev pub no_report : Report
no_report = record { applied = 0; skipped = 0; failures = []; calls = [] }

abbrev pub count_applied : Report → Report
count_applied r = record r { applied = suc r.applied }

abbrev pub count_skipped : Report → Report
count_skipped r = record r { skipped = suc r.skipped }

abbrev pub add_failure : Option String → String → Report → Report
add_failure ip message r = record r {
  failures = record { at = ip; message = message } ∷ r.failures;
}

abbrev pub add_call : Call → Report → Report
add_call c r = record r { calls = c ∷ r.calls }

module _ (int_of : Option Value → Option ℕ) (int_error : Option Value → String)
    (act : Call → Reply) where
  -- A failure is on the list with its miner's address.
  abbrev pub after_reply : String → Reply → Report → Report
  after_reply ip applied rest = count_applied rest
  after_reply ip (refused err) rest = add_failure (some ip) err rest
  after_reply ip (raised e) rest = add_failure (some ip) e rest

  abbrev pub call_of : String → Proposal → ℕ → Call
  call_of ip p v = record { ip = ip; action = p.action; voltage_mv = v; freq_mhz = p.freq_mhz }

  -- A voltage that is missing or no number is a failure of that miner, with no call.
  abbrev pub apply_at : String → Proposal → Option ℕ → Report → Report
  apply_at ip p none rest = add_failure (some ip) (int_error p.voltage_mv) rest
  apply_at ip p (some v) rest =
      add_call (call_of ip p v) (after_reply ip (act (call_of ip p v)) rest)

  unfoldable pub apply_proposal : String → Proposal → Report → Report
  apply_proposal ip p rest =
      if p.action =ˢ "none" then count_skipped rest else apply_at ip p (int_of p.voltage_mv) rest

  abbrev pub apply_miner : Option String → Option Proposal → Report → Report
  apply_miner none p rest = count_skipped rest
  apply_miner (some ip) none rest = count_skipped rest
  apply_miner (some ip) (some p) rest = apply_proposal ip p rest

  -- The loop over the miners. The lists are in the order of the miners.
  unfoldable pub apply_miners : List Miner → Report
  apply_miners [] = no_report
  apply_miners (m ∷ ms) = apply_miner m.ip m.proposed (apply_miners ms)

  unfoldable pub after_preview : Preview → Report
  after_preview (miners ms) = apply_miners ms
  after_preview (failed e) = add_failure none e no_report

  -- No address, and nothing is asked.
  unfoldable pub apply_profit_recompute : (List String → Preview) → List String → Report
  apply_profit_recompute preview [] = no_report
  apply_profit_recompute preview (ip ∷ ips) = after_preview (preview (ip ∷ ips))
