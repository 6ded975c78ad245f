-- ===== src/Mrr/Sync.antt =====
-- mrr_sync and mrr_set_last_sync of tuner_app/tuning_engine/mrr_sync.py: pushing the state of an
-- engine to its rig. Arguments stand for the client's replies, the clock, `str`, `strip`, `lower`,
-- and `int` and `float` on what the configuration holds. Not modelled: the log and the profile that
-- mrr_set_last_sync writes when it can.
pub mod Guarded
pub mod Recorded
pub mod Pools
use antminer_chip_tuner.Floats.{Floats}
use antminer_chip_tuner.Prelude.{
  ℕ, ◌-◌, String, Bool, true, false, Option, none, some, List, [], ◌∷◌, ◌||◌, not, ltb, ◌=ˢ◌,
  if◌then◌else◌,
}
use antminer_chip_tuner.Prelude.Int.{ℤ, pos, leb_ℤ}
use antminer_chip_tuner.Config.{Value, text}
use antminer_chip_tuner.Mrr.Rig.{Rig, is_rig_rented}
use antminer_chip_tuner.Mrr.RentalCache.{truthy, int_or}

-- How a call ends: it returns, raises an MRRError, or raises another exception, with its text.
pub data Outcome {ℓ} (A : Type ℓ) : Type ℓ where
  returned : A → Outcome A
  mrr_error : String → Outcome A
  other_error : String → Outcome A

-- What the sync reads of the text functions of Python.
pub record Texts : Type 0 where
  pub str : Value → String
  pub strip : String → String
  pub lower : String → String
  pub int_of_text : String → Option ℤ
  pub int_error : String  -- the text of the ValueError of `int`

-- engine.config.get(key)
abbrev pub Settings : Type 0
Settings = String → Option Value

-- str(o or default)
unfoldable pub text_or : Texts → String → Option Value → String
text_or t default none = default
text_or t default (some v) = if truthy (some v) then t.str v else default

-- str(config.get(key, "") or "").strip()
abbrev pub stripped : Texts → Settings → String → String
stripped t config key = t.strip (text_or t "" (config key))

module _ (fl : Floats) where
  -- A call of the client: get_rig, and update_rig with the status, the hashrate and its unit.
  pub data Call : Type 0 where
    get_rig : ℤ → Call
    update_rig : ℤ → String → Option fl.Num → String → Call

  -- mrr_last_sync. A key that is left out of the dict is none.
  pub record LastSync : Type 0 where
    pub intent : String
    pub rig_id : ℤ
    pub result : String
    pub reason : String
    pub ts : ℕ
    pub error : Option String
    pub rented : Option Bool
    pub target_status : Option String
    pub advertised_ths : Option fl.Num
    pub advertised_unit : Option String

  -- The fields of the engine. _mrr_last_warn_ts is 0 before the first warning.
  pub record Engine : Type 0 where
    pub mrr_last_sync : Option LastSync
    pub mrr_last_warn_ts : ℕ
    pub sweep_hashrate_ths : fl.Num

  pub record Client : Type 0 where
    pub rig : ℤ → Outcome Rig
    pub update : ℤ → String → Option fl.Num → String → Outcome (Unit {0})

  -- The engine after the sync, and the calls that were made.
  abbrev pub Synced : Type 0
  Synced = Engine × List Call

  module _ (t : Texts) (float_of : Option Value → Option fl.Num) (client : Client)
      (config : Settings) (now : ℕ) (intent reason : String) where
    abbrev pub blank : ℤ → String → LastSync
    blank rig result = record {
      intent = intent;
      rig_id = rig;
      result = result;
      reason = reason;
      ts = now;
      error = none;
      rented = none;
      target_status = none;
      advertised_ths = none;
      advertised_unit = none;
    }

    abbrev pub set_last_sync : Engine → LastSync → Engine
    set_last_sync e r = record e { mrr_last_sync = some r }

    abbrev pub set_error : Engine → ℤ → String → Engine
    set_error e rig message = set_last_sync e (record (blank rig "error") { error = some message })

    abbrev pub unit : String
    unit = t.lower (text_or t "th" (config "MRR_HASHRATE_UNIT"))

    -- float(config.get(...) or 0.0), 0.0 if that raises
    abbrev pub modifier_of : Option fl.Num → fl.Num
    modifier_of none = fl.of_ℕ 0
    modifier_of (some x) = x

    abbrev pub advertised : fl.Num → fl.Num
    advertised base_ths = fl.mul base_ths (
        fl.add (fl.of_ℕ 1)
          (fl.div (modifier_of (float_of (config "MRR_HASHRATE_MODIFIER_PCT"))) (fl.of_ℕ 100)))

    abbrev pub pushed : ℤ → String → String → Option fl.Num → LastSync
    pushed rig result status hash = record (blank rig result) {
      target_status = some status;
      advertised_ths = hash;
      advertised_unit = some unit;
    }

    -- What is recorded of the update, by how it ended.
    unfoldable pub after_update : Engine → ℤ → String → Option fl.Num → Outcome (Unit {0}) → Engine
    after_update e rig status hash (returned u) = set_last_sync e (pushed rig "ok" status hash)
    after_update e rig status hash (mrr_error m) =
        set_last_sync e (record (pushed rig "error" status hash) { error = some m })
    after_update e rig status hash (other_error m) = set_error e (pos 0) m

    abbrev pub send : Engine → ℤ → String → Option fl.Num → Synced
    send e rig status hash = (
      after_update e rig status hash (client.update rig status hash unit),
      get_rig rig ∷ update_rig rig status hash unit ∷ [],
    )

    -- No rig is enabled at a hashrate that is not positive.
    unfoldable pub enable : Engine → ℤ → Synced
    enable e rig =
        if fl.leb e.sweep_hashrate_ths (fl.of_ℕ 0)
        then (
          set_last_sync e (record (blank rig "skipped") { error = some "sweep_hashrate_ths=0" }),
          get_rig rig ∷ [],
        )
        else send e rig "enabled" (some (advertised e.sweep_hashrate_ths))

    unfoldable pub push : Engine → ℤ → Synced
    push e rig = if intent =ˢ "maintaining" then enable e rig else send e rig "disabled" none

    unfoldable pub after_get : Engine → ℤ → Outcome Rig → Synced
    after_get e rig (mrr_error m) = (set_error e rig m, get_rig rig ∷ [])
    after_get e rig (other_error m) = (set_error e (pos 0) m, get_rig rig ∷ [])
    after_get e rig (returned r) =
        if is_rig_rented t.lower r
        then (
          set_last_sync e (record (blank rig "skipped_rented") { rented = some true }),
          get_rig rig ∷ [],
        )
        else push e rig

    abbrev pub is_missing : Bool
    is_missing = stripped t config "MRR_API_KEY" =ˢ "" || stripped t config "MRR_API_SECRET" =ˢ ""

    -- A warning at most once an hour.
    abbrev pub warned : Engine → Engine
    warned e =
        if ltb 3600 (now - e.mrr_last_warn_ts) then record e { mrr_last_warn_ts = now } else e

    abbrev pub no_credentials : Engine → ℤ → Engine
    no_credentials e rig =
        set_last_sync (warned e)
          (record (blank rig "skipped") { error = some "credentials not configured" })

    unfoldable pub sync_rig : Engine → Option ℤ → Synced
    sync_rig e none = (set_error e (pos 0) t.int_error, [])
    sync_rig e (some rig) =
        if leb_ℤ rig (pos 0)
        then (e, [])
        else if is_missing
        then (no_credentials e rig, [])
        else after_get e rig (client.rig rig)

    unfoldable pub mrr_sync : Engine → Synced
    mrr_sync e =
        if truthy (config "MRR_ENABLED")
        then sync_rig e (int_or t.int_of_text t.lower (config "MRR_RIG_ID") (some (pos 0)))
        else (e, [])
