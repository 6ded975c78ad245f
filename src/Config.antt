-- ===== src/Config.antt =====
-- tuner_app/config: the configuration's values and the merged view of them.
pub mod Effective
pub mod Migration
pub mod Sanitize
use antminer_chip_tuner.Prelude.{String, Bool, Option}
use antminer_chip_tuner.Prelude.Int.{ℤ}
use antminer_chip_tuner.Prelude.Dict.{Dict}

-- The scalar values of the configuration.
pub data Value : Type 0 where
  null : Value
  flag : Bool → Value
  number : ℤ → Value
  text : String → Value

-- A value of state.MINER_CONFIGS. `platforms` is a dict of dicts when it is there; all other keys
-- of the entry, among them ip, current_firmware and firmware_type, are in `fields`.
pub record Entry : Type 0 where
  pub fields : Dict Value
  pub platforms : Option (Dict (Dict Value))

-- state.CONFIG and state.MINER_CONFIGS
pub record State : Type 0 where
  pub miner_configs : Dict Entry
  pub defaults : Dict (Dict Value)  -- CONFIG["defaults"]
  pub fleet_ops : Dict Value  -- CONFIG["fleet_ops"]
