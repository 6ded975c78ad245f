-- ===== src/Voltage.antt =====
-- tuner_app/tuning_engine/voltage_safety.py, and require_verified_voltage_target of HardwareTopology
-- in tuner_app/miner/types.py: when a voltage may be written. An error is its kind, without its text.
pub mod Safety
use antminer_chip_tuner.Floats.{Floats}
use antminer_chip_tuner.Prelude.{
  String, Bool, true, false, Option, none, some, ◌&&◌, not, ◌=ˢ◌, if◌then◌else◌,
}

-- The UnsafeVoltageBoundsErrors.
pub data VoltageError : Type 0 where
  no_topology : VoltageError
  unverified : VoltageError
  invalid_bounds : VoltageError
  invalid_target : VoltageError
  outside_range : VoltageError

module _ (fl : Floats) where
  -- What a bound or a target holds: a Boolean, something `float` does not convert, a number that is
  -- infinite or no number, or a finite number.
  pub data Volts : Type 0 where
    boolean : Volts
    unreadable : Volts
    not_finite : Volts
    millivolts : fl.Num → Volts

  -- The fields of HardwareTopology that are read.
  pub record Topology : Type 0 where
    pub psu_min_mv : Volts
    pub psu_max_mv : Volts
    pub psu_bounds_verified : Bool

  unfoldable pub is_sane : fl.Num → fl.Num → Bool
  is_sane min_mv max_mv = fl.leb (fl.of_ℕ 1000) min_mv && fl.ltb min_mv max_mv

  -- The bounds as numbers, if they are valid.
  unfoldable pub bounds_of : Volts → Volts → Option (fl.Num × fl.Num)
  bounds_of (millivolts a) (millivolts b) = if is_sane a b then some (a, b) else none
  bounds_of (millivolts a) boolean = none
  bounds_of (millivolts a) unreadable = none
  bounds_of (millivolts a) not_finite = none
  bounds_of boolean b = none
  bounds_of unreadable b = none
  bounds_of not_finite b = none

  -- The part that follows the checks of the bounds; none if no error is raised.
  unfoldable pub check_target : fl.Num × fl.Num → Option Volts → Option VoltageError
  check_target (min_mv, max_mv) none = none
  check_target (min_mv, max_mv) (some boolean) = some invalid_target
  check_target (min_mv, max_mv) (some unreadable) = some invalid_target
  check_target (min_mv, max_mv) (some not_finite) = some outside_range
  check_target (min_mv, max_mv) (some (millivolts t)) =
      if not (fl.leb min_mv t && fl.leb t max_mv) then some outside_range else none

  unfoldable pub check_bounds : Option (fl.Num × fl.Num) → Option Volts → Option VoltageError
  check_bounds none target = some invalid_bounds
  check_bounds (some bounds) target = check_target bounds target

  unfoldable pub require_verified_voltage_target : Topology → Option Volts → Option VoltageError
  require_verified_voltage_target topology target =
      if not topology.psu_bounds_verified
      then some unverified
      else check_bounds (bounds_of topology.psu_min_mv topology.psu_max_mv) target

  unfoldable pub require_topology : Option Topology → Option Volts → Option VoltageError
  require_topology none target = some no_topology
  require_topology (some topology) target = require_verified_voltage_target topology target

  unfoldable pub require_voltage_mutation_allowed :
      String → Option Topology → Option Volts → Option VoltageError
  require_voltage_mutation_allowed strategy topology target =
      if not (strategy =ˢ "voltage_chip_tune") then none else require_topology topology target
