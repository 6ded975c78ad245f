-- ===== src/Config/Effective/Layers.antt =====
-- The order in which the merged view resolves a key.
use antminer_chip_tuner.Prelude.{
  String, ◌≡◌, Bool, true, false, Option, none, some, List, [], ◌∷◌, arith, is_some, if◌then◌else◌,
}
use antminer_chip_tuner.Prelude.Dict.{Dict, get}
use antminer_chip_tuner.Config.{Value, Entry, State}
use antminer_chip_tuner.Config.Effective.{
  is_cross_platform, bucket_of, EffectiveConfig, override_of, is_v4, firmware_of, fw_overrides,
  default_item, get_item, contains, get_default,
}

-- What the first dict that has the key says of it.
abbrev pub first_hit : String → List (Dict Value) → Option Value
first_hit k [] = none
first_hit k (d ∷ ds) = elim (get k d) [ some v ↦ some v | none ↦ first_hit k ds ]

-- The part of a dict that holds the cross-platform keys, if `b`, or the others.
abbrev pub side : Bool → String → Dict Value → Dict Value
side b k d = if is_cross_platform k then (if b then d else []) else (if b then [] else d)

-- The dicts of the resolution order, the strongest first, as a key `k` sees them.
abbrev pub layers : String → Entry → State → List (Dict Value)
layers k ov s =
    side true k ov.fields
    ∷ (if is_v4 ov then fw_overrides ov else side false k ov.fields)
    ∷ bucket_of (firmware_of ov) s.defaults
    ∷ s.fleet_ops
    ∷ []

-- Reading a key gives what the first dict of the resolution order that has it says: the entry's
-- cross-platform keys; the overrides for its firmware if the entry has the v4 shape, its other
-- keys if not; the firmware's defaults; the fleet's. It is a KeyError if none has it.
pub get_item-layers :
    (c : EffectiveConfig) (k : String) (s : State)
    → get_item c k s ≡ first_hit k (layers k (override_of c s) s)
unfolding get_item default_item get
get_item-layers c k s = ground arith

-- `key in config` is true exactly if `config[key]` raises no KeyError, and `config.get` gives
-- its default in the other case.
pub contains-get_item :
    (c : EffectiveConfig) (k : String) (v : Value) (s : State)
    → (contains c k s ≡ is_some (get_item c k s))
      × (get_default c k v s ≡ (if contains c k s then get_default c k v s else v))
unfolding contains get_item get_default default_item
contains-get_item c k v s = ground arith
