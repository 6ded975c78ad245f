-- ===== src/Config/Effective.antt =====
-- tuner_app/config/effective.py: the merged, read-only view of a miner's configuration. A KeyError
-- is `none`. The two regular expressions are arguments: `is_ipv4` is a match of the first,
-- `synth_ipv4` the groups of the second joined by dots.
pub mod Layers
pub mod Address
use antminer_chip_tuner.Prelude.{
  String, Bool, true, false, Option, none, some, [], ◌∷◌, ◌&&◌, ◌||◌, not, is_some, ◌=ˢ◌,
  if◌then◌else◌,
}
use antminer_chip_tuner.Prelude.Dict.{Dict, get}
use antminer_chip_tuner.Config.{Value, null, flag, number, text, Entry, State}

abbrev pub empty_entry : Entry
empty_entry = record { fields = []; platforms = none }

-- CROSS_PLATFORM_PER_MINER_KEYS
unfoldable pub is_cross_platform : String → Bool
is_cross_platform k =
    k =ˢ "PASSWORD" || k =ˢ "MRR_RIG_ID" || k =ˢ "hostname" || k =ˢ "current_firmware"

-- d.get(k, default)
unfoldable pub get_or {ℓ} : {V : Type ℓ} → V → String → Dict V → V
get_or default k d = elim (get k d) [ none ↦ default | some v ↦ v ]

-- buckets.get(firmware, {}): no value but a text is a key of the dict.
unfoldable pub bucket_of : Value → Dict (Dict Value) → Dict Value
bucket_of (text fw) d = get_or [] fw d
bucket_of null d = []
bucket_of (flag b) d = []
bucket_of (number n) d = []

-- entry.get("ip") == identifier
unfoldable pub has_address : String → Option Value → Bool
has_address ip (some (text t)) = t =ˢ ip
has_address ip (some null) = false
has_address ip (some (flag b)) = false
has_address ip (some (number n)) = false
has_address ip none = false

-- The key of the first entry with this address.
unfoldable pub find_by_ip : String → Dict Entry → Option String
find_by_ip ip [] = none
find_by_ip ip ((mac, e) ∷ d) =
    let rest = find_by_ip ip d in if has_address ip (get "ip" e.fields) then some mac else rest

-- A value that Python counts as true, used as a text.
unfoldable pub truthy_text : Option Value → Option String
truthy_text (some (text t)) = if t =ˢ "" then none else some t
truthy_text (some null) = none
truthy_text (some (flag b)) = none
truthy_text (some (number n)) = none
truthy_text none = none

-- For an entry whose two fields are texts or null, as the schema has them.
unfoldable pub resolve_current_firmware : Entry → String → String
resolve_current_firmware e default = elim (truthy_text (get "current_firmware" e.fields)) [
  | some fw ↦ fw
  | none ↦ elim (truthy_text (get "firmware_type" e.fields)) [ some fw ↦ fw | none ↦ default ]
]

pub record EffectiveConfig : Type 0 where
  pub key : String  -- _key
  pub is_legacy_ip : Bool  -- _is_legacy_ip

unfoldable pub found_key : String → Option String → EffectiveConfig
found_key identifier (some mac) = record { key = mac; is_legacy_ip = false }
found_key identifier none = record { key = identifier; is_legacy_ip = true }

unfoldable pub override_of : EffectiveConfig → State → Entry
override_of c s = get_or empty_entry c.key s.miner_configs

-- "platforms" in ov or "current_firmware" in ov
unfoldable pub is_v4 : Entry → Bool
is_v4 ov = is_some ov.platforms || is_some (get "current_firmware" ov.fields)

unfoldable pub platforms_of : Option (Dict (Dict Value)) → Dict (Dict Value)
platforms_of none = []
platforms_of (some d) = d

-- The firmware that both branches of step 2 leave for step 3.
unfoldable pub firmware_of : Entry → Value
firmware_of ov =
    if is_v4 ov
    then get_or (text "epic") "current_firmware" ov.fields
    else get_or (text "epic") "firmware_type" ov.fields

-- fw_overrides of step 2
unfoldable pub fw_overrides : Entry → Dict Value
fw_overrides ov = bucket_of (firmware_of ov) (platforms_of ov.platforms)

-- Steps 3 and 4 of __getitem__
unfoldable pub default_item : String → Entry → State → Option Value
default_item k ov s = elim (get k (bucket_of (firmware_of ov) s.defaults)) [
  | some v ↦ some v
  | none ↦ get k s.fleet_ops
]

-- __getitem__
unfoldable pub get_item : EffectiveConfig → String → State → Option Value
get_item c k s =
    let ov = override_of c s in
    if is_cross_platform k && is_some (get k ov.fields)
    then get k ov.fields
    else if is_v4 ov
    then elim (get k (fw_overrides ov)) [ some v ↦ some v | none ↦ default_item k ov s ]
    else if is_some (get k ov.fields) && not (is_cross_platform k)
    then get k ov.fields
    else default_item k ov s

-- __contains__
unfoldable pub contains : EffectiveConfig → String → State → Bool
contains c k s =
    let ov = override_of c s in
    if is_cross_platform k && is_some (get k ov.fields)
    then true
    else if is_v4 ov && is_some (get k (fw_overrides ov))
    then true
    else if not (is_v4 ov) && is_some (get k ov.fields) && not (is_cross_platform k)
    then true
    else if is_some (get k (bucket_of (firmware_of ov) s.defaults))
    then true
    else is_some (get k s.fleet_ops)

-- The method `get`
unfoldable pub get_default : EffectiveConfig → String → Value → State → Value
get_default c k default s = elim (get_item c k s) [ some v ↦ v | none ↦ default ]

-- The property `ip`
unfoldable pub ip : EffectiveConfig → State → Value
ip c s = if c.is_legacy_ip then text c.key else get_or (text "") "ip" (override_of c s).fields

module _ (is_ipv4 : String → Bool) (synth_ipv4 : String → Option String) where
  unfoldable pub canonical_address : String → Dict Entry → String
  canonical_address identifier d =
      if is_ipv4 identifier
      then elim (find_by_ip identifier d) [ some mac ↦ mac | none ↦ identifier ]
      else identifier

  unfoldable pub canonical_miner_key : String → State → String
  canonical_miner_key identifier s = elim (synth_ipv4 identifier) [
    | some address ↦ canonical_address address s.miner_configs
    | none ↦ canonical_address identifier s.miner_configs
  ]

  -- __init__
  unfoldable pub effective_config : String → State → EffectiveConfig
  effective_config identifier s =
      if is_ipv4 identifier
      then found_key identifier (find_by_ip identifier s.miner_configs)
      else record { key = identifier; is_legacy_ip = false }
