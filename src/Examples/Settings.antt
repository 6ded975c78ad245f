-- ===== src/Examples/Settings.antt =====
-- A configuration of one miner from before version 4, and its bucket of settings.
use antminer_chip_tuner.Prelude.{
  String, ◌≡◌, refl, Bool, true, false, Option, none, some, [], ◌∷◌, inl, arith,
}
use antminer_chip_tuner.Prelude.Int.{ℤ, pos}
use antminer_chip_tuner.Prelude.Dict.{Dict, get}
use antminer_chip_tuner.Config.{Value, text, number, Entry, State}
use antminer_chip_tuner.Config.Effective.{get_item, is_v4, get_or}
use antminer_chip_tuner.Config.Migration.{
  maybe_run_v3_to_v4_migration, migrate_entry, v3_firmware, resolve,
}
use antminer_chip_tuner.Config.Migration.Once.{migration_idempotent}
use antminer_chip_tuner.Config.Migration.Moved.{IsV3}
use antminer_chip_tuner.Config.Migration.Reading.{get_item-migrate_entry}
use antminer_chip_tuner.Config.Sanitize.{
  Setting, boolean, real, apply_bounds_to_bucket, clamp, clamped, apply_renames_and_sanitizers,
  fine_count_of,
}
use antminer_chip_tuner.Examples.Fine.{milli_floats}
use antminer_chip_tuner.Config.Sanitize.FineCount.{ReadsNearest, apply_sanitizers-ReadsNearest}

abbrev is_mac : String → Bool
is_mac s = false

abbrev is_dotted_quad : String → Bool
is_dotted_quad s = true

abbrev vendor_mac : String → Entry → Option String
vendor_mac ip e = none

abbrev resolve_mac : String → Option String
resolve_mac ip = some "aa:bb:cc:dd:ee:ff"

abbrev synthesize_mac_id : String → String
synthesize_mac_id ip = "syn-1"

abbrev old_entry : Entry
old_entry = record {
  fields =
      ("firmware_type", text "luxos") ∷ ("hostname", text "a1") ∷ ("FAN_MIN", number (pos 20)) ∷ [];
  platforms = none;
}

abbrev old_configs : Dict Entry
old_configs = ("10.0.0.7", old_entry) ∷ []

abbrev old_state : State
old_state = record { miner_configs = old_configs; defaults = []; fleet_ops = [] }

abbrev run : Bool → Dict Entry → Dict Entry × Bool
run = maybe_run_v3_to_v4_migration is_mac is_dotted_quad vendor_mac resolve_mac synthesize_mac_id

migration_idempotent_example :
    run true (run false old_configs).0 ≡ ((run false old_configs).0, false)
migration_idempotent_example =
    migration_idempotent is_mac is_dotted_quad vendor_mac resolve_mac synthesize_mac_id false true
      old_configs (inl refl)

old_entry-IsV3 : IsV3 old_entry
old_entry-IsV3 = record {
  shape = unfold is_v4 get in refl;
  firmware_text = unfold get_or get v3_firmware in refl;
  fields_once = unfold get in (refl, (refl, (refl, tt)));
}

get_item-migrate_entry_example :
    get_item
      (record { key = "aa:bb:cc:dd:ee:ff"; is_legacy_ip = false })
      "FAN_MIN"
      (record old_state {
        miner_configs =
            migrate_entry is_mac is_dotted_quad vendor_mac resolve_mac synthesize_mac_id "10.0.0.7"
              old_entry old_configs;
      })
    ≡ get_item (record { key = "10.0.0.7"; is_legacy_ip = true }) "FAN_MIN" old_state
unfolding resolve
get_item-migrate_entry_example =
    get_item-migrate_entry is_mac is_dotted_quad vendor_mac resolve_mac synthesize_mac_id "10.0.0.7"
      "FAN_MIN" old_entry old_state true false (unfold get in refl) old_entry-IsV3 refl refl

abbrev bucket : Dict Value
bucket = ("FAN_MIN", number (pos 250)) ∷ ("VF_EXPLORE_FINE_COUNT", number (pos 8)) ∷ []

-- A step of 30 MHz under the bounds 3.125 MHz and 25 MHz, in thousandths.
abbrev settings_read : Dict (Setting milli_floats)
settings_read = ("CHIP_TUNE_STEP_MHZ", real (pos 30000)) ∷ ("DRY_RUN", boolean true) ∷ []

abbrev step_bounds : ℤ × ℤ
step_bounds = (pos 3125, pos 25000)

abbrev bounds : Dict (ℤ × ℤ)
bounds = ("CHIP_TUNE_STEP_MHZ", step_bounds) ∷ []

abbrev clamp_all : Dict (Setting milli_floats) → Dict (Setting milli_floats)
clamp_all = apply_bounds_to_bucket milli_floats bounds

-- It is set to 25 MHz.
step_clamped : clamped milli_floats step_bounds (real (pos 30000)) ≡ real (pos 25000)
unfolding clamped clamp
step_clamped = refl

abbrev no_int : String → Option ℤ
no_int t = none

apply_sanitizers-ReadsNearest_example :
    (w : Value) × (get "VF_EXPLORE_FINE_COUNT" (apply_renames_and_sanitizers no_int bucket)
      ≡ some w)
    × ReadsNearest no_int 8 w
apply_sanitizers-ReadsNearest_example =
    apply_sanitizers-ReadsNearest no_int bucket (number (pos 8)) 8 (unfold get in refl)
      (unfold fine_count_of in refl) (omega arith)
