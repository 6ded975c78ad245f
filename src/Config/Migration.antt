-- ===== src/Config/Migration.antt =====
-- _maybe_run_v3_to_v4_migration and _looks_like_mac_or_synth of tuner_app/config/persistence.py.
-- Arguments stand for the two regular expressions, the sentinel file, and the addresses that the
-- vendor's API, the network and the synthesis give. Not modelled: the files that are renamed.
pub mod Moved
pub mod Reading
pub mod Once
use package.text.Mathlib.Text.{starts_with}
use antminer_chip_tuner.Prelude.{
  String, Bool, true, false, Option, none, some, List, [], ◌∷◌, ◌||◌, ◌&&◌, not, if◌then◌else◌,
}
use antminer_chip_tuner.Prelude.Dict.{Dict, get, put, pop}
use antminer_chip_tuner.Config.{Value, null, flag, number, text, Entry, State}
use antminer_chip_tuner.Config.Effective.{get_or, is_cross_platform, is_v4}

-- The firmware_type of an entry, "epic" if it is not there. For an entry in which it is a text, as
-- the schema has it; no other value is a key of `platforms`.
unfoldable pub v3_firmware : Option Value → String
v3_firmware (some (text fw)) = fw
v3_firmware none = "epic"
v3_firmware (some null) = "epic"
v3_firmware (some (flag b)) = "epic"
v3_firmware (some (number n)) = "epic"

-- The fields of an entry, each to the entry itself or to the bucket of its firmware.
unfoldable pub place : Dict Value → Dict Value × Dict Value → Dict Value × Dict Value
place [] (f, b) = (f, b)
place ((k, v) ∷ d) (f, b) =
    if is_cross_platform k then place d (put k v f, b) else place d (f, put k v b)

unfoldable pub base_fields : String → String → Bool → Dict Value
base_fields ip firmware id_synthesized =
    ("ip", text ip)
    ∷ ("current_firmware", text firmware)
    ∷ ("id_synthesized", flag id_synthesized)
    ∷ []

-- v4_entry
unfoldable pub v4_entry : String → Bool → Entry → Entry
v4_entry ip id_synthesized v3 =
    let firmware = v3_firmware (get "firmware_type" v3.fields) in
    let placed =
      place (pop "firmware_type" v3.fields) (base_fields ip firmware id_synthesized, []) in
    record { fields = placed.0; platforms = some ((firmware, placed.1) ∷ []) }

-- The key of an entry, and whether it had to be made up: from the vendor's API, else from the
-- network, else from the address.
unfoldable pub resolve :
    (String → Entry → Option String)
    → (String → Option String)
    → (String → String)
    → String
    → Entry
    → String × Bool
resolve vendor_mac resolve_mac synthesize_mac_id ip e = elim (vendor_mac ip e) [
  | some mac ↦ (mac, false)
  | none ↦ elim (resolve_mac ip) [ some mac ↦ (mac, false) | none ↦ (synthesize_mac_id ip, true) ]
]

module _ (is_mac : String → Bool) (is_dotted_quad : String → Bool) where
  unfoldable pub looks_like_mac_or_synth : String → Bool
  looks_like_mac_or_synth s = if starts_with s "syn-" then true else is_mac s

  -- An entry that the migration has to move.
  abbrev pub is_v3 : String → Entry → Bool
  is_v3 key e = not (is_v4 e) && not (looks_like_mac_or_synth key)

  unfoldable pub v3_entries : Dict Entry → Dict Entry
  v3_entries [] = []
  v3_entries ((k, e) ∷ d) = let rest = v3_entries d in if is_v3 k e then (k, e) ∷ rest else rest

  -- has_v3_entries
  unfoldable pub has_v3_entries : Dict Entry → Bool
  has_v3_entries [] = false
  has_v3_entries ((k, e) ∷ d) = not (is_v4 e) && is_dotted_quad k || has_v3_entries d

  module _ (vendor_mac : String → Entry → Option String) (resolve_mac : String → Option String)
      (synthesize_mac_id : String → String) where
    -- One entry moves from its address to its key.
    unfoldable pub migrate_entry : String → Entry → Dict Entry → Dict Entry
    migrate_entry ip e d =
        let (mac, synthesized) = resolve vendor_mac resolve_mac synthesize_mac_id ip e in
        put mac (v4_entry ip synthesized e) (pop ip d)

    unfoldable pub migrate_entries : Dict Entry → Dict Entry → Dict Entry
    migrate_entries [] d = d
    migrate_entries ((ip, e) ∷ rest) d = migrate_entries rest (migrate_entry ip e d)

    abbrev pub is_filled : Dict Entry → Bool
    is_filled [] = false
    is_filled (p ∷ d) = true

    -- The configured miners after the migration, and whether an entry was moved; `sentinel` is
    -- whether the sentinel file exists.
    unfoldable pub maybe_run_v3_to_v4_migration : Bool → Dict Entry → Dict Entry × Bool
    maybe_run_v3_to_v4_migration sentinel d =
        if sentinel && not (has_v3_entries d)
        then (d, false)
        else (migrate_entries (v3_entries d) d, is_filled (v3_entries d))
