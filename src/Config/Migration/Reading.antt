-- ===== src/Config/Migration/Reading.antt =====
-- What the merged configuration says of a migrated entry.
use antminer_chip_tuner.Prelude.{
  String, ◌≡◌, Bool, false, Option, none, some, arith, ◌=ˢ◌, ap, sym, ◌∙◌,
}
use antminer_chip_tuner.Prelude.Dict.{Dict, get, put, pop, get-put}
use package.text.Mathlib.TextEquality.{eq_iff}
use antminer_chip_tuner.Config.{Entry, State}
use antminer_chip_tuner.Config.Effective.{
  EffectiveConfig, get_or, default_item, get_item, override_of, bucket_of, empty_entry,
}
use antminer_chip_tuner.Config.Migration.{v4_entry, resolve, migrate_entry}
use antminer_chip_tuner.Config.Migration.Moved.{
  or_else, IsV3, get_item_v3, get_item_v4, firmware_of_v3, v4_shape, firmware_of-v4_entry,
  reads_same,
}

get_or-some :
    (default : Entry) (k : String) (d : Dict Entry) {e : Entry}
    → get k d ≡ some e
    → get_or default k d ≡ e
unfolding get_or
get_or-some default k d h = ground (arith, h)

get-put_self : (k : String) (e : Entry) (d : Dict Entry) → get k (put k e d) ≡ some e
get-put_self k e d = ground (arith, get-put k k e d, eq_iff k k)

module _ (is_mac is_dotted_quad : String → Bool) (vendor_mac : String → Entry → Option String)
    (resolve_mac : String → Option String) (synthesize_mac_id : String → String) where
  abbrev mac_of : String → Entry → String
  mac_of ip e = (resolve vendor_mac resolve_mac synthesize_mac_id ip e).0

  abbrev migrated : String → Entry → State → State
  migrated ip e s = record s {
    miner_configs =
        migrate_entry is_mac is_dotted_quad vendor_mac resolve_mac synthesize_mac_id ip e
          s.miner_configs;
  }

  new_override :
      (ip : String) (e : Entry) (s : State) (after : Bool)
      → override_of (record { key = mac_of ip e; is_legacy_ip = after }) (migrated ip e s)
        ≡ v4_entry ip (resolve vendor_mac resolve_mac synthesize_mac_id ip e).1 e
  unfolding override_of migrate_entry
  new_override ip e s after =
      let mac = mac_of ip e in
      let new = v4_entry ip (resolve vendor_mac resolve_mac synthesize_mac_id ip e).1 e in
      get_or-some empty_entry mac (put mac new (pop ip s.miner_configs))
        (get-put_self mac new (pop ip s.miner_configs))

  old_override :
      (ip : String) (e : Entry) (s : State) (before : Bool)
      → get ip s.miner_configs ≡ some e
      → override_of (record { key = ip; is_legacy_ip = before }) s ≡ e
  unfolding override_of
  old_override ip e s before g = get_or-some empty_entry ip s.miner_configs g

  same_default :
      (ip : String) (made : Bool) (k : String) (e : Entry) (s : State)
      → IsV3 e
      → default_item k (v4_entry ip made e) (migrated ip e s) ≡ default_item k e s
  unfolding default_item
  same_default ip made k e s v =
      ap
        (λ fw. elim (get k (bucket_of fw s.defaults)) [
          | some x ↦ some x
          | none ↦ get k s.fleet_ops
        ])
        (firmware_of-v4_entry ip made e v ∙ sym (firmware_of_v3 ip made e v))

  -- A key that is read of the entry under its address before its migration gives, read of it under
  -- its new key afterwards, the same value, from the entry or from the defaults, or again none. This
  -- holds for each key but firmware_type and current_firmware, provided that the entry's
  -- firmware_type, if it has one, is a text.
  pub get_item-migrate_entry :
      (ip k : String) (e : Entry) (s : State) (before after : Bool)
      → get ip s.miner_configs ≡ some e
      → IsV3 e
      → k =ˢ "firmware_type" ≡ false
      → k =ˢ "current_firmware" ≡ false
      → get_item (record { key = mac_of ip e; is_legacy_ip = after }) k (migrated ip e s)
        ≡ get_item (record { key = ip; is_legacy_ip = before }) k s
  get_item-migrate_entry ip k e s before after g v n m =
      let made = (resolve vendor_mac resolve_mac synthesize_mac_id ip e).1 in
      let new : EffectiveConfig = record { key = mac_of ip e; is_legacy_ip = after } in
      let old : EffectiveConfig = record { key = ip; is_legacy_ip = before } in
      get_item_v4 k (migrated ip e s) new (v4_entry ip made e) (new_override ip e s after)
        (v4_shape ip made e v)
      ∙ reads_same ip made e v k n m (default_item k (v4_entry ip made e) (migrated ip e s))
      ∙ ap (or_else (get k e.fields)) (same_default ip made k e s v)
      ∙ sym (get_item_v3 k s old e (old_override ip e s before g) v.shape)
