-- ===== src/Config/Migration/Moved.antt =====
-- An entry of version 3, before and after it is moved.
use antminer_chip_tuner.Prelude.{
  String, ◌≡◌, refl, Bool, true, false, Option, none, some, [], ◌∷◌, arith, Bool-cases, inl, inr,
  ◌=ˢ◌, ◌∙◌, if◌then◌else◌, ◌⊎◌,
}
use antminer_chip_tuner.Prelude.Dict.{Dict, get, put, pop, get-put, get-pop, IsDict, pop-IsDict}
use package.text.Mathlib.TextEquality.{eq_iff}
use antminer_chip_tuner.Config.{Value, text, Entry, State}
use antminer_chip_tuner.Config.Effective.{
  EffectiveConfig, get_or, is_cross_platform, is_v4, firmware_of, fw_overrides, default_item,
  get_item, override_of, bucket_of, platforms_of,
}
use antminer_chip_tuner.Config.Migration.{v3_firmware, place, base_fields, v4_entry}

abbrev pub or_else : Option Value → Option Value → Option Value
or_else none o = o
or_else (some v) o = some v

-- Where a field is placed: with the entry for a key that all platforms share, else in the bucket.
get-place_fields :
    (k : String) (d f b : Dict Value)
    → IsDict d
    → get k (place d (f, b)).0
      ≡ (if is_cross_platform k then or_else (get k d) (get k f) else get k f)
unfolding place get
get-place_fields k [] f b u = ground arith
get-place_fields k ((j, v) ∷ d) f b u = elim (Bool-cases (is_cross_platform j)) [
  | inl c ↦
      rw c (
        get-place_fields k d (put j v f) b u.1
        ∙ ground (arith, get-put j k v f, eq_iff j k, u.0, c))
  | inr c ↦ rw c (get-place_fields k d f (put j v b) u.1 ∙ ground (arith, eq_iff j k, u.0, c))
]

get-place_bucket :
    (k : String) (d f b : Dict Value)
    → IsDict d
    → get k (place d (f, b)).1
      ≡ (if is_cross_platform k then get k b else or_else (get k d) (get k b))
unfolding place get
get-place_bucket k [] f b u = ground arith
get-place_bucket k ((j, v) ∷ d) f b u = elim (Bool-cases (is_cross_platform j)) [
  | inl c ↦ rw c (get-place_bucket k d (put j v f) b u.1 ∙ ground (arith, eq_iff j k, u.0, c))
  | inr c ↦
      rw c (
        get-place_bucket k d f (put j v b) u.1
        ∙ ground (arith, get-put j k v b, eq_iff j k, u.0, c))
]

-- An entry of version 3, as a save of that version wrote it.
pub record IsV3 (e : Entry) : Type 0 where
  pub shape : is_v4 e ≡ false
  pub firmware_text :
      get_or (text "epic") "firmware_type" e.fields
      ≡ text (v3_firmware (get "firmware_type" e.fields))
  pub fields_once : IsDict e.fields

module _ (k : String) (s : State) (c : EffectiveConfig) (ov : Entry) where
  -- The first value that is there: the entry's own, else that of the defaults.
  pub get_item_v3 :
      override_of c s ≡ ov
      → is_v4 ov ≡ false
      → get_item c k s ≡ or_else (get k ov.fields) (default_item k ov s)
  unfolding get_item
  get_item_v3 e v = ground (arith, e, v)

  pub get_item_v4 :
      override_of c s ≡ ov
      → is_v4 ov ≡ true
      → get_item c k s
        ≡ or_else
            (if is_cross_platform k then get k ov.fields else none)
            (or_else (get k (fw_overrides ov)) (default_item k ov s))
  unfolding get_item
  get_item_v4 e v = ground (arith, e, v)

get_nil : (k : String) → get {V = Value} k [] ≡ none
unfolding get
get_nil k = refl

single_bucket :
    (k fw : String) (b : Dict Value) → get k (bucket_of (text fw) ((fw, b) ∷ [])) ≡ get k b
unfolding bucket_of get_or get
single_bucket k fw b = ground (arith, eq_iff fw fw)

module _ (ip : String) (made : Bool) (e : Entry) (v3 : IsV3 e) where
  abbrev pub fw : String
  fw = v3_firmware (get "firmware_type" e.fields)

  pub firmware_of_v3 : firmware_of e ≡ text fw
  unfolding firmware_of
  firmware_of_v3 = ground (arith, v3.shape, v3.firmware_text)

  no_current_firmware : get "current_firmware" e.fields ≡ none
  unfolding is_v4
  no_current_firmware = ground (arith, v3.shape)
    where
      shape : is_v4 e ≡ false
      shape = v3.shape

  abbrev rest : Dict Value
  rest = pop "firmware_type" e.fields

  get-fields :
      (k : String)
      → get k (v4_entry ip made e).fields ≡ (
          if is_cross_platform k
          then or_else (get k rest) (get k (base_fields ip fw made))
          else get k (base_fields ip fw made))
  unfolding v4_entry
  get-fields k =
      get-place_fields k rest (base_fields ip fw made) []
        (pop-IsDict "firmware_type" e.fields v3.fields_once)

  base_firmware : get "current_firmware" (base_fields ip fw made) ≡ some (text fw)
  unfolding get base_fields
  base_firmware = refl

  rest_firmware : get "current_firmware" rest ≡ none
  rest_firmware =
      ground (arith, get-pop "firmware_type" "current_firmware" e.fields, no_current_firmware)

  current_is_shared : is_cross_platform "current_firmware" ≡ true
  unfolding is_cross_platform
  current_is_shared = refl

  current : get "current_firmware" (v4_entry ip made e).fields ≡ some (text fw)
  current =
      ground (arith, get-fields "current_firmware", current_is_shared, rest_firmware, base_firmware)

  pub v4_shape : is_v4 (v4_entry ip made e) ≡ true
  unfolding is_v4 v4_entry
  v4_shape = refl

  pub firmware_of-v4_entry : firmware_of (v4_entry ip made e) ≡ text fw
  unfolding firmware_of get_or
  firmware_of-v4_entry = ground (arith, v4_shape, current)

  in_bucket :
      (k : String)
      → get k (bucket_of (text fw) (platforms_of (v4_entry ip made e).platforms))
        ≡ (if is_cross_platform k then none else get k rest)
  unfolding v4_entry platforms_of
  in_bucket k =
      single_bucket k fw (place rest (base_fields ip fw made, [])).1
      ∙ get-place_bucket k rest (base_fields ip fw made) []
          (pop-IsDict "firmware_type" e.fields v3.fields_once)
      ∙ ground (arith, get_nil k)

  shared_cases :
      (k : String)
      → k =ˢ "current_firmware" ≡ false
      → is_cross_platform k ≡ true
      → (k ≡ "PASSWORD") ⊎ ((k ≡ "MRR_RIG_ID") ⊎ (k ≡ "hostname"))
  unfolding is_cross_platform
  shared_cases k m c = elim (Bool-cases (k =ˢ "PASSWORD")) [
    | inl h ↦ inl ((eq_iff k "PASSWORD").0 h)
    | inr h ↦ elim (Bool-cases (k =ˢ "MRR_RIG_ID")) [
      | inl i ↦ inr (inl ((eq_iff k "MRR_RIG_ID").0 i))
      | inr i ↦ inr (inr ((eq_iff k "hostname").0 (ground arith)))
    ]
  ]

  -- No shared key but current_firmware is among the fields that the migration writes.
  base_shared :
      (k : String)
      → k =ˢ "current_firmware" ≡ false
      → is_cross_platform k ≡ true
      → get k (base_fields ip fw made) ≡ none
  unfolding is_cross_platform base_fields get
  base_shared k m c = elim (shared_cases k m c) [
    | inl e ↦ rw e refl
    | inr (inl e) ↦ rw e refl
    | inr (inr e) ↦ rw e refl
  ]

  get-bucket :
      (k : String)
      → get k (fw_overrides (v4_entry ip made e))
        ≡ (if is_cross_platform k then none else get k rest)
  unfolding fw_overrides
  get-bucket k = rw firmware_of-v4_entry (in_bucket k)

  -- Each key that the migration neither writes for itself nor drops reads the same.
  pub reads_same :
      (k : String)
      → k =ˢ "firmware_type" ≡ false
      → k =ˢ "current_firmware" ≡ false
      → (d : Option Value)
      → or_else
          (if is_cross_platform k then get k (v4_entry ip made e).fields else none)
          (or_else (get k (fw_overrides (v4_entry ip made e))) d)
        ≡ or_else (get k e.fields) d
  reads_same k n m d = ground (
    arith,
    get-fields k,
    get-bucket k,
    get-pop "firmware_type" k e.fields,
    eq_iff k "firmware_type",
    eq_iff "firmware_type" k,
    base_shared k m,
  )
