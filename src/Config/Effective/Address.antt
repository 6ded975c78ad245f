-- ===== src/Config/Effective/Address.antt =====
-- The address that a merged view reports.
use antminer_chip_tuner.Prelude.{
  String, ◌≡◌, refl, ap, Bool, true, Option, none, some, [], ◌∷◌, arith, Bool-cases, inl, inr,
}
use antminer_chip_tuner.Prelude.Dict.{Dict, get, IsDict}
use package.text.Mathlib.TextEquality.{eq_iff}
use antminer_chip_tuner.Config.{Value, null, flag, number, text, Entry, State}
use antminer_chip_tuner.Config.Effective.{
  get_or, has_address, find_by_ip, canonical_address, canonical_miner_key, effective_config,
  found_key, override_of, ip,
}

find_by_ip-get :
    (a mac : String) (d : Dict Entry)
    → IsDict d
    → find_by_ip a d ≡ some mac
    → (e : Entry) × (get mac d ≡ some e) × (has_address a (get "ip" e.fields) ≡ true)
unfolding find_by_ip get
find_by_ip-get a mac [] k h = absurd (cc)
find_by_ip-get a mac ((m, e) ∷ d) k h = elim (Bool-cases (has_address a (get "ip" e.fields))) [
  | inl b ↦ (e, ground (arith, eq_iff m mac, b), b)
  | inr b ↦
      let (e2, g, q) = find_by_ip-get a mac d k.1 (ground (arith, b)) in
      (e2, ground (arith, eq_iff m mac), q)
]

has_address-text : (a : String) (o : Option Value) → has_address a o ≡ true → o ≡ some (text a)
unfolding has_address
has_address-text a none h = absurd (cc)
has_address-text a (some null) h = absurd (cc)
has_address-text a (some (flag b)) h = absurd (cc)
has_address-text a (some (number n)) h = absurd (cc)
has_address-text a (some (text t)) h = ap (λ x. some (text x)) ((eq_iff t a).0 h)

found_key-ip :
    (a : String) (s : State) (o : Option String)
    → IsDict s.miner_configs
    → find_by_ip a s.miner_configs ≡ o
    → ip (found_key a o) s ≡ text a
unfolding ip found_key override_of get_or
found_key-ip a s none k h = refl
found_key-ip a s (some mac) k h =
    let (e, g, q) = find_by_ip-get a mac s.miner_configs k h in
    ground (arith, g, has_address-text a (get "ip" e.fields) q)

module _ (is_ipv4 : String → Bool) (synth_ipv4 : String → Option String) where
  -- A view made from an IPv4 address reports that address as the miner's, whether an entry has it
  -- or not, provided that each key stands once in MINER_CONFIGS.
  pub effective_config-ip :
      (a : String) (s : State)
      → IsDict s.miner_configs
      → is_ipv4 a ≡ true
      → ip (effective_config is_ipv4 synth_ipv4 a s) s ≡ text a
  unfolding effective_config
  effective_config-ip a s k h = rw h (found_key-ip a s (find_by_ip a s.miner_configs) k refl)

  -- An identifier that does not spell an address reads the entry of its canonical key, as the
  -- functions that route by that key do.
  pub effective_config-canonical :
      (a : String) (s : State)
      → synth_ipv4 a ≡ none
      → (effective_config is_ipv4 synth_ipv4 a s).key ≡ canonical_miner_key is_ipv4 synth_ipv4 a s
  unfolding effective_config canonical_miner_key canonical_address found_key
  effective_config-canonical a s h = ground (arith, h)
