-- ===== src/Mrr/RentalCache/Tracking.antt =====
-- What the rental cache holds after a refresh.
use antminer_chip_tuner.Prelude.{
  ℕ, ◌+◌, String, ◌≡◌, refl, ◌∙◌, ap, Bool, false, Option, none, some, [], ◌∷◌, arith, ◌=ˢ◌,
  if◌then◌else◌, Bool-cases, Option-cases, subst, some_eq, inl, inr,
}
use antminer_chip_tuner.Prelude.Int.{ℤ, pos, ltb_ℤ}
use antminer_chip_tuner.Prelude.Dict.{Dict, get, put, IsDict, get-put, get-pop, get-keep}
use package.text.Mathlib.TextEquality.{eq_iff}
use antminer_chip_tuner.Config.{Entry, State}
use antminer_chip_tuner.Config.Effective.{canonical_miner_key}
use antminer_chip_tuner.Mrr.RentalCache.{
  RentalStatus, Cache, Reply, Calls, has_rig, missing_setup, diagnostic_entry, put_all, drop_stale,
  tracked, fetched, got, failed, fetch_from, refresh_pairs, refresh_cycle, refreshed, get_status,
  refresh_one, extract_rig_id, add_pair, pairs_of, global_rig_id,
}

-- The rig of a cached entry.
abbrev pub rig_of : Option RentalStatus → Option ℤ
rig_of none = none
rig_of (some st) = some st.rig_id

-- The second value where there is one, or else the first.
over : Option ℤ → Option ℤ → Option ℤ
over old none = old
over old (some r) = some r

put_step :
    (mac m : String) (r : ℤ) (e : RentalStatus) (ps : Dict ℤ) (c : Cache) {x : Option ℤ}
    → get m ps ≡ none
    → e.rig_id ≡ r
    → x ≡ over (rig_of (get mac (put m e c))) (get mac ps)
    → x ≡ over (rig_of (get mac c)) (get mac ((m, r) ∷ ps))
unfolding over get
put_step mac m r e ps c k q h = ground (arith, get-put m mac e c, eq_iff m mac)

put_all-rig :
    (why : String × String) (now : ℕ) (ps : Dict ℤ) (c : Cache) (mac : String)
    → IsDict ps
    → rig_of (get mac (put_all why now ps c)) ≡ over (rig_of (get mac c)) (get mac ps)
unfolding put_all diagnostic_entry over
put_all-rig why now [] c mac k = unfold get in refl
put_all-rig why now ((m, r) ∷ ps) c mac k =
    let e : RentalStatus = diagnostic_entry why r now in
    put_step mac m r e ps c k.0 refl (put_all-rig why now ps (put m e c) mac k.1)

module _ (int_of_text : String → Option ℤ) (lower : String → String) where
  fetched-rig :
      (reply : Reply) (r : ℤ) (now : ℕ) → (fetched int_of_text lower reply r now).rig_id ≡ r
  unfolding fetched
  fetched-rig (got x) r now = refl
  fetched-rig (failed m) r now = refl

  fetch_from-rig :
      (calls : Calls) (i : ℕ) (ps : Dict ℤ) (c : Cache) (mac : String)
      → ((j : ℕ) → calls.is_set j ≡ false)
      → ((j : ℕ) → calls.woken j ≡ false)
      → IsDict ps
      → rig_of (get mac (fetch_from int_of_text lower calls i ps c))
        ≡ over (rig_of (get mac c)) (get mac ps)
  unfolding fetch_from over
  fetch_from-rig calls i [] c mac p q k = unfold get in refl
  fetch_from-rig calls i ((m, r) ∷ ps) c mac p q k =
      let e : RentalStatus = fetched int_of_text lower (calls.reply i r) r (calls.time i) in
      let step =
        put_step mac m r e ps c k.0 (fetched-rig (calls.reply i r) r (calls.time i))
          (fetch_from-rig calls (i + 1) ps (put m e c) mac p q k.1) in
      ground (arith, p i, q i, step)

  unfoldable pub positive : Option ℤ → Option ℤ
  positive none = none
  positive (some r) = if ltb_ℤ (pos 0) r then some r else none

  -- The rig that a miner's entry asks for: a positive number, or none.
  unfoldable pub wanted : ℤ → Option Entry → Option ℤ
  wanted g none = none
  wanted g (some e) = positive (extract_rig_id int_of_text lower e g)

  -- The rig that the configuration asks for, if its numbers can be read.
  unfoldable pub configured : String → State → Option ℤ
  configured mac s = elim (global_rig_id int_of_text lower s) [
    | none ↦ none
    | some g ↦ wanted g (get mac s.miner_configs)
  ]

  -- The pairs are a dict that has for each miner the rig its entry asks for.
  abbrev Represents : ℤ → Dict Entry → Dict ℤ → Type 0
  Represents g d ps = IsDict ps × ((mac : String) → get mac ps ≡ wanted g (get mac d))

  add_pair-Represents :
      (g : ℤ) (m : String) (e : Entry) (d : Dict Entry) (o : Option ℤ) (rest : Option (Dict ℤ))
      → (ps : Dict ℤ) → extract_rig_id int_of_text lower e g ≡ o
      → ((qs : Dict ℤ) → rest ≡ some qs → Represents g d qs)
      → get m d ≡ none
      → add_pair int_of_text lower m o rest ≡ some ps
      → Represents g ((m, e) ∷ d) ps
  unfolding add_pair get wanted positive
  add_pair-Represents g m e d none rest ps x w k h = absurd (cc)
  add_pair-Represents g m e d (some r) none ps x w k h = absurd (cc)
  add_pair-Represents g m e d (some r) (some qs) ps x w k h =
      let (kq, wq) = w qs refl in
      let missing : get m qs ≡ none = wq m ∙ ap (wanted g) k in
      elim (Bool-cases (ltb_ℤ (pos 0) r)) [
        | inl b ↦
            subst (Represents g ((m, e) ∷ d)) (some_eq (rw b at h))
              ((missing, kq), λ mac. ground (arith, wq mac, eq_iff m mac, x, b))
        | inr b ↦
            subst (Represents g ((m, e) ∷ d)) (some_eq (rw b at h))
              (kq, λ mac. ground (arith, wq mac, missing, eq_iff m mac, x, b))
      ]

  pairs_of-Represents :
      (d : Dict Entry) (g : ℤ) (ps : Dict ℤ)
      → IsDict d
      → pairs_of int_of_text lower d g ≡ some ps
      → Represents g d ps
  unfolding pairs_of wanted get
  pairs_of-Represents [] g ps k h = subst (Represents g []) (some_eq h) (tt, λ mac. refl)
  pairs_of-Represents ((m, e) ∷ d) g ps k h =
      add_pair-Represents g m e d (extract_rig_id int_of_text lower e g)
        (pairs_of int_of_text lower d g) ps refl (λ qs. pairs_of-Represents d g qs k.1) k.0 h

  drop_stale-rig :
      (ps : Dict ℤ) (c : Cache) (mac : String)
      → IsDict c
      → over (rig_of (get mac (drop_stale ps c))) (get mac ps) ≡ get mac ps
  unfolding drop_stale has_rig over
  drop_stale-rig ps c mac k =
      ground (arith, get-keep (λ m st. has_rig m ps) mac c k, Option-cases (get mac c))

  refresh_pairs-rig :
      (calls : Calls) (now : ℕ) (why : Option (String × String)) (ps : Dict ℤ) (c : Cache)
      → (mac : String) → ((j : ℕ) → calls.is_set j ≡ false)
      → ((j : ℕ) → calls.woken j ≡ false)
      → IsDict ps
      → IsDict c
      → rig_of (get mac (refresh_pairs int_of_text lower calls now why ps (drop_stale ps c)))
        ≡ get mac ps
  unfolding refresh_pairs
  refresh_pairs-rig calls now none ps c mac p q k kc =
      fetch_from-rig calls 0 ps (drop_stale ps c) mac p q k ∙ drop_stale-rig ps c mac kc
  refresh_pairs-rig calls now (some why) ps c mac p q k kc =
      put_all-rig why now ps (drop_stale ps c) mac k ∙ drop_stale-rig ps c mac kc

  -- A refresh cycle that is not stopped and raises no error leaves an entry exactly for the miners
  -- for which the configuration gives a positive rig, with that rig; whether the entries are live,
  -- errors or diagnostics. Each key stands once in the cache and in MINER_CONFIGS.
  pub refresh_cycle_tracks :
      (calls : Calls) (now : ℕ) (s : State) (c c1 : Cache) (mac : String)
      → ((j : ℕ) → calls.is_set j ≡ false)
      → ((j : ℕ) → calls.woken j ≡ false)
      → IsDict c
      → IsDict s.miner_configs
      → refresh_cycle int_of_text lower calls now s c ≡ some c1
      → rig_of (get mac c1) ≡ configured mac s
  unfolding refresh_cycle tracked configured
  refresh_cycle_tracks calls now s c c1 mac p q kc ks h =
      elim (Option-cases (global_rig_id int_of_text lower s)) [
        | inl e ↦ absurd (ground (arith, e))
        | inr (g, e) ↦ elim (Option-cases (pairs_of int_of_text lower s.miner_configs g)) [
          | inl f ↦ absurd (ground (arith, e, f))
          | inr (ps, f) ↦
              let (kp, w) = pairs_of-Represents s.miner_configs g ps ks f in
              let rigs =
                refresh_pairs-rig calls now (missing_setup s.fleet_ops) ps c mac p q kp kc in
              ground (arith, e, f, rigs, w mac)
        ]
      ]

  module _ (is_ipv4 : String → Bool) (synth_ipv4 : String → Option String) where
    refreshed-rig :
        (reply : Reply) (r : ℤ) (now : ℕ) (why : Option (String × String))
        → (refreshed int_of_text lower reply r now why).rig_id ≡ r
    unfolding refreshed diagnostic_entry
    refreshed-rig reply r now none = fetched-rig reply r now
    refreshed-rig reply r now (some why) = refl

    -- After an entry is refreshed on demand, reading the cache by any identifier, address or key,
    -- that has the same canonical key gives an entry with the new rig, or none if the rig was
    -- cleared; and reading it by another identifier gives the rig it gave before.
    pub refresh_one-get_status :
        (identifier other : String) (rig : ℤ) (reply : Reply) (now : ℕ) (s : State) (c : Cache)
        → rig_of (
            get_status int_of_text lower is_ipv4 synth_ipv4 other s
              (refresh_one int_of_text lower is_ipv4 synth_ipv4 identifier rig reply now s c))
          ≡ (if canonical_miner_key is_ipv4 synth_ipv4 identifier s
                =ˢ canonical_miner_key is_ipv4 synth_ipv4 other s
              then positive (some rig)
              else rig_of (get_status int_of_text lower is_ipv4 synth_ipv4 other s c))
    unfolding refresh_one get_status positive
    refresh_one-get_status identifier other rig reply now s c =
        let m = canonical_miner_key is_ipv4 synth_ipv4 identifier s in
        let k = canonical_miner_key is_ipv4 synth_ipv4 other s in
        let why = missing_setup s.fleet_ops in
        let e = refreshed int_of_text lower reply rig now why in
        ground (arith, get-put m k e c, get-pop m k c, refreshed-rig reply rig now why)
