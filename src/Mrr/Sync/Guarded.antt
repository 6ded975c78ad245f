-- ===== src/Mrr/Sync/Guarded.antt =====
-- When mrr_sync updates a rig.
use antminer_chip_tuner.Floats.{Floats}
use antminer_chip_tuner.Prelude.{
  ◌≡◌, refl, ℕ, String, true, false, Option, none, some, List, [], ◌∷◌, Bool-cases, inl, inr, ◌=ˢ◌,
  All,
}
use antminer_chip_tuner.Prelude.Int.{ℤ, pos, leb_ℤ}
use antminer_chip_tuner.Config.{Value}
use antminer_chip_tuner.Mrr.Rig.{Rig, is_rig_rented}
use antminer_chip_tuner.Mrr.RentalCache.{truthy, int_or}
use antminer_chip_tuner.Mrr.Sync.{
  Outcome, returned, mrr_error, other_error, Texts, Settings, Call, get_rig, update_rig, Engine,
  Client, advertised, unit, send, enable, push, after_get, is_missing, sync_rig, mrr_sync,
}

module _ (fl : Floats) (t : Texts) (float_of : Option Value → Option fl.Num) (client : Client fl)
    (config : Settings) (now : ℕ) (intent reason : String) (e : Engine fl) where
  -- A rig is enabled for the intent "maintaining" alone, with the advertised hashrate of a base that
  -- is positive; for any other intent it is disabled with its hashrate left alone.
  pub data IsDue : String → Option fl.Num → Type 0 where
    to_enable :
        intent =ˢ "maintaining" ≡ true
        → fl.leb e.sweep_hashrate_ths (fl.of_ℕ 0) ≡ false
        → IsDue "enabled"
            (some (advertised fl t float_of client config now intent reason e.sweep_hashrate_ths))
    to_disable : intent =ˢ "maintaining" ≡ false → IsDue "disabled" none

  -- The update of a rig that MRR says is not rented.
  pub data IsAllowed (rig : ℤ) : Call fl → Type 0 where
    looks_up : IsAllowed rig (get_rig rig)
    updates :
        (r : Rig) (status : String) (hash : Option fl.Num) (unit : String)
        → client.rig rig ≡ returned r
        → is_rig_rented t.lower r ≡ false
        → IsDue status hash
        → IsAllowed rig (update_rig rig status hash unit)

  -- Every call: MRR is enabled, the rig's number positive, and the credentials there.
  pub record IsGuarded (c : Call fl) : Type 0 where
    pub rig : ℤ
    pub enabled : truthy (config "MRR_ENABLED") ≡ true
    pub configured : int_or t.int_of_text t.lower (config "MRR_RIG_ID") (some (pos 0)) ≡ some rig
    pub positive : leb_ℤ rig (pos 0) ≡ false
    pub credentials : is_missing fl t float_of client config now intent reason ≡ false
    pub allowed : IsAllowed rig c

  abbrev AllAllowed : ℤ → List (Call fl) → Type 0
  AllAllowed rig = All (IsAllowed rig)

  send_allowed :
      (rig : ℤ) (r : Rig) (status : String) (hash : Option fl.Num)
      → client.rig rig ≡ returned r
      → is_rig_rented t.lower r ≡ false
      → IsDue status hash
      → AllAllowed rig (send fl t float_of client config now intent reason e rig status hash).1
  send_allowed rig r status hash g n d = (
    looks_up,
    (updates r status hash (unit fl t float_of client config now intent reason) g n d, tt),
  )

  push_allowed :
      (rig : ℤ) (r : Rig)
      → client.rig rig ≡ returned r
      → is_rig_rented t.lower r ≡ false
      → AllAllowed rig (push fl t float_of client config now intent reason e rig).1
  unfolding push enable
  push_allowed rig r g n = elim (Bool-cases (intent =ˢ "maintaining")) [
    | inr h ↦ rw h (send_allowed rig r "disabled" none g n (to_disable h))
    | inl h ↦ elim (Bool-cases (fl.leb e.sweep_hashrate_ths (fl.of_ℕ 0))) [
      | inl b ↦ rw (h, b) (looks_up, tt)
      | inr b ↦
          rw (h, b)
            (send_allowed rig r "enabled"
              (some (advertised fl t float_of client config now intent reason e.sweep_hashrate_ths))
              g n (to_enable h b))
    ]
  ]

  after_get_allowed :
      (rig : ℤ) (o : Outcome Rig)
      → client.rig rig ≡ o
      → AllAllowed rig (after_get fl t float_of client config now intent reason e rig o).1
  unfolding after_get
  after_get_allowed rig (mrr_error m) g = (looks_up, tt)
  after_get_allowed rig (other_error m) g = (looks_up, tt)
  after_get_allowed rig (returned r) g = elim (Bool-cases (is_rig_rented t.lower r)) [
    | inl b ↦ rw b (looks_up, tt)
    | inr b ↦ rw b (push_allowed rig r g b)
  ]

  guard-All :
      (rig : ℤ) (cs : List (Call fl))
      → truthy (config "MRR_ENABLED") ≡ true
      → int_or t.int_of_text t.lower (config "MRR_RIG_ID") (some (pos 0)) ≡ some rig
      → leb_ℤ rig (pos 0) ≡ false
      → is_missing fl t float_of client config now intent reason ≡ false
      → AllAllowed rig cs
      → All IsGuarded cs
  guard-All rig [] h i p m a = tt
  guard-All rig (c ∷ cs) h i p m a = (
    record { rig = rig; enabled = h; configured = i; positive = p; credentials = m; allowed = a.0 },
    guard-All rig cs h i p m a.1,
  )

  sync_rig-IsGuarded :
      (o : Option ℤ)
      → truthy (config "MRR_ENABLED") ≡ true
      → int_or t.int_of_text t.lower (config "MRR_RIG_ID") (some (pos 0)) ≡ o
      → All IsGuarded (sync_rig fl t float_of client config now intent reason e o).1
  unfolding sync_rig
  sync_rig-IsGuarded none h i = tt
  sync_rig-IsGuarded (some rig) h i = elim (Bool-cases (leb_ℤ rig (pos 0))) [
    | inl p ↦ rw p tt
    | inr p ↦ elim (Bool-cases (is_missing fl t float_of client config now intent reason)) [
      | inl m ↦ rw (p, m) tt
      | inr m ↦
          rw (p, m)
            (guard-All rig
              (after_get fl t float_of client config now intent reason e rig (client.rig rig)).1 h i
              p m (after_get_allowed rig (client.rig rig) refl))
    ]
  ]

  -- Every call of a sync is made with MRR enabled, a positive rig and both credentials; an update is
  -- of that rig, after get_rig has returned it as not rented; it enables the rig only for the intent
  -- "maintaining" and at the advertised hashrate of a positive base, and disables it, leaving the
  -- hashrate alone, for every other intent.
  pub mrr_sync-IsGuarded :
      All IsGuarded (mrr_sync fl t float_of client config now intent reason e).1
  unfolding mrr_sync
  mrr_sync-IsGuarded = elim (Bool-cases (truthy (config "MRR_ENABLED"))) [
    | inl h ↦ rw h (
        sync_rig-IsGuarded (int_or t.int_of_text t.lower (config "MRR_RIG_ID") (some (pos 0))) h
          refl)
    | inr h ↦ rw h tt
  ]
