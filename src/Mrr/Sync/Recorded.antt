-- ===== src/Mrr/Sync/Recorded.antt =====
-- What mrr_sync leaves in mrr_last_sync.
use antminer_chip_tuner.Floats.{Floats}
use antminer_chip_tuner.Prelude.{
  ◌≡◌, refl, ℕ, String, Bool, true, false, Option, none, some, List, [], ◌∷◌, ◌||◌, Bool-cases, inl,
  inr, ◌=ˢ◌,
}
use antminer_chip_tuner.Prelude.Int.{ℤ, pos, leb_ℤ}
use antminer_chip_tuner.Mrr.Rig.{Rig, is_rig_rented}
use antminer_chip_tuner.Mrr.RentalCache.{truthy, int_or}
use antminer_chip_tuner.Mrr.Sync.{
  Outcome, returned, mrr_error, other_error, Texts, Settings, Call, get_rig, update_rig, Engine,
  Client, LastSync, Synced, after_update, enable, push, after_get, is_missing, sync_rig, mrr_sync,
}
use antminer_chip_tuner.Config.{Value}

module _ (fl : Floats) (t : Texts) (float_of : Option Value → Option fl.Num) (client : Client fl)
    (config : Settings) (now : ℕ) (intent reason : String) (e : Engine fl) where
  abbrev accepts : Outcome (Unit {0}) → Bool
  accepts (returned u) = true
  accepts (mrr_error m) = false
  accepts (other_error m) = false

  -- Whether MRR took one of the updates among the calls.
  unfoldable pub accepted : List (Call fl) → Bool
  accepted [] = false
  accepted (get_rig rig ∷ cs) = accepted cs
  accepted (update_rig rig status hash unit ∷ cs) =
      accepts (client.update rig status hash unit) || accepted cs

  -- The sync is on record, as "ok" exactly if an update was taken.
  pub record IsRecorded (s : Synced fl) : Type 0 where
    pub last : LastSync fl
    pub stored : s.0.mrr_last_sync ≡ some last
    pub of_intent : last.intent ≡ intent
    pub of_reason : last.reason ≡ reason
    pub at_now : last.ts ≡ now
    pub ok_iff : last.result =ˢ "ok" ≡ accepted s.1

  send-IsRecorded :
      (rig : ℤ) (status : String) (hash : Option fl.Num) (u : String) (o : Outcome (Unit {0}))
      → client.update rig status hash u ≡ o
      → IsRecorded (
        after_update fl t float_of client config now intent reason e rig status hash o,
        get_rig rig ∷ update_rig rig status hash u ∷ [],
      )
  unfolding accepted after_update
  send-IsRecorded rig status hash u (returned x) h = record {
    last = _;
    stored = refl;
    of_intent = refl;
    of_reason = refl;
    at_now = refl;
    ok_iff = rw h refl;
  }
  send-IsRecorded rig status hash u (mrr_error m) h = record {
    last = _;
    stored = refl;
    of_intent = refl;
    of_reason = refl;
    at_now = refl;
    ok_iff = rw h refl;
  }
  send-IsRecorded rig status hash u (other_error m) h = record {
    last = _;
    stored = refl;
    of_intent = refl;
    of_reason = refl;
    at_now = refl;
    ok_iff = rw h refl;
  }

  enable-IsRecorded :
      (rig : ℤ) → IsRecorded (enable fl t float_of client config now intent reason e rig)
  unfolding enable accepted
  enable-IsRecorded rig = elim (Bool-cases (fl.leb e.sweep_hashrate_ths (fl.of_ℕ 0))) [
    | inl b ↦ rw b (record {
      last = _;
      stored = refl;
      of_intent = refl;
      of_reason = refl;
      at_now = refl;
      ok_iff = refl;
    })
    | inr b ↦ rw b (send-IsRecorded rig "enabled" _ _ _ refl)
  ]

  push-IsRecorded :
      (rig : ℤ) → IsRecorded (push fl t float_of client config now intent reason e rig)
  unfolding push
  push-IsRecorded rig = elim (Bool-cases (intent =ˢ "maintaining")) [
    | inl h ↦ rw h (enable-IsRecorded rig)
    | inr h ↦ rw h (send-IsRecorded rig "disabled" none _ _ refl)
  ]

  after_get-IsRecorded :
      (rig : ℤ) (o : Outcome Rig)
      → IsRecorded (after_get fl t float_of client config now intent reason e rig o)
  unfolding after_get accepted
  after_get-IsRecorded rig (mrr_error m) = record {
    last = _;
    stored = refl;
    of_intent = refl;
    of_reason = refl;
    at_now = refl;
    ok_iff = refl;
  }
  after_get-IsRecorded rig (other_error m) = record {
    last = _;
    stored = refl;
    of_intent = refl;
    of_reason = refl;
    at_now = refl;
    ok_iff = refl;
  }
  after_get-IsRecorded rig (returned r) = elim (Bool-cases (is_rig_rented t.lower r)) [
    | inl b ↦ rw b (record {
      last = _;
      stored = refl;
      of_intent = refl;
      of_reason = refl;
      at_now = refl;
      ok_iff = refl;
    })
    | inr b ↦ rw b (push-IsRecorded rig)
  ]

  sync_rig-IsRecorded :
      (o : Option ℤ)
      → ((rig : ℤ) → o ≡ some rig → leb_ℤ rig (pos 0) ≡ false)
      → IsRecorded (sync_rig fl t float_of client config now intent reason e o)
  unfolding sync_rig accepted
  sync_rig-IsRecorded none p = record {
    last = _;
    stored = refl;
    of_intent = refl;
    of_reason = refl;
    at_now = refl;
    ok_iff = refl;
  }
  sync_rig-IsRecorded (some rig) p =
      elim (Bool-cases (is_missing fl t float_of client config now intent reason)) [
        | inl m ↦
            rw (p rig refl, m)
              (record {
                last = _;
                stored = refl;
                of_intent = refl;
                of_reason = refl;
                at_now = refl;
                ok_iff = refl;
              })
        | inr m ↦ rw (p rig refl, m) (after_get-IsRecorded rig (client.rig rig))
      ]

  -- With MRR enabled, a sync for a rig whose number cannot be read or is positive is always on
  -- record afterwards, with its intent, reason and time, whatever the client did: as "ok" exactly if
  -- MRR took the update, so that no failed, skipped or rented case reads as a success.
  pub mrr_sync-IsRecorded :
      truthy (config "MRR_ENABLED") ≡ true
      → ((rig : ℤ)
          → int_or t.int_of_text t.lower (config "MRR_RIG_ID") (some (pos 0)) ≡ some rig
          → leb_ℤ rig (pos 0) ≡ false)
      → IsRecorded (mrr_sync fl t float_of client config now intent reason e)
  unfolding mrr_sync
  mrr_sync-IsRecorded h p =
      rw h
        (sync_rig-IsRecorded (int_or t.int_of_text t.lower (config "MRR_RIG_ID") (some (pos 0))) p)
