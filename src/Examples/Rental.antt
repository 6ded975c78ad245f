-- ===== src/Examples/Rental.antt =====
-- A rig that is configured and not rented.
use antminer_chip_tuner.Prelude.{
  String, ◌≡◌, refl, true, false, Option, none, some, subst, some_eq, All, sym, ◌∙◌, if◌then◌else◌,
  ◌=ˢ◌,
}
use antminer_chip_tuner.Prelude.Int.{ℤ, pos, leb_ℤ}
use antminer_chip_tuner.Floats.{int_floats}
use antminer_chip_tuner.Config.{Value, text, number, flag}
use antminer_chip_tuner.Mrr.Rig.{rig, scalar, absent, word}
use antminer_chip_tuner.Mrr.RentalCache.{truthy, int_or, int_of, is_nonzero}
use antminer_chip_tuner.Mrr.Sync.{
  Outcome, returned, mrr_error, Texts, Settings, Client, Engine, mrr_sync,
}
use antminer_chip_tuner.Mrr.Sync.Guarded.{IsGuarded, mrr_sync-IsGuarded}
use antminer_chip_tuner.Mrr.Sync.Recorded.{IsRecorded, mrr_sync-IsRecorded}
use antminer_chip_tuner.Mrr.Sync.Pools.{
  SetCoin, IsTold, mrr_apply_pool_config, mrr_apply_pool_config-IsTold,
}

abbrev texts : Texts
texts = record {
  str = λ v. elim v [
    | Value.null ↦ "None"
    | Value.flag b ↦ "True"
    | Value.number n ↦ "7"
    | Value.text t ↦ t
  ];
  strip = λ t. t;
  lower = λ t. t;
  int_of_text = λ t. none;
  int_error = "invalid literal";
}

abbrev settings : Settings
settings k =
    if k =ˢ "MRR_ENABLED"
    then some (flag true)
    else if k =ˢ "MRR_RIG_ID"
    then some (number (pos 7))
    else some (text "word")

abbrev float_of : Option Value → Option ℤ
float_of o = none

abbrev client : Client int_floats
client = record {
  rig = λ r. returned (rig (scalar absent) absent (word "available"));
  update = λ r status hash unit. mrr_error "HTTP 500";
}

abbrev engine : Engine int_floats
engine = record { mrr_last_sync = none; mrr_last_warn_ts = 0; sweep_hashrate_ths = pos 100 }

mrr_sync-IsGuarded_example :
    All
      (IsGuarded int_floats texts float_of client settings 50 "maintaining" "Entered monitor"
        engine)
      (mrr_sync int_floats texts float_of client settings 50 "maintaining" "Entered monitor"
        engine).1
mrr_sync-IsGuarded_example =
    mrr_sync-IsGuarded int_floats texts float_of client settings 50 "maintaining" "Entered monitor"
      engine

rig_number :
    int_or texts.int_of_text texts.lower (settings "MRR_RIG_ID") (some (pos 0)) ≡ some (pos 7)
unfolding int_or int_of truthy is_nonzero
rig_number = refl

rig_positive :
    (r : ℤ)
    → int_or texts.int_of_text texts.lower (settings "MRR_RIG_ID") (some (pos 0)) ≡ some r
    → leb_ℤ r (pos 0) ≡ false
rig_positive r e = subst (λ (n : ℤ). leb_ℤ n (pos 0) ≡ false) (some_eq (sym rig_number ∙ e)) refl

mrr_sync-IsRecorded_example :
    IsRecorded int_floats texts float_of client settings 50 "maintaining" "Entered monitor" engine
      (mrr_sync int_floats texts float_of client settings 50 "maintaining" "Entered monitor" engine)
mrr_sync-IsRecorded_example =
    mrr_sync-IsRecorded int_floats texts float_of client settings 50 "maintaining" "Entered monitor"
      engine (unfold truthy in refl) rig_positive

abbrev upper : String → String
upper t = "DOGE"

abbrev show : ℤ → String
show n = "7"

abbrev set_coin : SetCoin → Outcome (Unit {0})
set_coin c = returned tt

mrr_apply_pool_config-IsTold_example :
    IsTold texts upper show set_coin settings
      (mrr_apply_pool_config texts upper show set_coin settings)
mrr_apply_pool_config-IsTold_example =
    mrr_apply_pool_config-IsTold texts upper show set_coin settings
