-- ===== src/Mrr/Sync/Pools.antt =====
-- mrr_apply_pool_config of tuner_app/tuning_engine/mrr_sync.py: the pools that a miner gets for its
-- rig. Arguments stand for the miner's reply, str.upper and `str` on an integer. Not modelled: the
-- log and the time of the last warning.
use antminer_chip_tuner.Prelude.{
  ◌≡◌, refl, String, Bool, true, false, Option, none, some, List, [], ◌∷◌, map, ◌||◌, ◌=ˢ◌,
  if◌then◌else◌, arith, ◌⊎◌, inl, inr, Bool-cases, All,
}
use antminer_chip_tuner.Prelude.Int.{ℤ, pos, leb_ℤ}
use antminer_chip_tuner.Mrr.RentalCache.{truthy, int_or}
use antminer_chip_tuner.Mrr.Sync.{
  Outcome, returned, mrr_error, other_error, Texts, Settings, text_or, stripped,
}
use text.Mathlib.TextEquality.{eq_iff}
use Prim.Native.String.{◌++◌ as ◌++ˢ◌}

-- An entry of stratum_configs, and a call of set_coin with its coin; unique_id is always False.
pub record Stratum : Type 0 where
  pub pool : String
  pub login : String
  pub password : String

pub record SetCoin : Type 0 where
  pub coin : String
  pub stratum_configs : List Stratum

-- MRR_STRATUM_POOLS
abbrev pub stratum_pools : List String
stratum_pools =
    "stratum+tcp://us-east01.miningrigrentals.com:3311#xnsub"
    ∷ "stratum+tcp://us-central01.miningrigrentals.com:3311#xnsub"
    ∷ "stratum+tcp://us-west01.miningrigrentals.com:3311#xnsub" ∷ []

-- MRR_STRATUM_PASSWORD
abbrev pub stratum_password : String
stratum_password = "x"

-- What the function returns, and the call of set_coin that it makes.
abbrev pub Applied : Type 0
Applied = Bool × Option SetCoin

module _ (t : Texts) (upper : String → String) (show : ℤ → String)
    (set_coin : SetCoin → Outcome (Unit {0})) (config : Settings) where
  -- A coin that MRR does not know is replaced by BTC.
  unfoldable pub known_coin : String → String
  known_coin coin = if coin =ˢ "BTC" || coin =ˢ "LTC" then coin else "BTC"

  abbrev pub stratum_of : String → String → Stratum
  stratum_of login pool = record { pool = pool; login = login; password = stratum_password }

  unfoldable pub call_for : String → ℤ → SetCoin
  call_for username rig = record {
    coin = known_coin (upper (text_or t "BTC" (config "MRR_COIN")));
    stratum_configs = map (stratum_of (username ++ˢ "." ++ˢ show rig)) stratum_pools;
  }

  abbrev pub is_taken : Outcome (Unit {0}) → Bool
  is_taken (returned u) = true
  is_taken (mrr_error m) = false
  is_taken (other_error m) = false

  unfoldable pub apply_for : Option ℤ → Applied
  apply_for none = (false, none)
  apply_for (some rig) =
      if leb_ℤ rig (pos 0)
      then (false, none)
      else if stripped t config "MRR_STRATUM_USERNAME" =ˢ ""
      then (false, none)
      else (
        is_taken (set_coin (call_for (stripped t config "MRR_STRATUM_USERNAME") rig)),
        some (call_for (stripped t config "MRR_STRATUM_USERNAME") rig),
      )

  unfoldable pub mrr_apply_pool_config : Applied
  mrr_apply_pool_config =
      if truthy (config "MRR_ENABLED")
      then apply_for (int_or t.int_of_text t.lower (config "MRR_RIG_ID") (some (pos 0)))
      else (false, none)

  -- What a call has to be: MRR is on, the rig's number positive, the user named; the coin is BTC or
  -- LTC, and each of MRR's pools, in their order, is to be joined as the user with the rig's number.
  pub record IsPoolCall (c : SetCoin) : Type 0 where
    pub rig : ℤ
    pub enabled : truthy (config "MRR_ENABLED") ≡ true
    pub configured : int_or t.int_of_text t.lower (config "MRR_RIG_ID") (some (pos 0)) ≡ some rig
    pub positive : leb_ℤ rig (pos 0) ≡ false
    pub named : stripped t config "MRR_STRATUM_USERNAME" =ˢ "" ≡ false
    pub coin_known : (c.coin ≡ "BTC") ⊎ (c.coin ≡ "LTC")
    pub pools : map (λ (s : Stratum). s.pool) c.stratum_configs ≡ stratum_pools
    pub logins :
        All
          (λ (s : Stratum). s.login ≡ stripped t config "MRR_STRATUM_USERNAME" ++ˢ "." ++ˢ show rig)
          c.stratum_configs

  known_coin_cases : (coin : String) → (known_coin coin ≡ "BTC") ⊎ (known_coin coin ≡ "LTC")
  unfolding known_coin
  known_coin_cases coin = elim (Bool-cases (coin =ˢ "BTC")) [
    | inl b ↦ inl (ground (arith, eq_iff coin "BTC"))
    | inr b ↦ elim (Bool-cases (coin =ˢ "LTC")) [
      | inl l ↦ inr (ground (arith, eq_iff coin "LTC"))
      | inr l ↦ inl (ground arith)
    ]
  ]

  -- What the result tells: without a call it is False; a call that is made is the one wanted, and
  -- the result is whether the miner took it.
  abbrev pub IsTold : Applied → Type 0
  IsTold (b, none) = b ≡ false
  IsTold (b, some c) = IsPoolCall c × (b ≡ is_taken (set_coin c))

  apply_for-IsTold :
      (o : Option ℤ)
      → truthy (config "MRR_ENABLED") ≡ true
      → int_or t.int_of_text t.lower (config "MRR_RIG_ID") (some (pos 0)) ≡ o
      → IsTold (apply_for o)
  unfolding apply_for call_for
  apply_for-IsTold none h i = refl
  apply_for-IsTold (some rig) h i = elim (Bool-cases (leb_ℤ rig (pos 0))) [
    | inl p ↦ rw p refl
    | inr p ↦ elim (Bool-cases (stripped t config "MRR_STRATUM_USERNAME" =ˢ "")) [
      | inl n ↦ rw (p, n) refl
      | inr n ↦
          rw (p, n)
            (
              record {
                rig = rig;
                enabled = h;
                configured = i;
                positive = p;
                named = n;
                coin_known = known_coin_cases (upper (text_or t "BTC" (config "MRR_COIN")));
                pools = refl;
                logins = (refl, (refl, (refl, tt)));
              },
              refl,
            )
    ]
  ]

  -- mrr_apply_pool_config makes no call, and returns False, or makes one call of set_coin, with MRR
  -- enabled, a positive rig and a user name, for BTC or LTC and for the three pools of MRR in their
  -- order with the login `<user>.<rig>`, and returns whether the miner took it.
  pub mrr_apply_pool_config-IsTold : IsTold mrr_apply_pool_config
  unfolding mrr_apply_pool_config
  mrr_apply_pool_config-IsTold = elim (Bool-cases (truthy (config "MRR_ENABLED"))) [
    | inl h ↦ rw h (
        apply_for-IsTold (int_or t.int_of_text t.lower (config "MRR_RIG_ID") (some (pos 0))) h refl)
    | inr h ↦ rw h refl
  ]
