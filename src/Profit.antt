-- ===== src/Profit.antt =====
-- tuner_app/profit/compute.py and tuner_app/tuning_engine/scoring.py: the score of a measured cell,
-- lower being better, and the context that it is computed in.
pub mod Context
pub mod Facts
pub mod AutoApply
use antminer_chip_tuner.Floats.{Floats}
use antminer_chip_tuner.Prelude.{
  ℕ, ◌^◌, String, Bool, true, false, Option, none, some, ◌||◌, ◌=ˢ◌, if◌then◌else◌,
}

module _ (fl : Floats) where
  -- The coin data of minerstat; a value that is missing or no number is none.
  pub record Coin : Type 0 where
    pub price_usd : Option fl.Num
    pub reward_block : Option fl.Num
    pub network_hashrate : Option fl.Num
    pub block_time_s : Option fl.Num

  -- The measurement in an entry of vf_surface or voltage_results.
  pub record Reading : Type 0 where
    pub efficiency_jth : Option fl.Num
    pub hashrate_ths : Option fl.Num
    pub power_w : Option fl.Num
    pub thermal_failed : Bool

  infixl 5 ◌>>=◌
  abbrev ◌>>=◌ : {A B : Type 0} → Option A → (A → Option B) → Option B
  none >>= f = none
  some a >>= f = f a

  -- float(income_modifier_pct or 0.0), and 0.0 where that fails
  abbrev modifier_of : Option fl.Num → fl.Num
  modifier_of none = fl.of_ℕ 0
  modifier_of (some m) = m

  -- The $/day arithmetic, in the order of the source.
  unfoldable pub profit_usd_day :
      fl.Num → fl.Num → fl.Num → fl.Num → fl.Num → fl.Num → fl.Num → fl.Num → fl.Num
  profit_usd_day hashrate_ths power_w price reward network_hs block_time rate modifier =
      let coin_per_th_day =
        fl.mul (fl.mul (fl.div (fl.of_ℕ 86400) block_time) reward)
          (fl.div (fl.of_ℕ (10 ^ 12)) network_hs) in
      let revenue =
        fl.mul (fl.mul (fl.mul hashrate_ths coin_per_th_day) price)
          (fl.add (fl.of_ℕ 1) (fl.div modifier (fl.of_ℕ 100))) in
      let cost = fl.mul (fl.div (fl.mul power_w (fl.of_ℕ 24)) (fl.of_ℕ 1000)) rate in
      fl.sub revenue cost

  unfoldable pub compute_profit_usd_per_day :
      Option fl.Num → Option fl.Num → Option Coin → Option fl.Num → Option fl.Num → Option fl.Num
  compute_profit_usd_per_day hashrate_ths power_w coin_data electric_rate modifier = do
    hashrate ← hashrate_ths
    power ← power_w
    coin ← coin_data
    rate ← electric_rate
    price ← coin.price_usd
    reward ← coin.reward_block
    network_hs ← coin.network_hashrate
    block_time ← coin.block_time_s
    let day =
        profit_usd_day hashrate power price reward network_hs block_time rate (modifier_of modifier)
    if fl.leb network_hs (fl.of_ℕ 0) || fl.leb block_time (fl.of_ℕ 0) then none else some day

  -- The arguments of score_cell after the entry.
  pub record ScoreContext : Type 0 where
    pub target_mode : String
    pub electric_rate : fl.Num
    pub coin_data : Option Coin
    pub income_modifier_pct : fl.Num

  abbrev pub negated : Option fl.Num → Option fl.Num
  negated none = none
  negated (some p) = some (fl.neg p)

  unfoldable pub score_cell : Option Reading → ScoreContext → Option fl.Num
  score_cell none ctx = none
  score_cell (some entry) ctx =
      if entry.thermal_failed
      then none
      else if ctx.target_mode =ˢ "profitability"
      then negated (
          compute_profit_usd_per_day entry.hashrate_ths entry.power_w ctx.coin_data
            (some ctx.electric_rate) (some ctx.income_modifier_pct))
      else entry.efficiency_jth
