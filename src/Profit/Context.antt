-- ===== src/Profit/Context.antt =====
-- get_scoring_context and get_profit_display_context of tuner_app/tuning_engine/scoring.py.
use antminer_chip_tuner.Floats.{Floats}
use antminer_chip_tuner.Prelude.{String, Option, none, some, ◌&&◌, ◌=ˢ◌, if◌then◌else◌}
use antminer_chip_tuner.Prelude.Dict.{Dict, get}
use antminer_chip_tuner.Profit.{Coin, ScoreContext}

module _ (fl : Floats) where
  -- The configuration that scoring reads; a number that is missing or does not convert is none.
  pub record ScoreConfig : Type 0 where
    pub target_mode : Option String  -- TARGET_MODE
    pub electric_rate : Option fl.Num  -- ELECTRIC_RATE_PER_KWH
    pub income_modifier : Option fl.Num  -- INCOME_MODIFIER_PCT
    pub coin_id : String  -- MINERSTAT_COIN, stripped and in upper case

  -- `float(x or default)`: zero counts as missing.
  unfoldable pub num_or : fl.Num → Option fl.Num → fl.Num
  num_or default none = default
  num_or default (some x) = if fl.leb x (fl.of_ℕ 0) && fl.leb (fl.of_ℕ 0) x then default else x

  -- `x or default` on texts
  unfoldable pub text_or : String → Option String → String
  text_or default none = default
  text_or default (some s) = if s =ˢ "" then default else s

  -- (electric_rate, coin_data, income_modifier_pct); the snapshot's coins are a dict.
  unfoldable pub get_profit_display_context :
      ScoreConfig → Dict (Coin fl) → fl.Num × Option (Coin fl) × fl.Num
  get_profit_display_context cfg coins = (
    num_or (fl.div (fl.of_ℕ 1) (fl.of_ℕ 10)) cfg.electric_rate,
    get cfg.coin_id coins,
    num_or (fl.of_ℕ 0) cfg.income_modifier,
  )

  abbrev pub efficiency_context : ScoreContext fl
  efficiency_context = record {
    target_mode = "efficiency";
    electric_rate = fl.of_ℕ 0;
    coin_data = none;
    income_modifier_pct = fl.of_ℕ 0;
  }

  abbrev profit_context : fl.Num → fl.Num → Option (Coin fl) → ScoreContext fl
  profit_context rate modifier none = efficiency_context
  profit_context rate modifier (some coin) = record {
    target_mode = "profitability";
    electric_rate = rate;
    coin_data = some coin;
    income_modifier_pct = modifier;
  }

  unfoldable pub get_scoring_context : ScoreConfig → Dict (Coin fl) → ScoreContext fl
  get_scoring_context cfg coins =
      if text_or "efficiency" cfg.target_mode =ˢ "profitability"
      then (let c = get_profit_display_context cfg coins in profit_context c.0 c.2 c.1)
      else efficiency_context
