-- ===== src/Profit/Facts.antt =====
-- When a cell has a score, and what a better score means.
use antminer_chip_tuner.Floats.{Floats, IsOrdered}
use antminer_chip_tuner.Prelude.{
  ◌≡◌, refl, true, Option, none, some, arith, ◌=ˢ◌, ◌&&◌, is_some, if◌then◌else◌, Bool-cases,
  Option-cases, inl, inr,
}
use antminer_chip_tuner.Prelude.Dict.{Dict, get}
use antminer_chip_tuner.Profit.{
  Coin, Reading, ScoreContext, compute_profit_usd_per_day, negated, score_cell,
}
use antminer_chip_tuner.Profit.Context.{
  ScoreConfig, text_or, get_profit_display_context, get_scoring_context,
}

module _ (fl : Floats) where
  -- The profit that the engine's context gives a reading.
  abbrev pub profit_of : Reading fl → ScoreContext fl → Option fl.Num
  profit_of a ctx =
      compute_profit_usd_per_day fl a.hashrate_ths a.power_w ctx.coin_data (some ctx.electric_rate)
        (some ctx.income_modifier_pct)

  negated_inversion :
      (o : Option fl.Num) (x : fl.Num)
      → negated fl o ≡ some x
      → (p : fl.Num) × (o ≡ some p) × (x ≡ fl.neg p)
  negated_inversion none x e = absurd (cc)
  negated_inversion (some p) x e = (p, refl, cc)

  profit_score :
      (a : Reading fl) (ctx : ScoreContext fl) (x : fl.Num)
      → (ctx.target_mode =ˢ "profitability") ≡ true
      → score_cell fl (some a) ctx ≡ some x
      → negated fl (profit_of a ctx) ≡ some x
  unfolding score_cell
  profit_score a ctx x m h = elim (Bool-cases a.thermal_failed) [
    | inl e ↦ absurd (ground (arith, e))
    | inr e ↦ simp (e, m) at h
  ]

  -- In profit mode, of two cells that have a score each has a profit, and the first has the lower
  -- score exactly if it has the higher profit, provided that negation reverses the order of floats.
  pub score_cell_profit :
      (a b : Reading fl) (ctx : ScoreContext fl) (x y : fl.Num)
      → IsOrdered fl
      → (ctx.target_mode =ˢ "profitability") ≡ true
      → score_cell fl (some a) ctx ≡ some x
      → score_cell fl (some b) ctx ≡ some y
      → (p : fl.Num) × (q : fl.Num) × (profit_of a ctx ≡ some p)
        × (profit_of b ctx ≡ some q)
        × (fl.ltb x y ≡ fl.ltb q p)
  score_cell_profit a b ctx x y ord m ha hb =
      let (p, ep, xp) = negated_inversion (profit_of a ctx) x (profit_score a ctx x m ha) in
      let (q, eq, yq) = negated_inversion (profit_of b ctx) y (profit_score b ctx y m hb) in
      (p, q, ep, eq, rw (xp, yq) (ord.neg_ltb p q))

  -- The context that the engine scores with is either efficiency with no coin data, or
  -- profitability with coin data; the latter exactly if TARGET_MODE is profitability and the
  -- snapshot has the configured coin.
  pub get_scoring_context_modes :
      (cfg : ScoreConfig fl) (coins : Dict (Coin fl))
      → let ctx = get_scoring_context fl cfg coins in
        let wanted =
          (text_or fl "efficiency" cfg.target_mode =ˢ "profitability")
          && is_some (get cfg.coin_id coins) in
        ctx.target_mode ≡ (if wanted then "profitability" else "efficiency")
        × (ctx.coin_data ≡ (if wanted then get cfg.coin_id coins else none))
  unfolding get_scoring_context get_profit_display_context
  get_scoring_context_modes cfg coins = elim (Option-cases (get cfg.coin_id coins)) [
    | inl e ↦ ground (arith, e)
    | inr (c, e) ↦ ground (arith, e)
  ]

  -- In the engine's context, a cell that was aborted for heat is never scored; any other is scored
  -- by its J/TH in efficiency mode, and in profit mode by its profit negated.
  pub score_cell_engine :
      (a : Reading fl) (cfg : ScoreConfig fl) (coins : Dict (Coin fl))
      → let ctx = get_scoring_context fl cfg coins in
        score_cell fl (some a) ctx ≡ (
          if a.thermal_failed
          then none
          else if (text_or fl "efficiency" cfg.target_mode =ˢ "profitability")
              && is_some (get cfg.coin_id coins)
          then negated fl (profit_of a ctx)
          else a.efficiency_jth)
  unfolding score_cell get_scoring_context get_profit_display_context
  score_cell_engine a cfg coins =
      elim (Bool-cases (text_or fl "efficiency" cfg.target_mode =ˢ "profitability")) [
        | inr t ↦ rw t
        | inl t ↦ elim (Option-cases (get cfg.coin_id coins)) [
          | inl e ↦ rw (t, e)
          | inr (c, e) ↦ rw (t, e)
        ]
      ]
