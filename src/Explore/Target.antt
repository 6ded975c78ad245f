-- ===== src/Explore/Target.antt =====
-- chip_tune_already_done_for and find_next_chip_tune_target of
-- tuner_app/tuning_engine/exploration.py: which cell gets a chip tune next.
pub mod Progress
use antminer_chip_tuner.Floats.{Floats}
use antminer_chip_tuner.Prelude.{
  ℕ, ◌+◌, max, min, Bool, true, false, Option, none, some, List, [], ◌∷◌, map, ◌==◌, ◌&&◌, ◌||◌,
  not, ltb, leb, if◌then◌else◌, take,
}
use antminer_chip_tuner.Profit.{ScoreContext}
use antminer_chip_tuner.Explore.Surface.{
  Key, has_key, Cell, Surface, scored, sort_by_score, coarse_cells_ranked, top_fine_anchors,
}

-- What is read of an entry of voltage_results: its voltage, the frequency of its vf_source, and the
-- frequency that it was seeded with.
pub record VoltageResult : Type 0 where
  pub voltage_mv : Option ℕ
  pub vf_source_freq : Option ℕ
  pub seed_f : Option ℕ

-- vf_source.freq_mhz, else seed_f_mhz
unfoldable pub seed_of : Option ℕ → Option ℕ → Option ℕ
seed_of none seed = seed
seed_of (some f) seed = some f

-- abs(r_seed - cell_f) <= tol; a result with no seed matches by its voltage alone.
unfoldable pub seed_matches : ℕ → ℕ → Option ℕ → Bool
seed_matches tol f none = true
seed_matches tol f (some s) = leb s (f + tol) && leb f (s + tol)

unfoldable pub voltage_matches : ℕ → Option ℕ → Bool
voltage_matches v none = false
voltage_matches v (some w) = w == v

unfoldable pub chip_tune_already_done_for : ℕ → Key → List VoltageResult → Bool
chip_tune_already_done_for tol k [] = false
chip_tune_already_done_for tol k (r ∷ rs) =
    voltage_matches k.0 r.voltage_mv && seed_matches tol k.1 (seed_of r.vf_source_freq r.seed_f)
    || chip_tune_already_done_for tol k rs

-- What is read of the configuration.
pub record TargetConfig : Type 0 where
  pub explore_top_k : ℕ  -- VF_EXPLORE_TOP_K
  pub fine_top_k : ℕ  -- VF_FINE_TOP_K
  pub fine_count : ℕ  -- VF_EXPLORE_FINE_COUNT
  pub tolerance : ℕ  -- FREQ_SEARCH_TOLERANCE_MHZ, in kHz

module _ (fl : Floats) where
  -- The descriptor of the target and of the cell that it comes from.
  pub record Target : Type 0 where
    pub key : Key
    pub fine : Bool  -- vf_source.kind
    pub coarse_jth : fl.Num
    pub hashrate_ths : Option fl.Num
    pub power_w : Option fl.Num

  -- float(cell.get("efficiency_jth", 0) or 0)
  abbrev jth_or_zero : Option fl.Num → fl.Num
  jth_or_zero none = fl.of_ℕ 0
  jth_or_zero (some x) = x

  unfoldable pub target_of : Cell fl → Target
  target_of e = record {
    key = e.key;
    fine = e.fine;
    coarse_jth = jth_or_zero e.reading.efficiency_jth;
    hashrate_ths = e.reading.hashrate_ths;
    power_w = e.reading.power_w;
  }

  -- A fine cell whose anchor is among the given ones; an absent anchor is not.
  unfoldable pub in_pool : List Key → Cell fl → Bool
  in_pool anchors e = e.fine && elim e.coarse_anchor [ none ↦ false | some k ↦ has_key k anchors ]

  unfoldable pub candidates : TargetConfig → ScoreContext fl → Surface fl → List (Cell fl)
  candidates cfg ctx surface =
      let fine_top_k = max 1 cfg.fine_top_k in
      let chip_top_k = min (max 1 cfg.explore_top_k) fine_top_k in
      if ltb cfg.fine_count 2
      then take chip_top_k (coarse_cells_ranked fl ctx surface)
      else take chip_top_k (
          map (λ (p : fl.Num × Cell fl). p.1)
            (sort_by_score fl
              (scored fl (in_pool (top_fine_anchors fl ctx fine_top_k surface)) ctx surface)))

  -- The first candidate that has no chip tune.
  unfoldable pub first_untuned : ℕ → List VoltageResult → List (Cell fl) → Option Target
  first_untuned tol results [] = none
  first_untuned tol results (c ∷ cs) = elim (chip_tune_already_done_for tol c.key results) [
    | true ↦ first_untuned tol results cs
    | false ↦ some (target_of c)
  ]

  unfoldable pub find_next_chip_tune_target :
      TargetConfig → ScoreContext fl → Surface fl → List VoltageResult → Option Target
  find_next_chip_tune_target cfg ctx surface results =
      first_untuned cfg.tolerance results (candidates cfg ctx surface)
