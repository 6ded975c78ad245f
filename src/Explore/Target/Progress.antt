-- ===== src/Explore/Target/Progress.antt =====
-- A cell that has been chip-tuned is not picked again, and the stage ends.
use antminer_chip_tuner.Floats.{Floats}
use antminer_chip_tuner.Prelude.{
  ℕ, zero, suc, ◌≤◌, ◌<◌, ◌≡◌, true, false, none, some, List, [], ◌∷◌, ◌++◌, arith, length,
  length-take-le, Bool-cases, some_eq, inl, inr, min, max, ltb, sym, Option-cases,
}
use antminer_chip_tuner.Prelude.Membership.{In, here, there}
use antminer_chip_tuner.Profit.{ScoreContext}
use antminer_chip_tuner.Explore.Surface.{Key, Cell, Surface}
use antminer_chip_tuner.Explore.Target.{
  VoltageResult, seed_of, seed_matches, voltage_matches, chip_tune_already_done_for, TargetConfig,
  Target, target_of, candidates, first_untuned, find_next_chip_tune_target,
}

already_done-append :
    (tol : ℕ) (k : Key) (rs : List VoltageResult) (r : VoltageResult)
    → chip_tune_already_done_for tol k rs ≡ true
    → chip_tune_already_done_for tol k (rs ++ r ∷ []) ≡ true
unfolding chip_tune_already_done_for
already_done-append tol k [] r h = absurd (cc)
already_done-append tol k (x ∷ rs) r h = ground (arith, already_done-append tol k rs r)

already_done-recorded :
    (tol : ℕ) (k : Key) (rs : List VoltageResult) (r : VoltageResult)
    → r.voltage_mv ≡ some k.0
    → r.vf_source_freq ≡ some k.1
    → chip_tune_already_done_for tol k (rs ++ r ∷ []) ≡ true
unfolding chip_tune_already_done_for voltage_matches seed_matches seed_of
already_done-recorded tol k [] r v f = rw (v, f) (ground arith)
already_done-recorded tol k (x ∷ rs) r v f = ground (arith, already_done-recorded tol k rs r v f)

module _ (fl : Floats) where
  -- How many of the candidates have no chip tune.
  pub untuned : ℕ → List VoltageResult → List (Cell fl) → ℕ
  untuned tol rs [] = 0
  untuned tol rs (c ∷ cs) =
      let rest = untuned tol rs cs in
      elim (chip_tune_already_done_for tol c.key rs) [ true ↦ rest | false ↦ suc rest ]

  pub untuned-le-length :
      (tol : ℕ) (rs : List VoltageResult) (cs : List (Cell fl)) → untuned tol rs cs ≤ length cs
  unfolding untuned
  untuned-le-length tol rs [] = omega arith
  untuned-le-length tol rs (c ∷ cs) = ground (arith, untuned-le-length tol rs cs)

  untuned-append :
      (tol : ℕ) (rs : List VoltageResult) (r : VoltageResult) (cs : List (Cell fl))
      → untuned tol (rs ++ r ∷ []) cs ≤ untuned tol rs cs
  unfolding untuned
  untuned-append tol rs r [] = omega arith
  untuned-append tol rs r (c ∷ cs) =
      ground (arith, untuned-append tol rs r cs, already_done-append tol c.key rs r)

  -- A result for the picked target leaves fewer candidates without a chip tune.
  first_untuned_strict :
      (tol : ℕ) (rs : List VoltageResult) (r : VoltageResult) (cs : List (Cell fl)) (t : Target fl)
      → first_untuned fl tol rs cs ≡ some t
      → r.voltage_mv ≡ some t.key.0
      → r.vf_source_freq ≡ some t.key.1
      → untuned tol (rs ++ r ∷ []) cs < untuned tol rs cs
  unfolding untuned first_untuned target_of
  first_untuned_strict tol rs r [] t e v f = absurd (cc)
  first_untuned_strict tol rs r (c ∷ cs) t e v f = ground (
    arith,
    untuned-append tol rs r cs,
    already_done-append tol c.key rs r,
    already_done-recorded tol t.key rs r v f,
    first_untuned_strict tol rs r cs t,
  )

  first_new :
      (tol : ℕ) (rs : List VoltageResult) (cs : List (Cell fl)) (t : Target fl)
      → first_untuned fl tol rs cs ≡ some t
      → (c : Cell fl) × In c cs
        × (t ≡ target_of fl c)
        × (chip_tune_already_done_for tol c.key rs ≡ false)
  unfolding first_untuned
  first_new tol rs [] t e = absurd (cc)
  first_new tol rs (c ∷ cs) t e = elim (Bool-cases (chip_tune_already_done_for tol c.key rs)) [
    | inl d ↦
        let (c', i, p, n) = first_new tol rs cs t (rw (d, first_untuned) at e) in
        (c', there i, p, n)
    | inr d ↦ (c, here, sym (some_eq (rw (d, first_untuned) at e)), d)
  ]

  -- A target that is picked has no chip tune on record, and comes from a candidate cell.
  pub find_next_chip_tune_target_new :
      (cfg : TargetConfig) (ctx : ScoreContext fl) (surface : Surface fl) (rs : List VoltageResult)
      (t : Target fl)
      → find_next_chip_tune_target fl cfg ctx surface rs ≡ some t
      → (c : Cell fl) × In c (candidates fl cfg ctx surface)
        × (t ≡ target_of fl c)
        × (chip_tune_already_done_for cfg.tolerance c.key rs ≡ false)
  unfolding find_next_chip_tune_target
  find_next_chip_tune_target_new cfg ctx surface rs t e =
      first_new cfg.tolerance rs (candidates fl cfg ctx surface) t e

  candidates_few :
      (cfg : TargetConfig) (ctx : ScoreContext fl) (surface : Surface fl)
      → length (candidates fl cfg ctx surface) ≤ max 1 cfg.explore_top_k
  unfolding candidates
  candidates_few cfg ctx surface = elim (Bool-cases (ltb cfg.fine_count 2)) [
    | inl e ↦
        rw e
          (omega (arith, length-take-le {0} (min (max 1 cfg.explore_top_k) (max 1 cfg.fine_top_k))))
    | inr e ↦
        rw e
          (omega (arith, length-take-le {0} (min (max 1 cfg.explore_top_k) (max 1 cfg.fine_top_k))))
  ]

  -- The chip-tune stage while scores and settings stay as they are: each pick is tuned, and `tune`
  -- gives the result that is recorded for it.
  unfoldable pub chip_stage :
      TargetConfig
      → ScoreContext fl
      → Surface fl
      → (Target fl → VoltageResult)
      → ℕ
      → List VoltageResult
      → List VoltageResult
  chip_stage cfg ctx surface tune zero rs = rs
  chip_stage cfg ctx surface tune (suc n) rs =
      elim (find_next_chip_tune_target fl cfg ctx surface rs) [
        | none ↦ rs
        | some t ↦ chip_stage cfg ctx surface tune n (rs ++ tune t ∷ [])
      ]

  module _ (cfg : TargetConfig) (ctx : ScoreContext fl) (surface : Surface fl)
      (tune : Target fl → VoltageResult)
      (voltage_kept : (t : Target fl) → (tune t).voltage_mv ≡ some t.key.0)
      (source_kept : (t : Target fl) → (tune t).vf_source_freq ≡ some t.key.1) where
    shrinks :
        (rs : List VoltageResult) (t : Target fl)
        → find_next_chip_tune_target fl cfg ctx surface rs ≡ some t
        → untuned cfg.tolerance (rs ++ tune t ∷ []) (candidates fl cfg ctx surface)
          < untuned cfg.tolerance rs (candidates fl cfg ctx surface)
    unfolding find_next_chip_tune_target
    shrinks rs t e =
        first_untuned_strict cfg.tolerance rs (tune t) (candidates fl cfg ctx surface) t e
          (voltage_kept t) (source_kept t)

    chip_stage_ends :
        (n : ℕ) (rs : List VoltageResult)
        → untuned cfg.tolerance rs (candidates fl cfg ctx surface) ≤ n
        → find_next_chip_tune_target fl cfg ctx surface (chip_stage cfg ctx surface tune n rs)
          ≡ none
    unfolding chip_stage
    chip_stage_ends zero rs h =
        elim (Option-cases (find_next_chip_tune_target fl cfg ctx surface rs)) [
          | inl e ↦ e
          | inr (t, e) ↦ absurd (omega (arith, shrinks rs t e))
        ]
    chip_stage_ends (suc n) rs h =
        elim (Option-cases (find_next_chip_tune_target fl cfg ctx surface rs)) [
          | inl e ↦ rw (e, chip_stage) e
          | inr (t, e) ↦
              rw (e, chip_stage)
                (chip_stage_ends n (rs ++ tune t ∷ []) (omega (arith, shrinks rs t e)))
        ]

    -- If every tune is recorded under the voltage and the source frequency of its target, then
    -- after at most VF_EXPLORE_TOP_K tunes (at least one is allowed) no target is left.
    pub chip_tune_settles :
        (rs : List VoltageResult)
        → find_next_chip_tune_target fl cfg ctx surface
            (chip_stage cfg ctx surface tune (max 1 cfg.explore_top_k) rs)
          ≡ none
    chip_tune_settles rs = chip_stage_ends (max 1 cfg.explore_top_k) rs (
        omega (
          arith,
          untuned-le-length cfg.tolerance rs (candidates fl cfg ctx surface),
          candidates_few cfg ctx surface,
        ))
