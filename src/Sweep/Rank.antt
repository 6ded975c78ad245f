-- ===== src/Sweep/Rank.antt =====
-- The re-ranking of the tuned voltages in a cycle of the monitor, of
-- tuner_app/tuning_engine/monitor.py.
use antminer_chip_tuner.Floats.{Floats, IsOrdered}
use antminer_chip_tuner.Prelude.{
  ℕ, ◌≡◌, refl, true, false, Option, none, some, List, [], ◌∷◌, Bool-cases, inl, inr, ap, ◌∙◌, sym,
  ==_iff, subst, ◌≢◌,
}
use antminer_chip_tuner.Prelude.Membership.{In, here, there}
use antminer_chip_tuner.Profit.{ScoreContext}
use antminer_chip_tuner.Sweep.{
  has_voltage, SweepResult, Engine, lowest, matches_at, select_entry, select_from,
  select_voltage_profile, selected_or, switch_to, re_rank_from, re_rank_active_voltage,
}
use antminer_chip_tuner.Sweep.Lowest.{NoneLower, lowest-NoneLower}
use antminer_chip_tuner.Sweep.Stable.{voltage_is}

module _ (fl : Floats) (ctx : ScoreContext fl) where
  has_voltage_self : (v : ℕ) → has_voltage v (some v) ≡ true
  has_voltage_self v = (==_iff v v).1 refl

  -- A voltage that is active is not switched to.
  switch_to_active :
      (v : ℕ) (e : Engine fl)
      → has_voltage v e.active_sweep_voltage_mv ≡ true
      → switch_to fl ctx (some v) e ≡ e
  switch_to_active v e h = rw h refl

  switch_to_other :
      (v : ℕ) (e : Engine fl)
      → has_voltage v e.active_sweep_voltage_mv ≡ false
      → switch_to fl ctx (some v) e
        ≡ selected_or fl ctx e (select_from fl ctx v (matches_at fl ctx v e.voltage_results) e)
  unfolding select_voltage_profile
  switch_to_other v e h = rw h refl

  chosen-voltage_results :
      (v : ℕ) (ms : List (SweepResult fl)) (e : Engine fl)
      → (selected_or fl ctx e (select_from fl ctx v ms e)).voltage_results ≡ e.voltage_results
  chosen-voltage_results v [] e = refl
  chosen-voltage_results v (m ∷ ms) e = refl

  switch_to-voltage_results :
      (o : Option ℕ) (e : Engine fl) → (switch_to fl ctx o e).voltage_results ≡ e.voltage_results
  switch_to-voltage_results none e = refl
  switch_to-voltage_results (some v) e =
      elim (Bool-cases (has_voltage v e.active_sweep_voltage_mv)) [
        | inl b ↦ ap (λ (s : Engine fl). s.voltage_results) (switch_to_active v e b)
        | inr b ↦
            ap (λ (s : Engine fl). s.voltage_results) (switch_to_other v e b)
            ∙ chosen-voltage_results v (matches_at fl ctx v e.voltage_results) e
      ]

  -- After a selection, its voltage is active; without a match nothing has changed.
  switch_to_chosen :
      (v : ℕ) (ms : List (SweepResult fl)) (e : Engine fl)
      → switch_to fl ctx (some v) e ≡ selected_or fl ctx e (select_from fl ctx v ms e)
      → let s = selected_or fl ctx e (select_from fl ctx v ms e) in switch_to fl ctx (some v) s ≡ s
  switch_to_chosen v [] e h = h
  switch_to_chosen v (m ∷ ms) e h =
      switch_to_active v (select_entry fl ctx v (lowest fl ctx m ms) e) (has_voltage_self v)

  switch_to_again :
      (o : Option ℕ) (e : Engine fl)
      → switch_to fl ctx o (switch_to fl ctx o e) ≡ switch_to fl ctx o e
  switch_to_again none e = refl
  switch_to_again (some v) e = elim (Bool-cases (has_voltage v e.active_sweep_voltage_mv)) [
    | inl b ↦ ap (switch_to fl ctx (some v)) (switch_to_active v e b)
    | inr b ↦
        let p = switch_to_other v e b in
        ap (switch_to fl ctx (some v)) p
        ∙ switch_to_chosen v (matches_at fl ctx v e.voltage_results) e p
        ∙ sym p
  ]

  re_rank_from_again :
      (rs : List (SweepResult fl)) (e : Engine fl)
      → e.voltage_results ≡ rs
      → let s = re_rank_from fl ctx rs e in re_rank_from fl ctx s.voltage_results s ≡ s
  re_rank_from_again [] e h = ap (λ l. re_rank_from fl ctx l e) h
  re_rank_from_again (r ∷ rs) e h =
      let o = (lowest fl ctx r rs).voltage_mv in
      ap (λ l. re_rank_from fl ctx l (switch_to fl ctx o e)) (switch_to-voltage_results o e ∙ h)
      ∙ switch_to_again o e

  re_rank_active_voltage_idempotent :
      (e : Engine fl)
      → re_rank_active_voltage fl ctx (re_rank_active_voltage fl ctx e)
        ≡ re_rank_active_voltage fl ctx e
  unfolding re_rank_active_voltage
  re_rank_active_voltage_idempotent e = re_rank_from_again e.voltage_results e refl

  matches_some :
      (v : ℕ) (w : SweepResult fl) (rs : List (SweepResult fl))
      → In w rs
      → has_voltage v w.voltage_mv ≡ true
      → matches_at fl ctx v rs ≢ []
  unfolding matches_at
  matches_some v w [] m h e = elim m [ ]
  matches_some v w (r ∷ rs) here h e = absurd (cc (rw h at e))
  matches_some v w (r ∷ rs) (there m) h e = elim (Bool-cases (has_voltage v r.voltage_mv)) [
    | inl b ↦ absurd (cc (rw b at e))
    | inr b ↦ matches_some v w rs m h (rw b at e)
  ]

  chosen_active :
      (v : ℕ) (ms : List (SweepResult fl)) (e : Engine fl)
      → ms ≢ []
      → (selected_or fl ctx e (select_from fl ctx v ms e)).active_sweep_voltage_mv ≡ some v
  chosen_active v [] e n = absurd (n refl)
  chosen_active v (m ∷ ms) e n = refl

  -- The engine runs at a voltage, or for none it is unchanged.
  abbrev pub RunsAt : Option ℕ → Engine fl → Engine fl → Type 0
  RunsAt none e s = s ≡ e
  RunsAt (some v) e s = s.active_sweep_voltage_mv ≡ some v

  switch_to-RunsAt :
      (o : Option ℕ) (w : SweepResult fl) (e : Engine fl)
      → In w e.voltage_results
      → w.voltage_mv ≡ o
      → RunsAt o e (switch_to fl ctx o e)
  switch_to-RunsAt none w e m h = refl
  switch_to-RunsAt (some v) w e m h = elim (Bool-cases (has_voltage v e.active_sweep_voltage_mv)) [
    | inl b ↦
        ap (λ (s : Engine fl). s.active_sweep_voltage_mv) (switch_to_active v e b)
        ∙ voltage_is fl ctx v e.active_sweep_voltage_mv b
    | inr b ↦
        ap (λ (s : Engine fl). s.active_sweep_voltage_mv) (switch_to_other v e b)
        ∙ chosen_active v (matches_at fl ctx v e.voltage_results) e
            (matches_some v w e.voltage_results m (ap (has_voltage v) h ∙ has_voltage_self v))
  ]

  -- With a result tuned, a re-ranking leaves the engine at the voltage of a result than which none
  -- has a lower score, or unchanged if that result has no voltage; and a second re-ranking right
  -- after it, under the same scores, changes nothing.
  pub re_rank_active_voltage-RunsAt :
      (e : Engine fl) (r : SweepResult fl) (rs : List (SweepResult fl))
      → IsOrdered fl
      → e.voltage_results ≡ r ∷ rs
      → (w : SweepResult fl) × In w (r ∷ rs)
        × NoneLower fl ctx w (r ∷ rs)
        × RunsAt w.voltage_mv e (re_rank_active_voltage fl ctx e)
        × (re_rank_active_voltage fl ctx (re_rank_active_voltage fl ctx e)
            ≡ re_rank_active_voltage fl ctx e)
  re_rank_active_voltage-RunsAt e r rs ord h =
      let w = lowest fl ctx r rs in
      let (m, a) = lowest-NoneLower fl ctx r rs ord in
      let reached : re_rank_active_voltage fl ctx e ≡ switch_to fl ctx w.voltage_mv e =
        unfold re_rank_active_voltage in ap (λ l. re_rank_from fl ctx l e) h in
      (
        w,
        m,
        a,
        subst (RunsAt w.voltage_mv e) (sym reached)
            (switch_to-RunsAt w.voltage_mv w e (subst (In w) (sym h) m) refl),
        re_rank_active_voltage_idempotent e,
      )
