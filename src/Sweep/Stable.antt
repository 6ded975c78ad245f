-- ===== src/Sweep/Stable.antt =====
-- A selected profile is still the reference after a refresh.
use antminer_chip_tuner.Floats.{Floats}
use antminer_chip_tuner.Prelude.{
  ℕ, ◌≡◌, refl, Bool, true, false, Option, none, some, List, [], ◌∷◌, Bool-cases, inl, inr, ap, ◌∙◌,
  sym, subst, some_eq, if◌then◌else◌, ==_iff, ◌≢◌, ap₂,
}
use antminer_chip_tuner.Profit.{ScoreContext}
use antminer_chip_tuner.Sweep.{
  BoardArrays, any_board, arrays_or, has_board, has_voltage, voltage_or_zero, SweepResult, Engine,
  lowest, first_at, matches_at, refer_to, refer_found, refresh_from, refresh_sweep_reference,
  select_entry, select_from, select_voltage_profile,
}

module _ (fl : Floats) (ctx : ScoreContext fl) where
  first_at-matches_at :
      (v : ℕ) (rs : List (SweepResult fl)) (r : SweepResult fl)
      → matches_at fl ctx v rs ≡ r ∷ []
      → first_at fl ctx v rs ≡ some r
  unfolding first_at matches_at
  first_at-matches_at v [] r h = absurd (cc)
  first_at-matches_at v (x ∷ rs) r h = elim (Bool-cases (has_voltage v x.voltage_mv)) [
    | inl b ↦ rw b (cc (rw b at h))
    | inr b ↦ rw b (first_at-matches_at v rs r (rw b at h))
  ]

  nothing_found : (v : ℕ) (r : SweepResult fl) → first_at fl ctx v [] ≢ some r
  unfolding first_at
  nothing_found v r h = cc

  either_voltage :
      (o : Option ℕ) (v : ℕ) → o ≡ some v → voltage_or_zero o ≡ elim o [ none ↦ v | some w ↦ w ]
  either_voltage none v h = absurd (cc)
  either_voltage (some w) v h = refl

  same {ℓ} : {A : Type ℓ} (b : Bool) (x : A) → (if b then x else x) ≡ x
  same true x = refl
  same false x = refl

  -- The refreshed frequencies are those that a selection of the same entry left.
  freqs_stay :
      (freqs : Option BoardArrays) (empty : BoardArrays)
      → let chosen = arrays_or empty freqs in
        (if has_board freqs
          then arrays_or [] freqs
          else if any_board chosen
          then chosen
          else chosen)
        ≡ chosen
  unfolding any_board
  freqs_stay none empty = same (any_board empty) empty
  freqs_stay (some []) empty = same (any_board empty) empty
  freqs_stay (some (b ∷ bs)) empty = elim (Bool-cases (any_board (b ∷ bs))) [
    | inl h ↦ rw h refl
    | inr h ↦ rw h refl
  ]

  pub voltage_is : (v : ℕ) (o : Option ℕ) → has_voltage v o ≡ true → o ≡ some v
  voltage_is v none h = absurd (cc)
  voltage_is v (some w) h = ap some ((==_iff w v).0 h)

  matched_voltage :
      (v : ℕ) (rs : List (SweepResult fl)) (r : SweepResult fl) (ms : List (SweepResult fl))
      → matches_at fl ctx v rs ≡ r ∷ ms
      → r.voltage_mv ≡ some v
  unfolding matches_at
  matched_voltage v [] r ms h = absurd (cc)
  matched_voltage v (x ∷ rs) r ms h = elim (Bool-cases (has_voltage v x.voltage_mv)) [
    | inl b ↦
        let p : x ≡ r = cc (rw b at h) in
        ap (λ (y : SweepResult fl). y.voltage_mv) (sym p) ∙ voltage_is v x.voltage_mv b
    | inr b ↦ matched_voltage v rs r ms (rw b at h)
  ]

  one_match :
      (v : ℕ) (r : SweepResult fl) (e : Engine fl)
      → select_from fl ctx v (r ∷ []) e ≡ some (select_entry fl ctx v r e)
  unfolding lowest
  one_match v r e = refl

  abbrev referring : ℕ → BoardArrays → Engine fl → Engine fl
  referring w freqs s = record s { sweep_voltage_mv = w; sweep_freq_arrays = freqs }

  -- A reference to the selected entry changes nothing.
  refer_selected :
      (v : ℕ) (r : SweepResult fl) (e : Engine fl)
      → r.voltage_mv ≡ some v
      → let s = select_entry fl ctx v r e in refer_to fl ctx r (some v) s ≡ s
  refer_selected v r e p =
      let s = select_entry fl ctx v r e in
      ap₂ (λ w freqs. referring w freqs s) (either_voltage r.voltage_mv v p)
        (freqs_stay r.stable_freq_arrays e.empty_board_arrays)

  refresh_selected :
      (rs : List (SweepResult fl)) (v : ℕ) (r : SweepResult fl) (e : Engine fl)
      → first_at fl ctx v rs ≡ some r
      → r.voltage_mv ≡ some v
      → refresh_from fl ctx rs (select_entry fl ctx v r e) ≡ select_entry fl ctx v r e
  refresh_selected [] v r e f p = absurd (nothing_found v r f)
  refresh_selected (x ∷ rs) v r e f p =
      let s = select_entry fl ctx v r e in
      ap (λ o. refer_found fl ctx (lowest fl ctx x rs) o s) f ∙ refer_selected v r e p

  -- If one entry alone has the voltage, then selecting it and refreshing the reference afterwards
  -- leaves the reference that the selection made: the active voltage, the hashrate and the
  -- frequencies of every board, whatever the scores.
  pub refresh-select_voltage_profile :
      (v : ℕ) (e selected : Engine fl) (r : SweepResult fl)
      → matches_at fl ctx v e.voltage_results ≡ r ∷ []
      → select_voltage_profile fl ctx v e ≡ some selected
      → refresh_sweep_reference fl ctx selected ≡ selected
  unfolding select_voltage_profile refresh_sweep_reference
  refresh-select_voltage_profile v e selected r m h =
      let e1 : select_entry fl ctx v r e ≡ selected =
        some_eq (sym (ap (λ ms. select_from fl ctx v ms e) m ∙ one_match v r e) ∙ h) in
      subst (λ (s : Engine fl). refresh_sweep_reference fl ctx s ≡ s) e1
        (refresh_selected e.voltage_results v r e (first_at-matches_at v e.voltage_results r m)
          (matched_voltage v e.voltage_results r [] m))
