-- ===== src/Explore/Axes/Spans.antt =====
-- The ends of the axes of the grid, and the grid of the firmware.
use antminer_chip_tuner.Floats.{Floats}
use antminer_chip_tuner.Prelude.{
  ℕ, zero, suc, ◌<◌, max, ◌≡◌, refl, sym, ◌∙◌, ap, subst, true, false, List, [], ◌∷◌, arith, map,
  Bool-cases, inl, inr, All, ◌⊎◌, ltb,
}
use antminer_chip_tuner.Prelude.Int.{ℤ, pos, negsuc, ltb_ℤ, leb_ℤ, ◌*ℤ◌, ◌+ℤ◌}
use antminer_chip_tuner.Prelude.Membership.{In, here, there}
use antminer_chip_tuner.Explore.Axes.{
  insert_asc, sort_asc, stock_or_zero, AxesConfig, descend, v_top, v_bottom, snap_freq,
  build_vf_grid_voltages, build_vf_grid_freqs, vf_grid_axes,
}
use antminer_chip_tuner.Explore.Fine.{mhz, of_ℤ}
use antminer_chip_tuner.Explore.Axes.Ascending.{IsAscending, sort_asc-IsAscending}

same_ℤ : (x y : ℤ) → ltb_ℤ x y ≡ false → ltb_ℤ y x ≡ false → x ≡ y
same_ℤ (pos a) (pos b) h k = ap pos (ground arith)
same_ℤ (negsuc a) (negsuc b) h k = ap negsuc (ground arith)
same_ℤ (pos a) (negsuc b) h k = absurd (ground arith)
same_ℤ (negsuc a) (pos b) h k = absurd (ground arith)

In-insert_asc : (x : ℤ) (ys : List ℤ) → In x (insert_asc x ys)
unfolding insert_asc
In-insert_asc x [] = here
In-insert_asc x (y ∷ ys) = elim (Bool-cases (ltb_ℤ y x)) [
  | inl e ↦ rw e (there (In-insert_asc x ys))
  | inr e ↦ elim (Bool-cases (ltb_ℤ x y)) [
    | inl l ↦ rw (e, l) here
    | inr l ↦ rw (e, l) (subst (λ z. In x (z ∷ ys)) (same_ℤ x y l e) here)
  ]
]

insert_asc-All {ℓ} :
    (P : ℤ → Type ℓ) (x : ℤ) (ys : List ℤ) → P x → All P ys → All P (insert_asc x ys)
unfolding insert_asc
insert_asc-All P x [] h a = (h, tt)
insert_asc-All P x (y ∷ ys) h a = elim (Bool-cases (ltb_ℤ y x)) [
  | inl e ↦ rw e (a.0, insert_asc-All P x ys h a.1)
  | inr e ↦ elim (Bool-cases (ltb_ℤ x y)) [ inl l ↦ rw (e, l) (h, a) | inr l ↦ rw (e, l) a ]
]

sort_asc-All {ℓ} : (P : ℤ → Type ℓ) (xs : List ℤ) → All P xs → All P (sort_asc xs)
unfolding sort_asc
sort_asc-All P [] a = tt
sort_asc-All P (x ∷ xs) a = insert_asc-All P x (sort_asc xs) a.0 (sort_asc-All P xs a.1)

-- A frequency in kHz that is a multiple of the firmware's step of 3.125 MHz.
abbrev pub IsSnapped : ℤ → Type 0
IsSnapped f = (k : ℤ) × (f ≡ k *ℤ pos 3125)

module _ (fl : Floats) where
  -- x - 0 * s is x, for a finite s.
  abbrev pub TakesNought : Type 0
  TakesNought = (x s : fl.Num) → fl.sub x (fl.mul (fl.of_ℕ 0) s) ≡ x

  module _ (round : fl.Num → ℤ) where
    -- Rounding gives back a whole number.
    abbrev pub GivesBack : Type 0
    GivesBack = (n : ℕ) → round (fl.of_ℕ n) ≡ pos n

    map-IsSnapped : (fs : List fl.Num) → All IsSnapped (map (snap_freq fl round) fs)
    map-IsSnapped [] = tt
    map-IsSnapped (f ∷ fs) = ((round (fl.div f (mhz fl 3125)), refl), map-IsSnapped fs)

    In-top :
        (t n : ℕ) (top step : fl.Num)
        → 0 < n
        → GivesBack
        → TakesNought
        → fl.of_ℕ t ≡ top
        → In (pos t) (sort_asc (map round (descend fl top step 0 n)))
    unfolding descend sort_asc
    In-top t zero top step h b z e = absurd (omega arith)
    In-top t (suc n) top step h b z e =
        let first : round (fl.sub top (fl.mul (fl.of_ℕ 0) step)) ≡ pos t =
          ap round (z top step ∙ sym e) ∙ b t in
        let rest = sort_asc (map round (descend fl top step 1 n)) in
        subst (λ (x : ℤ). In (pos t) (insert_asc x rest)) (sym first) (In-insert_asc (pos t) rest)

    module _ (cfg : AxesConfig fl) where
      v_top-bounded : leb_ℤ (v_top fl cfg) (pos (max cfg.psu_max_mv cfg.start_voltage_mv)) ≡ true
      unfolding v_top
      v_top-bounded = ground arith

      -- With a stock voltage, the top is not above it by more than the setting, nor above the PSU's
      -- maximum.
      abbrev pub KeepsToStock : Type 0
      KeepsToStock =
          (stock_or_zero cfg.stock_voltage ≡ 0)
          ⊎ ((leb_ℤ (v_top fl cfg) (pos (stock_or_zero cfg.stock_voltage) +ℤ cfg.over_stock) ≡ true)
              × (leb_ℤ (v_top fl cfg) (pos cfg.psu_max_mv) ≡ true))

      v_top-KeepsToStock : KeepsToStock
      unfolding v_top
      v_top-KeepsToStock = elim (Bool-cases (ltb 0 (stock_or_zero cfg.stock_voltage))) [
        | inl e ↦ inr (ground arith)
        | inr e ↦ inl (ground arith)
      ]

      v_bottom-below :
          (t : ℕ) → v_top fl cfg ≡ pos t → 11877 < t → ltb_ℤ (v_bottom fl cfg) (pos t) ≡ true
      unfolding v_bottom
      v_bottom-below t e h = ground arith

      v_bottom-floor :
          (v_bottom fl cfg ≡ pos cfg.start_voltage_mv)
          ⊎ (leb_ℤ (pos 11877) (v_bottom fl cfg) ≡ true)
      unfolding v_bottom
      v_bottom-floor = ground arith

      -- If the top voltage is above 11.877 V, it is on the axis of voltages, not above the greater of
      -- the PSU's maximum and the start voltage, with a stock voltage not above the PSU's maximum nor
      -- above that voltage by more than the setting, and above the bottom voltage, which is the start
      -- voltage or at least 11.877 V; both axes are strictly ascending, and every frequency is a
      -- multiple of 3.125 MHz, even if the limits are not. A whole number is its own rounding, and
      -- taking away 0 times a number changes nothing.
      pub vf_grid_axes-IsSnapped :
          (t : ℕ)
          → GivesBack
          → TakesNought
          → v_top fl cfg ≡ pos t
          → 11877 < t
          → In (pos t) (vf_grid_axes fl round cfg).0
            × (leb_ℤ (pos t) (pos (max cfg.psu_max_mv cfg.start_voltage_mv)) ≡ true)
            × KeepsToStock
            × (ltb_ℤ (v_bottom fl cfg) (pos t) ≡ true)
            × ((v_bottom fl cfg ≡ pos cfg.start_voltage_mv)
                ⊎ (leb_ℤ (pos 11877) (v_bottom fl cfg) ≡ true))
            × IsAscending (vf_grid_axes fl round cfg).0
            × IsAscending (vf_grid_axes fl round cfg).1
            × All IsSnapped (vf_grid_axes fl round cfg).1
      unfolding vf_grid_axes build_vf_grid_voltages build_vf_grid_freqs
      vf_grid_axes-IsSnapped t b z e h = (
        In-top t (max 2 cfg.v_count) (of_ℤ fl (v_top fl cfg)) _ (omega arith) b z
            (ap (of_ℤ fl) (sym e)),
        subst (λ x. leb_ℤ x (pos (max cfg.psu_max_mv cfg.start_voltage_mv)) ≡ true) e v_top-bounded,
        v_top-KeepsToStock,
        v_bottom-below t e h,
        v_bottom-floor,
        sort_asc-IsAscending (build_vf_grid_voltages fl round cfg),
        sort_asc-IsAscending (build_vf_grid_freqs fl round cfg),
        sort_asc-All IsSnapped (build_vf_grid_freqs fl round cfg) (map-IsSnapped _),
      )
