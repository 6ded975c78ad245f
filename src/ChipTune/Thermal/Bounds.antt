-- ===== src/ChipTune/Thermal/Bounds.antt =====
-- What an emergency keeps: the firmware's least frequency, the greatest one, and the recorded
-- unstable frequencies. It keeps neither the configured least frequency nor the spread cap.
use mathlib.Core.Bool.{false≢true}
use antminer_chip_tuner.Prelude.{
  ℕ, zero, suc, ◌+◌, ◌-◌, ◌≡◌, max, subst, sym, ◌≢◌, ◌∙◌, length-set, get_elem?-set_ne, Bool, true,
  false, Option, some, List, [], ◌∷◌, arith, get_elem?, set, length, All, Bool-cases, Option-cases,
  inl, inr, ◌||◌,
}
use antminer_chip_tuner.ChipTune.Chips.{Chips, Limits, firmware_freq_min, is_parked, cap_of}
use antminer_chip_tuner.ChipTune.Profiling.{lower_cap}
use antminer_chip_tuner.ChipTune.Profiling.Boards.{
  Runs, IsBounded, moved-IsBounded, noted-IsBounded,
}
use antminer_chip_tuner.ChipTune.Profiling.Safety.{noted}
use antminer_chip_tuner.ChipTune.Thermal.{
  Emergency, throttle_at, change_at, throttle_chip, throttle_from, throttle_board, at_board,
  throttle_boards, throttle_chips, handle_thermal,
}

-- The bounds that hold through emergencies.
abbrev pub IsWithin : Limits → Chips → Type 0
IsWithin lim c = IsBounded firmware_freq_min lim c

-- A write to a parked chip changes nothing of the chips that are not parked.
unparked :
    (c : Chips) (i j f t : ℕ) (m : Option ℕ)
    → is_parked i c.parked ≡ true
    → Runs (record c { freqs = set c.freqs i t; chip_max = set c.chip_max i m }) j f
    → Runs c j f
      × (cap_of (record c { freqs = set c.freqs i t; chip_max = set c.chip_max i m }) j
          ≡ cap_of c j)
unfolding cap_of
unparked c i j f t m p q =
    let other : i ≢ j = λ e. false≢true (sym q.alive ∙ (rw e at p)) in
    (
      record { alive = q.alive; at = sym (get_elem?-set_ne c.freqs i j t other) ∙ q.at },
      rw (get_elem?-set_ne c.chip_max i j m other, cap_of),
    )

-- A parked chip's frequency may change too, so the bounds are stated with the parked list alone.
parked_set :
    (lim : Limits) (c : Chips) (i t : ℕ) (m : Option ℕ)
    → IsWithin lim c
    → is_parked i c.parked ≡ true
    → IsWithin lim (record c { freqs = set c.freqs i t; chip_max = set c.chip_max i m })
parked_set lim c i t m s p = record {
  shape = omega (arith, s.shape, length-set {0} c.freqs i t, length-set {0} c.chip_max i m);
  clamped = λ j f q. s.clamped j f (unparked c i j f t m p q).0;
  bracketed =
      λ j f k q e. let (old, cap) = unparked c i j f t m p q in s.bracketed j f k old (sym cap ∙ e);
}

throttle_chip-IsWithin :
    (lim : Limits) (step i : ℕ) (c : Chips)
    → IsWithin lim c
    → IsWithin lim (throttle_chip step i c).0
unfolding throttle_chip throttle_at
throttle_chip-IsWithin lim step i c s = elim (Option-cases (get_elem? c.freqs i)) [
  | inl n ↦ rw n s
  | inr (cur, q) ↦ elim (Bool-cases (is_parked i c.parked)) [
    | inl p ↦
        rw q
          (parked_set lim c i (max (cur - step) firmware_freq_min) (lower_cap (cap_of c i) cur) s p)
    | inr p ↦
        let r : Runs c i cur = record { alive = p; at = q } in
        let kept = noted-IsBounded firmware_freq_min lim c i cur s r in
        let still : Runs (noted c i cur) i cur = record { alive = p; at = q } in
        rw q (
          moved-IsBounded firmware_freq_min lim (noted c i cur) i cur
            (max (cur - step) firmware_freq_min) kept still (omega (arith, s.clamped i cur r))
            (λ m e. omega (arith, kept.bracketed i cur m still e, s.clamped i cur r)))
  ]
]

throttle_from-IsWithin :
    (lim : Limits) (step k i : ℕ) (c : Chips) (b : Bool)
    → IsWithin lim c
    → IsWithin lim (throttle_from step k i (c, b)).0
unfolding throttle_from
throttle_from-IsWithin lim step zero i c b s = s
throttle_from-IsWithin lim step (suc k) i c b s =
    let (c', now) = throttle_chip step i c in
    throttle_from-IsWithin lim step k (i + 1) c' (b || now) (throttle_chip-IsWithin lim step i c s)

pub All-set {ℓ κ} :
    {A : Type ℓ} (P : A → Type κ) (xs : List A) (i : ℕ) (x : A)
    → All P xs
    → P x
    → All P (set xs i x)
All-set P [] i x h p = tt
All-set P (y ∷ ys) zero x h p = (p, h.1)
All-set P (y ∷ ys) (suc i) x h p = (h.0, All-set P ys i x h.1 p)

pub All-get_elem? {ℓ κ} :
    {A : Type ℓ} (P : A → Type κ) (xs : List A) (i : ℕ) (x : A)
    → All P xs
    → get_elem? xs i ≡ some x
    → P x
All-get_elem? P [] i x h e = absurd (cc)
All-get_elem? P (y ∷ ys) zero x h e = subst P (cc) h.0
All-get_elem? P (y ∷ ys) (suc i) x h e = All-get_elem? P ys i x h.1 e

module _ (lim : Limits) where
  at_board-IsWithin :
      (b : ℕ) (change : Chips → Chips × Bool) (boards : List Chips) (f : Bool)
      → ((c : Chips) → IsWithin lim c → IsWithin lim (change c).0)
      → All (IsWithin lim) boards
      → All (IsWithin lim) (at_board b change (boards, f)).0
  unfolding at_board change_at
  at_board-IsWithin b change boards f keep s = elim (Option-cases (get_elem? boards b)) [
    | inl n ↦ rw n s
    | inr (c, e) ↦ rw e (
        All-set (IsWithin lim) boards b (change c).0 s
          (keep c (All-get_elem? (IsWithin lim) boards b c s e)))
  ]

  throttle_boards-IsWithin :
      (step : ℕ) (bs : List ℕ) (boards : List Chips) (f : Bool)
      → All (IsWithin lim) boards
      → All (IsWithin lim) (throttle_boards step bs (boards, f)).0
  unfolding throttle_boards throttle_board
  throttle_boards-IsWithin step [] boards f s = s
  throttle_boards-IsWithin step (b ∷ bs) boards f s =
      let (boards', f') = at_board b (throttle_board step) (boards, f) in
      throttle_boards-IsWithin step bs boards' f' (
        at_board-IsWithin b (throttle_board step) boards f
          (λ c w. throttle_from-IsWithin lim step (length c.freqs) 0 c false w) s)

  throttle_chips-IsWithin :
      (step : ℕ) (hot : List (ℕ × ℕ)) (boards : List Chips) (f : Bool)
      → All (IsWithin lim) boards
      → All (IsWithin lim) (throttle_chips step hot (boards, f)).0
  unfolding throttle_chips
  throttle_chips-IsWithin step [] boards f s = s
  throttle_chips-IsWithin step ((b, i) ∷ rest) boards f s =
      let (boards', f') = at_board b (throttle_chip step i) (boards, f) in
      throttle_chips-IsWithin step rest boards' f'
        (at_board-IsWithin b (throttle_chip step i) boards f (throttle_chip-IsWithin lim step i) s)

  -- An emergency leaves every chip that is not parked between the firmware's least frequency and the
  -- greatest one, and none above a frequency at which it was found unstable, if that held before.
  pub handle_thermal-IsWithin :
      (step : ℕ) (em : Emergency) (boards : List Chips)
      → All (IsWithin lim) boards
      → All (IsWithin lim) (handle_thermal step em boards).0
  unfolding handle_thermal
  handle_thermal-IsWithin step em boards s =
      let (boards', f') = throttle_boards step em.boards (boards, false) in
      throttle_chips-IsWithin step em.chips boards' f'
        (throttle_boards-IsWithin step em.boards boards false s)
