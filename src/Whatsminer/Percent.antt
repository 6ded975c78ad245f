-- ===== src/Whatsminer/Percent.antt =====
-- The mode and the percentage that freq_to_mode_and_percent gives.
use antminer_chip_tuner.Prelude.Membership.{In, here, there}
use antminer_chip_tuner.Floats.{Floats, IsOrdered}
use antminer_chip_tuner.Prelude.{
  String, ◌≡◌, refl, Bool, true, false, Option, none, some, [], ◌∷◌, Bool-cases, inl, inr, All,
  subst, if◌then◌else◌,
}
use antminer_chip_tuner.Prelude.Dict.{keep}
use antminer_chip_tuner.Explore.Fine.{fmin, fmax}
use antminer_chip_tuner.Whatsminer.{
  Baseline, Modes, Picked, picked, no_mode, insert_mode, sort_modes, baseline_freq, hundred,
  percent_raw, is_in_range, clamped_percent, pick_at, pick_first, clamp_to, pick_mode,
  freq_to_mode_and_percent, distance,
}

module _ (fl : Floats) where
  asym : (x y : fl.Num) → IsOrdered fl → fl.ltb x y ≡ true → fl.ltb y x ≡ false
  asym x y ord h = elim (Bool-cases (fl.ltb y x)) [
    | inl k ↦ absurd (cc (ord.trans x y x h k, ord.irrefl x))
    | inr k ↦ k
  ]

  fmin_le : (h x : fl.Num) → IsOrdered fl → fl.ltb h (fmin fl h x) ≡ false
  fmin_le h x ord = elim (Bool-cases (fl.ltb x h)) [
    | inl b ↦ rw b (asym x h ord b)
    | inr b ↦ rw b (ord.irrefl h)
  ]

  -- A value that is not above `h`, raised to `l`, lies between them.
  fmax_between :
      (l h y : fl.Num)
      → IsOrdered fl
      → fl.ltb l h ≡ true
      → fl.ltb h y ≡ false
      → (fl.ltb (fmax fl l y) l ≡ false) × (fl.ltb h (fmax fl l y) ≡ false)
  fmax_between l h y ord k n = elim (Bool-cases (fl.ltb l y)) [
    | inl b ↦ rw b (asym l y ord b, n)
    | inr b ↦ rw b (ord.irrefl l, asym l h ord k)
  ]

  clamped_percent_bounds :
      (raw : fl.Num)
      → IsOrdered fl
      → fl.ltb (fl.neg (hundred fl)) (hundred fl) ≡ true
      → (fl.ltb (clamped_percent fl raw) (fl.neg (hundred fl)) ≡ false)
        × (fl.ltb (hundred fl) (clamped_percent fl raw) ≡ false)
  unfolding clamped_percent
  clamped_percent_bounds raw ord h =
      fmax_between (fl.neg (hundred fl)) (hundred fl) (fmin fl (hundred fl) raw) ord h
        (fmin_le (hundred fl) raw ord)

  module _ (P : String × Baseline fl → Type 0) where
    All-insert_mode :
        (target : fl.Num) (p : String × Baseline fl) (ms : Modes fl)
        → P p
        → All P ms
        → All P (insert_mode fl target p ms)
    unfolding insert_mode
    All-insert_mode target p [] h a = (h, tt)
    All-insert_mode target p (q ∷ ms) h a =
        elim (Bool-cases (fl.ltb (distance fl target q.1) (distance fl target p.1))) [
          | inl b ↦ rw b (a.0, All-insert_mode target p ms h a.1)
          | inr b ↦ rw b (h, a)
        ]

    All-sort_modes : (target : fl.Num) (ms : Modes fl) → All P ms → All P (sort_modes fl target ms)
    unfolding sort_modes
    All-sort_modes target [] a = tt
    All-sort_modes target (p ∷ ms) a =
        All-insert_mode target p (sort_modes fl target ms) a.0 (All-sort_modes target ms a.1)

  -- A mode of the list that is supported.
  abbrev IsSupported : Modes fl → String × Baseline fl → Type 0
  IsSupported modes p = In p modes × (p.1.supported ≡ true)

  abbrev is_supported : String → Baseline fl → Bool
  is_supported name m = m.supported

  All-keep :
      (modes ms : Modes fl)
      → All (λ p. In p modes) ms
      → All (IsSupported modes) (keep is_supported ms)
  unfolding keep
  All-keep modes [] a = tt
  All-keep modes ((name, m) ∷ ms) a =
      keep_at m.supported (name, m) (keep is_supported ms) a.0 refl (All-keep modes ms a.1)
    where
      keep_at :
          (b : Bool) (p : String × Baseline fl) (rest : Modes fl)
          → In p modes
          → p.1.supported ≡ b
          → All (IsSupported modes) rest
          → All (IsSupported modes) (if b then p ∷ rest else rest)
      keep_at true p rest i e r = ((i, e), r)
      keep_at false p rest i e r = r

  All-inside :
      (ms ns : Modes fl) → ((p : String × Baseline fl) → In p ms → In p ns) → All (λ p. In p ns) ms
  All-inside [] ns f = tt
  All-inside (p ∷ ms) ns f = (f p here, All-inside ms ns (λ q i. f q (there i)))

  -- A supported mode with a percentage that is neither below -100 nor above 100, or an error.
  pub record IsUsable (modes : Modes fl) (mode : String) (percent : fl.Num) : Type 0 where
    pub baseline : Baseline fl
    pub known : In (mode, baseline) modes
    pub supported : baseline.supported ≡ true
    pub not_below : fl.ltb percent (fl.neg (hundred fl)) ≡ false
    pub not_above : fl.ltb (hundred fl) percent ≡ false

  abbrev Usable : Modes fl → Picked fl → Type 0
  Usable modes (picked mode percent) = IsUsable modes mode percent
  Usable modes (no_mode e) = Unit

  module _ (ord : IsOrdered fl) (h : fl.ltb (fl.neg (hundred fl)) (hundred fl) ≡ true) where
    usable :
        (modes : Modes fl) (mode : String) (m : Baseline fl) (raw : fl.Num)
        → IsSupported modes (mode, m)
        → IsUsable modes mode (clamped_percent fl raw)
    usable modes mode m raw s =
        let (low, high) = clamped_percent_bounds raw ord h in
        record { baseline = m; known = s.0; supported = s.1; not_below = low; not_above = high }

    clamp_to-Usable :
        (modes : Modes fl) (mode : String) (m : Baseline fl) (target : fl.Num) (o : Option fl.Num)
        → IsSupported modes (mode, m)
        → Usable modes (clamp_to fl mode target o)
    clamp_to-Usable modes mode m target none s = tt
    clamp_to-Usable modes mode m target (some base) s =
        usable modes mode m (percent_raw fl target base) s

    pick_at-Usable :
        (modes : Modes fl) (mode : String) (m : Baseline fl) (target : fl.Num) (o : Option fl.Num)
        (rest : Picked fl)
        → IsSupported modes (mode, m)
        → Usable modes rest
        → Usable modes (pick_at fl mode target o rest)
    pick_at-Usable modes mode m target none rest s r = tt
    pick_at-Usable modes mode m target (some base) rest s r =
        elim (Bool-cases (is_in_range fl (percent_raw fl target base))) [
          | inl b ↦ rw b (usable modes mode m (percent_raw fl target base) s)
          | inr b ↦ rw b r
        ]

    pick_first-Usable :
        (anchor : String) (modes : Modes fl) (target : fl.Num) (ms : Modes fl) (rest : Picked fl)
        → All (IsSupported modes) ms
        → Usable modes rest
        → Usable modes (pick_first fl anchor modes target ms rest)
    unfolding pick_first
    pick_first-Usable anchor modes target [] rest a r = r
    pick_first-Usable anchor modes target ((mode, m) ∷ ms) rest a r =
        pick_at-Usable modes mode m target (baseline_freq fl anchor modes m)
          (pick_first fl anchor modes target ms rest) a.0
          (pick_first-Usable anchor modes target ms rest a.1 r)

    pick_mode-Usable :
        (anchor : String) (modes : Modes fl) (target : fl.Num) (ms : Modes fl)
        → All (IsSupported modes) ms
        → Usable modes (pick_mode fl anchor modes target ms)
    unfolding pick_mode
    pick_mode-Usable anchor modes target [] a = tt
    pick_mode-Usable anchor modes target ((mode, m) ∷ ms) a =
        pick_first-Usable anchor modes target ((mode, m) ∷ ms)
          (clamp_to fl mode target (baseline_freq fl anchor modes m)) a
          (clamp_to-Usable modes mode m target (baseline_freq fl anchor modes m) a.0)

    freq_to_mode-Usable :
        (target : fl.Num) (modes : Modes fl) (anchor : String)
        → Usable modes (freq_to_mode_and_percent fl target modes anchor)
    unfolding freq_to_mode_and_percent
    freq_to_mode-Usable target modes anchor =
        pick_mode-Usable anchor modes target (sort_modes fl target (keep is_supported modes)) (
          All-sort_modes (IsSupported modes) target (keep is_supported modes)
            (All-keep modes modes (All-inside modes modes (λ p i. i))))

  -- A mode that freq_to_mode_and_percent picks is one of the supported ones, and its percentage is
  -- neither below -100 nor above 100, on every path, provided that floats are ordered and -100 is
  -- below 100.
  pub freq_to_mode_and_percent-IsUsable :
      (target : fl.Num) (modes : Modes fl) (anchor mode : String) (percent : fl.Num)
      → IsOrdered fl
      → fl.ltb (fl.neg (hundred fl)) (hundred fl) ≡ true
      → freq_to_mode_and_percent fl target modes anchor ≡ picked mode percent
      → IsUsable modes mode percent
  freq_to_mode_and_percent-IsUsable target modes anchor mode percent ord h e =
      subst (Usable modes) e (freq_to_mode-Usable ord h target modes anchor)
