-- ===== src/Explore/Fine/Convert.antt =====
-- What the conversion of an anchor leaves as it was: every key with its readings.
use antminer_chip_tuner.Floats.{Floats}
use antminer_chip_tuner.Prelude.{
  ◌≡◌, refl, Bool, false, Option, none, some, List, [], ◌∷◌, map, arith, ap, ◌∙◌, Option-cases,
  Bool-cases, inl, inr, sym, is_some, ltb, ◌||◌, length, max,
}
use antminer_chip_tuner.Prelude.Int.{ℤ}
use antminer_chip_tuner.Profit.{Reading}
use antminer_chip_tuner.Explore.Surface.{
  Key, key_eq, Cell, Surface, by_key, has_key, keys_of, top_fine_anchors,
}
use antminer_chip_tuner.Explore.Fine.{FineConfig}
use antminer_chip_tuner.Explore.Fine.Search.{
  mark_if, convert, is_degenerate, next_in_grid, visit, find_next_fine_to_measure,
}

module _ (fl : Floats) where
  -- The measurements of a surface, without the marks of the fine grids.
  abbrev pub measurement : Cell fl → Key × Reading fl
  measurement e = (e.key, e.reading)

  abbrev pub measurements : Surface fl → List (Key × Reading fl)
  measurements = map measurement

  measurement-mark_if :
      (b : Bool) (k : Key) (e : Cell fl) → measurement (mark_if fl b k e) ≡ measurement e
  measurement-mark_if b k e = ground arith

  pub measurements-convert :
      (k : Key) (s : Surface fl) → measurements (convert fl k s) ≡ measurements s
  unfolding convert
  measurements-convert k [] = refl
  measurements-convert k (e ∷ es) = elim (Option-cases (by_key fl es k)) [
    | inl n ↦
        rw (n, convert) (ap (λ m. m ∷ measurements es) (measurement-mark_if (key_eq k e.key) k e))
    | inr (x, p) ↦ rw (p, convert) (ap (λ m. measurement e ∷ m) (measurements-convert k es))
  ]

  abbrev key_of : Key × Reading fl → Key
  key_of m = m.0

  keys_of-measurements : (s : Surface fl) → keys_of fl s ≡ map key_of (measurements s)
  keys_of-measurements [] = refl
  keys_of-measurements (e ∷ es) = ap (λ ks. e.key ∷ ks) (keys_of-measurements es)

  -- Whether a key has been measured depends on the keys alone.
  pub is_some-by_key :
      (s : Surface fl) (k : Key) → is_some (by_key fl s k) ≡ has_key k (keys_of fl s)
  unfolding by_key has_key
  is_some-by_key [] k = refl
  is_some-by_key (e ∷ es) k = ground (arith, is_some-by_key es k)

  pub keys_of-convert : (k : Key) (s : Surface fl) → keys_of fl (convert fl k s) ≡ keys_of fl s
  keys_of-convert k s =
      keys_of-measurements (convert fl k s)
      ∙ ap (map key_of) (measurements-convert k s)
      ∙ sym (keys_of-measurements s)

  none-of-is_some : (o : Option (Cell fl)) → is_some o ≡ false → o ≡ none
  none-of-is_some none h = refl
  none-of-is_some (some e) h = absurd (cc)

  -- Two surfaces with the same keys leave the same keys open.
  pub by_key-keys_of :
      (s t : Surface fl) (k : Key)
      → keys_of fl s ≡ keys_of fl t
      → by_key fl s k ≡ none
      → by_key fl t k ≡ none
  by_key-keys_of s t k h n =
      none-of-is_some (by_key fl t k)
        (is_some-by_key t k ∙ ap (has_key k) (sym h) ∙ sym (is_some-by_key s k) ∙ ap is_some n)

  module _ (round : fl.Num → ℤ) (cfg : FineConfig fl) where
    pub measurements-visit :
        (s : Surface fl) (anchors : List Key)
        → measurements (visit fl round cfg s anchors).0 ≡ measurements s
    unfolding visit
    measurements-visit s [] = refl
    measurements-visit s (a ∷ more) = elim (Bool-cases (is_degenerate fl round cfg a)) [
      | inl d ↦ rw (d, visit) (measurements-visit s more)
      | inr d ↦ elim (Option-cases (next_in_grid fl round cfg (convert fl a s) a)) [
        | inl n ↦
            rw (d, visit, n) (measurements-visit (convert fl a s) more ∙ measurements-convert a s)
        | inr (k, e) ↦ rw (d, visit, e) (measurements-convert a s)
      ]
    ]

    -- The search for a fine cell marks entries of the surface, and neither adds, drops, moves nor
    -- changes a measurement.
    pub measurements-find_next_fine :
        (s : Surface fl)
        → measurements (find_next_fine_to_measure fl round cfg s).0 ≡ measurements s
    unfolding find_next_fine_to_measure
    measurements-find_next_fine s =
        elim (Bool-cases
          (ltb cfg.fine_count 2 || ltb (length cfg.v_grid) 2 || ltb (length cfg.f_grid) 2)) [
            | inl e ↦ rw e refl
            | inr e ↦
                rw e (measurements-visit s (top_fine_anchors fl cfg.ctx (max 1 cfg.fine_top_k) s))
          ]

    pub keys_of-find_next_fine :
        (s : Surface fl) → keys_of fl (find_next_fine_to_measure fl round cfg s).0 ≡ keys_of fl s
    keys_of-find_next_fine s =
        keys_of-measurements (find_next_fine_to_measure fl round cfg s).0
        ∙ ap (map key_of) (measurements-find_next_fine s)
        ∙ sym (keys_of-measurements s)
