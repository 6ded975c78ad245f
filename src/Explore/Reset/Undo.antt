-- ===== src/Explore/Reset/Undo.antt =====
-- The reset of the fine grids undoes the fine stage: conversions and fine cells.
use antminer_chip_tuner.Floats.{Floats}
use antminer_chip_tuner.Prelude.{
  ◌≡◌, refl, Bool, true, false, Option, none, List, [], ◌∷◌, ◌++◌, arith, ap, ◌∙◌, max, ltb, ◌||◌,
  length, Option-cases, Bool-cases, inl, inr, All,
}
use antminer_chip_tuner.Prelude.Int.{ℤ}
use antminer_chip_tuner.Profit.{Reading}
use antminer_chip_tuner.Explore.Surface.{Key, key_eq, Cell, Surface, by_key, top_fine_anchors}
use antminer_chip_tuner.Explore.Fine.{FineConfig}
use antminer_chip_tuner.Explore.Fine.Search.{
  mark_if, convert, is_degenerate, next_in_grid, visit, find_next_fine_to_measure,
}
use antminer_chip_tuner.Explore.Reset.{coarse_part, keep_coarse}

module _ (fl : Floats) where
  -- A coarse entry names no anchor.
  abbrev pub IsBare : Cell fl → Type 0
  IsBare e = e.fine ≡ false → e.coarse_anchor ≡ none

  keep_coarse-mark_if :
      (b : Bool) (k j : Key) (fine : Bool) (anchor : Option Key) (r : Reading fl)
      (rest : Surface fl)
      → (fine ≡ false → anchor ≡ none)
      → key_eq k j ≡ b
      → let e : Cell fl = record { key = j; fine = fine; coarse_anchor = anchor; reading = r } in
        keep_coarse fl (mark_if fl b k e) rest ≡ keep_coarse fl e rest
  keep_coarse-mark_if false k j fine anchor r rest h q = refl
  keep_coarse-mark_if true k j true anchor r rest h q = refl
  keep_coarse-mark_if true k j false anchor r rest h q = rw (q, h refl) refl

  IsBare-mark_if :
      (b : Bool) (k j : Key) (fine : Bool) (anchor : Option Key) (r : Reading fl)
      → (fine ≡ false → anchor ≡ none)
      → IsBare
          (mark_if fl b k (record { key = j; fine = fine; coarse_anchor = anchor; reading = r }))
  IsBare-mark_if false k j fine anchor r h = h
  IsBare-mark_if true k j true anchor r h = h
  IsBare-mark_if true k j false anchor r h = λ q. absurd (cc)

  coarse_part-convert :
      (k : Key) (s : Surface fl) → All IsBare s → coarse_part fl (convert fl k s) ≡ coarse_part fl s
  unfolding coarse_part convert
  coarse_part-convert k [] b = refl
  coarse_part-convert k (e ∷ es) b = elim (Option-cases (by_key fl es k)) [
    | inl n ↦
        rw (n, convert)
          (keep_coarse-mark_if (key_eq k e.key) k e.key e.fine e.coarse_anchor e.reading
            (coarse_part fl es) b.0 refl)
    | inr (x, f) ↦ rw (f, convert) (ap (keep_coarse fl e) (coarse_part-convert k es b.1))
  ]

  convert-IsBare : (k : Key) (s : Surface fl) → All IsBare s → All IsBare (convert fl k s)
  unfolding convert
  convert-IsBare k [] b = tt
  convert-IsBare k (e ∷ es) b = elim (Option-cases (by_key fl es k)) [
    | inl n ↦
        rw (n, convert)
          (IsBare-mark_if (key_eq k e.key) k e.key e.fine e.coarse_anchor e.reading b.0, b.1)
    | inr (x, f) ↦ rw (f, convert) (b.0, convert-IsBare k es b.1)
  ]

  keep_coarse-append :
      (e : Cell fl) (s t : Surface fl) → keep_coarse fl e (s ++ t) ≡ keep_coarse fl e s ++ t
  keep_coarse-append e s t = ground arith

  pub coarse_part-append :
      (s t : Surface fl) → coarse_part fl (s ++ t) ≡ coarse_part fl s ++ coarse_part fl t
  unfolding coarse_part
  coarse_part-append [] t = refl
  coarse_part-append (e ∷ es) t =
      ap (keep_coarse fl e) (coarse_part-append es t)
      ∙ keep_coarse-append e (coarse_part fl es) (coarse_part fl t)

  module _ (round : fl.Num → ℤ) (cfg : FineConfig fl) where
    -- What a search does to a surface, as far as a reset can tell: nothing.
    abbrev Undone : Surface fl → Surface fl → Type 0
    Undone s t = All IsBare t × (coarse_part fl t ≡ coarse_part fl s)

    visit-Undone :
        (s : Surface fl) (anchors : List Key)
        → All IsBare s
        → Undone s (visit fl round cfg s anchors).0
    unfolding visit
    visit-Undone s [] b = (b, refl)
    visit-Undone s (a ∷ more) b = elim (Bool-cases (is_degenerate fl round cfg a)) [
      | inl d ↦ rw (d, visit) (visit-Undone s more b)
      | inr d ↦ elim (Option-cases (next_in_grid fl round cfg (convert fl a s) a)) [
        | inl n ↦
            let u = visit-Undone (convert fl a s) more (convert-IsBare a s b) in
            rw (d, visit, n) (u.0, u.1 ∙ coarse_part-convert a s b)
        | inr (k, e) ↦ rw (d, visit, e) (convert-IsBare a s b, coarse_part-convert a s b)
      ]
    ]

    pub find_next_fine-Undone :
        (s : Surface fl) → All IsBare s → Undone s (find_next_fine_to_measure fl round cfg s).0
    unfolding find_next_fine_to_measure
    find_next_fine-Undone s b =
        elim (Bool-cases
          (ltb cfg.fine_count 2 || ltb (length cfg.v_grid) 2 || ltb (length cfg.f_grid) 2)) [
            | inl e ↦ rw e (b, refl)
            | inr e ↦ rw e (visit-Undone s (top_fine_anchors fl cfg.ctx (max 1 cfg.fine_top_k) s) b)
          ]
