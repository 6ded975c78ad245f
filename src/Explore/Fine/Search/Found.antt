-- ===== src/Explore/Fine/Search/Found.antt =====
-- What find_next_fine_to_measure returns: an unmeasured cell of the fine grid of a chosen anchor.
use antminer_chip_tuner.Prelude.Membership.{In, here, there}
use antminer_chip_tuner.Floats.{Floats}
use antminer_chip_tuner.Prelude.{
  ◌≡◌, false, some, List, [], ◌∷◌, max, ltb, ◌||◌, length, some_eq, subst, Option-cases, Bool-cases,
  inl, inr,
}
use antminer_chip_tuner.Prelude.Int.{ℤ}
use antminer_chip_tuner.Explore.Surface.{Key, Surface, top_fine_anchors}
use antminer_chip_tuner.Explore.Coarse.Found.{IsOpen, sweep_found}
use antminer_chip_tuner.Explore.Fine.{FineConfig, v_fine, f_fine}
use antminer_chip_tuner.Explore.Fine.Search.{
  convert, is_degenerate, next_in_grid, visit, find_next_fine_to_measure,
}
use antminer_chip_tuner.Explore.Fine.Convert.{keys_of-convert, by_key-keys_of}

module _ (fl : Floats) (round : fl.Num → ℤ) (cfg : FineConfig fl) where
  -- A cell to measure with its anchor: the anchor is among those chosen, its grid has more than one
  -- cell, and the cell is on that grid and unmeasured.
  pub record IsFineWork (s : Surface fl) (anchors : List Key) (w : Key × Key) : Type 0 where
    pub chosen : In w.1 anchors
    pub wide : is_degenerate fl round cfg w.1 ≡ false
    pub is_open : IsOpen fl (v_fine fl round cfg w.1) (f_fine fl round cfg w.1) s w.0

  found_in_grid :
      (s : Surface fl) (a k : Key)
      → next_in_grid fl round cfg (convert fl a s) a ≡ some k
      → IsOpen fl (v_fine fl round cfg a) (f_fine fl round cfg a) s k
  found_in_grid s a k e =
      let (v, f, free) =
        sweep_found fl (convert fl a s) (v_fine fl round cfg a) (f_fine fl round cfg a) k e in
      record {
        v_in = v;
        f_in = f;
        open_at = by_key-keys_of fl (convert fl a s) s k (keys_of-convert fl a s) free;
      }

  closed_before :
      (s : Surface fl) (a : Key) (anchors : List Key) (w : Key × Key)
      → IsFineWork (convert fl a s) anchors w
      → IsFineWork s (a ∷ anchors) w
  closed_before s a anchors w h = record {
    chosen = there h.chosen;
    wide = h.wide;
    is_open = record {
      v_in = h.is_open.v_in;
      f_in = h.is_open.f_in;
      open_at = by_key-keys_of fl (convert fl a s) s w.0 (keys_of-convert fl a s) h.is_open.open_at;
    };
  }

  pub visit-IsFineWork :
      (s : Surface fl) (anchors : List Key) (w : Key × Key)
      → (visit fl round cfg s anchors).1 ≡ some w
      → IsFineWork s anchors w
  unfolding visit
  visit-IsFineWork s [] w e = absurd (cc)
  visit-IsFineWork s (a ∷ more) w e = elim (Bool-cases (is_degenerate fl round cfg a)) [
    | inl d ↦
        let h = visit-IsFineWork s more w (rw (d, visit) at e) in
        record { chosen = there h.chosen; wide = h.wide; is_open = h.is_open }
    | inr d ↦ elim (Option-cases (next_in_grid fl round cfg (convert fl a s) a)) [
      | inl n ↦
          closed_before s a more w
            (visit-IsFineWork (convert fl a s) more w (rw (d, visit, n) at e))
      | inr (k, f) ↦
          subst (IsFineWork s (a ∷ more)) (some_eq (rw (d, visit, f) at e))
            (record { chosen = here; wide = d; is_open = found_in_grid s a k f })
    ]
  ]

  -- The cell that find_next_fine_to_measure returns has no measurement on the surface, and lies on
  -- the fine grid, of more than one cell, of the anchor that is returned with it, which is one of
  -- top_fine_anchors.
  pub find_next_fine-IsFineWork :
      (s : Surface fl) (w : Key × Key)
      → (find_next_fine_to_measure fl round cfg s).1 ≡ some w
      → IsFineWork s (top_fine_anchors fl cfg.ctx (max 1 cfg.fine_top_k) s) w
  unfolding find_next_fine_to_measure
  find_next_fine-IsFineWork s w e =
      elim (Bool-cases
        (ltb cfg.fine_count 2 || ltb (length cfg.v_grid) 2 || ltb (length cfg.f_grid) 2)) [
          | inl off ↦ absurd (cc (rw off at e))
          | inr on ↦
              visit-IsFineWork s (top_fine_anchors fl cfg.ctx (max 1 cfg.fine_top_k) s) w
                (rw on at e)
        ]
