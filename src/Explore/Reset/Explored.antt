-- ===== src/Explore/Reset/Explored.antt =====
-- A reset of the fine grids after the exploration gives back the coarse measurements, old and new.
use mathlib.Core.List.{append-nil}
use antminer_chip_tuner.Prelude.Membership.{In}
use antminer_chip_tuner.Floats.{Floats}
use antminer_chip_tuner.Prelude.{
  ◌≡◌, refl, true, false, Option, none, some, [], ◌∷◌, ◌++◌, ap, ◌∙◌, sym, ℕ, zero, suc, max, subst,
  Bool-cases, inl, inr, All-append, some_eq,
}
use antminer_chip_tuner.Prelude.Int.{ℤ}
use antminer_chip_tuner.Profit.{Reading, ScoreContext}
use antminer_chip_tuner.Explore.Surface.{Key, Surface, top_fine_anchors}
use antminer_chip_tuner.Explore.Coarse.{find_next_coarse_to_measure}
use antminer_chip_tuner.Explore.Fine.Search.{find_next_fine_to_measure}
use antminer_chip_tuner.Explore.Fine.Search.Found.{find_next_fine-IsFineWork}
use antminer_chip_tuner.Explore.Fine.Convert.{keys_of-find_next_fine}
use antminer_chip_tuner.Explore.Fine.Anchors.{find_next_fine-Inside, top_fine_anchors-All, All-In}
use antminer_chip_tuner.Explore.Run.{
  ExploreConfig, with_ctx, coarse_cell, fine_cell, fine_step, step_from, explore_step, explore,
}
use antminer_chip_tuner.Explore.Reset.{coarse_part, GridFields, reset_fine_grid_fields}
use antminer_chip_tuner.Explore.Reset.Undo.{IsBare, coarse_part-append, find_next_fine-Undone}
use antminer_chip_tuner.Explore.Reset.Grown.{
  IsGrown, Measured, Added, Measured-differs, grow, In-keys-append, measured_last, Added-refl,
  Added-trans,
}

module _ (fl : Floats) where
  module _ (round : fl.Num → ℤ) (cfg : ExploreConfig fl) (ctx : ℕ → ScoreContext fl)
      (measure : ℕ → Key → Reading fl) where
    -- The cell that an iteration appends when the coarse search returns a key.
    abbrev pub coarse_measured : ℕ → Option Key → Surface fl
    coarse_measured n none = []
    coarse_measured n (some k) = coarse_cell fl k (measure n k) ∷ []

    -- The coarse cells that the iterations of a run append, in their order, as they were measured.
    unfoldable pub coarse_log : ℕ → Surface fl → Surface fl
    coarse_log zero s = []
    coarse_log (suc n) s =
        let next = explore_step fl round cfg ctx measure n s in
        let found =
          coarse_measured n (find_next_coarse_to_measure fl (with_ctx fl cfg (ctx n)).coarse s) in
        elim next.1 [ true ↦ found ++ coarse_log n next.0 | false ↦ found ]

    abbrev Step : Surface fl → Surface fl → Surface fl → Type 0
    Step cs s t = IsGrown fl t × Added fl cs s t

    coarse-Step :
        (s : Surface fl) (k : Key) (r : Reading fl)
        → IsGrown fl s
        → Step (coarse_cell fl k r ∷ []) s (s ++ coarse_cell fl k r ∷ [])
    unfolding coarse_part
    coarse-Step s k r g =
        let e = coarse_cell fl k r in
        (
          record {
            bare = All-append (IsBare fl) s (e ∷ []) g.bare (λ q. refl, tt);
            anchored =
                grow fl s (Measured fl s) e (λ j m. m) g.anchored
                  (record {
                    coarse_in = λ q. measured_last fl s e;
                    anchor_in = λ j q. absurd (cc);
                  });
          },
          coarse_part-append fl s (e ∷ []),
        )

    fine_append :
        (n : ℕ) (s : Surface fl) (w : Key × Key)
        → IsGrown fl s
        → (find_next_fine_to_measure fl round (with_ctx fl cfg (ctx n)).fine s).1 ≡ some w
        → Step [] s (
            (find_next_fine_to_measure fl round (with_ctx fl cfg (ctx n)).fine s).0
            ++ fine_cell fl w (measure n w.0) ∷ [])
    unfolding coarse_part
    fine_append n s w g e =
        let fine = (with_ctx fl cfg (ctx n)).fine in
        let t = (find_next_fine_to_measure fl round fine s).0 in
        let x = fine_cell fl w (measure n w.0) in
        let work = find_next_fine-IsFineWork fl round fine s w e in
        let u = find_next_fine-Undone fl round fine s g.bare in
        let keys = keys_of-find_next_fine fl round fine s in
        let a_in =
          All-In (Measured fl s) (top_fine_anchors fl fine.ctx (max 1 fine.fine_top_k) s)
            (top_fine_anchors-All fl (Measured fl s) fine.ctx (max 1 fine.fine_top_k) s g.anchored)
            work.chosen in
        let dropped : coarse_part fl (x ∷ []) ≡ [] =
          rw (Measured-differs fl s w.0 w.1 a_in work.is_open.open_at) refl in
        (
          record {
            bare = All-append (IsBare fl) t (x ∷ []) u.0 (λ q. absurd (cc), tt);
            anchored =
                grow fl t (Measured fl s) x (λ j m. subst (In j) (sym keys) m)
                  (find_next_fine-Inside fl (Measured fl s) round fine s g.anchored)
                  (record {
                    coarse_in = λ q. absurd (cc);
                    anchor_in = λ j q.
                        In-keys-append fl t x j
                          (subst (In j) (sym keys) (subst (Measured fl s) (some_eq q) a_in));
                  });
          },
          Added-refl fl s (t ++ x ∷ []) (
              coarse_part-append fl t (x ∷ [])
              ∙ ap (λ r. coarse_part fl t ++ r) dropped
              ∙ append-nil (coarse_part fl t)
              ∙ u.1),
        )

    fine_step_Step :
        (n : ℕ) (s : Surface fl) (r : Surface fl × Option (Key × Key))
        → IsGrown fl s
        → find_next_fine_to_measure fl round (with_ctx fl cfg (ctx n)).fine s ≡ r
        → Added fl [] s (fine_step fl round cfg ctx measure n r).0
          × ((fine_step fl round cfg ctx measure n r).1 ≡ true
              → IsGrown fl (fine_step fl round cfg ctx measure n r).0)
    fine_step_Step n s (t, none) g e = (
      Added-refl fl s t (
          subst (λ (u : Surface fl). coarse_part fl u ≡ coarse_part fl s)
            (ap (λ (p : Surface fl × Option (Key × Key)). p.0) e)
            (find_next_fine-Undone fl round (with_ctx fl cfg (ctx n)).fine s g.bare).1),
      λ q. absurd (cc),
    )
    fine_step_Step n s (t, some w) g e =
        let st =
          subst (λ (u : Surface fl). Step [] s (u ++ fine_cell fl w (measure n w.0) ∷ []))
            (ap (λ (p : Surface fl × Option (Key × Key)). p.0) e)
            (fine_append n s w g (ap (λ (p : Surface fl × Option (Key × Key)). p.1) e)) in
        (st.1, λ q. st.0)

    step_from_Step :
        (n : ℕ) (s : Surface fl) (o : Option Key)
        → IsGrown fl s
        → Added fl (coarse_measured n o) s (step_from fl round cfg ctx measure n s o).0
          × ((step_from fl round cfg ctx measure n s o).1 ≡ true
              → IsGrown fl (step_from fl round cfg ctx measure n s o).0)
    step_from_Step n s (some k) g = let st = coarse-Step s k (measure n k) g in (st.1, λ q. st.0)
    step_from_Step n s none g =
        fine_step_Step n s (find_next_fine_to_measure fl round (with_ctx fl cfg (ctx n)).fine s) g
          refl

    coarse_part-explore :
        (n : ℕ) (s t : Surface fl)
        → IsGrown fl s
        → explore fl round cfg ctx measure n s ≡ some t
        → Added fl (coarse_log n s) s t
    unfolding explore explore_step coarse_log
    coarse_part-explore zero s t g e = absurd (cc)
    coarse_part-explore (suc n) s t g e =
        let next = explore_step fl round cfg ctx measure n s in
        let o = find_next_coarse_to_measure fl (with_ctx fl cfg (ctx n)).coarse s in
        let st = step_from_Step n s o g in
        elim (Bool-cases next.1) [
          | inl h ↦
              rw (h, coarse_log)
                (Added-trans fl (coarse_measured n o) (coarse_log n next.0) s next.0 t st.0
                  (coarse_part-explore n next.0 t (st.1 h) (rw (h, explore) at e)))
          | inr h ↦
              rw (h, coarse_log)
                (subst (Added fl (coarse_measured n o) s) (some_eq (rw (h, explore) at e)) st.0)
        ]

    -- A reset of the fine grids after the exploration gives what it gives before it, followed by
    -- exactly the coarse cells that the exploration measured, in their order and as they were
    -- measured: every conversion is undone, every fine cell that was added is dropped, and no coarse
    -- measurement is lost. The surface at the start has no coarse entry that names an anchor, and no
    -- anchor that is unmeasured.
    pub reset_fine-explore :
        {Item : Type 0} (g : GridFields fl Item) (n : ℕ) (t : Surface fl)
        → IsGrown fl g.vf_surface
        → explore fl round cfg ctx measure n g.vf_surface ≡ some t
        → (reset_fine_grid_fields fl (record g { vf_surface = t })).vf_surface
          ≡ (reset_fine_grid_fields fl g).vf_surface ++ coarse_log n g.vf_surface
    unfolding reset_fine_grid_fields
    reset_fine-explore g n t h e = coarse_part-explore n g.vf_surface t h e
