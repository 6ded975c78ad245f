-- ===== src/Explore/Fine/Anchors.antt =====
-- Where the anchors of fine grids come from: coarse cells of the surface, and anchors that its fine
-- cells name.
use antminer_chip_tuner.Prelude.Membership.{In, here, there}
use antminer_chip_tuner.Floats.{Floats}
use antminer_chip_tuner.Prelude.{
  ◌≡◌, Bool, true, false, Option, none, some, List, [], ◌∷◌, ◌-◌, ℕ, max, ltb, ◌||◌, length,
  some_eq, subst, Option-cases, Bool-cases, inl, inr, All, All-append, All-take, not, map, take,
}
use antminer_chip_tuner.Prelude.Int.{ℤ}
use antminer_chip_tuner.Profit.{ScoreContext}
use antminer_chip_tuner.Explore.Surface.{
  Key, has_key, key_eq, Cell, Surface, by_key, keys_of, top_fine_anchors, in_flight_anchors,
  coarse_cells_ranked, scored, cons_scored, score, insert_by_score, sort_by_score, without_keys,
  anchor_of, cell_of,
}
use antminer_chip_tuner.Explore.Fine.{FineConfig}
use antminer_chip_tuner.Explore.Fine.Search.{
  mark, mark_if, convert, is_degenerate, next_in_grid, visit, find_next_fine_to_measure,
}

pub All-In {ℓ κ} : {A : Type ℓ} (P : A → Type κ) {x : A} (xs : List A) → All P xs → In x xs → P x
All-In P [] h i = elim i [ ]
All-In P (y ∷ xs) h here = h.0
All-In P (y ∷ xs) h (there i) = All-In P xs h.1 i

pub All-map-All {ℓ κ μ} :
    {A : Type ℓ} (P : A → Type κ) (R : A → Type μ) (xs : List A)
    → ((x : A) → P x → R x)
    → All P xs
    → All R xs
All-map-All P R [] f h = tt
All-map-All P R (x ∷ xs) f h = (f x h.0, All-map-All P R xs f h.1)

module _ (fl : Floats) (P : Key → Type 0) where
  -- What a cell can put among the anchors satisfies `P`: its key if it is coarse, else its anchor.
  pub record Inside (e : Cell fl) : Type 0 where
    pub coarse_in : e.fine ≡ false → P e.key
    pub anchor_in : (k : Key) → anchor_of fl e ≡ some k → P k

  in_flight_anchors-All :
      (seen : List Key) (s : Surface fl) → All Inside s → All P (in_flight_anchors fl seen s)
  unfolding in_flight_anchors
  in_flight_anchors-All seen [] h = tt
  in_flight_anchors-All seen (e ∷ es) h = elim (Option-cases (anchor_of fl e)) [
    | inl n ↦ rw (n, in_flight_anchors) (in_flight_anchors-All seen es h.1)
    | inr (k, p) ↦ elim (Bool-cases (has_key k seen)) [
      | inl b ↦ rw (p, in_flight_anchors, b) (in_flight_anchors-All seen es h.1)
      | inr b ↦
          rw (p, in_flight_anchors, b) (h.0.anchor_in k p, in_flight_anchors-All (k ∷ seen) es h.1)
    ]
  ]

  abbrev PairIn : fl.Num × Cell fl → Type 0
  PairIn p = P p.1.key

  cons_scored-All :
      (o : Option fl.Num) (e : Cell fl) (ps : List (fl.Num × Cell fl))
      → P e.key
      → All PairIn ps
      → All PairIn (cons_scored fl o e ps)
  cons_scored-All none e ps p h = h
  cons_scored-All (some x) e ps p h = (p, h)

  scored-All :
      (ctx : ScoreContext fl) (s : Surface fl)
      → All Inside s
      → All PairIn (scored fl (λ e. not e.fine) ctx s)
  unfolding scored
  scored-All ctx [] h = tt
  scored-All ctx (e ∷ es) h = elim (Bool-cases e.fine) [
    | inl b ↦ rw b (scored-All ctx es h.1)
    | inr b ↦ simp b (
        cons_scored-All (score fl ctx e) e (scored fl (λ x. not x.fine) ctx es) (h.0.coarse_in b)
          (scored-All ctx es h.1))
  ]

  insert_by_score-All :
      (p : fl.Num × Cell fl) (ps : List (fl.Num × Cell fl))
      → PairIn p
      → All PairIn ps
      → All PairIn (insert_by_score fl p ps)
  unfolding insert_by_score
  insert_by_score-All p [] h k = (h, tt)
  insert_by_score-All p (q ∷ qs) h k = elim (Bool-cases (fl.ltb q.0 p.0)) [
    | inl b ↦ rw b (k.0, insert_by_score-All p qs h k.1)
    | inr b ↦ rw b (h, k)
  ]

  sort_by_score-All :
      (ps : List (fl.Num × Cell fl)) → All PairIn ps → All PairIn (sort_by_score fl ps)
  unfolding sort_by_score
  sort_by_score-All [] h = tt
  sort_by_score-All (p ∷ ps) h =
      insert_by_score-All p (sort_by_score fl ps) h.0 (sort_by_score-All ps h.1)

  abbrev KeyIn : Cell fl → Type 0
  KeyIn e = P e.key

  cell_of-All : (ps : List (fl.Num × Cell fl)) → All PairIn ps → All KeyIn (map (cell_of fl) ps)
  cell_of-All [] h = tt
  cell_of-All (p ∷ ps) h = (h.0, cell_of-All ps h.1)

  coarse_cells_ranked-All :
      (ctx : ScoreContext fl) (s : Surface fl)
      → All Inside s
      → All KeyIn (coarse_cells_ranked fl ctx s)
  unfolding coarse_cells_ranked
  coarse_cells_ranked-All ctx s h =
      cell_of-All _ (sort_by_score-All (scored fl (λ e. not e.fine) ctx s) (scored-All ctx s h))

  without_keys-All :
      (ks : List Key) (s : List (Cell fl)) → All KeyIn s → All P (keys_of fl (without_keys fl ks s))
  unfolding without_keys
  without_keys-All ks [] h = tt
  without_keys-All ks (e ∷ es) h = elim (Bool-cases (has_key e.key ks)) [
    | inl b ↦ rw b (without_keys-All ks es h.1)
    | inr b ↦ rw b (h.0, without_keys-All ks es h.1)
  ]

  pub top_fine_anchors-All :
      (ctx : ScoreContext fl) (k : ℕ) (s : Surface fl)
      → All Inside s
      → All P (top_fine_anchors fl ctx k s)
  unfolding top_fine_anchors
  top_fine_anchors-All ctx k s h =
      let seen = in_flight_anchors fl [] s in
      let others = keys_of fl (without_keys fl seen (coarse_cells_ranked fl ctx s)) in
      All-append P (take k seen) (take (k - length seen) others)
        (All-take P k seen (in_flight_anchors-All [] s h))
        (All-take P (k - length seen) others
          (without_keys-All seen (coarse_cells_ranked fl ctx s) (coarse_cells_ranked-All ctx s h)))

  mark-Inside : (k : Key) (e : Cell fl) → P k → Inside e → Inside (mark fl k e)
  mark-Inside k e p h = elim (Bool-cases e.fine) [
    | inl b ↦ simp b h
    | inr b ↦
        simp b (record { coarse_in = λ q. absurd (cc); anchor_in = λ j q. subst P (some_eq q) p })
  ]

  mark_if-Inside : (b : Bool) (k : Key) (e : Cell fl) → P k → Inside e → Inside (mark_if fl b k e)
  mark_if-Inside true k e p h = mark-Inside k e p h
  mark_if-Inside false k e p h = h

  pub convert-Inside : (k : Key) (s : Surface fl) → P k → All Inside s → All Inside (convert fl k s)
  unfolding convert
  convert-Inside k [] p h = tt
  convert-Inside k (e ∷ es) p h = elim (Option-cases (by_key fl es k)) [
    | inl n ↦ rw (n, convert) (mark_if-Inside (key_eq k e.key) k e p h.0, h.1)
    | inr (x, f) ↦ rw (f, convert) (h.0, convert-Inside k es p h.1)
  ]

  module _ (round : fl.Num → ℤ) (cfg : FineConfig fl) where
    visit-Inside :
        (s : Surface fl) (anchors : List Key)
        → All P anchors
        → All Inside s
        → All Inside (visit fl round cfg s anchors).0
    unfolding visit
    visit-Inside s [] p h = h
    visit-Inside s (a ∷ more) p h = elim (Bool-cases (is_degenerate fl round cfg a)) [
      | inl d ↦ rw (d, visit) (visit-Inside s more p.1 h)
      | inr d ↦ elim (Option-cases (next_in_grid fl round cfg (convert fl a s) a)) [
        | inl n ↦
            rw (d, visit, n) (visit-Inside (convert fl a s) more p.1 (convert-Inside a s p.0 h))
        | inr (k, e) ↦ rw (d, visit, e) (convert-Inside a s p.0 h)
      ]
    ]

    pub find_next_fine-Inside :
        (s : Surface fl) → All Inside s → All Inside (find_next_fine_to_measure fl round cfg s).0
    unfolding find_next_fine_to_measure
    find_next_fine-Inside s h =
        elim (Bool-cases
          (ltb cfg.fine_count 2 || ltb (length cfg.v_grid) 2 || ltb (length cfg.f_grid) 2)) [
            | inl e ↦ rw e h
            | inr e ↦ rw e (
                visit-Inside s (top_fine_anchors fl cfg.ctx (max 1 cfg.fine_top_k) s)
                  (top_fine_anchors-All cfg.ctx (max 1 cfg.fine_top_k) s h) h)
          ]
