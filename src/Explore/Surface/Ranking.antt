-- ===== src/Explore/Surface/Ranking.antt =====
-- The ranking of cells by score: sorted, and of the same cells.
use mathlib.Core.List.{Perm}
use mathlib.Core.List.Perm
use antminer_chip_tuner.Prelude.Membership.{In, here, there}
use antminer_chip_tuner.Floats.{Floats, IsOrdered}
use antminer_chip_tuner.Prelude.{
  ◌≡◌, refl, true, false, List, [], ◌∷◌, All, map, not, Bool-cases, inl, inr, some, Option-cases,
  Bool,
}
use antminer_chip_tuner.Profit.{ScoreContext}
use antminer_chip_tuner.Explore.Surface.{
  Cell, Surface, score, scored, coarse_cells_ranked, insert_by_score, sort_by_score,
}

module _ (fl : Floats) where
  -- No later pair has a lower score.
  abbrev pub IsSorted : List (fl.Num × Cell fl) → Type 0
  IsSorted [] = Unit
  IsSorted (p ∷ ps) = All (λ q. fl.ltb q.0 p.0 ≡ false) ps × IsSorted ps

  insert_by_score-perm :
      (p : fl.Num × Cell fl) (ps : List (fl.Num × Cell fl))
      → Perm (insert_by_score fl p ps) (p ∷ ps)
  unfolding insert_by_score
  insert_by_score-perm p [] = Perm.refl (p ∷ [])
  insert_by_score-perm p (q ∷ qs) = elim (Bool-cases (fl.ltb q.0 p.0)) [
    | inl e ↦ rw e (Perm.trans (Perm.cons q (insert_by_score-perm p qs)) (Perm.swap p q qs))
    | inr e ↦ rw e (Perm.refl (p ∷ q ∷ qs))
  ]

  -- Sorting by score keeps every pair, as often.
  pub sort_by_score-perm : (ps : List (fl.Num × Cell fl)) → Perm (sort_by_score fl ps) ps
  unfolding sort_by_score
  sort_by_score-perm [] = Perm.refl []
  sort_by_score-perm (p ∷ ps) =
      Perm.trans (insert_by_score-perm p (sort_by_score fl ps))
        (Perm.cons p (sort_by_score-perm ps))

  module _ (ord : IsOrdered fl) where
    All-insert :
        (x : fl.Num) (p : fl.Num × Cell fl) (ps : List (fl.Num × Cell fl))
        → fl.ltb p.0 x ≡ false
        → All (λ q. fl.ltb q.0 x ≡ false) ps
        → All (λ q. fl.ltb q.0 x ≡ false) (insert_by_score fl p ps)
    unfolding insert_by_score
    All-insert x p [] h a = (h, tt)
    All-insert x p (q ∷ qs) h a = elim (Bool-cases (fl.ltb q.0 p.0)) [
      | inl e ↦ rw e (a.0, All-insert x p qs h a.1)
      | inr e ↦ rw e (h, a)
    ]

    -- What is not below `x` is not below anything that `x` is not above.
    All-weaken :
        (x y : fl.Num) (ps : List (fl.Num × Cell fl))
        → fl.ltb x y ≡ false
        → All (λ q. fl.ltb q.0 x ≡ false) ps
        → All (λ q. fl.ltb q.0 y ≡ false) ps
    All-weaken x y [] h a = tt
    All-weaken x y (q ∷ qs) h a = (ord.weak q.0 x y a.0 h, All-weaken x y qs h a.1)

    asym : (x y : fl.Num) → fl.ltb x y ≡ true → fl.ltb y x ≡ false
    asym x y h = elim (Bool-cases (fl.ltb y x)) [
      | inl k ↦ absurd (cc (ord.trans x y x h k, ord.irrefl x))
      | inr k ↦ k
    ]

    insert_by_score-IsSorted :
        (p : fl.Num × Cell fl) (ps : List (fl.Num × Cell fl))
        → IsSorted ps
        → IsSorted (insert_by_score fl p ps)
    unfolding insert_by_score
    insert_by_score-IsSorted p [] s = (tt, tt)
    insert_by_score-IsSorted p (q ∷ qs) s = elim (Bool-cases (fl.ltb q.0 p.0)) [
      | inl e ↦ rw e (All-insert q.0 p qs (asym q.0 p.0 e) s.0, insert_by_score-IsSorted p qs s.1)
      | inr e ↦ rw e ((e, All-weaken q.0 p.0 qs e s.0), s)
    ]

    sort_by_score-IsSorted : (ps : List (fl.Num × Cell fl)) → IsSorted (sort_by_score fl ps)
    unfolding sort_by_score
    sort_by_score-IsSorted [] = tt
    sort_by_score-IsSorted (p ∷ ps) =
        insert_by_score-IsSorted p (sort_by_score fl ps) (sort_by_score-IsSorted ps)

  -- A pair of a coarse cell and its score.
  abbrev pub IsCoarseScore : ScoreContext fl → fl.Num × Cell fl → Type 0
  IsCoarseScore ctx p = (p.1.fine ≡ false) × (score fl ctx p.1 ≡ some p.0)

  module _ (ctx : ScoreContext fl) where
    abbrev coarse : Cell fl → Bool
    coarse e = not e.fine

    scored-coarse : (surface : Surface fl) → All (IsCoarseScore ctx) (scored fl coarse ctx surface)
    unfolding scored
    scored-coarse [] = tt
    scored-coarse (e ∷ es) = elim (Bool-cases e.fine) [
      | inl f ↦ simp f (scored-coarse es)
      | inr f ↦ elim (Option-cases (score fl ctx e)) [
        | inl n ↦ simp (f, n) (scored-coarse es)
        | inr (s, h) ↦ simp (f, h) ((refl, refl), scored-coarse es)
      ]
    ]

    In-scored :
        (surface : Surface fl) (e : Cell fl) (s : fl.Num)
        → In e surface
        → e.fine ≡ false
        → score fl ctx e ≡ some s
        → In (s, e) (scored fl coarse ctx surface)
    unfolding scored
    In-scored [] x s m f h = elim m [ ]
    In-scored (e ∷ es) x s here f h = simp (f, h) here
    In-scored (e ∷ es) x s (there m) f h =
        let later = In-scored es x s m f h in
        elim (Bool-cases e.fine) [
          | inl g ↦ simp g later
          | inr g ↦ elim (Option-cases (score fl ctx e)) [
            | inl n ↦ simp (g, n) later
            | inr (t, k) ↦ simp (g, k) (there later)
          ]
        ]

  insert_by_score-All :
      (P : fl.Num × Cell fl → Type 0) (p : fl.Num × Cell fl) (ps : List (fl.Num × Cell fl))
      → P p
      → All P ps
      → All P (insert_by_score fl p ps)
  unfolding insert_by_score
  insert_by_score-All P p [] h a = (h, tt)
  insert_by_score-All P p (q ∷ qs) h a = elim (Bool-cases (fl.ltb q.0 p.0)) [
    | inl e ↦ rw e (a.0, insert_by_score-All P p qs h a.1)
    | inr e ↦ rw e (h, a)
  ]

  sort_by_score-All :
      (P : fl.Num × Cell fl → Type 0) (ps : List (fl.Num × Cell fl))
      → All P ps
      → All P (sort_by_score fl ps)
  unfolding sort_by_score
  sort_by_score-All P [] a = tt
  sort_by_score-All P (p ∷ ps) a =
      insert_by_score-All P p (sort_by_score fl ps) a.0 (sort_by_score-All P ps a.1)

  In-insert_by_score :
      (p x : fl.Num × Cell fl) (ps : List (fl.Num × Cell fl))
      → In x (p ∷ ps)
      → In x (insert_by_score fl p ps)
  unfolding insert_by_score
  In-insert_by_score p x [] m = m
  In-insert_by_score p x (q ∷ qs) here = elim (Bool-cases (fl.ltb q.0 p.0)) [
    | inl e ↦ rw e (there (In-insert_by_score p p qs here))
    | inr e ↦ rw e here
  ]
  In-insert_by_score p x (q ∷ qs) (there here) = elim (Bool-cases (fl.ltb q.0 p.0)) [
    | inl e ↦ rw e here
    | inr e ↦ rw e (there here)
  ]
  In-insert_by_score p x (q ∷ qs) (there (there m)) = elim (Bool-cases (fl.ltb q.0 p.0)) [
    | inl e ↦ rw e (there (In-insert_by_score p x qs (there m)))
    | inr e ↦ rw e (there (there m))
  ]

  In-sort_by_score :
      (x : fl.Num × Cell fl) (ps : List (fl.Num × Cell fl)) → In x ps → In x (sort_by_score fl ps)
  unfolding sort_by_score
  In-sort_by_score x [] m = elim m [ ]
  In-sort_by_score x (p ∷ ps) here = In-insert_by_score p p (sort_by_score fl ps) here
  In-sort_by_score x (p ∷ ps) (there m) =
      In-insert_by_score p x (sort_by_score fl ps) (there (In-sort_by_score x ps m))

  -- For each coarse cell of the surface that has a score, the coarse ranking is the cells of pairs
  -- in which no pair stands before one with a lower score, each pair is a coarse cell with its
  -- score, the given cell with its score is one of them, and they are those that `scored` finds,
  -- each as often.
  pub coarse_cells_ranked-IsSorted :
      (ctx : ScoreContext fl) (surface : Surface fl) (e : Cell fl) (s : fl.Num)
      → IsOrdered fl
      → In e surface
      → e.fine ≡ false
      → score fl ctx e ≡ some s
      → (ps : List (fl.Num × Cell fl)) × (coarse_cells_ranked fl ctx surface
          ≡ map (λ (p : fl.Num × Cell fl). p.1) ps)
        × IsSorted ps
        × All (IsCoarseScore ctx) ps
        × In (s, e) ps
        × Perm ps (scored fl (λ e. not e.fine) ctx surface)
  unfolding coarse_cells_ranked
  coarse_cells_ranked-IsSorted ctx surface e s ord m f h =
      let found = scored fl (λ e. not e.fine) ctx surface in
      (
        sort_by_score fl found,
        refl,
        sort_by_score-IsSorted ord found,
        sort_by_score-All (IsCoarseScore ctx) found (scored-coarse ctx surface),
        In-sort_by_score (s, e) found (In-scored ctx surface e s m f h),
        sort_by_score-perm found,
      )
