-- ===== src/Explore/Rays/Found.antt =====
-- What a walk along a ray finds.
use antminer_chip_tuner.Floats.{Floats}
use antminer_chip_tuner.Prelude.{
  ℕ, zero, suc, ◌+◌, ◌<◌, ◌≡◌, ◌≢◌, ◌⊎◌, inl, inr, refl, Option, none, some, arith, length,
  get_elem?, get_elem?-lt, some_eq, Option-cases,
}
use antminer_chip_tuner.Explore.Surface.{Key, score}
use antminer_chip_tuner.Explore.Rays.{
  Dir, shift, Walk, grid_key, Look, stop, unmeasured, go_on, weigh, look_at, look_on_grid, look,
  walk, next_unmeasured_in_direction,
}

module _ (fl : Floats) where
  pub Look-cases :
      (x : Look fl)
      → (x ≡ stop)
        ⊎ (((k : Key) × (x ≡ unmeasured k))
            ⊎ ((i : ℕ) × (j : ℕ) × (worse : ℕ) × (x ≡ go_on i j worse)))
  Look-cases stop = inl refl
  Look-cases (unmeasured k) = inr (inl (k, refl))
  Look-cases (go_on i j worse) = inr (inr (i, j, worse, refl))

  -- `k` is the key at the indices `i` and `j` of the grid.
  pub record IsAt (w : Walk fl) (i j : ℕ) (k : Key) : Type 0 where
    pub v_at : get_elem? w.v_grid i ≡ some k.0
    pub f_at : get_elem? w.f_grid j ≡ some k.1

  grid_key_inversion :
      (w : Walk fl) (a b : Option ℕ) (i j : ℕ) (k : Key)
      → grid_key fl w a b ≡ some (i, j, k)
      → (a ≡ some i) × (b ≡ some j) × IsAt w i j k
  unfolding grid_key
  grid_key_inversion w a b i j k e = ground arith

  weigh_not_unmeasured :
      (w : Walk fl) (i j worse : ℕ) (o : Option fl.Num) (k : Key)
      → weigh fl w i j worse o ≢ unmeasured k
  unfolding weigh
  weigh_not_unmeasured w i j worse o k e = ground arith

  weigh_go_on :
      (w : Walk fl) (i j worse i' j' worse' : ℕ) (o : Option fl.Num)
      → weigh fl w i j worse o ≡ go_on i' j' worse'
      → (i' ≡ i) × (j' ≡ j)
  unfolding weigh
  weigh_go_on w i j worse i' j' worse' o e = ground arith

  look_on_grid_unmeasured :
      (w : Walk fl) (worse : ℕ) (o : Option (ℕ × ℕ × Key)) (k : Key)
      → look_on_grid fl w worse o ≡ unmeasured k
      → (i : ℕ) × (j : ℕ) × (o ≡ some (i, j, k)) × (w.measured k ≡ none)
  unfolding look_on_grid look_at
  look_on_grid_unmeasured w worse none k e = absurd (cc)
  look_on_grid_unmeasured w worse (some (i, j, k')) k e = elim (Option-cases (w.measured k')) [
    | inl n ↦ let p : k' ≡ k = ground (arith, n) in (i, j, rw p, rw (← p) n)
    | inr (c, s) ↦ absurd (weigh_not_unmeasured w i j worse (score fl w.ctx c) k (rw s at e))
  ]

  look_on_grid_go_on :
      (w : Walk fl) (worse i' j' worse' : ℕ) (o : Option (ℕ × ℕ × Key))
      → look_on_grid fl w worse o ≡ go_on i' j' worse'
      → (k : Key) × (o ≡ some (i', j', k)) × (w.measured k ≢ none)
  unfolding look_on_grid look_at
  look_on_grid_go_on w worse i' j' worse' none e = absurd (cc)
  look_on_grid_go_on w worse i' j' worse' (some (i, j, k)) e = elim (Option-cases (w.measured k)) [
    | inl n ↦ absurd (ground (arith, n))
    | inr (c, s) ↦
        let (p, q) = weigh_go_on w i j worse i' j' worse' (score fl w.ctx c) (rw s at e) in
        (k, rw (p, q), λ n. ground (arith, n, s))
  ]

  module _ (w : Walk fl) (dv df : Dir) where
    pub look_unmeasured :
        (i j worse : ℕ) (k : Key)
        → look fl w dv df i j worse ≡ unmeasured k
        → (i' : ℕ) × (j' : ℕ) × IsAt w i' j' k × (w.measured k ≡ none)
    unfolding look
    look_unmeasured i j worse k e =
        let (i', j', p, n) =
          look_on_grid_unmeasured w worse (grid_key fl w (shift dv i) (shift df j)) k e in
        let (a, b, at) = grid_key_inversion w (shift dv i) (shift df j) i' j' k p in (i', j', at, n)

    pub look_inversion :
        (i j worse i' j' worse' : ℕ)
        → look fl w dv df i j worse ≡ go_on i' j' worse'
        → (shift dv i ≡ some i')
          × (shift df j ≡ some j')
          × (i' < length w.v_grid)
          × (j' < length w.f_grid)
    unfolding look
    look_inversion i j worse i' j' worse' e =
        let (k, p, n) =
          look_on_grid_go_on w worse i' j' worse' (grid_key fl w (shift dv i) (shift df j)) e in
        let (a, b, at) = grid_key_inversion w (shift dv i) (shift df j) i' j' k p in
        (a, b, get_elem?-lt w.v_grid i' at.v_at, get_elem?-lt w.f_grid j' at.f_at)

    walk_found :
        (fuel i j worse : ℕ) (k : Key)
        → walk fl w dv df fuel i j worse ≡ some k
        → (i' : ℕ) × (j' : ℕ) × IsAt w i' j' k × (w.measured k ≡ none)
    unfolding walk
    walk_found zero i j worse k e = absurd (cc)
    walk_found (suc fuel) i j worse k e = elim (Look-cases (look fl w dv df i j worse)) [
      | inl s ↦ absurd (ground (arith, s, e))
      | inr (inl (k', s)) ↦
          let p : k' ≡ k = some_eq (rw (s, walk) at e) in look_unmeasured i j worse k (rw p at s)
      | inr (inr (i', j', worse', s)) ↦ walk_found fuel i' j' worse' k (rw (s, walk) at e)
    ]

    -- A cell that a ray returns lies on the grid and has not been measured.
    pub next_unmeasured_found :
        (i j : ℕ) (k : Key)
        → next_unmeasured_in_direction fl w dv df i j ≡ some k
        → (i' : ℕ) × (j' : ℕ) × IsAt w i' j' k × (w.measured k ≡ none)
    unfolding next_unmeasured_in_direction
    next_unmeasured_found i j k e = walk_found (length w.v_grid + length w.f_grid + 2) i j 0 k e
