-- ===== src/Explore/Axes/Ascending.antt =====
-- The axes of the grid: strictly ascending, and neither empty nor longer than the settings say.
use antminer_chip_tuner.Floats.{Floats}
use antminer_chip_tuner.Prelude.{
  ℕ, zero, suc, ◌≤◌, ◌<◌, max, ◌≡◌, refl, List, [], ◌∷◌, arith, map, true, Bool-cases, inl, inr,
  length, All, ap, ◌∙◌,
}
use antminer_chip_tuner.Prelude.Int.{ℤ, ltb_ℤ}
use antminer_chip_tuner.Explore.Axes.{
  insert_asc, sort_asc, AxesConfig, descend, build_vf_grid_voltages, build_vf_grid_freqs,
  vf_grid_axes,
}

-- Every element is below those after it.
abbrev pub IsAscending : List ℤ → Type 0
IsAscending [] = Unit
IsAscending (x ∷ xs) = All (λ y. ltb_ℤ x y ≡ true) xs × IsAscending xs

-- A number is below every element.
abbrev IsBelow : ℤ → List ℤ → Type 0
IsBelow b = All (λ y. ltb_ℤ b y ≡ true)

ltb_ℤ-trans : (x y z : ℤ) → ltb_ℤ x y ≡ true → ltb_ℤ y z ≡ true → ltb_ℤ x z ≡ true
ltb_ℤ-trans x y z h k = ground arith

insert_asc-IsBelow :
    (b x : ℤ) (ys : List ℤ) → ltb_ℤ b x ≡ true → IsBelow b ys → IsBelow b (insert_asc x ys)
unfolding insert_asc
insert_asc-IsBelow b x [] h a = (h, tt)
insert_asc-IsBelow b x (y ∷ ys) h a = elim (Bool-cases (ltb_ℤ y x)) [
  | inl e ↦ rw e (a.0, insert_asc-IsBelow b x ys h a.1)
  | inr e ↦ elim (Bool-cases (ltb_ℤ x y)) [ inl l ↦ rw (e, l) (h, a) | inr l ↦ rw (e, l) a ]
]

IsBelow-trans : (x y : ℤ) (ys : List ℤ) → ltb_ℤ x y ≡ true → IsBelow y ys → IsBelow x ys
IsBelow-trans x y [] h a = tt
IsBelow-trans x y (z ∷ ys) h a = (ltb_ℤ-trans x y z h a.0, IsBelow-trans x y ys h a.1)

insert_asc-IsAscending : (x : ℤ) (ys : List ℤ) → IsAscending ys → IsAscending (insert_asc x ys)
unfolding insert_asc
insert_asc-IsAscending x [] h = (tt, tt)
insert_asc-IsAscending x (y ∷ ys) h = elim (Bool-cases (ltb_ℤ y x)) [
  | inl e ↦ rw e (insert_asc-IsBelow y x ys e h.0, insert_asc-IsAscending x ys h.1)
  | inr e ↦ elim (Bool-cases (ltb_ℤ x y)) [
    | inl l ↦ rw (e, l) ((l, IsBelow-trans x y ys l h.0), h)
    | inr l ↦ rw (e, l) h
  ]
]

pub sort_asc-IsAscending : (xs : List ℤ) → IsAscending (sort_asc xs)
unfolding sort_asc
sort_asc-IsAscending [] = tt
sort_asc-IsAscending (x ∷ xs) = insert_asc-IsAscending x (sort_asc xs) (sort_asc-IsAscending xs)

length-insert_asc :
    (x : ℤ) (ys : List ℤ)
    → (0 < length (insert_asc x ys))
      × (length (insert_asc x ys) ≤ suc (length ys))
      × (length ys ≤ length (insert_asc x ys))
unfolding insert_asc
length-insert_asc x [] = omega arith
length-insert_asc x (y ∷ ys) = ground (arith, length-insert_asc x ys)

length-sort_asc : (xs : List ℤ) → length (sort_asc xs) ≤ length xs
unfolding sort_asc
length-sort_asc [] = omega arith
length-sort_asc (x ∷ xs) = omega (arith, length-insert_asc x (sort_asc xs), length-sort_asc xs)

length-sort_asc-pos : (xs : List ℤ) → 0 < length xs → 0 < length (sort_asc xs)
unfolding sort_asc
length-sort_asc-pos [] h = h
length-sort_asc-pos (x ∷ xs) h = (length-insert_asc x (sort_asc xs)).0

length-map {ℓ} : {A : Type ℓ} (f : A → ℤ) (xs : List A) → length (map f xs) ≡ length xs
length-map f [] = refl
length-map f (x ∷ xs) = ap suc (length-map f xs)

module _ (fl : Floats) where
  length-descend : (top step : fl.Num) (i n : ℕ) → length (descend fl top step i n) ≡ n
  unfolding descend
  length-descend top step i zero = refl
  length-descend top step i (suc n) = ap suc (length-descend top step (suc i) n)

  module _ (round : fl.Num → ℤ) (cfg : AxesConfig fl) where
    length-build_vf_grid_voltages : length (build_vf_grid_voltages fl round cfg) ≡ max 2 cfg.v_count
    unfolding build_vf_grid_voltages
    length-build_vf_grid_voltages =
        length-map _ (descend fl _ _ 0 (max 2 cfg.v_count))
        ∙ length-descend _ _ 0 (max 2 cfg.v_count)

    length-build_vf_grid_freqs : length (build_vf_grid_freqs fl round cfg) ≡ max 2 cfg.f_count
    unfolding build_vf_grid_freqs
    length-build_vf_grid_freqs =
        length-map _ (descend fl _ _ 0 (max 2 cfg.f_count))
        ∙ length-descend _ _ 0 (max 2 cfg.f_count)

    -- Whatever the stock baseline, the limits and the rounding, each axis of the grid is strictly
    -- ascending, so that no cell of the grid is there twice, and has at least one entry and at most
    -- as many as the setting says, or two.
    pub vf_grid_axes-IsAscending :
        IsAscending (vf_grid_axes fl round cfg).0
        × IsAscending (vf_grid_axes fl round cfg).1
        × (0 < length (vf_grid_axes fl round cfg).0)
        × (length (vf_grid_axes fl round cfg).0 ≤ max 2 cfg.v_count)
        × (0 < length (vf_grid_axes fl round cfg).1)
        × (length (vf_grid_axes fl round cfg).1 ≤ max 2 cfg.f_count)
    unfolding vf_grid_axes
    vf_grid_axes-IsAscending =
        let vs = build_vf_grid_voltages fl round cfg in
        let fs = build_vf_grid_freqs fl round cfg in
        (
          sort_asc-IsAscending vs,
          sort_asc-IsAscending fs,
          length-sort_asc-pos vs (omega (arith, length-build_vf_grid_voltages)),
          omega (arith, length-sort_asc vs, length-build_vf_grid_voltages),
          length-sort_asc-pos fs (omega (arith, length-build_vf_grid_freqs)),
          omega (arith, length-sort_asc fs, length-build_vf_grid_freqs),
        )
