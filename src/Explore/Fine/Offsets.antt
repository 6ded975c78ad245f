-- ===== src/Explore/Fine/Offsets.antt =====
-- The anchor keeps its place on its own fine grid.
use antminer_chip_tuner.Prelude.Membership.{In, here, there}
use antminer_chip_tuner.Floats.{Floats}
use antminer_chip_tuner.Prelude.{
  ◌≡◌, List, [], ◌∷◌, arith, map, ap, ◌∙◌, sym, ℕ, zero, suc, ◌+◌, ◌-◌, ◌≤◌, ◌<◌, ◌*◌, leb, ◌&&◌,
  subst, ==_iff, ◌==◌, ltb, Bool-cases, inl, inr,
}
use antminer_chip_tuner.Prelude.Int.{ℤ, pos, negsuc, pos_part, sub_ℕ}
use antminer_chip_tuner.Explore.Fine.{
  FineConfig, insert_desc, sort_desc, clamp_count, of_ℤ, positions, count_below, spread,
  fine_axis_offsets, v_fine, f_fine, mhz, snap_f, snap_v, fmin, spacing_of, frac_below,
}

In-map {ℓ κ} :
    {A : Type ℓ} {B : Type κ} (f : A → B) {x : A} (xs : List A) → In x xs → In (f x) (map f xs)
In-map f [] h = elim h [ ]
In-map f (x ∷ xs) here = here
In-map f (x ∷ xs) (there h) = there (In-map f xs h)

-- A list that holds the tail's elements, after the same head.
In-cons_map {ℓ} :
    {A : Type ℓ} {z y : A} {ys : List A} (zs : List A)
    → (In z ys → In z zs)
    → In z (y ∷ ys)
    → In z (y ∷ zs)
In-cons_map zs f here = here
In-cons_map zs f (there h) = there (f h)

In-insert_desc_self : (x : ℕ) (ys : List ℕ) → In x (insert_desc x ys)
unfolding insert_desc
In-insert_desc_self x [] = here
In-insert_desc_self x (y ∷ ys) = elim (Bool-cases (x == y)) [
  | inl e ↦ rw e (subst (λ (z : ℕ). In z (y ∷ ys)) (sym ((==_iff x y).0 e)) here)
  | inr e ↦ elim (Bool-cases (ltb y x)) [
    | inl l ↦ rw (e, l) here
    | inr l ↦ rw (e, l) (there (In-insert_desc_self x ys))
  ]
]

In-insert_desc : (x z : ℕ) (ys : List ℕ) → In z ys → In z (insert_desc x ys)
unfolding insert_desc
In-insert_desc x z [] h = elim h [ ]
In-insert_desc x z (y ∷ ys) h = elim (Bool-cases (x == y)) [
  | inl e ↦ rw e h
  | inr e ↦ elim (Bool-cases (ltb y x)) [
    | inl l ↦ rw (e, l) (there h)
    | inr l ↦ rw (e, l) (In-cons_map (insert_desc x ys) (In-insert_desc x z ys) h)
  ]
]

In-sort_desc : (x : ℕ) (xs : List ℕ) → In x xs → In x (sort_desc xs)
unfolding sort_desc
In-sort_desc x [] h = elim h [ ]
In-sort_desc x (y ∷ ys) here = In-insert_desc_self x (sort_desc ys)
In-sort_desc x (y ∷ ys) (there h) = In-insert_desc y x (sort_desc ys) (In-sort_desc x ys h)

-- A position that is rounded to `k` puts `k` on the axis.
In-snapped {ℓ} :
    {A : Type ℓ} (f : A → ℕ) {x : A} (k : ℕ) (xs : List A)
    → In x xs
    → f x ≡ k
    → In k (sort_desc (map f xs))
In-snapped f k xs h e =
    In-sort_desc k (map f xs) (subst (λ (z : ℕ). In z (map f xs)) e (In-map f xs h))

clamp_count_bound : (n : ℕ) (r : ℤ) → clamp_count n r ≤ n
clamp_count_bound n (pos r) = omega arith
clamp_count_bound n (negsuc r) = omega arith

sub_ℕ_eq : {m n : ℕ} → m ≡ n → sub_ℕ m n ≡ pos 0
sub_ℕ_eq e = ground arith

module _ (fl : Floats) where
  -- x + 0 * s is x: of floats, for a finite s and an x other than -0.
  abbrev pub AddsNought : Type 0
  AddsNought = (x s : fl.Num) → fl.add x (fl.mul (fl.of_ℕ 0) s) ≡ x

  In-positions :
      (z : AddsNought) (anchor s : fl.Num) (b i n : ℕ)
      → i ≤ b
      → b < i + n
      → In anchor (positions fl anchor s b i n)
  unfolding positions
  In-positions z anchor s b i zero h k = absurd (omega arith)
  In-positions z anchor s b i (suc n) h k = elim (Bool-cases (i == b)) [
    | inl e ↦
        let p : i ≡ b = (==_iff i b).0 e in
        subst (λ (x : fl.Num). In anchor (x ∷ positions fl anchor s b (suc i) n))
          (sym (ap (λ j. fl.add anchor (fl.mul (of_ℤ fl j) s)) (sub_ℕ_eq p) ∙ z anchor s)) here
    | inr e ↦ there (In-positions z anchor s b (suc i) n (ground arith) (omega arith))
  ]

  module _ (round : fl.Num → ℤ) (z : AddsNought) where
    In-spread :
        (anchor below above : fl.Num) (n : ℕ)
        → 1 < n
        → In anchor (spread fl round anchor below above n)
    unfolding spread count_below
    In-spread anchor below above n h =
        let b = count_below fl round below above (n - 1) in
        In-positions z anchor (spacing_of fl below above b (n - 1 - b)) b 0 n (omega arith) (
          omega (
            arith,
            clamp_count_bound (n - 1)
                (round (fl.mul (fl.of_ℕ (n - 1)) (frac_below fl round below above))),
          ))

    -- On an axis of n cells the anchor itself is always one of the positions, whatever the step, the
    -- bounds and the rounding, if adding 0 times a number changes nothing.
    pub In-fine_axis_offsets :
        (anchor step lo hi : fl.Num) (n : ℕ)
        → In anchor (fine_axis_offsets fl round anchor step lo hi n)
    unfolding fine_axis_offsets
    In-fine_axis_offsets anchor step lo hi n =
        let max_off = fl.mul (fl.div (fl.of_ℕ (n - 1)) (fl.of_ℕ (2 * n))) step in
        let below = fmin fl max_off (fl.sub anchor lo) in
        let above = fmin fl max_off (fl.sub hi anchor) in
        elim (Bool-cases (leb n 1)) [
          | inl e ↦ rw e here
          | inr e ↦ elim (Bool-cases (fl.leb below (fl.of_ℕ 0) && fl.leb above (fl.of_ℕ 0))) [
            | inl g ↦ rw (e, g) here
            | inr g ↦ rw (e, g) (In-spread anchor below above n (ground arith))
          ]
        ]

    -- The anchor's own key lies on its fine grid, whatever the settings and bounds, if its frequency
    -- is a multiple of 3.125 MHz and rounding gives back whole numbers.
    pub In-fine_grid :
        (cfg : FineConfig fl) (v m : ℕ)
        → round (fl.of_ℕ v) ≡ pos v
        → round (fl.div (mhz fl (m * 3125)) (mhz fl 3125)) ≡ pos m
        → In v (v_fine fl round cfg (v, m * 3125))
          × In (m * 3125) (f_fine fl round cfg (v, m * 3125))
    unfolding v_fine f_fine
    In-fine_grid cfg v m hv hf = (
      In-snapped (snap_v fl round) v (fine_axis_offsets fl round (fl.of_ℕ v) _ _ _ cfg.fine_count)
          (In-fine_axis_offsets (fl.of_ℕ v) _ _ _ cfg.fine_count) (ap pos_part hv),
      In-snapped (snap_f fl round) (m * 3125)
          (fine_axis_offsets fl round (mhz fl (m * 3125)) _ _ _ cfg.fine_count)
          (In-fine_axis_offsets (mhz fl (m * 3125)) _ _ _ cfg.fine_count)
          (ap (λ j. pos_part j * 3125) hf),
    )
