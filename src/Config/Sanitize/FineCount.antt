-- ===== src/Config/Sanitize/FineCount.antt =====
-- VF_EXPLORE_FINE_COUNT after the sanitizer.
use antminer_chip_tuner.Prelude.{
  ℕ, ◌≤◌, String, ◌≡◌, refl, true, false, Option, some, List, [], ◌∷◌, arith, Bool-cases, inl, inr,
  All, ltb, is_some, Option-cases, ap, ◌∙◌, if◌then◌else◌,
}
use antminer_chip_tuner.Prelude.Membership.{In, here, there}
use antminer_chip_tuner.Prelude.Int.{ℤ, pos}
use antminer_chip_tuner.Prelude.Dict.{Dict, get, put, pop, get-put, get-pop}
use package.text.Mathlib.TextEquality.{eq_iff}
use antminer_chip_tuner.Config.{Value, number}
use antminer_chip_tuner.Config.Sanitize.{
  distance, closest, fine_counts, is_fine_count, nearest_count, fine_count_of, sanitized,
  rename_wait, apply_renames_and_sanitizers,
}

-- No element is nearer to `fc` than `r`.
abbrev pub IsNearest : ℕ → ℕ → List ℕ → Type 0
IsNearest r fc = All (λ v. distance r fc ≤ distance v fc)

chosen_le :
    (fc v w : ℕ)
    → (distance (if ltb (distance w fc) (distance v fc) then w else v) fc ≤ distance v fc)
      × (distance (if ltb (distance w fc) (distance v fc) then w else v) fc ≤ distance w fc)
chosen_le fc v w = ground arith

skip_second {ℓ} : {A : Type ℓ} {x v w : A} {ws : List A} → In x (v ∷ ws) → In x (v ∷ w ∷ ws)
skip_second here = here
skip_second (there h) = there (there h)

closest-IsNearest : (fc v : ℕ) (vs : List ℕ) → IsNearest (closest fc v vs) fc (v ∷ vs)
unfolding closest
closest-IsNearest fc v [] = (omega arith, tt)
closest-IsNearest fc v (w ∷ ws) =
    let u = if ltb (distance w fc) (distance v fc) then w else v in
    let h = closest-IsNearest fc u ws in
    (omega (arith, h.0, chosen_le fc v w), (omega (arith, h.0, chosen_le fc v w), h.1))

In-closest : (fc v : ℕ) (vs : List ℕ) → In (closest fc v vs) (v ∷ vs)
unfolding closest
In-closest fc v [] = here
In-closest fc v (w ∷ ws) = elim (Bool-cases (ltb (distance w fc) (distance v fc))) [
  | inl b ↦ rw b (there (In-closest fc w ws))
  | inr b ↦ rw b (skip_second (In-closest fc v ws))
]

In-count : (n : ℕ) → In n (3 ∷ fine_counts) → is_fine_count (pos n) ≡ true
unfolding is_fine_count
In-count n here = refl
In-count n (there here) = refl
In-count n (there (there here)) = refl
In-count n (there (there (there here))) = refl
In-count n (there (there (there (there here)))) = refl
In-count n (there (there (there (there (there h))))) = elim h [ ]

get-rename_wait :
    (d : Dict Value) → get "VF_EXPLORE_FINE_COUNT" (rename_wait d) ≡ get "VF_EXPLORE_FINE_COUNT" d
unfolding rename_wait
get-rename_wait d = elim (Option-cases (get "BASELINE_STABILIZE_WAIT" d)) [
  | inl n ↦ rw (n, rename_wait) refl
  | inr (v, e) ↦ elim (Bool-cases (is_some (get "STABILIZE_WAIT" d))) [
    | inl b ↦ rw (e, rename_wait, b) refl
    | inr b ↦
        rw (e, rename_wait, b)
          (get-put "STABILIZE_WAIT" "VF_EXPLORE_FINE_COUNT" v (pop "BASELINE_STABILIZE_WAIT" d)
            ∙ get-pop "BASELINE_STABILIZE_WAIT" "VF_EXPLORE_FINE_COUNT" d)
  ]
]

get-put_self : (k : String) (v : Value) (d : Dict Value) → get k (put k v d) ≡ some v
get-put_self k v d = ground (arith, get-put k k v d, eq_iff k k)

module _ (int_of_text : String → Option ℤ) where
  replaced :
      (v : Value) (n : ℕ)
      → is_fine_count (pos n) ≡ false
      → fine_count_of int_of_text v ≡ pos n
      → 2 ≤ n
      → sanitized int_of_text v ≡ number (pos (closest n 3 fine_counts))
  unfolding sanitized nearest_count
  replaced v n f e l = ground (arith, e, f)

  kept :
      (v : Value) (n : ℕ)
      → is_fine_count (pos n) ≡ true
      → fine_count_of int_of_text v ≡ pos n
      → sanitized int_of_text v ≡ v
  unfolding sanitized
  kept v n f e = ground (arith, e, f)

  near :
      (v : Value) (n : ℕ)
      → is_fine_count (pos n) ≡ false
      → fine_count_of int_of_text v ≡ pos n
      → 2 ≤ n
      → fine_count_of int_of_text (sanitized int_of_text v) ≡ pos (closest n 3 fine_counts)
  unfolding fine_count_of
  near v n f e l = ap (fine_count_of int_of_text) (replaced v n f e l)

  -- Already a count: no other is closer.
  own-IsNearest : (n : ℕ) (vs : List ℕ) → IsNearest n n vs
  own-IsNearest n [] = tt
  own-IsNearest n (v ∷ vs) = (omega arith, own-IsNearest n vs)

  -- What a value reads as after the sanitizer: a count to which none of a grid is preferable.
  pub record ReadsNearest (n : ℕ) (w : Value) : Type 0 where
    pub count : ℕ
    pub reads : fine_count_of int_of_text w ≡ pos count
    pub is_count : is_fine_count (pos count) ≡ true
    pub nearest : IsNearest count n (3 ∷ fine_counts)

  sanitized-ReadsNearest :
      (v : Value) (n : ℕ)
      → fine_count_of int_of_text v ≡ pos n
      → 2 ≤ n
      → ReadsNearest n (sanitized int_of_text v)
  sanitized-ReadsNearest v n e l = elim (Bool-cases (is_fine_count (pos n))) [
    | inl b ↦ record {
      count = n;
      reads = ap (fine_count_of int_of_text) (kept v n b e) ∙ e;
      is_count = b;
      nearest = own-IsNearest n (3 ∷ fine_counts);
    }
    | inr b ↦ record {
      count = closest n 3 fine_counts;
      reads = near v n b e l;
      is_count = In-count (closest n 3 fine_counts) (In-closest n 3 fine_counts);
      nearest = closest-IsNearest n 3 fine_counts;
    }
  ]

  -- If what is stored under VF_EXPLORE_FINE_COUNT of a bucket from the disk reads as a number that is
  -- at least 2, then after the sanitizers something is stored there that reads as 3, 5, 9, 25 or 49,
  -- and none of the five is closer to that number.
  pub apply_sanitizers-ReadsNearest :
      (d : Dict Value) (v : Value) (n : ℕ)
      → get "VF_EXPLORE_FINE_COUNT" d ≡ some v
      → fine_count_of int_of_text v ≡ pos n
      → 2 ≤ n
      → (w : Value) × (get "VF_EXPLORE_FINE_COUNT" (apply_renames_and_sanitizers int_of_text d)
          ≡ some w)
        × ReadsNearest n w
  unfolding apply_renames_and_sanitizers
  apply_sanitizers-ReadsNearest d v n h r l =
      let e = get-rename_wait d ∙ h in
      (
        sanitized int_of_text v,
        rw e (get-put_self "VF_EXPLORE_FINE_COUNT" (sanitized int_of_text v) (rename_wait d)),
        sanitized-ReadsNearest v n r l,
      )
