-- ===== src/Sweep/Lowest.antt =====
-- The result with the lowest score, which a re-ranking takes.
use antminer_chip_tuner.Floats.{Floats, IsOrdered}
use antminer_chip_tuner.Prelude.{
  ◌≡◌, refl, true, false, Option, none, some, List, [], ◌∷◌, Bool-cases, inl, inr, ap, sym, All,
  subst, Bool, if◌then◌else◌,
}
use antminer_chip_tuner.Prelude.Membership.{In, here, there}
use antminer_chip_tuner.Profit.{ScoreContext}
use antminer_chip_tuner.Sweep.{is_lower, score_of, SweepResult, lowest}

In-skip {ℓ} : {A : Type ℓ} {x r : A} {rs : List A} (y : A) → In x (r ∷ rs) → In x (r ∷ y ∷ rs)
In-skip y here = here
In-skip y (there m) = there (there m)

module _ (fl : Floats) (ctx : ScoreContext fl) where
  -- No result of the list has a lower score than `w`.
  abbrev pub NoneLower : SweepResult fl → List (SweepResult fl) → Type 0
  NoneLower w = All (λ x. is_lower fl (score_of fl ctx x) (score_of fl ctx w) ≡ false)

  is_lower_trans :
      (x y z : Option fl.Num)
      → IsOrdered fl
      → is_lower fl x y ≡ false
      → is_lower fl y z ≡ false
      → is_lower fl x z ≡ false
  is_lower_trans none y z ord h k = refl
  is_lower_trans (some x) none z ord h k = absurd (cc)
  is_lower_trans (some x) (some y) none ord h k = absurd (cc)
  is_lower_trans (some x) (some y) (some z) ord h k = ord.weak x y z h k

  is_lower_asym :
      (x y : Option fl.Num) → IsOrdered fl → is_lower fl x y ≡ true → is_lower fl y x ≡ false
  is_lower_asym none y ord h = absurd (cc)
  is_lower_asym (some x) none ord h = refl
  is_lower_asym (some x) (some y) ord h = elim (Bool-cases (fl.ltb y x)) [
    | inl k ↦ absurd (cc (ord.trans x y x h k, ord.irrefl x))
    | inr k ↦ k
  ]

  is_lower_irrefl : (x : Option fl.Num) → IsOrdered fl → is_lower fl x x ≡ false
  is_lower_irrefl none ord = refl
  is_lower_irrefl (some x) ord = ord.irrefl x

  NoneLower-weaken :
      (w y : SweepResult fl) (rs : List (SweepResult fl))
      → IsOrdered fl
      → is_lower fl (score_of fl ctx w) (score_of fl ctx y) ≡ false
      → NoneLower w rs
      → NoneLower y rs
  NoneLower-weaken w y [] ord h a = tt
  NoneLower-weaken w y (r ∷ rs) ord h a = (
    is_lower_trans (score_of fl ctx r) (score_of fl ctx w) (score_of fl ctx y) ord a.0 h,
    NoneLower-weaken w y rs ord h a.1,
  )

  lowest-cons :
      (b : Bool) (r x : SweepResult fl) (rs : List (SweepResult fl))
      → is_lower fl (score_of fl ctx x) (score_of fl ctx r) ≡ b
      → lowest fl ctx (if b then x else r) rs ≡ lowest fl ctx r (x ∷ rs)
  unfolding lowest
  lowest-cons b r x rs e = ap (λ c. lowest fl ctx (if c then x else r) rs) (sym e)

  abbrev IsLowest : List (SweepResult fl) → SweepResult fl → Type 0
  IsLowest rs w = In w rs × NoneLower w rs

  -- The lowest result is the one at hand or a later one, and none of them has a lower score.
  pub lowest-NoneLower :
      (r : SweepResult fl) (rs : List (SweepResult fl))
      → IsOrdered fl
      → IsLowest (r ∷ rs) (lowest fl ctx r rs)
  unfolding lowest
  lowest-NoneLower r [] ord = (here, (is_lower_irrefl (score_of fl ctx r) ord, tt))
  lowest-NoneLower r (x ∷ rs) ord =
      elim (Bool-cases (is_lower fl (score_of fl ctx x) (score_of fl ctx r))) [
        | inl b ↦
            let (m, a) = lowest-NoneLower x rs ord in
            let w = lowest fl ctx x rs in
            subst (IsLowest (r ∷ x ∷ rs)) (lowest-cons true r x rs b) (
              there m,
              (
                is_lower_trans (score_of fl ctx r) (score_of fl ctx x) (score_of fl ctx w) ord
                    (is_lower_asym (score_of fl ctx x) (score_of fl ctx r) ord b) a.0,
                a,
              ),
            )
        | inr b ↦
            let (m, a) = lowest-NoneLower r rs ord in
            let w = lowest fl ctx r rs in
            subst (IsLowest (r ∷ x ∷ rs)) (lowest-cons false r x rs b) (
              In-skip x m,
              (
                a.0,
                (
                  is_lower_trans (score_of fl ctx x) (score_of fl ctx r) (score_of fl ctx w) ord b
                      a.0,
                  a.1,
                ),
              ),
            )
      ]
