-- ===== src/ChipTune/Rounds/Induction.antt =====
-- Invariants of the loop of Phase 3.
use antminer_chip_tuner.Floats.{Floats}
use antminer_chip_tuner.Prelude.{
  ◌≡◌, ◌≢◌, refl, sym, ◌∙◌, true, false, some, List, [], ◌∷◌, arith, ltb, ◌&&◌, subst, Bool-cases,
  some_eq, ◌⊎◌, inl, inr,
}
use antminer_chip_tuner.ChipTune.Rounds.{
  RoundConfig, Phase3, Pass, Next, continue, break, pass, finish, profile,
}

abbrev pub state : Next → Phase3
state (continue s) = s
state (break s) = s

pub Next-cases : (n : Next) → ((s : Phase3) × (n ≡ continue s)) ⊎ ((s : Phase3) × (n ≡ break s))
Next-cases (continue s) = inl (s, refl)
Next-cases (break s) = inr (s, refl)

module _ (fl : Floats) (cfg : RoundConfig fl) (baseline : List (List fl.Num)) where
  -- How a loop that is entered for one more pass goes on.
  pub profile_step :
      (p : Pass fl) (ps : List (Pass fl)) (s : Phase3)
      → (s.running && ltb s.profiling_round cfg.max_rounds) ≡ true
      → (((s' : Phase3) × (pass fl cfg baseline p s ≡ continue s')
            × (profile fl cfg baseline (p ∷ ps) s ≡ profile fl cfg baseline ps s'))
          ⊎ ((s' : Phase3) × (pass fl cfg baseline p s ≡ break s')
              × (profile fl cfg baseline (p ∷ ps) s ≡ some (finish s'))))
  unfolding profile
  profile_step p ps s c = elim (Next-cases (pass fl cfg baseline p s)) [
    | inl (s', e) ↦ inl (s', e, rw (c, e))
    | inr (s', e) ↦ inr (s', e, rw (c, e))
  ]

  pub profile_over :
      (ps : List (Pass fl)) (s : Phase3)
      → (s.running && ltb s.profiling_round cfg.max_rounds) ≡ false
      → profile fl cfg baseline ps s ≡ some (finish s)
  unfolding profile
  profile_over [] s c = rw c
  profile_over (p ∷ ps) s c = rw c

  pub profile_waits :
      (s : Phase3) {r : Phase3}
      → (s.running && ltb s.profiling_round cfg.max_rounds) ≡ true
      → profile fl cfg baseline [] s ≢ some r
  unfolding profile
  profile_waits s c e = ground arith

  -- A predicate that every pass and the end keep holds when the loop has ended.
  module _ {ℓ} (P : Phase3 → Type ℓ)
      (keep : (p : Pass fl) (s : Phase3) → P s → P (state (pass fl cfg baseline p s)))
      (end : (s : Phase3) → P s → P (finish s)) where
    pub profile_keeps :
        (ps : List (Pass fl)) (s : Phase3) {r : Phase3}
        → P s
        → profile fl cfg baseline ps s ≡ some r
        → P r
    profile_keeps [] s h e = elim (Bool-cases (s.running && ltb s.profiling_round cfg.max_rounds)) [
      | inr c ↦ subst P (some_eq (sym (profile_over [] s c) ∙ e)) (end s h)
      | inl c ↦ absurd (profile_waits s c e)
    ]
    profile_keeps (p ∷ ps) s h e =
        elim (Bool-cases (s.running && ltb s.profiling_round cfg.max_rounds)) [
          | inr c ↦ subst P (some_eq (sym (profile_over (p ∷ ps) s c) ∙ e)) (end s h)
          | inl c ↦ elim (profile_step p ps s c) [
            | inl (s', n, q) ↦
                profile_keeps ps s' (subst (λ n. P (state n)) n (keep p s h)) (sym q ∙ e)
            | inr (s', n, q) ↦
                subst P (some_eq (sym q ∙ e)) (end s' (subst (λ n. P (state n)) n (keep p s h)))
          ]
        ]
