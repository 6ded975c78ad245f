-- ===== src/ChipTune/Rounds/Still.antt =====
-- What the streak of Phase 3 counts: rounds in which no chip was moved.
use antminer_chip_tuner.Floats.{Floats}
use antminer_chip_tuner.Prelude.{
  ℕ, zero, suc, ◌≤◌, ◌<◌, ◌≡◌, sym, ◌∙◌, Bool, true, false, some, List, [], ◌∷◌, arith, ltb, ◌&&◌,
  ◌==◌, ◌+◌, leb, Bool-cases, some_eq, inl, inr, if◌then◌else◌,
}
use antminer_chip_tuner.ChipTune.Chips.{Chips}
use antminer_chip_tuner.ChipTune.Rounds.{
  RoundConfig, Phase3, Sample, scores, thermal_retry, restart_round, no_scores, Pass, continue,
  break, settle, board_verdicts, visit_boards, after_sample, heated, pass, finish, profile,
}
use antminer_chip_tuner.ChipTune.Rounds.Induction.{state, profile_step, profile_over, profile_waits}
use antminer_chip_tuner.ChipTune.Rounds.Ending.{pass_break}

-- The first `n` numbers are there and are 0.
abbrev pub IsQuiet : ℕ → List ℕ → Type 0
IsQuiet zero ms = Unit
IsQuiet (suc n) [] = ⊥
IsQuiet (suc n) (m ∷ ms) = (m ≡ 0) × IsQuiet n ms

IsQuiet-fewer : (k n : ℕ) (ms : List ℕ) → k ≤ n → IsQuiet n ms → IsQuiet k ms
IsQuiet-fewer zero n ms h q = tt
IsQuiet-fewer (suc k) zero ms h q = absurd (omega (arith, h))
IsQuiet-fewer (suc k) (suc n) [] h q = q
IsQuiet-fewer (suc k) (suc n) (m ∷ ms) h q = (q.0, IsQuiet-fewer k n ms (omega (arith, h)) q.1)

IsQuiet-more : (n : ℕ) (ms : List ℕ) (m : ℕ) → m ≡ 0 → IsQuiet n ms → IsQuiet (n + 1) (m ∷ ms)
IsQuiet-more n ms m e q = ground (arith, e, q)

settle-IsQuiet :
    (target : ℕ) (s : Phase3) (boards : List Chips) (m : ℕ) (ms : List ℕ)
    → IsQuiet s.stillness_streak ms
    → IsQuiet (state (settle target s (boards, m))).stillness_streak (m ∷ ms)
unfolding settle
settle-IsQuiet target s boards m ms q = elim (Bool-cases (m == 0)) [
  | inr e ↦ rw e tt
  | inl e ↦ elim (Bool-cases (leb target (s.stillness_streak + 1))) [
    | inl l ↦ rw (e, l) (IsQuiet-more s.stillness_streak ms m (ground arith) q)
    | inr l ↦ rw (e, l) (IsQuiet-more s.stillness_streak ms m (ground arith) q)
  ]
]

module _ (fl : Floats) (cfg : RoundConfig fl) (baseline : List (List fl.Num)) where
  -- The number of moves of a round, put before those of the earlier rounds; a pass without scores is
  -- no round.
  abbrev pub note : Sample fl → Bool → Phase3 → List ℕ → List ℕ
  note (scores health) true s ms =
      (visit_boards cfg.lim (board_verdicts fl cfg health baseline) 0 s.boards 0).1 ∷ ms
  note (scores health) false s ms = ms
  note (thermal_retry em) sampled s ms = ms
  note restart_round sampled s ms = ms
  note no_scores sampled s ms = ms

  abbrev pub note_pass : Pass fl → Phase3 → List ℕ → List ℕ
  note_pass p s ms = if p.stabilized then note p.sample p.sampled (heated fl cfg p s) ms else ms

  -- The moves of every round of the loop, the last round first, before those of earlier rounds.
  unfoldable pub moves : List (Pass fl) → Phase3 → List ℕ → List ℕ
  moves [] s ms = ms
  moves (p ∷ ps) s ms =
      if s.running && ltb s.profiling_round cfg.max_rounds
      then elim (pass fl cfg baseline p s) [
        | continue s' ↦ moves ps s' (note_pass p s ms)
        | break s' ↦ note_pass p s ms
      ]
      else ms

  after_sample-IsQuiet :
      (x : Sample fl) (sampled : Bool) (s : Phase3) (ms : List ℕ)
      → IsQuiet s.stillness_streak ms
      → IsQuiet
          (state (after_sample fl cfg baseline x sampled s)).stillness_streak
          (note x sampled s ms)
  unfolding after_sample
  after_sample-IsQuiet (scores health) true s ms q =
      let (boards, m) = visit_boards cfg.lim (board_verdicts fl cfg health baseline) 0 s.boards 0 in
      settle-IsQuiet cfg.streak_target s boards m ms q
  after_sample-IsQuiet (scores health) false s ms q = q
  after_sample-IsQuiet (thermal_retry em) sampled s ms q = q
  after_sample-IsQuiet restart_round sampled s ms q = q
  after_sample-IsQuiet no_scores sampled s ms q = q

  pass-IsQuiet :
      (p : Pass fl) (s : Phase3) (ms : List ℕ)
      → IsQuiet s.stillness_streak ms
      → IsQuiet (state (pass fl cfg baseline p s)).stillness_streak (note_pass p s ms)
  unfolding pass
  pass-IsQuiet p s ms q = elim (Bool-cases p.stabilized) [
    | inl c ↦
        simp c (after_sample-IsQuiet p.sample p.sampled (heated fl cfg p s) ms (unfold heated in q))
    | inr c ↦ simp c (unfold heated in q)
  ]

  -- The loop does not end by its test with the engine running and rounds to spare.
  not_over :
      (s : Phase3) {r : Phase3}
      → (s.running && ltb s.profiling_round cfg.max_rounds) ≡ false
      → finish s ≡ r
      → r.running ≡ true
      → r.profiling_round < cfg.max_rounds
      → ⊥
  unfolding finish
  not_over s c e q w = ground arith

  running-finish : (s : Phase3) {r : Phase3} → finish s ≡ r → r.running ≡ true → s.running ≡ true
  unfolding finish
  running-finish s e q = ground arith

  -- If Phase 3 ends with the engine running and rounds to spare, then each of the last
  -- CHIP_TUNE_STILLNESS_STREAK rounds counted no move, retries and restarts in between set aside. A
  -- resumed search may count rounds before this run, if those of the saved streak counted none.
  pub profile_still :
      (ps : List (Pass fl)) (s : Phase3) (before : List ℕ) {r : Phase3}
      → IsQuiet s.stillness_streak before
      → profile fl cfg baseline ps s ≡ some r
      → r.running ≡ true
      → r.profiling_round < cfg.max_rounds
      → IsQuiet cfg.streak_target (moves ps s before)
  unfolding moves
  profile_still [] s before b e q w =
      elim (Bool-cases (s.running && ltb s.profiling_round cfg.max_rounds)) [
        | inr c ↦
            absurd (not_over s c (some_eq (sym (profile_over fl cfg baseline [] s c) ∙ e)) q w)
        | inl c ↦ absurd (profile_waits fl cfg baseline s c e)
      ]
  profile_still (p ∷ ps) s before {r} b e q w =
      let quiet = pass-IsQuiet p s before b in
      elim (Bool-cases (s.running && ltb s.profiling_round cfg.max_rounds)) [
        | inr c ↦
            absurd
              (not_over s c (some_eq (sym (profile_over fl cfg baseline (p ∷ ps) s c) ∙ e)) q w)
        | inl c ↦ elim (profile_step fl cfg baseline p ps s c) [
          | inl (s', n, k) ↦
              rw (c, n) (profile_still ps s' (note_pass p s before) (rw n at quiet) (sym k ∙ e) q w)
          | inr (s', n, k) ↦
              let stops = running-finish s' (some_eq (sym k ∙ e)) q in
              rw (c, n)
                (IsQuiet-fewer cfg.streak_target s'.stillness_streak (note_pass p s before)
                  (pass_break fl cfg baseline p s s' n stops) (rw n at quiet))
        ]
      ]
