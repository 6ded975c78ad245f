-- ===== src/Profit/AutoApply/Counted.antt =====
-- Every miner of the preview is counted once.
use antminer_chip_tuner.Prelude.{
  ℕ, ◌+◌, String, ◌≡◌, refl, Option, none, some, List, [], ◌∷◌, arith, length, Bool-cases, inl, inr,
  ◌=ˢ◌, ap, ◌∙◌, sym,
}
use antminer_chip_tuner.Config.{Value}
use antminer_chip_tuner.Profit.AutoApply.{
  Proposal, Miner, Reply, applied, refused, raised, Preview, miners, Call, Report, after_reply,
  call_of, apply_at, apply_proposal, apply_miner, apply_miners, after_preview,
  apply_profit_recompute,
}

module _ (int_of : Option Value → Option ℕ) (int_error : Option Value → String)
    (act : Call → Reply) where
  abbrev total : Report → ℕ
  total r = r.applied + r.skipped + length r.failures

  total-after_reply :
      (ip : String) (o : Reply) (rest : Report)
      → total (after_reply int_of int_error act ip o rest) ≡ total rest + 1
  total-after_reply ip applied rest = omega arith
  total-after_reply ip (refused e) rest = omega arith
  total-after_reply ip (raised e) rest = omega arith

  after_reply_calls :
      (ip : String) (o : Reply) (rest : Report)
      → (after_reply int_of int_error act ip o rest).calls ≡ rest.calls
  after_reply_calls ip applied rest = refl
  after_reply_calls ip (refused e) rest = refl
  after_reply_calls ip (raised e) rest = refl

  total-apply_at :
      (ip : String) (p : Proposal) (v : Option ℕ) (rest : Report)
      → total (apply_at int_of int_error act ip p v rest) ≡ total rest + 1
  total-apply_at ip p none rest = omega arith
  total-apply_at ip p (some v) rest =
      total-after_reply ip (act (call_of int_of int_error act ip p v)) rest

  total-apply_proposal :
      (ip : String) (p : Proposal) (rest : Report)
      → total (apply_proposal int_of int_error act ip p rest) ≡ total rest + 1
  unfolding apply_proposal
  total-apply_proposal ip p rest = elim (Bool-cases (p.action =ˢ "none")) [
    | inl b ↦ rw b (omega arith)
    | inr b ↦ rw b (total-apply_at ip p (int_of p.voltage_mv) rest)
  ]

  total-apply_miner :
      (ip : Option String) (p : Option Proposal) (rest : Report)
      → total (apply_miner int_of int_error act ip p rest) ≡ total rest + 1
  total-apply_miner none p rest = omega arith
  total-apply_miner (some ip) none rest = omega arith
  total-apply_miner (some ip) (some p) rest = total-apply_proposal ip p rest

  total-apply_miners : (ms : List Miner) → total (apply_miners int_of int_error act ms) ≡ length ms
  unfolding apply_miners
  total-apply_miners [] = refl
  total-apply_miners (m ∷ ms) = omega (
    arith,
    total-apply_miners ms,
    total-apply_miner m.ip m.proposed (apply_miners int_of int_error act ms),
  )

module _ (int_of : Option Value → Option ℕ) (int_error : Option Value → String) where
  module _ (act other : Call → Reply) where
    apply_at_same :
        (ip : String) (p : Proposal) (v : Option ℕ) (r s : Report)
        → r.calls ≡ s.calls
        → (apply_at int_of int_error act ip p v r).calls
          ≡ (apply_at int_of int_error other ip p v s).calls
    apply_at_same ip p none r s h = h
    apply_at_same ip p (some v) r s h =
        ap (λ cs. call_of int_of int_error act ip p v ∷ cs)
          (after_reply_calls int_of int_error act ip (act (call_of int_of int_error act ip p v)) r
            ∙ h
            ∙ sym (
                after_reply_calls int_of int_error other ip
                  (other (call_of int_of int_error act ip p v)) s))

    apply_miner_same :
        (ip : Option String) (p : Option Proposal) (r s : Report)
        → r.calls ≡ s.calls
        → (apply_miner int_of int_error act ip p r).calls
          ≡ (apply_miner int_of int_error other ip p s).calls
    unfolding apply_proposal
    apply_miner_same none p r s h = h
    apply_miner_same (some ip) none r s h = h
    apply_miner_same (some ip) (some p) r s h = elim (Bool-cases (p.action =ˢ "none")) [
      | inl b ↦ rw b h
      | inr b ↦ rw b (apply_at_same ip p (int_of p.voltage_mv) r s h)
    ]

    apply_miners_same :
        (ms : List Miner)
        → (apply_miners int_of int_error act ms).calls
          ≡ (apply_miners int_of int_error other ms).calls
    unfolding apply_miners
    apply_miners_same [] = refl
    apply_miners_same (m ∷ ms) =
        apply_miner_same m.ip m.proposed (apply_miners int_of int_error act ms)
          (apply_miners int_of int_error other ms) (apply_miners_same ms)

    -- When the preview of the addresses asked for gives its miners, each miner is counted exactly
    -- once, as applied, skipped or failed; and the calls of apply_profit_action are the same
    -- whatever each of them replies or raises, so that no miner's failure keeps another from its
    -- turn.
    pub apply_profit_recompute_counts :
        (preview : List String → Preview) (ip : String) (ips : List String) (ms : List Miner)
        → preview (ip ∷ ips) ≡ miners ms
        → let r = apply_profit_recompute int_of int_error act preview (ip ∷ ips) in
          (r.applied + r.skipped + length r.failures ≡ length ms)
          × (r.calls ≡ (apply_profit_recompute int_of int_error other preview (ip ∷ ips)).calls)
    unfolding apply_profit_recompute after_preview
    apply_profit_recompute_counts preview ip ips ms h =
        rw h (total-apply_miners int_of int_error act ms, apply_miners_same ms)
